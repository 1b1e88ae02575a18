-- ===== src/Examples/ChunkRuns.antt =====
-- Three lines in chunks of two tokens (app/internal/analysis/textchunker.go).
use shell_agent_v.Context.Render.{estimate_tokens}
use shell_agent_v.Base.{◌≤◌, ◌≡◌, refl, true, some, List, [], ◌∷◌, length}
use shell_agent_v.Text.{Text, codes, member}
use shell_agent_v.Chunker.{chunk_lines, sum_tokens, carried}
use shell_agent_v.Chunker.Cover.{in_chunks, chunk_lines_lem}
use shell_agent_v.Examples.Hundredths.{hundredths}

abbrev three_lines : List Text
three_lines = codes "# one" ∷ codes "two a b" ∷ codes "three" ∷ []

-- Every line makes a chunk of its own.
abbrev two_chunks : List (List Text)
two_chunks = (codes "# one" ∷ []) ∷ (codes "two a b" ∷ []) ∷ (codes "three" ∷ []) ∷ []

splits : chunk_lines hundredths 10 2 9 [] [] 0 three_lines ≡ some two_chunks
unfolding chunk_lines estimate_tokens sum_tokens carried
splits = refl

three_is_there : member (codes "three") three_lines ≡ true
unfolding member
three_is_there = refl

line_is_covered : (in_chunks (codes "three") two_chunks ≡ true) × (length two_chunks ≤ 9)
line_is_covered =
    chunk_lines_lem hundredths 10 2 9 three_lines two_chunks (codes "three") splits three_is_there
