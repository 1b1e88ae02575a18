-- ===== src/Chunker.antt =====
-- The splitting of a document into chunks (app/internal/analysis/textchunker.go).
pub mod Cover
use shell_agent_v.Base.{
  ℕ, zero, suc, ◌+◌, ◌-◌, Bool, true, false, not, ◌&&◌, ◌||◌, Option, none, some, List, [], ◌∷◌,
  ◌++◌, length, take, drop, map, ltb, leb, ◌==◌, if◌then◌else◌, max,
}
use shell_agent_v.Text.{Text, has_prefix, is_continuation}
use shell_agent_v.Memory.Floats.{Platform, nought, one}
use shell_agent_v.Context.Render.{estimate_tokens}

-- A number that is not positive counts as 0.
pub record ChunkerConfig (F : Type 0) : Type 0 where
  pub target_tokens : ℕ
  pub overlap_ratio : F
  pub max_line_width : ℕ
  pub max_chunks : ℕ

abbrev pub or_default : ℕ → ℕ → ℕ
or_default d n = if n == 0 then d else n

-- strings.Split at a line break.
unfoldable pub split_lines : Text → List Text
split_lines [] = [] ∷ []
split_lines (c ∷ s) = elim (split_lines s) [
  | [] ↦ (c ∷ []) ∷ []
  | l ∷ ls ↦ if c == 0x0A then [] ∷ l ∷ ls else (c ∷ l) ∷ ls
]

abbrev pub starts_rune : Text → Bool
starts_rune [] = true
starts_rune (b ∷ s) = not (is_continuation b)

-- The last place up to a width where a rune starts, or 0.
unfoldable pub rune_cut : Text → ℕ → ℕ
unfolding is_continuation
rune_cut line zero = 0
rune_cut line (suc cut) = if starts_rune (drop (suc cut) line) then suc cut else rune_cut line cut

-- The segments of one line; every round takes at least one byte, so its length is fuel enough.
unfoldable pub break_line : ℕ → ℕ → Text → List Text
unfolding rune_cut
break_line zero width line = line ∷ []
break_line (suc fuel) width line =
    let found = rune_cut line width in
    let at = if found == 0 then width else found in
    let rest = break_line fuel width (drop at line) in
    if ltb width (length line)
    then take at line ∷ rest
    else if length line == 0
    then []
    else line ∷ []

unfoldable pub break_lines : ℕ → List Text → List Text
unfolding break_line
break_lines width [] = []
break_lines width (l ∷ ls) =
    (if leb (length l) width then l ∷ [] else break_line (length l) width l) ++ break_lines width ls

abbrev pub skip_hashes : Text → ℕ × Text
skip_hashes [] = (0, [])
skip_hashes (c ∷ s) =
    let (n, rest) = skip_hashes s in if c == b'#' then (suc n, rest) else (0, c ∷ s)

unfoldable pub is_markdown_heading : Text → Bool
unfolding has_prefix
is_markdown_heading line =
    let (hashes, rest) = skip_hashes line in
    leb 1 hashes && leb hashes 3 && has_prefix rest (b' ' ∷ [])

-- The loop from the end: the index of the last heading among the last `lookback` lines but the
-- first line, or the length.
unfoldable pub last_heading : ℕ → ℕ → List Text → ℕ
unfolding is_markdown_heading
last_heading low i [] = i
last_heading low i (l ∷ ls) =
    let later = last_heading low (suc i) ls in
    if later == i + length (l ∷ ls) && leb low i && leb 1 i && is_markdown_heading l
    then i
    else later

-- The tail of the lines that fits, and whether the loop has stopped.
unfoldable pub overlap_tail : ℕ → List Text → List Text × ℕ × Bool
overlap_tail budget [] = ([], 0, false)
overlap_tail budget (l ∷ ls) =
    let (kept, used, stopped) = overlap_tail budget ls in
    if stopped || ltb budget (used + estimate_tokens l)
    then (kept, used, true)
    else (l ∷ kept, used + estimate_tokens l, false)

unfoldable pub sum_tokens : List Text → ℕ
sum_tokens [] = 0
sum_tokens (l ∷ ls) = estimate_tokens l + sum_tokens ls

unfoldable pub join : List Text → Text
join [] = []
join (l ∷ []) = l
join (l ∷ m ∷ ls) = l ++ (0x0A ∷ join (m ∷ ls))

module _ {F : Type 0} (p : Platform F) (ratio : F) (target max_chunks : ℕ) where
  abbrev pub overlap_tokens : ℕ
  overlap_tokens = max (p.scale target ratio) 1

  unfoldable pub choose_close_index : List Text → ℕ
  unfolding last_heading
  choose_close_index curr = last_heading (length curr - max (p.scale (length curr) ratio) 1) 0 curr

  -- The lines that open the next chunk.
  unfoldable pub carried : List Text → List Text
  unfolding choose_close_index overlap_tail
  carried curr =
      let at = choose_close_index curr in
      drop at curr ++ (overlap_tail overlap_tokens (take at curr)).0

  -- The loop over the lines: the chunks so far, the current one and its tokens. `none` is the error
  -- of too many chunks.
  unfoldable pub chunk_lines :
      List (List Text) → List Text → ℕ → List Text → Option (List (List Text))
  chunk_lines chunks [] tokens [] = some chunks
  chunk_lines chunks (c ∷ curr) tokens [] =
      if ltb max_chunks (length (chunks ++ (c ∷ curr) ∷ []))
      then none
      else some (chunks ++ (c ∷ curr) ∷ [])
  chunk_lines chunks curr tokens (line ∷ lines) =
      let closes = ltb target (tokens + estimate_tokens line) && not (length curr == 0) in
      let chunks' = if closes then chunks ++ take (choose_close_index curr) curr ∷ [] else chunks in
      let kept = if closes then carried curr else curr in
      let rest =
        chunk_lines chunks' (kept ++ line ∷ [])
          ((if closes then sum_tokens (carried curr) else tokens) + estimate_tokens line) lines in
      if closes && ltb max_chunks (length chunks') then none else rest

abbrev pub ratio_of : {F : Type 0} → Platform F → F → F
ratio_of p r = if p.lt r (nought p) || p.le (one p) r then p.ratio 1 10 else r

unfoldable pub chunk_text : {F : Type 0} → Platform F → Text → ChunkerConfig F → Option (List Text)
unfolding chunk_lines split_lines break_lines join
chunk_text p [] cfg = some []
chunk_text p (c ∷ content) cfg =
    elim (chunk_lines p (ratio_of p cfg.overlap_ratio) (or_default 2000 cfg.target_tokens)
      (or_default 1000 cfg.max_chunks) [] [] 0
      (break_lines (or_default 10000 cfg.max_line_width) (split_lines (c ∷ content)))) [
        | none ↦ none
        | some chunks ↦ some (map join chunks)
      ]
