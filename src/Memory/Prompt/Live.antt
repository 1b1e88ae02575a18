-- ===== src/Memory/Prompt/Live.antt =====
-- What FormatForPrompt lets into the prompt (app/internal/memory/session_memory.go,
-- global_memory.go).
use shell_agent_v.Base.{
  ℕ, zero, suc, ◌+◌, ◌≤◌, ◌<◌, ◌≡◌, refl, ap, Bool, true, false, not, ◌||◌, List, [], ◌∷◌, ◌++◌,
  length, ltb, if◌then◌else◌, All, All-append, arith, inl, inr, Bool-cases, length-append,
}
use shell_agent_v.Text.{Text, encode, encode_rune, concat, runes}
use shell_agent_v.Text.Laws.{All-trim_space}
use shell_agent_v.Memory.Lifecycle.{Lifecycle, fresh, active, dormant, archived, other}
use shell_agent_v.Memory.Store.{Entry, Store}
use shell_agent_v.Memory.Prompt.{
  sanitize_runes, sanitize_memory_text, fit_lines, join_lines, is_dead, render_entries,
  format_for_prompt,
}

abbrev Visible : ℕ → Type 0
Visible r = 0x20 ≤ r

sanitize_runes-Visible :
    (max_len kept : ℕ) (rs : List ℕ) → All Visible (sanitize_runes max_len kept rs)
unfolding sanitize_runes
sanitize_runes-Visible max_len kept [] = tt
sanitize_runes-Visible max_len kept (r ∷ rs) =
    ground
      (arith, sanitize_runes-Visible max_len (suc kept) rs, sanitize_runes-Visible max_len kept rs)

encode_rune-Visible : (r : ℕ) → Visible r → All Visible (encode_rune r)
unfolding encode_rune
encode_rune-Visible r h = ground arith

encode-Visible : (rs : List ℕ) → All Visible rs → All Visible (encode rs)
unfolding encode
encode-Visible [] h = tt
encode-Visible (r ∷ rs) (p, h) =
    All-append Visible (encode_rune r) (encode rs) (encode_rune-Visible r p) (encode-Visible rs h)

-- sanitizeMemoryText leaves no byte below the space: no line break or other control character of a
-- fact reaches the prompt.
pub sanitize_memory_text-visible :
    (s : Text) (max_len : ℕ) → All (λ b. 0x20 ≤ b) (sanitize_memory_text s max_len)
unfolding sanitize_memory_text
sanitize_memory_text-visible s max_len =
    encode-Visible _ (All-trim_space Visible _ (sanitize_runes-Visible max_len 0 (runes s)))

abbrev pub line_breaks : ℕ → List ℕ → List ℕ
line_breaks zero rs = rs
line_breaks (suc n) rs = 0x0A ∷ line_breaks n rs

length-after_breaks :
    (max_len kept n : ℕ) → length (sanitize_runes max_len kept (line_breaks n (b'b' ∷ []))) ≡ n + 1
unfolding sanitize_runes
length-after_breaks max_len kept zero = ground arith
length-after_breaks max_len kept (suc n) = ground (arith, length-after_breaks max_len (suc kept) n)

-- The cap of sanitizeMemoryText does not hold for line breaks: of the text that has any number n of
-- them between two letters, n + 2 runes are kept, whatever the cap above one is.
pub line_breaks_pass_cap :
    (max_len n : ℕ)
    → 1 < max_len
    → length (sanitize_runes max_len 0 (b'a' ∷ line_breaks n (b'b' ∷ []))) ≡ n + 2
unfolding sanitize_runes
line_breaks_pass_cap max_len n h = ground (arith, length-after_breaks max_len 1 n)

fit_lines_used :
    (budget : ℕ) (ls : List Text)
    → length (concat (fit_lines budget ls).0) ≡ (fit_lines budget ls).1
unfolding fit_lines concat
fit_lines_used budget [] = refl
fit_lines_used budget (l ∷ ls) =
    ground (arith, fit_lines_used budget ls, length-append l (concat (fit_lines budget ls).0))

fit_lines_bound : (budget : ℕ) (ls : List Text) → (fit_lines budget ls).1 ≤ budget
unfolding fit_lines
fit_lines_bound budget [] = omega arith
fit_lines_bound budget (l ∷ ls) = ground (arith, fit_lines_bound budget ls)

fit_lines_all :
    (budget : ℕ) (ls : List Text) → (fit_lines budget ls).2 ≡ false → (fit_lines budget ls).0 ≡ ls
unfolding fit_lines
fit_lines_all budget [] h = refl
fit_lines_all budget (l ∷ ls) h = ground (arith, fit_lines_all budget ls)

fit_lines_suffix :
    (budget : ℕ) (ls : List Text) → (elided : List Text) × (ls ≡ elided ++ (fit_lines budget ls).0)
unfolding fit_lines
fit_lines_suffix budget [] = ([], refl)
fit_lines_suffix budget (l ∷ ls) =
    let (elided, e) = fit_lines_suffix budget ls in
    elim (Bool-cases ((fit_lines budget ls).2 || ltb budget ((fit_lines budget ls).1 + length l))) [
      | inl h ↦ (l ∷ elided, ground (arith, h, e))
      | inr h ↦ ([], ground (arith, h, fit_lines_all budget ls))
    ]

-- The lines that fit are the last ones of the list, and together no longer than the budget.
pub fit_lines_lem :
    (budget : ℕ) (ls : List Text)
    → (elided : List Text) × (ls ≡ elided ++ (fit_lines budget ls).0)
      × (length (concat (fit_lines budget ls).0) ≤ budget)
fit_lines_lem budget ls =
    let (elided, e) = fit_lines_suffix budget ls in
    (elided, e, omega (arith, fit_lines_used budget ls, fit_lines_bound budget ls))

-- The states in which an entry is in use, spelled out.
unfoldable pub is_live : Lifecycle → Bool
is_live fresh = true
is_live active = true
is_live dormant = false
is_live archived = false
is_live (other t) = true

is_dead-is_live : (l : Lifecycle) → is_dead l ≡ not (is_live l)
unfolding is_live
is_dead-is_live fresh = refl
is_dead-is_live active = refl
is_dead-is_live dormant = refl
is_dead-is_live archived = refl
is_dead-is_live (other t) = refl

module _ {F X : Type 0} (date : ℕ → Text) (tag : Text → Text) (what : Text) where
  pub live_entries : List (Entry F X) → List (Entry F X)
  live_entries [] = []
  live_entries (e ∷ es) = let rest = live_entries es in if is_live e.state then e ∷ rest else rest

  render_live :
      (es : List (Entry F X))
      → render_entries date tag what (live_entries es) ≡ render_entries date tag what es
  unfolding render_entries live_entries
  render_live [] = refl
  render_live (e ∷ es) = elim (Bool-cases (is_dead e.state)) [
    | inl h ↦ ground (arith, h, is_dead-is_live e.state, render_live es)
    | inr h ↦ ground (arith, h, is_dead-is_live e.state, render_live es)
  ]

  -- The entries of a store in the states dormant and archived do not change what is put into the
  -- prompt.
  pub format_for_prompt_live :
      (s : Store F X)
      → format_for_prompt date tag what (record s { entries = live_entries s.entries })
        ≡ format_for_prompt date tag what s
  unfolding format_for_prompt
  format_for_prompt_live s = ap (join_lines what) (render_live s.entries)
