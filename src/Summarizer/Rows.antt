-- ===== src/Summarizer/Rows.antt =====
-- The rows that a window of the analysis takes (app/internal/analysis/summarizer.go).
use shell_agent_v.Base.{
  ℕ, zero, suc, ◌+◌, ◌-◌, ◌≤◌, ◌<◌, ◌≡◌, refl, sym, ap, ◌∙◌, List, [], ◌∷◌, length, leb, take, drop,
  min, get_elem?, arith, inl, inr, Bool-cases,
}
use shell_agent_v.Text.{Text}
use shell_agent_v.Summarizer.{window_rows}

-- The rows of a window: those from an offset on, as many as its size.
abbrev pub rows_at : ℕ → ℕ → List Text → List Text
rows_at offset size rows = take size (drop offset rows)

take_all : (n : ℕ) (rows : List Text) → length rows ≤ n → take n rows ≡ rows
take_all zero [] h = refl
take_all zero (r ∷ rows) h = absurd (omega (arith, h))
take_all (suc n) [] h = refl
take_all (suc n) (r ∷ rows) h = ap (λ x. r ∷ x) (take_all n rows (omega (arith, h)))

take-min : (n : ℕ) (rows : List Text) → take (min n (length rows)) rows ≡ take n rows
take-min n rows = elim (Bool-cases (leb n (length rows))) [
  | inl e ↦ let q : (min n (length rows) ≡ n) = ground (arith, e) in ap (λ x. take x rows) q
  | inr e ↦
      let q : (min n (length rows) ≡ length rows) = ground (arith, e) in
      ap (λ x. take x rows) q
      ∙ take_all (length rows) rows (omega arith)
      ∙ sym (take_all n rows (ground (arith, e)))
]

take_nil : (n : ℕ) → take {A = Text} n [] ≡ []
take_nil zero = refl
take_nil (suc n) = refl

drop-take : (o n : ℕ) (rows : List Text) → drop o (take (o + n) rows) ≡ take n (drop o rows)
drop-take zero n rows = let q : (0 + n ≡ n) = omega arith in ap (λ x. take x rows) q
drop-take (suc o) n [] = ap (drop (suc o)) (take_nil (suc o + n)) ∙ sym (take_nil n)
drop-take (suc o) n (r ∷ rows) =
    let q : (suc o + n ≡ suc (o + n)) = omega arith in
    ap (λ x. drop (suc o) (take x (r ∷ rows))) q ∙ drop-take o n rows

pub window_rows-rows_at : (o n : ℕ) (rows : List Text) → window_rows o n rows ≡ rows_at o n rows
unfolding window_rows
window_rows-rows_at o n rows = ap (drop o) (take-min (o + n) rows) ∙ drop-take o n rows

get_elem?-take : (n j : ℕ) (rows : List Text) → j < n → get_elem? (take n rows) j ≡ get_elem? rows j
get_elem?-take zero j rows h = absurd (omega (arith, h))
get_elem?-take (suc n) j [] h = refl
get_elem?-take (suc n) zero (r ∷ rows) h = refl
get_elem?-take (suc n) (suc j) (r ∷ rows) h = get_elem?-take n j rows (omega (arith, h))

get_elem?-drop : (o j : ℕ) (rows : List Text) → get_elem? (drop o rows) j ≡ get_elem? rows (o + j)
get_elem?-drop zero j rows = let q : (j ≡ 0 + j) = omega arith in ap (λ x. get_elem? rows x) q
get_elem?-drop (suc o) j [] = refl
get_elem?-drop (suc o) j (r ∷ rows) =
    let q : (suc (o + j) ≡ suc o + j) = omega arith in
    get_elem?-drop o j rows ∙ ap (λ x. get_elem? (r ∷ rows) x) q

-- A row that is in a window stands there where it should.
pub get_elem?-rows_at :
    (o n i : ℕ) (rows : List Text)
    → o ≤ i
    → i < o + n
    → get_elem? (rows_at o n rows) (i - o) ≡ get_elem? rows i
get_elem?-rows_at o n i rows h k =
    let q : (o + (i - o) ≡ i) = omega (arith, h) in
    get_elem?-take n (i - o) (drop o rows) (omega (arith, h, k))
    ∙ get_elem?-drop o (i - o) rows
    ∙ ap (λ x. get_elem? rows x) q
