-- ===== src/Text/Laws.antt =====
-- Laws of the functions on texts.
use shell_agent_v.Base.{ℕ, ◌≡◌, ◌↔◌, refl, true, false, List, [], ◌∷◌, All, arith, if◌then◌else◌}
use shell_agent_v.Text.{Text, ◌=ᵗ◌, trim_left, trim_right, trim_space, is_space}

pub text_eq→eq : (s t : Text) → (s =ᵗ t) ≡ true → s ≡ t
unfolding ◌=ᵗ◌
text_eq→eq [] [] h = refl
text_eq→eq [] (d ∷ t) h = ground arith
text_eq→eq (c ∷ s) [] h = ground arith
text_eq→eq (c ∷ s) (d ∷ t) h = ground (arith, text_eq→eq s t)

pub text_eq_refl : (s : Text) → (s =ᵗ s) ≡ true
unfolding ◌=ᵗ◌
text_eq_refl [] = refl
text_eq_refl (c ∷ s) = ground (arith, text_eq_refl s)

pub eq→text_eq : (s t : Text) → s ≡ t → (s =ᵗ t) ≡ true
eq→text_eq s t e = rw e (text_eq_refl t)

pub text_eq_iff : (s t : Text) → ((s =ᵗ t) ≡ true) ↔ (s ≡ t)
text_eq_iff s t = (text_eq→eq s t, eq→text_eq s t)

-- Trimming keeps a property of every rune, and lengthens nothing.
module _ {κ} (P : ℕ → Type κ) where
  All-trim_left : (rs : List ℕ) → All P rs → All P (trim_left rs)
  unfolding trim_left
  All-trim_left [] h = h
  All-trim_left (r ∷ rs) (p, h) =
      elim (is_space r) as (λ b. All P (if b then trim_left rs else r ∷ rs)) [
        | true ↦ All-trim_left rs h
        | false ↦ (p, h)
      ]

  -- What `trim_right` makes of a rune and the trimmed rest.
  keep_right : ℕ → List ℕ → List ℕ
  keep_right r rest = elim rest [ [] ↦ if is_space r then [] else r ∷ [] | q ∷ qs ↦ r ∷ q ∷ qs ]

  All-keep_right : (r : ℕ) (rest : List ℕ) → P r → All P rest → All P (keep_right r rest)
  unfolding keep_right
  All-keep_right r [] p h = elim (is_space r) as (λ b. All P (if b then [] else r ∷ [])) [
    | true ↦ tt
    | false ↦ (p, tt)
  ]
  All-keep_right r (q ∷ qs) p h = (p, h)

  All-trim_right : (rs : List ℕ) → All P rs → All P (trim_right rs)
  unfolding trim_right keep_right
  All-trim_right [] h = h
  All-trim_right (r ∷ rs) (p, h) = All-keep_right r (trim_right rs) p (All-trim_right rs h)

  pub All-trim_space : (rs : List ℕ) → All P rs → All P (trim_space rs)
  unfolding trim_space
  All-trim_space rs h = All-trim_right (trim_left rs) (All-trim_left rs h)
