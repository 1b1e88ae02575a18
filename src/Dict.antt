-- ===== src/Dict.antt =====
-- Go maps with string keys, as lists of keys with their values, and os files by their names.
use mathlib.Core.Path.{subst}
use shell_agent_v.Base.{
  ◌≡◌, refl, sym, ap, ◌∙◌, false, Option, none, some, List, [], ◌∷◌, if◌then◌else◌, inl, inr,
  Bool-cases,
}
use shell_agent_v.Text.{Text, ◌=ᵗ◌}
use shell_agent_v.Text.Laws.{text_eq→eq, text_eq_refl}

abbrev pub Dict {ℓ} : Type ℓ → Type ℓ
Dict A = List (Text × A)

module _ {ℓ} {A : Type ℓ} where
  unfoldable pub find : Text → Dict A → Option A
  unfolding ◌=ᵗ◌
  find k [] = none
  find k ((j, v) ∷ d) = if j =ᵗ k then some v else find k d

  unfoldable pub put : Text → A → Dict A → Dict A
  unfolding ◌=ᵗ◌
  put k v [] = (k, v) ∷ []
  put k v ((j, w) ∷ d) = if j =ᵗ k then (k, v) ∷ d else (j, w) ∷ put k v d

  unfoldable pub remove : Text → Dict A → Dict A
  unfolding ◌=ᵗ◌
  remove k [] = []
  remove k ((j, w) ∷ d) = if j =ᵗ k then remove k d else (j, w) ∷ remove k d

  pub find-put : (k : Text) (v : A) (d : Dict A) → find k (put k v d) ≡ some v
  unfolding find put
  find-put k v [] = rw (text_eq_refl k) refl
  find-put k v ((j, w) ∷ d) = elim (Bool-cases (j =ᵗ k)) [
    | inl e ↦ rw (e, text_eq_refl k) refl
    | inr e ↦ rw (e, e) (find-put k v d)
  ]

  pub find-put_other :
      (k j : Text) (v : A) (d : Dict A) → (k =ᵗ j) ≡ false → find j (put k v d) ≡ find j d
  unfolding find put
  find-put_other k j v [] h = rw h refl
  find-put_other k j v ((i, w) ∷ d) h = elim (Bool-cases (i =ᵗ k)) [
    | inl e ↦
        let q : ((i =ᵗ j) ≡ false) = ap (λ x. x =ᵗ j) (text_eq→eq i k e) ∙ h in rw (e, h, q) refl
    | inr e ↦ rw (e, find-put_other k j v d h) refl
  ]

  pub find-remove : (k : Text) (d : Dict A) → find k (remove k d) ≡ none
  unfolding find remove
  find-remove k [] = refl
  find-remove k ((j, w) ∷ d) = elim (Bool-cases (j =ᵗ k)) [
    | inl e ↦ rw e (find-remove k d)
    | inr e ↦ rw (e, e) (find-remove k d)
  ]

  pub find-remove_other :
      (k j : Text) (d : Dict A) → (k =ᵗ j) ≡ false → find j (remove k d) ≡ find j d
  unfolding find remove
  find-remove_other k j [] h = refl
  find-remove_other k j ((i, w) ∷ d) h = elim (Bool-cases (i =ᵗ k)) [
    | inl e ↦
        let q : ((i =ᵗ j) ≡ false) = ap (λ x. x =ᵗ j) (text_eq→eq i k e) ∙ h in
        rw (e, q) (find-remove_other k j d h)
    | inr e ↦ rw (e, find-remove_other k j d h) refl
  ]

  -- Putting in a new key and removing it again is what was there before.
  pub find-remove-put :
      (k : Text) (v : A) (d : Dict A) (j : Text)
      → find k d ≡ none
      → find j (remove k (put k v d)) ≡ find j d
  find-remove-put k v d j h = elim (Bool-cases (k =ᵗ j)) [
    | inl e ↦
        let q = text_eq→eq k j e in
        subst (λ x. find x (remove k (put k v d)) ≡ find x d) q (find-remove k (put k v d) ∙ sym h)
    | inr e ↦ find-remove_other k j (put k v d) e ∙ find-put_other k j v d e
  ]
