-- ===== src/Config/Names.antt =====
-- The names of the profiles: DisambiguateName (app/internal/config/profile.go) ends.
use shell_agent_v.Base.{
  ℕ, zero, suc, ◌+◌, ◌≤◌, ◌<◌, ◌≡◌, refl, sym, ap, ◌∙◌, true, false, none, some, List, [], ◌∷◌,
  length, ◌==◌, if◌then◌else◌, arith, inl, inr, Bool-cases, Option-cases,
}
use shell_agent_v.Text.{Text, ◌=ᵗ◌, member}
use shell_agent_v.Text.Laws.{text_eq→eq}
use shell_agent_v.Config.{LlmProfile, taken_names, suffixed, first_untaken, disambiguate_name}

-- A list without the first text that is equal to another.
without : Text → List Text → List Text
without t [] = []
without t (s ∷ l) = if s =ᵗ t then l else s ∷ without t l

length-without :
    (t : Text) (l : List Text) → member t l ≡ true → suc (length (without t l)) ≡ length l
unfolding without member
length-without t [] h = ground (arith, h)
length-without t (s ∷ l) h = elim (Bool-cases (s =ᵗ t)) [
  | inl e ↦ rw e refl
  | inr e ↦ rw e (omega (arith, length-without t l (ground (arith, e, h))))
]

member-without :
    (t u : Text) (l : List Text)
    → (t =ᵗ u) ≡ false
    → member u l ≡ true
    → member u (without t l) ≡ true
unfolding without member
member-without t u [] d h = h
member-without t u (s ∷ l) d h = elim (Bool-cases (s =ᵗ t)) [
  | inl e ↦
      let q : ((s =ᵗ u) ≡ false) = ap (λ x. x =ᵗ u) (text_eq→eq s t e) ∙ d in
      rw e (ground (arith, q, h))
  | inr e ↦ elim (Bool-cases (s =ᵗ u)) [
    | inl q ↦ rw e (ground (arith, q))
    | inr q ↦ rw e (ground (arith, q, member-without t u l d (ground (arith, q, h))))
  ]
]

module _ (lower : Text → Text) (desired : Text)
    (apart : (i j : ℕ) → lower (suffixed desired i) ≡ lower (suffixed desired j) → i ≡ j) where
  differ : (i j : ℕ) → i < j → (lower (suffixed desired i) =ᵗ lower (suffixed desired j)) ≡ false
  differ i j h = elim (Bool-cases (lower (suffixed desired i) =ᵗ lower (suffixed desired j))) [
    | inr e ↦ e
    | inl e ↦ let same = apart i j (text_eq→eq _ _ e) in ground (arith, h, same)
  ]

  -- More names than are taken, all different, are not all taken.
  too_few :
      (fuel n : ℕ) (taken : List Text)
      → length taken < fuel
      → ((i : ℕ) → n ≤ i → i < n + fuel → member (lower (suffixed desired i)) taken ≡ true)
      → false ≡ true
  too_few zero n taken h all = ground (arith, h)
  too_few (suc fuel) n taken h all =
      let name = lower (suffixed desired n) in
      let here = all n (omega arith) (omega arith) in
      too_few fuel (suc n) (without name taken) (omega (arith, h, length-without name taken here))
        (λ i low high.
          member-without name (lower (suffixed desired i)) taken (differ n i (omega (arith, low)))
            (all i (omega (arith, low)) (omega (arith, high))))

  untaken-none :
      (taken : List Text) (fuel n : ℕ)
      → first_untaken lower taken desired fuel n ≡ none
      → (i : ℕ) → n ≤ i
      → i < n + fuel
      → member (lower (suffixed desired i)) taken ≡ true
  unfolding first_untaken
  untaken-none taken zero n h i low high = ground (arith, low, high)
  untaken-none taken (suc fuel) n h i low high =
      elim (Bool-cases (member (lower (suffixed desired n)) taken)) [
        | inr e ↦ ground (arith, e, h)
        | inl e ↦ elim (Bool-cases (i == n)) [
          | inl q ↦
              let same : (i ≡ n) = ground (arith, q) in
              ap (λ x. member (lower (suffixed desired x)) taken) same ∙ e
          | inr q ↦
              untaken-none taken fuel (suc n) (ground (arith, e, h)) i (ground (arith, q, low))
                (omega (arith, high))
        ]
      ]

  untaken-some :
      (taken : List Text) (fuel n : ℕ) (t : Text)
      → first_untaken lower taken desired fuel n ≡ some t
      → member (lower t) taken ≡ false
  unfolding first_untaken
  untaken-some taken zero n t h = ground (arith, h)
  untaken-some taken (suc fuel) n t h =
      elim (Bool-cases (member (lower (suffixed desired n)) taken)) [
        | inl e ↦ untaken-some taken fuel (suc n) t (ground (arith, e, h))
        | inr e ↦
            let same : (suffixed desired n ≡ t) = ground (arith, e, h) in
            ap (λ x. member (lower x) taken) (sym same) ∙ e
      ]

  untaken-total :
      (taken : List Text)
      → (t : Text) × (first_untaken lower taken desired (suc (length taken)) 2 ≡ some t)
  untaken-total taken =
      elim (Option-cases (first_untaken lower taken desired (suc (length taken)) 2)) [
        | inr r ↦ r
        | inl e ↦
            let bad =
              too_few (suc (length taken)) 2 taken (omega arith)
                (untaken-none taken (suc (length taken)) 2 e) in
            ground (arith, bad)
      ]

-- Where different numbers give names that differ without regard to case, the loop of
-- DisambiguateName, which has no bound, ends within one round more than there are other profiles:
-- DisambiguateName returns a name, and no other profile has it, in any case.
pub disambiguate_name-ends :
    {F L V : Type 0} (lower : Text → Text) (profiles : List (LlmProfile F L V))
    (desired self_id : Text)
    → ((i j : ℕ) → lower (suffixed desired i) ≡ lower (suffixed desired j) → i ≡ j)
    → (t : Text) × (disambiguate_name lower profiles desired self_id ≡ some t)
      × (member (lower t) (taken_names lower self_id profiles) ≡ false)
unfolding disambiguate_name
disambiguate_name-ends lower profiles desired self_id apart =
    let taken = taken_names lower self_id profiles in
    elim (Bool-cases (member (lower desired) taken)) [
      | inr e ↦ (desired, rw e refl, e)
      | inl e ↦
          let (t, h) = untaken-total lower desired apart taken in
          (t, rw e h, untaken-some lower desired apart taken (suc (length taken)) 2 t h)
    ]
