-- ===== src/SessionIo/Titles.antt =====
-- The title and the id of an imported session (resolveTitle and the loop of ImportSession in
-- app/internal/sessionio/import.go).
use shell_agent_v.Base.{
  ℕ, zero, suc, ◌+◌, ◌-◌, ◌≤◌, ◌<◌, ◌≡◌, ◌⊎◌, refl, true, false, none, some, List, ◌++◌, arith, inl,
  inr, Bool-cases, Option-cases,
}
use shell_agent_v.Text.{Text, codes, member}
use shell_agent_v.SessionIo.{numbered_title, first_free, title_base, resolve_title}

-- What the loop returns is free, and where it returns nothing every title it has tried is taken.
first_free-some :
    (fuel n : ℕ) (base t : Text) (taken : List Text)
    → first_free fuel n base taken ≡ some t
    → member t taken ≡ false
unfolding first_free
first_free-some zero n base t taken h = ground (arith, h)
first_free-some (suc fuel) n base t taken h =
    elim (Bool-cases (member (numbered_title base n) taken)) [
      | inl e ↦ first_free-some fuel (suc n) base t taken (ground (arith, e, h))
      | inr e ↦ ground (arith, e, h)
    ]

first_free-none :
    (fuel n : ℕ) (base : Text) (taken : List Text)
    → first_free fuel n base taken ≡ none
    → (i : ℕ) → i < fuel
    → member (numbered_title base (n + i)) taken ≡ true
unfolding first_free
first_free-none zero n base taken h i k = ground (arith, k)
first_free-none (suc fuel) n base taken h zero k =
    let here : (n + 0 ≡ n) = omega arith in
    elim (Bool-cases (member (numbered_title base n) taken)) [
      | inr e ↦ ground (arith, e, h)
      | inl e ↦ rw here e
    ]
first_free-none (suc fuel) n base taken h (suc i) k =
    elim (Bool-cases (member (numbered_title base n) taken)) [
      | inr e ↦ ground (arith, e, h)
      | inl e ↦
          let there : (n + suc i ≡ suc n + i) = omega arith in
          rw there
            (first_free-none fuel (suc n) base taken (ground (arith, e, h)) i (omega (arith, k)))
    ]

-- The title of an imported session is not among the existing ones, unless these have the plain
-- title, the one with `(imported)`, and all those with the numbers from 2 to 999.
pub resolve_title-free :
    (nanos : ℕ) (title : Text) (existing : List Text)
    → (member (resolve_title nanos title existing) existing ≡ false)
      ⊎ ((member (title_base title) existing ≡ true)
          × (member (title_base title ++ codes " (imported)") existing ≡ true)
          × ((n : ℕ)
              → 2 ≤ n
              → n < 1000
              → member (numbered_title (title_base title) n) existing ≡ true))
unfolding resolve_title
resolve_title-free nanos title existing =
    let base = title_base title in
    elim (Bool-cases (member base existing)) [
      | inr a ↦ inl (rw (a, a) refl)
      | inl a ↦ elim (Bool-cases (member (base ++ codes " (imported)") existing)) [
        | inr b ↦ inl (rw (a, b, b) refl)
        | inl b ↦ elim (Option-cases (first_free 998 2 base existing)) [
          | inr (t, c) ↦ inl (rw (a, b, c) (first_free-some 998 2 base t existing c))
          | inl c ↦ inr (
            a,
            b,
            λ n low high.
                let i : (2 + (n - 2) ≡ n) = omega (arith, low) in
                rw⁻¹ i (first_free-none 998 2 base existing c (n - 2) (omega (arith, low, high))),
          )
        ]
      ]
    ]
