-- ===== src/Config/Inheritance.antt =====
-- The inheritance of budgets and the repair of the default profile
-- (app/internal/config/config.go, profile.go).
use shell_agent_v.Base.{
  ◌≡◌, refl, sym, ap, ◌∙◌, if◌then◌else◌, Option, none, some, List, [], ◌∷◌, arith, inl, inr,
  Bool-cases,
}
use shell_agent_v.Text.{Text, codes, ◌=ᵗ◌}
use shell_agent_v.TextTools.{ℤ}
use shell_agent_v.Config.{
  ContextBudget, LlmProfile, Config, is_zero, fall_back, find_profile, or_first, default_profile,
  inherit, inherit_profiles, apply_backend_inheritance, budget_of, context_budget_for,
}

-- One field: a second filling changes nothing.
filled_twice :
    (d n : ℤ)
    → (if is_zero (if is_zero n then d else n) then d else if is_zero n then d else n)
      ≡ (if is_zero n then d else n)
filled_twice d n = ground arith

-- The two copies of the code agree, and the second after the first changes nothing.
fall_back-inherit :
    {F : Type 0} (top b : ContextBudget F) → fall_back top (inherit top b) ≡ fall_back top b
unfolding inherit fall_back
fall_back-inherit top b = ground (
  arith,
  filled_twice top.max_context_tokens b.max_context_tokens,
  filled_twice top.max_warm_tokens b.max_warm_tokens,
  filled_twice top.max_tool_result_tokens b.max_tool_result_tokens,
)

inherit_agrees : {F : Type 0} (top b : ContextBudget F) → inherit top b ≡ fall_back top b
unfolding inherit fall_back
inherit_agrees top b = refl

module _ {F L V : Type 0} where
  -- What the inheritance makes of one profile.
  unfoldable inherited : ContextBudget F → LlmProfile F L V → LlmProfile F L V
  inherited top q = record q {
    local = record (q.local) { context_budget = inherit top q.local.context_budget };
    vertex_ai = record (q.vertex_ai) { context_budget = inherit top q.vertex_ai.context_budget };
  }

  unfoldable mapped : ContextBudget F → Option (LlmProfile F L V) → Option (LlmProfile F L V)
  mapped top none = none
  mapped top (some q) = some (inherited top q)

  find_profile-inherit :
      (id : Text) (top : ContextBudget F) (qs : List (LlmProfile F L V))
      → find_profile id (inherit_profiles top qs) ≡ mapped top (find_profile id qs)
  unfolding find_profile inherit_profiles mapped inherited
  find_profile-inherit id top [] = refl
  find_profile-inherit id top (q ∷ qs) = elim (Bool-cases (q.id =ᵗ id)) [
    | inl e ↦ rw e refl
    | inr e ↦ rw e (find_profile-inherit id top qs)
  ]

  or_first-inherit :
      (top : ContextBudget F) (o : Option (LlmProfile F L V)) (qs : List (LlmProfile F L V))
      → or_first (mapped top o) (inherit_profiles top qs) ≡ mapped top (or_first o qs)
  unfolding mapped inherit_profiles inherited
  or_first-inherit top (some q) qs = refl
  or_first-inherit top none [] = refl
  or_first-inherit top none (q ∷ qs) = refl

  budget_of-inherit :
      (zero_budget top : ContextBudget F) (backend : Text) (o : Option (LlmProfile F L V))
      → fall_back top (budget_of zero_budget backend (mapped top o))
        ≡ fall_back top (budget_of zero_budget backend o)
  unfolding budget_of mapped inherited
  budget_of-inherit zero_budget top backend none = refl
  budget_of-inherit zero_budget top backend (some q) =
      elim (Bool-cases (backend =ᵗ codes "vertex_ai")) [
        | inl e ↦ rw e (fall_back-inherit top q.vertex_ai.context_budget)
        | inr e ↦ rw e (fall_back-inherit top q.local.context_budget)
      ]

  budget_of-filled :
      (zero_budget top : ContextBudget F) (backend : Text) (q : LlmProfile F L V)
      → budget_of zero_budget backend (mapped top (some q))
        ≡ fall_back top (budget_of zero_budget backend (some q))
  unfolding budget_of mapped inherited
  budget_of-filled zero_budget top backend q = elim (Bool-cases (backend =ᵗ codes "vertex_ai")) [
    | inl e ↦ rw e (inherit_agrees top q.vertex_ai.context_budget)
    | inr e ↦ rw e (inherit_agrees top q.local.context_budget)
  ]

  default_profile-inherit :
      (c : Config F L V)
      → default_profile (apply_backend_inheritance c).llm
        ≡ mapped c.context_budget (default_profile c.llm)
  unfolding apply_backend_inheritance default_profile
  default_profile-inherit c =
      let top = c.context_budget in
      let qs = c.llm.profiles in
      ap (λ o. or_first o (inherit_profiles top qs))
        (find_profile-inherit c.llm.default_profile_id top qs)
      ∙ or_first-inherit top (find_profile c.llm.default_profile_id qs) qs

  -- The inheritance that Load applies to the profiles changes no budget that ContextBudgetFor gives,
  -- and after it a default profile, where there is one, holds those very budgets itself.
  pub context_budget_for-inherited :
      (zero_budget : ContextBudget F) (backend : Text) (c : Config F L V)
      → (context_budget_for zero_budget backend (apply_backend_inheritance c)
          ≡ context_budget_for zero_budget backend c)
        × ((q : LlmProfile F L V)
            → default_profile c.llm ≡ some q
            → budget_of zero_budget backend (default_profile (apply_backend_inheritance c).llm)
              ≡ context_budget_for zero_budget backend c)
  unfolding context_budget_for apply_backend_inheritance
  context_budget_for-inherited zero_budget backend c =
      let top = c.context_budget in
      let chosen = default_profile-inherit c in
      (
        ap (λ o. fall_back top (budget_of zero_budget backend o)) chosen
            ∙ budget_of-inherit zero_budget top backend (default_profile c.llm),
        λ q e.
            ap (budget_of zero_budget backend) (chosen ∙ ap (mapped top) e)
            ∙ budget_of-filled zero_budget top backend q
            ∙ ap (λ o. fall_back top (budget_of zero_budget backend o)) (sym e),
      )
