-- ===== src/Examples/ConfigRuns.antt =====
-- Two profiles (app/internal/config).
use shell_agent_v.Base.{ℕ, ◌≡◌, refl, false, none, some, List, [], ◌∷◌}
use shell_agent_v.Text.{Text, codes, member}
use shell_agent_v.TextTools.{pos, negsuc}
use shell_agent_v.Config.{
  ContextBudget, BackendConfig, LlmProfile, Config, disambiguate_name, taken_names,
  apply_backend_inheritance, default_profile, budget_of, context_budget_for,
}
use shell_agent_v.Config.Names.{disambiguate_name-ends}
use shell_agent_v.Config.Numbers.{suffixed-apart}
use shell_agent_v.Config.Inheritance.{context_budget_for-inherited}

abbrev budget : ℕ → ContextBudget ℕ
budget n = record {
  max_context_tokens = pos n;
  max_warm_tokens = pos 0;
  max_tool_result_tokens = negsuc 0;
  output_reserve = 0;
  far_summary_share = 0;
  near_summary_share = 0;
  anchor_jaccard_threshold = 0;
  dead_topic_jaccard_threshold = 0;
}

abbrev backend : ℕ → BackendConfig ℕ Unit
backend n = record {
  context_budget = budget n;
  request_timeout_seconds = 0;
  auto_extract_enabled = none;
  auto_title_enabled = none;
  rest = tt;
}

abbrev profile : Text → Text → LlmProfile ℕ Unit Unit
profile id name = record {
  id = id;
  name = name;
  default_backend = codes "local";
  local = backend 0;
  vertex_ai = backend 5;
}

abbrev two_profiles : List (LlmProfile ℕ Unit Unit)
two_profiles = profile (codes "p1") (codes "work") ∷ profile (codes "p2") (codes "work (2)") ∷ []

third_name :
    disambiguate_name (λ s. s) two_profiles (codes "work") (codes "p3") ≡ some (codes "work (3)")
unfolding disambiguate_name
third_name = refl

name_is_found :
    (t : Text) × (disambiguate_name (λ s. s) two_profiles (codes "work") (codes "p3") ≡ some t)
    × (member t (taken_names (λ s. s) (codes "p3") two_profiles) ≡ false)
name_is_found =
    disambiguate_name-ends (λ s. s) two_profiles (codes "work") (codes "p3")
      (suffixed-apart (codes "work"))

abbrev settings : Config ℕ Unit Unit
settings = record {
  llm = record { default_profile_id = codes "p2"; profiles = two_profiles };
  context_budget = budget 9;
}

budget_is_the_same :
    (context_budget_for (budget 0) (codes "local") (apply_backend_inheritance settings)
      ≡ context_budget_for (budget 0) (codes "local") settings)
    × ((q : LlmProfile ℕ Unit Unit)
        → default_profile settings.llm ≡ some q
        → budget_of
            (budget 0)
            (codes "local")
            (default_profile (apply_backend_inheritance settings).llm)
          ≡ context_budget_for (budget 0) (codes "local") settings)
budget_is_the_same = context_budget_for-inherited (budget 0) (codes "local") settings
