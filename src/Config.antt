-- ===== src/Config.antt =====
-- The configuration (app/internal/config/config.go, profile.go). A record `BackendConfig` is a
-- LocalConfig or a VertexAIConfig: its fields that the code here reads, and the others in `rest`. The
-- token limits of a budget are integers, since only 0 falls back there. Any other negative number
-- counts as 0, as the code treats it, but for the timeout of the sandbox. `lower` is
-- strings.ToLower.
pub mod Names
pub mod Numbers
pub mod Inheritance
use shell_agent_v.Base.{
  ℕ, zero, suc, ◌+◌, Bool, true, false, not, ◌&&◌, ◌||◌, Option, none, some, List, [], ◌∷◌, ◌++◌,
  length, ◌==◌, if◌then◌else◌,
}
use shell_agent_v.Text.{Text, codes, ◌=ᵗ◌, member}
use shell_agent_v.Memory.Prompt.{decimal}
use shell_agent_v.TextTools.{ℤ, pos, negsuc}

pub record ContextBudget (F : Type 0) : Type 0 where
  pub max_context_tokens : ℤ
  pub max_warm_tokens : ℤ
  pub max_tool_result_tokens : ℤ
  pub output_reserve : ℕ
  pub far_summary_share : F
  pub near_summary_share : F
  pub anchor_jaccard_threshold : F
  pub dead_topic_jaccard_threshold : F

pub record BackendConfig (F X : Type 0) : Type 0 where
  pub context_budget : ContextBudget F
  pub request_timeout_seconds : ℕ
  pub auto_extract_enabled : Option Bool
  pub auto_title_enabled : Option Bool
  pub rest : X

pub record LlmProfile (F L V : Type 0) : Type 0 where
  pub id : Text
  pub name : Text
  pub default_backend : Text
  pub local : BackendConfig F L
  pub vertex_ai : BackendConfig F V

pub record LlmConfig (F L V : Type 0) : Type 0 where
  pub default_profile_id : Text
  pub profiles : List (LlmProfile F L V)

-- The parts of Config that the functions here read.
pub record Config (F L V : Type 0) : Type 0 where
  pub llm : LlmConfig F L V
  pub context_budget : ContextBudget F

abbrev pub or_default : ℕ → ℕ → ℕ
or_default d n = if n == 0 then d else n

abbrev pub or_else : Bool → Option Bool → Bool
or_else d none = d
or_else d (some b) = b

module _ {F X : Type 0} where
  unfoldable pub local_auto_extract : BackendConfig F X → Bool
  local_auto_extract c = or_else false c.auto_extract_enabled

  unfoldable pub local_auto_title : BackendConfig F X → Bool
  local_auto_title c = or_else false c.auto_title_enabled

  unfoldable pub vertex_auto_extract : BackendConfig F X → Bool
  vertex_auto_extract c = or_else true c.auto_extract_enabled

  unfoldable pub vertex_auto_title : BackendConfig F X → Bool
  vertex_auto_title c = or_else true c.auto_title_enabled

  unfoldable pub local_request_timeout : BackendConfig F X → ℕ
  local_request_timeout c = or_default 300 c.request_timeout_seconds

  unfoldable pub vertex_request_timeout : BackendConfig F X → ℕ
  vertex_request_timeout c = or_default 180 c.request_timeout_seconds

unfoldable pub output_reserve_resolved : {F : Type 0} → ContextBudget F → ℕ
output_reserve_resolved b = or_default 4096 b.output_reserve

unfoldable pub max_tool_rounds_resolved : ℕ → ℕ
max_tool_rounds_resolved n = or_default 10 n

unfoldable pub max_query_rows_resolved : ℕ → ℕ
max_query_rows_resolved n = or_default 10000 n

unfoldable pub max_export_rows_resolved : ℕ → ℕ
max_export_rows_resolved n = or_default 1000000 n

unfoldable pub log_level_string : Text → Text
unfolding member
log_level_string level =
    if member level (codes "debug" ∷ codes "info" ∷ codes "warn" ∷ codes "error" ∷ [])
    then level
    else codes "info"

pub record SandboxConfig : Type 0 where
  pub engine : Text
  pub image : Text
  pub cpu_limit : Text
  pub memory_limit : Text
  pub timeout_seconds : ℕ

abbrev pub or_text : Text → Text → Text
or_text d t = if length t == 0 then d else t

unfoldable pub resolved_sandbox : SandboxConfig → SandboxConfig
resolved_sandbox s = record s {
  engine = or_text (codes "auto") s.engine;
  cpu_limit = or_text (codes "2") s.cpu_limit;
  memory_limit = or_text (codes "1g") s.memory_limit;
  timeout_seconds = or_default 60 s.timeout_seconds;
}

unfoldable pub suffixed : Text → ℕ → Text
unfolding decimal
suffixed desired n = desired ++ (codes " (" ++ (decimal n ++ codes ")"))

-- The loop of DisambiguateName, which has no bound: `none` where the fuel is used up.
unfoldable pub first_untaken : (Text → Text) → List Text → Text → ℕ → ℕ → Option Text
unfolding member suffixed
first_untaken lower taken desired zero n = none
first_untaken lower taken desired (suc fuel) n =
    let rest = first_untaken lower taken desired fuel (suc n) in
    if member (lower (suffixed desired n)) taken then rest else some (suffixed desired n)

abbrev pub is_zero : ℤ → Bool
is_zero (pos n) = n == 0
is_zero (negsuc n) = false

-- `resolve` in applyBackendInheritance, which fills the fields of a profile's budget that are 0.
unfoldable pub inherit : {F : Type 0} → ContextBudget F → ContextBudget F → ContextBudget F
inherit top b = record b {
  max_context_tokens =
      if is_zero b.max_context_tokens then top.max_context_tokens else b.max_context_tokens;
  max_warm_tokens = if is_zero b.max_warm_tokens then top.max_warm_tokens else b.max_warm_tokens;
  max_tool_result_tokens =
      if is_zero b.max_tool_result_tokens
      then top.max_tool_result_tokens
      else b.max_tool_result_tokens;
}

-- The end of ContextBudgetFor, which does the same to the budget that it returns.
unfoldable pub fall_back : {F : Type 0} → ContextBudget F → ContextBudget F → ContextBudget F
fall_back top b = record b {
  max_context_tokens =
      if is_zero b.max_context_tokens then top.max_context_tokens else b.max_context_tokens;
  max_warm_tokens = if is_zero b.max_warm_tokens then top.max_warm_tokens else b.max_warm_tokens;
  max_tool_result_tokens =
      if is_zero b.max_tool_result_tokens
      then top.max_tool_result_tokens
      else b.max_tool_result_tokens;
}

module _ {F L V : Type 0} where
  unfoldable pub find_profile : Text → List (LlmProfile F L V) → Option (LlmProfile F L V)
  unfolding ◌=ᵗ◌
  find_profile id [] = none
  find_profile id (q ∷ qs) = if q.id =ᵗ id then some q else find_profile id qs

  abbrev pub or_first :
      Option (LlmProfile F L V) → List (LlmProfile F L V) → Option (LlmProfile F L V)
  or_first (some q) qs = some q
  or_first none [] = none
  or_first none (q ∷ qs) = some q

  unfoldable pub default_profile : LlmConfig F L V → Option (LlmProfile F L V)
  unfolding find_profile
  default_profile c = or_first (find_profile c.default_profile_id c.profiles) c.profiles

  unfoldable pub resolve_profile : Text → LlmConfig F L V → Option (LlmProfile F L V)
  unfolding find_profile default_profile
  resolve_profile id c = elim (if length id == 0 then none else find_profile id c.profiles) [
    | some q ↦ some q
    | none ↦ default_profile c
  ]

  unfoldable pub has_profile : Text → List (LlmProfile F L V) → Bool
  unfolding ◌=ᵗ◌
  has_profile id [] = false
  has_profile id (q ∷ qs) = q.id =ᵗ id || has_profile id qs

  -- repairProfiles; `fallback` is Default().LLM.
  unfoldable pub repair_profiles : LlmConfig F L V → LlmConfig F L V → LlmConfig F L V
  unfolding has_profile
  repair_profiles fallback c = elim c.profiles [
    | [] ↦ fallback
    | q ∷ qs ↦
        if has_profile c.default_profile_id (q ∷ qs)
        then c
        else record c { default_profile_id = q.id }
  ]

  -- The loop of ProfileByName: the profiles of that name.
  unfoldable pub named : (Text → Text) → Text → List (LlmProfile F L V) → List (LlmProfile F L V)
  unfolding ◌=ᵗ◌
  named lower target [] = []
  named lower target (q ∷ qs) =
      let rest = named lower target qs in if lower q.name =ᵗ target then q ∷ rest else rest

  -- The profile, whether it has been found, and whether the name is ambiguous.
  unfoldable pub profile_by_name :
      (Text → Text) → Text → LlmConfig F L V → Option (LlmProfile F L V) × Bool × Bool
  unfolding named
  profile_by_name lower name c = elim (named lower (lower name) c.profiles) [
    | [] ↦ (none, false, false)
    | q ∷ qs ↦ if length qs == 0 then (some q, true, false) else (none, false, true)
  ]

  -- The names that are taken, but for the profile itself.
  unfoldable pub taken_names : (Text → Text) → Text → List (LlmProfile F L V) → List Text
  unfolding ◌=ᵗ◌
  taken_names lower self_id [] = []
  taken_names lower self_id (q ∷ qs) =
      let rest = taken_names lower self_id qs in
      if q.id =ᵗ self_id then rest else lower q.name ∷ rest

  unfoldable pub disambiguate_name :
      (Text → Text) → List (LlmProfile F L V) → Text → Text → Option Text
  unfolding taken_names member first_untaken
  disambiguate_name lower profiles desired self_id =
      let taken = taken_names lower self_id profiles in
      if member (lower desired) taken
      then first_untaken lower taken desired (suc (length taken)) 2
      else some desired

  unfoldable pub inherit_profiles :
      ContextBudget F → List (LlmProfile F L V) → List (LlmProfile F L V)
  unfolding inherit
  inherit_profiles top [] = []
  inherit_profiles top (q ∷ qs) =
      record q {
        local = record (q.local) { context_budget = inherit top q.local.context_budget };
        vertex_ai = record (q.vertex_ai) {
          context_budget = inherit top q.vertex_ai.context_budget;
        };
      }
      ∷ inherit_profiles top qs

  unfoldable pub apply_backend_inheritance : Config F L V → Config F L V
  unfolding inherit_profiles
  apply_backend_inheritance c = record c {
    llm = record (c.llm) { profiles = inherit_profiles c.context_budget c.llm.profiles };
  }

  -- The budget of a backend in a profile; `zero_budget` has Go's zero values.
  unfoldable pub budget_of : ContextBudget F → Text → Option (LlmProfile F L V) → ContextBudget F
  unfolding ◌=ᵗ◌
  budget_of zero_budget backend none = zero_budget
  budget_of zero_budget backend (some q) =
      if backend =ᵗ codes "vertex_ai" then q.vertex_ai.context_budget else q.local.context_budget

  unfoldable pub context_budget_for : ContextBudget F → Text → Config F L V → ContextBudget F
  unfolding budget_of default_profile fall_back
  context_budget_for zero_budget backend c =
      fall_back c.context_budget (budget_of zero_budget backend (default_profile c.llm))
