-- ===== src/Examples/FindingRuns.antt =====
-- A store of two findings at its capacity (app/internal/findings/findings.go).
use shell_agent_v.Base.{
  ℕ, ◌≡◌, refl, Bool, true, false, ◌||◌, ◌&&◌, Option, none, some, List, [], ◌∷◌, ◌++◌, leb, ◌==◌,
  ◌<◌, All, arith, length,
}
use shell_agent_v.Text.{Text, codes, runes, trim_space, has_prefix}
use shell_agent_v.Findings.{
  Finding, Store, Moment, add, capacity, day_prefix, max_numbered, delete_by_ids,
}
use shell_agent_v.Findings.Laws.{IsOfDay, add_again, same_id_at_capacity}
use shell_agent_v.Examples.Hundredths.{hundredths}

abbrev letter : ℕ → Bool
letter r = leb b'a' r && leb r b'z' || leb b'0' r && leb r b'9'

abbrev monday : Moment
monday = record {
  day = codes "20260216";
  stamp = codes "2026-02-16T09:00:00Z";
  date = codes "2026-02-16";
  weekday = codes "Monday";
}

abbrev found : Text → Text → Finding
found id content = record {
  id = id;
  content = content;
  tags = [];
  created_at = monday.stamp;
  created_label = codes "2026-02-16 (Monday)";
  source = codes "llm_promoted";
  tool_originated = true;
}

abbrev two_findings : Store
two_findings = record {
  findings =
      found (codes "f-20260216-001") (codes "alpha is up")
      ∷ found (codes "f-20260216-002") (codes "beta is down")
      ∷ [];
  max_findings = 2;
}

abbrev record_it : Text → Store → Option Finding × Store
record_it content s = add hundredths letter monday [] content [] (codes "llm_promoted") true s

abbrev third : Finding
third = found (codes "f-20260216-003") (codes "gamma holds")

abbrev fourth : Finding
fourth = found (codes "f-20260216-003") (codes "delta rose")

abbrev after_third : Store
after_third = record {
  findings = found (codes "f-20260216-002") (codes "beta is down") ∷ third ∷ [];
  max_findings = 2;
}

abbrev after_fourth : Store
after_fourth = record { findings = third ∷ fourth ∷ []; max_findings = 2 }

records_third : record_it (codes "gamma holds") two_findings ≡ (some third, after_third)
unfolding add
records_third = refl

records_fourth : record_it (codes "delta rose") after_third ≡ (some fourth, after_fourth)
unfolding add
records_fourth = refl

gamma_is_visible : (length (trim_space (runes (codes "gamma holds"))) == 0) ≡ false
unfolding trim_space runes
gamma_is_visible = refl

third_is_refused :
    (record_it (codes "gamma holds") after_third ≡ (none, after_third))
    × ((t : Store) (before after : List Finding)
        → t.findings ≡ before ++ third ∷ after
        → record_it (codes "gamma holds") t ≡ (none, t))
third_is_refused =
    add_again hundredths letter monday [] (codes "gamma holds") [] (codes "llm_promoted") true
      two_findings after_third third records_third gamma_is_visible monday [] []
      (codes "llm_promoted") true

of_monday : All (IsOfDay monday.day) two_findings.findings
unfolding has_prefix day_prefix
of_monday = (refl, (refl, tt))

is_full : 2 ≡ capacity two_findings
unfolding capacity
is_full = refl

small : capacity two_findings < max_numbered
unfolding capacity
small = omega arith

two_of_one_id : (third.id ≡ fourth.id) × (after_fourth.findings ≡ [] ++ (third ∷ (fourth ∷ [])))
two_of_one_id =
    same_id_at_capacity hundredths letter monday monday [] [] (codes "gamma holds")
      (codes "delta rose") [] [] (codes "llm_promoted") (codes "llm_promoted") true true
      two_findings after_third after_fourth third fourth
      (found (codes "f-20260216-001") (codes "alpha is up"))
      (found (codes "f-20260216-002") (codes "beta is down")) [] refl is_full small of_monday refl
      records_third records_fourth

-- Both go when the one is deleted.
deletes_both :
    delete_by_ids (third.id ∷ []) after_fourth ≡ (2, record { findings = []; max_findings = 2 })
unfolding delete_by_ids
deletes_both = refl
