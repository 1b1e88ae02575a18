-- ===== src/Summarizer/Report.antt =====
-- The report of an analysis (GenerateReport in app/internal/analysis/summarizer.go). `duration` is
-- the rounded duration as Go prints it.
use shell_agent_v.Base.{ℕ, ◌+◌, ◌≡◌, refl, arith, List, [], ◌∷◌, ◌++◌, length, ◌==◌, if◌then◌else◌}
use shell_agent_v.Text.{Text, codes}
use shell_agent_v.Memory.Prompt.{decimal}
use shell_agent_v.Summarizer.{
  Severity, critical, high, medium, low, info, Observation, AnalyzeResult, normalize_severity,
}

-- strings.Title of the name of a severity.
unfoldable pub title_of : Severity → Text
title_of critical = codes "Critical"
title_of high = codes "High"
title_of medium = codes "Medium"
title_of low = codes "Low"
title_of info = codes "Info"

unfoldable pub severity_rank : Severity → ℕ
severity_rank critical = 0
severity_rank high = 1
severity_rank medium = 2
severity_rank low = 3
severity_rank info = 4

-- grouped[sev]
unfoldable pub group_of : (Text → Text) → Severity → List Observation → List Observation
unfolding normalize_severity severity_rank
group_of lower sev [] = []
group_of lower sev (f ∷ fs) =
    let rest = group_of lower sev fs in
    if severity_rank (normalize_severity lower f.severity) == severity_rank sev
    then f ∷ rest
    else rest

unfoldable pub show_observations : List Observation → Text
show_observations [] = []
show_observations (f ∷ fs) =
    codes "- **"
    ++ (f.description
        ++ (codes "**\n"
            ++ ((if length f.evidence == 0
                  then []
                  else codes "  - Evidence: " ++ (f.evidence ++ codes "\n"))
                ++ show_observations fs)))

unfoldable pub show_group : Severity → List Observation → Text
unfolding title_of decimal show_observations
show_group sev [] = []
show_group sev (f ∷ fs) =
    codes "### "
    ++ (title_of sev
        ++ (codes " ("
            ++ (decimal (length (f ∷ fs))
                ++ (codes ")\n\n" ++ (show_observations (f ∷ fs) ++ codes "\n")))))

unfoldable pub show_groups : (Text → Text) → List Severity → List Observation → Text
unfolding group_of show_group
show_groups lower [] fs = []
show_groups lower (sev ∷ sevs) fs =
    show_group sev (group_of lower sev fs) ++ show_groups lower sevs fs

abbrev pub severity_order : List Severity
severity_order = critical ∷ high ∷ medium ∷ low ∷ info ∷ []

unfoldable pub show_findings : (Text → Text) → List Observation → Text
unfolding show_groups
show_findings lower [] = codes "No significant findings.\n"
show_findings lower (f ∷ fs) = show_groups lower severity_order (f ∷ fs)

unfoldable pub generate_report : (Text → Text) → Text → Text → AnalyzeResult → Text
unfolding show_findings decimal
generate_report lower duration perspective r =
    codes "# Analysis Report\n\n> Perspective: "
    ++ (perspective
        ++ (codes "\n> Windows: "
            ++ (decimal r.windows
                ++ (codes " | Duration: "
                    ++ (duration
                        ++ (codes "\n\n## Summary\n\n"
                            ++ (r.summary
                                ++ (codes "\n\n## Findings\n\n"
                                    ++ show_findings lower r.findings))))))))

-- Every finding is in exactly one of the groups: the groups together are as long as the list.
pub groups_partition :
    (lower : Text → Text) (fs : List Observation)
    → length (group_of lower critical fs)
        + (length (group_of lower high fs)
            + (length (group_of lower medium fs)
                + (length (group_of lower low fs) + length (group_of lower info fs))))
      ≡ length fs
unfolding group_of severity_rank
groups_partition lower [] = refl
groups_partition lower (f ∷ fs) = let rest = groups_partition lower fs in ground (arith, rest)
