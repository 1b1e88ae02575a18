-- ===== src/Examples/AnalysisRuns.antt =====
-- Three rows in windows of two, with a model that repeats itself
-- (app/internal/analysis/summarizer.go).
use shell_agent_v.Base.{
  ℕ, ◌-◌, ◌*◌, ◌≡◌, get_elem?, ◌<◌, ◌≤◌, refl, false, some, [], ◌∷◌, length, arith,
}
use shell_agent_v.Text.{codes}
use shell_agent_v.Summarizer.{
  SummarizerConfig, Observation, WindowResponse, AnalyzeResult, Llm, analyzed, analyze, step_of,
  total_windows,
}
use shell_agent_v.Summarizer.Rows.{rows_at}
use shell_agent_v.Summarizer.Windows.{analyze_lem}
use shell_agent_v.Examples.Hundredths.{hundredths}

abbrev spike : Observation
spike = record { description = codes "spike"; severity = codes "high"; evidence = [] }

abbrev response : WindowResponse
response = record { summary = codes "s"; new_findings = spike ∷ [] }

abbrev parrot : Llm
parrot = record {
  lower = λ s. s;
  wrap = λ s. some s;
  parse = λ s. some response;
  chat = λ k s u. some (codes "{}");
  cancelled = λ k. false;
}

abbrev pairs : SummarizerConfig ℕ
pairs = record { max_records_per_window = 2; overlap_ratio = 50; max_findings = 2 }

abbrev outcome : AnalyzeResult
outcome = record { summary = codes "s"; findings = spike ∷ spike ∷ []; windows = 3 }

three_windows :
    analyze hundredths parrot pairs [] (codes "a" ∷ codes "b" ∷ codes "c" ∷ []) ≡ analyzed outcome
unfolding analyze
three_windows = refl

analysis_ends :
    (r : AnalyzeResult) × (analyze hundredths parrot pairs []
        (codes "a" ∷ codes "b" ∷ codes "c" ∷ [])
      ≡ analyzed r)
    × (r.windows
        ≡ total_windows
            (step_of hundredths pairs)
            (length (codes "a" ∷ codes "b" ∷ codes "c" ∷ [])))
    × (length r.findings ≤ pairs.max_findings)
    × ((i : ℕ)
        → i < length (codes "a" ∷ codes "b" ∷ codes "c" ∷ [])
        → (k : ℕ) × (k < r.windows)
          × (k * step_of hundredths pairs ≤ i)
          × (get_elem?
                (rows_at (k * step_of hundredths pairs) 2 (codes "a" ∷ codes "b" ∷ codes "c" ∷ []))
                (i - k * step_of hundredths pairs)
              ≡ get_elem? (codes "a" ∷ codes "b" ∷ codes "c" ∷ []) i))
analysis_ends =
    analyze_lem hundredths parrot pairs [] (codes "a") (codes "b" ∷ codes "c" ∷ []) (λ k. refl)
      (λ k s u. (codes "{}", refl)) (omega arith)
