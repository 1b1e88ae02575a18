-- ===== src/Summarizer/Windows.antt =====
-- The windows of an analysis, and the findings it keeps (app/internal/analysis/summarizer.go).
use native.Mathlib.Nat.{
  add-div_right, lt-div-mul-add, div-mul-le_self, div-eq_of_lt, le-div_iff_mul-le,
}
use shell_agent_v.Base.{
  ℕ, zero, suc, ◌+◌, ◌-◌, ◌*◌, ◌/◌, ◌≤◌, ◌<◌, ◌≡◌, refl, sym, ap, ◌∙◌, true, false, some, List, [],
  ◌∷◌, ◌++◌, length, leb, ltb, arith, get_elem?, inl, inr, Bool-cases, length-append, length-drop,
}
use shell_agent_v.Text.{Text}
use shell_agent_v.Memory.Floats.{Platform}
use shell_agent_v.Summarizer.Rows.{rows_at, window_rows-rows_at, get_elem?-rows_at}
use shell_agent_v.Summarizer.{
  SummarizerConfig, Observation, AnalyzeResult, analyzed, Llm, evict_findings, by_priority, newest,
  step_of, total_windows, analyze_from, analyze, user_prompt, window_rows, parse_window_response,
}

evict_findings_bound :
    (lower : Text → Text) (n : ℕ) (fs : List Observation) → length (evict_findings lower n fs) ≤ n
unfolding evict_findings
evict_findings_bound lower n fs =
    let important = by_priority lower true fs in
    let others = by_priority lower false fs in
    elim (Bool-cases (leb (length fs) n)) [
      | inl e ↦ rw e (ground (arith, e))
      | inr e ↦ elim (Bool-cases (ltb n (length important))) [
        | inl q ↦ rw (e, q) (omega (arith, length-drop (length important - n) important))
        | inr q ↦
            rw (e, q)
              (ground (
                arith,
                q,
                length-append important (newest lower (n - length important) others),
                length-drop (length others - (n - length important)) others,
              ))
      ]
    ]

-- The number of windows from an offset on.
windows_left-step :
    (step m : ℕ) → 1 ≤ step → 1 ≤ m → (m + step - 1) / step ≡ suc ((m - step + step - 1) / step)
windows_left-step step m h one =
    let shape : (m + step - 1 ≡ m - 1 + step) = omega (arith, h, one) in
    let split : ((m - 1 + step) / step ≡ (m - 1) / step + 1) = add-div_right (m - 1) h in
    let same : ((m - 1) / step ≡ (m - step + step - 1) / step) = elim (Bool-cases (ltb m step)) [
      | inl e ↦ div-eq_of_lt (ground (arith, e, one)) ∙ sym (div-eq_of_lt (ground (arith, e, h)))
      | inr e ↦ let q : (m - 1 ≡ m - step + step - 1) = ground (arith, e, h) in ap (λ x. x / step) q
    ] in
    omega (arith, ap (λ x. x / step) shape, split, same)

windows_left-none :
    (step rows offset : ℕ) → 1 ≤ step → rows ≤ offset → (rows - offset + step - 1) / step ≡ 0
windows_left-none step rows offset h k =
    let q : (rows - offset + step - 1 < step) = omega (arith, h, k) in div-eq_of_lt q

module _ (env : Llm) (system : Text) (size step max_findings : ℕ) (rows : List Text) where
  -- With a model that always answers, the loop ends with the windows that are left.
  analyze_from-analyzed :
      ((k : ℕ) → env.cancelled k ≡ false)
      → ((k : ℕ) (summary : Text) (findings : List Observation)
          → (resp : Text) × (env.chat k system
                (user_prompt env.wrap summary findings (rows_at (k * step) size rows) k)
              ≡ some resp))
      → 1 ≤ step
      → (fuel offset : ℕ) (r : AnalyzeResult) → length rows ≤ offset + fuel
      → offset ≡ r.windows * step
      → length r.findings ≤ max_findings
      → (r' : AnalyzeResult) × (analyze_from env system size step max_findings rows fuel offset r
          ≡ analyzed r')
        × (r'.windows ≡ r.windows + (length rows - offset + step - 1) / step)
        × (length r'.findings ≤ max_findings)
  unfolding analyze_from
  analyze_from-analyzed live answers h zero offset r enough at small = (
    r,
    refl,
    omega (arith, windows_left-none step (length rows) offset h (omega (arith, enough))),
    small,
  )
  analyze_from-analyzed live answers h (suc fuel) offset r enough at small =
      elim (Bool-cases (leb (length rows) offset)) [
        | inl e ↦ (
          r,
          ground (arith, e),
          omega (arith, windows_left-none step (length rows) offset h (ground (arith, e))),
          small,
        )
        | inr e ↦
            let prompt =
              user_prompt env.wrap r.summary r.findings (window_rows offset size rows) r.windows in
            let (resp, c') = answers r.windows r.summary r.findings in
            let sent =
              ap (λ w. user_prompt env.wrap r.summary r.findings w r.windows)
                (window_rows-rows_at offset size rows ∙ ap (λ o. rows_at o size rows) at) in
            let c = ap (env.chat r.windows system) sent ∙ c' in
            let next_at : (offset + step ≡ suc r.windows * step) = grind (arith, at) in
            let wr = parse_window_response env.parse resp in
            let findings = evict_findings env.lower max_findings (r.findings ++ wr.new_findings) in
            let next : AnalyzeResult = record {
              summary = wr.summary;
              findings = findings;
              windows = suc r.windows;
            } in
            let (r', a, b, d) =
              analyze_from-analyzed live answers h fuel (offset + step) next
                (omega (arith, h, enough)) next_at
                (evict_findings_bound env.lower max_findings (r.findings ++ wr.new_findings)) in
            let left = windows_left-step step (length rows - offset) h (ground (arith, e)) in
            let gap : (length rows - (offset + step) ≡ length rows - offset - step) = omega arith in
            let moved = ap (λ x. (x + step - 1) / step) gap in
            let on = live r.windows in
            (r', ground (arith, e, on, c, a), omega (arith, b, left, moved), d)
      ]

step_of-positive : {F : Type 0} (p : Platform F) (cfg : SummarizerConfig F) → 1 ≤ step_of p cfg
unfolding step_of
step_of-positive p cfg = ground arith

step_of_bound :
    {F : Type 0} (p : Platform F) (cfg : SummarizerConfig F)
    → 1 ≤ cfg.max_records_per_window
    → step_of p cfg ≤ cfg.max_records_per_window
unfolding step_of
step_of_bound p cfg h = ground (arith, h)

-- The window that begins at or before a row, and has it.
window_of_row :
    (step size n i : ℕ)
    → 1 ≤ step
    → step ≤ size
    → i < n
    → (k : ℕ) × (k < total_windows step n) × (k * step ≤ i) × (i < k * step + size)
unfolding total_windows
window_of_row step size n i h fits k =
    let low = div-mul-le_self i step in
    let high : (i < i / step * step + step) = lt-div-mul-add h in
    let room : (suc (i / step) * step ≤ n + step - 1) = grind (arith, low, k, h) in
    (i / step, (le-div_iff_mul-le h).1 room, low, omega (arith, high, fits))

-- Where the context is not ended and the model answers the prompts that are expected, which for
-- window k are those with the rows from k steps on, as many as a window takes, at least one, the
-- analysis of rows ends with a result: it has as many windows as the progress callback is told, no
-- more findings than the cap, and every row stands among the rows of one of the windows.
pub analyze_lem :
    {F : Type 0} (p : Platform F) (env : Llm) (cfg : SummarizerConfig F) (system row : Text)
    (rows : List Text)
    → ((k : ℕ) → env.cancelled k ≡ false)
    → ((k : ℕ) (summary : Text) (findings : List Observation)
        → (resp : Text) × (env.chat k system (
              user_prompt env.wrap summary findings
                (rows_at (k * step_of p cfg) cfg.max_records_per_window (row ∷ rows))
                k)
            ≡ some resp))
    → 1 ≤ cfg.max_records_per_window
    → (r : AnalyzeResult) × (analyze p env cfg system (row ∷ rows) ≡ analyzed r)
      × (r.windows ≡ total_windows (step_of p cfg) (length (row ∷ rows)))
      × (length r.findings ≤ cfg.max_findings)
      × ((i : ℕ)
          → i < length (row ∷ rows)
          → (k : ℕ) × (k < r.windows)
            × (k * step_of p cfg ≤ i)
            × (get_elem?
                  (rows_at (k * step_of p cfg) cfg.max_records_per_window (row ∷ rows))
                  (i - k * step_of p cfg)
                ≡ get_elem? (row ∷ rows) i))
unfolding analyze total_windows
analyze_lem p env cfg system row rows live answers h =
    let step = step_of p cfg in
    let one = step_of-positive p cfg in
    let (r, a, b, c) =
      analyze_from-analyzed env system cfg.max_records_per_window step cfg.max_findings (row ∷ rows)
        live answers one (length (row ∷ rows)) 0
        (record { summary = []; findings = []; windows = 0 }) (omega arith) (omega arith)
        (omega arith) in
    let whole : (length (row ∷ rows) - 0 ≡ length (row ∷ rows)) = omega arith in
    let count : (r.windows ≡ total_windows step (length (row ∷ rows))) =
      omega (arith, b, ap (λ x. (x + step - 1) / step) whole) in
    (
      r,
      a,
      count,
      c,
      λ i k.
          let (w, x, y, z) =
            window_of_row step cfg.max_records_per_window (length (row ∷ rows)) i one
              (step_of_bound p cfg h) k in
          (
            w,
            omega (arith, x, count),
            y,
            get_elem?-rows_at (w * step) cfg.max_records_per_window i (row ∷ rows) y z,
          ),
    )
