-- ===== src/Context/Build/Kept.antt =====
-- Which records Build shows as they are, and how (app/internal/contextbuild/builder.go).
use mathlib.Core.Path.{subst}
use shell_agent_v.Base.{
  ◌+◌, ◌≡◌, refl, sym, ap, ◌∙◌, true, false, not, ◌&&◌, Option, none, some, List, [], ◌∷◌, ◌++◌,
  map, length, ltb, arith, inl, inr, Bool-cases, Option-cases,
}
use shell_agent_v.Text.{Text}
use shell_agent_v.Session.{Record}
use shell_agent_v.Memory.Floats.{Platform}
use shell_agent_v.Memory.Lifecycle.{is_nil}
use shell_agent_v.Context.Render.{BuildOptions, render_record_content, estimate_tokens}
use shell_agent_v.Context.RawWindow.{
  Rendered, Window, to_llm_tool_call, rendered_as, walk, extend_window, render_one, is_over,
}
use shell_agent_v.Context.Build.{render_all, tokens_of}

-- The last of a list of records, or the one before the list.
abbrev pub last_or : Option Record → List Record → Option Record
last_or prev [] = prev
last_or prev (r ∷ rs) = last_or (some r) rs

module _ {F : Type 0} (p : Platform F) (digest hex : Text → Text) (opts : BuildOptions F) where
  -- How a record is shown that comes after another one.
  pub record IsShown (prev : Option Record) (r : Record) (x : Rendered) : Type 0 where
    content : render_record_content opts prev r ≡ some x.content
    tokens : x.tokens ≡ estimate_tokens x.content
    role : x.role ≡ r.role
    tool_name : x.tool_name ≡ r.tool_name
    tool_call_id : x.tool_call_id ≡ r.tool_call_id
    tool_calls : x.tool_calls ≡ map to_llm_tool_call r.tool_calls
    image_urls : x.image_urls ≡ r.image_urls
    object_ids : x.object_ids ≡ r.object_ids
    thought_part_sigs : x.thought_part_sigs ≡ r.thought_part_sigs
    text_part_sig : x.text_part_sig ≡ r.text_part_sig

  -- Each record of a list, in its order and with the one before it.
  pub data AllShown : Option Record → List Record → List Rendered → Type 0 where
    none_shown : {prev : Option Record} → AllShown prev [] []
    one_shown :
        {prev : Option Record} {r : Record} {rs : List Record} {x : Rendered} {xs : List Rendered}
        → IsShown prev r x
        → AllShown (some r) rs xs
        → AllShown prev (r ∷ rs) (x ∷ xs)

  render_one-IsShown :
      (prev : Option Record) (r : Record) (x : Rendered)
      → render_one p digest hex opts prev r ≡ some x
      → IsShown prev r x
  unfolding render_one
  render_one-IsShown prev r x h = elim (Option-cases (render_record_content opts prev r)) [
    | inl e ↦ ground (arith, e, h)
    | inr (c, e) ↦
        let same : (rendered_as p digest hex opts r c ≡ x) = ground (arith, e, h) in
        subst (IsShown prev r) same (record {
          content = e;
          tokens = refl;
          role = refl;
          tool_name = refl;
          tool_call_id = refl;
          tool_calls = refl;
          image_urls = refl;
          object_ids = refl;
          thought_part_sigs = refl;
          text_part_sig = refl;
        })
  ]

  pub render_all-AllShown :
      (prev : Option Record) (rs : List Record) (xs : List Rendered)
      → render_all p digest hex opts prev rs ≡ some xs
      → AllShown prev rs xs
  unfolding render_all
  render_all-AllShown prev [] xs h =
      let same : ([] ≡ xs) = ground (arith, h) in subst (AllShown prev []) same none_shown
  render_all-AllShown prev (r ∷ rs) xs h =
      elim (Option-cases (render_one p digest hex opts prev r)) [
        | inl e ↦ ground (arith, e, h)
        | inr (y, e) ↦ elim (Option-cases (render_all p digest hex opts (some r) rs)) [
          | inl k ↦ ground (arith, e, k, h)
          | inr (ys, k) ↦
              let same : (y ∷ ys ≡ xs) = ground (arith, e, k, h) in
              subst (AllShown prev (r ∷ rs)) same
                (one_shown (render_one-IsShown prev r y e) (render_all-AllShown (some r) rs ys k))
        ]
      ]

  pub length-AllShown :
      {prev : Option Record} {rs : List Record} {xs : List Rendered}
      → AllShown prev rs xs
      → length xs ≡ length rs
  length-AllShown none_shown = refl
  length-AllShown (one_shown h k) = omega (arith, length-AllShown k)

  -- What the walk has done with the records it has seen: the newer ones are kept, each shown with
  -- the one before it, and the others are the candidates; the tokens are those of the kept ones, of
  -- which there is one at least if there is a record, and two only where they fit.
  pub record IsWindow (prev : Option Record) (rs : List Record) (w : Window) : Type 0 where
    pub newer : List Record
    pub divided : rs ≡ w.candidates ++ newer
    pub shown : AllShown (last_or prev w.candidates) newer w.kept
    pub tokens : w.used ≡ tokens_of p digest hex opts w.kept
    pub fits : (ltb 1 (length w.kept) && is_over p digest hex opts w.used) ≡ false
    pub recent : is_nil w.kept ≡ is_nil rs
    pub halted : w.stopped ≡ true → is_nil w.kept ≡ false
    pub running : w.stopped ≡ false → w.candidates ≡ []

  skip-IsWindow :
      (prev : Option Record) (r : Record) (rs : List Record) (w : Window)
      → IsWindow (some r) rs w
      → is_nil w.kept ≡ false
      → IsWindow prev (r ∷ rs) (record w { candidates = r ∷ w.candidates; stopped = true })
  skip-IsWindow prev r rs w h k = record {
    newer = h.newer;
    divided = ap (λ x. r ∷ x) h.divided;
    shown = h.shown;
    tokens = h.tokens;
    fits = h.fits;
    recent = k;
    halted = λ q. k;
    running = λ q. ground (arith, q);
  }

  keep-IsWindow :
      (prev : Option Record) (r : Record) (rs : List Record) (x : Rendered) (w : Window)
      → IsWindow (some r) rs w
      → w.stopped ≡ false
      → IsShown prev r x
      → (is_over p digest hex opts (w.used + x.tokens) && not (is_nil w.kept)) ≡ false
      → IsWindow prev (r ∷ rs) (record w { kept = x ∷ w.kept; used = w.used + x.tokens })
  keep-IsWindow prev r rs x w h s y k = record {
    newer = r ∷ h.newer;
    divided =
        ap (λ z. r ∷ z) (h.divided ∙ ap (λ z. z ++ h.newer) (h.running s))
        ∙ ap (λ z. z ++ r ∷ h.newer) (sym (h.running s));
    shown =
        subst (λ z. AllShown (last_or prev z) (r ∷ h.newer) (x ∷ w.kept)) (sym (h.running s))
          (one_shown y
            (subst (λ z. AllShown (last_or (some r) z) h.newer w.kept) (h.running s) h.shown));
    tokens = omega (arith, h.tokens);
    fits = only_one w.kept k;
    recent = refl;
    halted = λ q. refl;
    running = h.running;
  }
    where
      only_one :
          (kept : List Rendered)
          → (is_over p digest hex opts (w.used + x.tokens) && not (is_nil kept)) ≡ false
          → (ltb 1 (length (x ∷ kept)) && is_over p digest hex opts (w.used + x.tokens)) ≡ false
      only_one [] q = ground arith
      only_one (y ∷ ys) q = ground (arith, q)

  extend_window-IsWindow :
      (prev : Option Record) (r : Record) (rs : List Record) (w w' : Window)
      → IsWindow (some r) rs w
      → extend_window p digest hex opts r (render_one p digest hex opts prev r) w ≡ some w'
      → IsWindow prev (r ∷ rs) w'
  unfolding extend_window
  extend_window-IsWindow prev r rs w w' h e = elim (Bool-cases w.stopped) [
    | inl s ↦
        subst (IsWindow prev (r ∷ rs)) (ground (arith, s, e))
          (skip-IsWindow prev r rs w h (h.halted s))
    | inr s ↦ elim (Option-cases (render_one p digest hex opts prev r)) [
      | inl n ↦ ground (arith, s, n, e)
      | inr (y, q) ↦
          elim (Bool-cases (is_over p digest hex opts (w.used + y.tokens) && not (is_nil w.kept))) [
            | inl o ↦
                subst (IsWindow prev (r ∷ rs)) (ground (arith, s, q, o, e))
                  (skip-IsWindow prev r rs w h (ground (arith, o)))
            | inr o ↦
                subst (IsWindow prev (r ∷ rs)) (ground (arith, s, q, o, e))
                  (keep-IsWindow prev r rs y w h s (render_one-IsShown prev r y q) o)
          ]
    ]
  ]

  pub walk-IsWindow :
      (prev : Option Record) (rs : List Record) (w : Window)
      → walk p digest hex opts prev rs ≡ some w
      → IsWindow prev rs w
  unfolding walk
  walk-IsWindow prev [] w e =
      let start : Window = record { candidates = []; kept = []; used = 0; stopped = false } in
      let same : (start ≡ w) = ground (arith, e) in
      subst (IsWindow prev []) same (record {
        newer = [];
        divided = refl;
        shown = none_shown;
        tokens = refl;
        fits = ground arith;
        recent = refl;
        halted = λ q. ground (arith, q);
        running = λ q. refl;
      })
  walk-IsWindow prev (r ∷ rs) w e = elim (Option-cases (walk p digest hex opts (some r) rs)) [
    | inl n ↦ ground (arith, n, e)
    | inr (w', q) ↦
        extend_window-IsWindow prev r rs w' w (walk-IsWindow (some r) rs w' q)
          (ground (arith, q, e))
  ]

  newer-is_nil :
      {prev : Option Record} {rs : List Record} {xs : List Rendered}
      → AllShown prev rs xs
      → is_nil rs ≡ is_nil xs
  newer-is_nil none_shown = refl
  newer-is_nil (one_shown h k) = refl

  -- The raw window of Build holds the newest records, each as it is shown after the one before it, and
  -- the newest of all whatever its size, if there is a record at all; and where it holds more than
  -- one, their tokens and the shares of the two summary tiers fit into the budget, if there is one.
  -- The records before them are the candidates of the tiers.
  pub walk_budget :
      (rs : List Record) (w : Window)
      → walk p digest hex opts none rs ≡ some w
      → (newer : List Record) × (rs ≡ w.candidates ++ newer)
        × AllShown (last_or none w.candidates) newer w.kept
        × (is_nil newer ≡ is_nil rs)
        × ((ltb 1 (length newer) && is_over p digest hex opts (tokens_of p digest hex opts w.kept))
            ≡ false)
  walk_budget rs w e =
      let h = walk-IsWindow none rs w e in
      (
        h.newer,
        h.divided,
        h.shown,
        newer-is_nil h.shown ∙ h.recent,
        rw (sym h.tokens, sym (length-AllShown h.shown)) h.fits,
      )
