-- ===== src/Context/Build/Conserve.antt =====
-- Where the records go that Build is given (app/internal/contextbuild/builder.go).
use shell_agent_v.Base.{
  ℕ, suc, ◌+◌, ◌/◌, ◌≡◌, refl, sym, ap, ◌∙◌, Bool, true, ◌||◌, Option, none, some, List, [], ◌∷◌,
  ◌++◌, map, length, take, drop, if◌then◌else◌, arith, inl, inr, Bool-cases, Option-cases, All,
  append-nil, take-append-drop,
}
use shell_agent_v.Text.{Text, codes}
use shell_agent_v.Llm.{message}
use shell_agent_v.Session.{Record, Session}
use shell_agent_v.Memory.Floats.{Platform, nought}
use shell_agent_v.Memory.Lifecycle.{token_set, is_nil, anchor_record, dead_topic_record}
use shell_agent_v.Context.Render.{BuildOptions}
use shell_agent_v.Context.Cache.{SummaryCache}
use shell_agent_v.Context.RawWindow.{Rendered, Window, to_message, select, is_raw, is_legacy, walk}
use shell_agent_v.Context.Tiers.{
  Lifted, Dropped, Tier, lift_from, lift_anchors, drop_from, drop_dead_topics, partition_for_tiers,
  assemble_tier,
}
use shell_agent_v.Context.Build.{
  BuildResult, render_all, assemble, compact, build_records, build, resolve_defaults, legacy_text,
  block_texts, system_messages,
}
use shell_agent_v.Context.Build.Kept.{
  last_or, AllShown, none_shown, IsWindow, walk-IsWindow, render_all-AllShown, length-AllShown,
}

-- How many records of a list a test accepts. Lists on which every test counts the same hold the same
-- records, each as often.
unfoldable pub count : (Record → Bool) → List Record → ℕ
count q [] = 0
count q (r ∷ rs) = (if q r then 1 else 0) + count q rs

-- A field of a result, where there is one.
abbrev read_off : {A : Type 0} → (BuildResult → A) → A → Option BuildResult → A
read_off f a none = a
read_off f a (some x) = f x

count-append :
    (q : Record → Bool) (rs ss : List Record) → count q (rs ++ ss) ≡ count q rs + count q ss
unfolding count
count-append q [] ss = omega arith
count-append q (r ∷ rs) ss = omega (arith, count-append q rs ss)

partition_for_tiers-count :
    (q : Record → Bool) (rs : List Record)
    → count q (partition_for_tiers rs).0 + count q (partition_for_tiers rs).1 ≡ count q rs
unfolding partition_for_tiers
partition_for_tiers-count q rs =
    let m = length rs / 2 in
    omega (arith, count-append q (take m rs) (drop m rs), ap (count q) (take-append-drop m rs))

module _ {F : Type 0} (p : Platform F) (digest hex : Text → Text) (opts : BuildOptions F) where
  -- Which records the anchors are, and that the others remain.
  abbrev IsLift : List (List Text) → F → List Record → Lifted → Type 0
  IsLift sets threshold rs l =
      ((q : Record → Bool) → count q rs ≡ count q l.anchors + count q l.remaining)
      × All (λ r. anchor_record p r.content sets threshold ≡ true) l.anchors

  lift_from-IsLift :
      (i : ℕ) (sets : List (List Text)) (threshold : F) (rs : List Record)
      → IsLift sets threshold rs (lift_from p digest hex opts i sets threshold rs)
  unfolding lift_from count
  lift_from-IsLift i sets threshold [] = (λ q. refl, tt)
  lift_from-IsLift i sets threshold (r ∷ rs) =
      let (all, fit) = lift_from-IsLift (suc i) sets threshold rs in
      elim (Bool-cases (anchor_record p r.content sets threshold)) [
        | inl e ↦ rw e (λ q. omega (arith, all q), (e, fit))
        | inr e ↦ rw e (λ q. omega (arith, all q), fit)
      ]

  lift_anchors-IsLift :
      (rs : List Record) (sets : List (List Text)) (threshold : F)
      → IsLift sets threshold rs (lift_anchors p digest hex opts rs sets threshold)
  unfolding lift_anchors count
  lift_anchors-IsLift rs sets threshold =
      elim (Bool-cases (is_nil sets || p.le threshold (nought p))) [
        | inl e ↦ rw e (λ q. omega arith, tt)
        | inr e ↦ rw e (lift_from-IsLift 0 sets threshold rs)
      ]

  -- Which records the dropped ones are, and that the others are kept.
  abbrev IsDrop : List (List Text) → List (List Text) → F → List Record → Dropped → Type 0
  IsDrop dead live threshold rs d =
      (gone : List Record) × ((q : Record → Bool) → count q rs ≡ count q gone + count q d.filtered)
      × All (λ r. dead_topic_record p r.content dead live threshold ≡ true) gone
      × (d.count ≡ length gone)

  drop_from-IsDrop :
      (dead live : List (List Text)) (facts : List Text) (threshold : F) (rs : List Record)
      → IsDrop dead live threshold rs (drop_from p digest hex opts dead live facts threshold rs)
  unfolding drop_from count
  drop_from-IsDrop dead live facts threshold [] = ([], λ q. refl, tt, refl)
  drop_from-IsDrop dead live facts threshold (r ∷ rs) =
      let (gone, all, fit, n) = drop_from-IsDrop dead live facts threshold rs in
      elim (Bool-cases (dead_topic_record p r.content dead live threshold)) [
        | inl e ↦ rw e (r ∷ gone, λ q. omega (arith, all q), (e, fit), omega (arith, n))
        | inr e ↦ rw e (gone, λ q. omega (arith, all q), fit, n)
      ]

  drop_dead_topics-IsDrop :
      (rs : List Record) (dead live : List (List Text)) (facts : List Text) (threshold : F)
      → IsDrop dead live threshold rs
          (drop_dead_topics p digest hex opts rs dead live facts threshold)
  unfolding drop_dead_topics count
  drop_dead_topics-IsDrop rs dead live facts threshold =
      elim (Bool-cases (is_nil dead || p.le threshold (nought p))) [
        | inl e ↦ rw e ([], λ q. omega arith, tt, refl)
        | inr e ↦ rw e (drop_from-IsDrop dead live facts threshold rs)
      ]

  span-assemble_tier :
      (tier : Text) (input : List Record) (dropped : ℕ) (dead : List Text) (anchors : List ℕ)
      (cache : Option SummaryCache)
      → (assemble_tier p digest hex opts tier input dropped dead anchors cache).span ≡ length input
  unfolding assemble_tier
  span-assemble_tier tier [] dropped dead anchors cache = ground arith
  span-assemble_tier tier (r ∷ rs) dropped dead anchors cache = refl

  -- A tier that has been assembled from these records.
  abbrev pub IsTierOf : Text → List Record → Tier → Type 0
  IsTierOf name input tier =
      (dropped : ℕ) × (dead : List Text) × (anchors : List ℕ) × (cache : Option SummaryCache)
      × (tier ≡ assemble_tier p digest hex opts name input dropped dead anchors cache)

  -- Where each of the records is in a result: the newest ones are shown as they are, at the end;
  -- before them the anchors, in the same way; the dropped ones are on dead topics; and each of the
  -- others has been given to one of the two tiers, whose blocks are in the result.
  pub record Whereabouts (legacy rs : List Record) (res : BuildResult) : Type 0 where
    pub older : List Record
    pub raw : List Record
    pub anchors : List Record
    pub dropped : List Record
    pub near : List Record
    pub far : List Record
    pub anchor_messages : List Rendered
    pub kept : List Rendered
    pub near_tier : Tier
    pub far_tier : Tier
    pub everywhere :
        (q : Record → Bool)
        → count q rs
          ≡ count q raw + count q anchors + count q dropped + (count q near + count q far)
    pub newest : rs ≡ older ++ raw
    pub raw_shown : AllShown p digest hex opts (last_or none older) raw kept
    pub anchors_shown : AllShown p digest hex opts none anchors anchor_messages
    pub anchors_fit :
        All
          (λ r.
            anchor_record p r.content
              (map (token_set p) opts.anchor_sources)
              opts.anchor_jaccard_threshold
            ≡ true)
          anchors
    pub dropped_fit :
        All
          (λ r.
            dead_topic_record p r.content
              (map (token_set p) opts.dead_topic_sources)
              (map (token_set p) opts.live_topic_sources)
              opts.dead_topic_jaccard_threshold
            ≡ true)
          dropped
    pub near_block : IsTierOf (codes "near") near near_tier
    pub far_block : IsTierOf (codes "far") far far_tier
    pub in_order :
        res.messages
        ≡ system_messages p digest hex opts
          ++ (map (message (codes "summary")) (
                map (legacy_text p digest hex opts) legacy
                ++ (block_texts p digest hex opts far_tier.block
                    ++ block_texts p digest hex opts near_tier.block))
              ++ (map to_message anchor_messages ++ map to_message kept))
    pub raw_count : res.included_raw ≡ length raw
    pub anchor_count : res.anchored_records ≡ length anchors
    pub dropped_count : res.dropped_dead_topics ≡ length dropped
    pub near_count : res.near_summarized_span ≡ length near
    pub far_count : res.far_summarized_span ≡ length far

  -- What assembling puts into a result.
  assemble_lem :
      (legacy : List Record) (w : Window) (d : Dropped) (l : Lifted) (far near : Tier)
      (shown : List Rendered) (res : BuildResult)
      → assemble p digest hex opts legacy w d l far near (some shown) ≡ some res
      → (res.messages
          ≡ system_messages p digest hex opts
            ++ (map (message (codes "summary")) (
                  map (legacy_text p digest hex opts) legacy
                  ++ (block_texts p digest hex opts far.block
                      ++ block_texts p digest hex opts near.block))
                ++ (map to_message shown ++ map to_message w.kept)))
        × (res.included_raw ≡ length w.kept)
        × (res.anchored_records ≡ length l.anchors)
        × (res.dropped_dead_topics ≡ d.count)
        × (res.near_summarized_span ≡ near.span)
        × (res.far_summarized_span ≡ far.span)
  unfolding assemble
  assemble_lem legacy w d l far near shown res e = (
    sym (ap (read_off (λ x. x.messages) []) e),
    sym (ap (read_off (λ x. x.included_raw) 0) e),
    sym (ap (read_off (λ x. x.anchored_records) 0) e),
    sym (ap (read_off (λ x. x.dropped_dead_topics) 0) e),
    sym (ap (read_off (λ x. x.near_summarized_span) 0) e),
    sym (ap (read_off (λ x. x.far_summarized_span) 0) e),
  )

  compact-Whereabouts :
      (legacy rs : List Record) (cache : Option SummaryCache) (m : Option Window)
      (res : BuildResult)
      → ((w : Window) → m ≡ some w → IsWindow p digest hex opts none rs w)
      → compact p digest hex opts legacy cache m ≡ some res
      → Whereabouts legacy rs res
  unfolding compact
  compact-Whereabouts legacy rs cache none res h e = ground (arith, e)
  compact-Whereabouts legacy rs cache (some w) res h e =
      let anchor_sets = map (token_set p) opts.anchor_sources in
      let dead = map (token_set p) opts.dead_topic_sources in
      let live = map (token_set p) opts.live_topic_sources in
      let l =
        lift_anchors p digest hex opts w.candidates anchor_sets opts.anchor_jaccard_threshold in
      let d =
        drop_dead_topics p digest hex opts l.remaining dead live opts.dead_topic_sources
          opts.dead_topic_jaccard_threshold in
      let parts = partition_for_tiers d.filtered in
      let far =
        assemble_tier p digest hex opts (codes "far") parts.1 d.count d.fingerprints l.indices
          cache in
      let near =
        assemble_tier p digest hex opts (codes "near") parts.0 0 d.fingerprints l.indices
          far.cache in
      let window = h w refl in
      let (lifted, anchors_fit) =
        lift_anchors-IsLift w.candidates anchor_sets opts.anchor_jaccard_threshold in
      let (gone, left, dropped_fit, n) =
        drop_dead_topics-IsDrop l.remaining dead live opts.dead_topic_sources
          opts.dead_topic_jaccard_threshold in
      elim (Option-cases (render_all p digest hex opts none l.anchors)) [
        | inl k ↦ ground (arith, k, e)
        | inr (shown, k) ↦
            let made = ap (assemble p digest hex opts legacy w d l far near) (sym k) ∙ e in
            let (messages, a, b, c, x, y) = assemble_lem legacy w d l far near shown res made in
            let far_span =
              span-assemble_tier (codes "far") parts.1 d.count d.fingerprints l.indices cache in
            let near_span =
              span-assemble_tier (codes "near") parts.0 0 d.fingerprints l.indices far.cache in
            record {
              older = w.candidates;
              raw = window.newer;
              anchors = l.anchors;
              dropped = gone;
              near = parts.0;
              far = parts.1;
              anchor_messages = shown;
              kept = w.kept;
              near_tier = near;
              far_tier = far;
              everywhere = λ q. omega (
                arith,
                ap (count q) window.divided,
                count-append q w.candidates window.newer,
                lifted q,
                left q,
                partition_for_tiers-count q d.filtered,
              );
              newest = window.divided;
              raw_shown = window.shown;
              anchors_shown = render_all-AllShown p digest hex opts none l.anchors shown k;
              anchors_fit = anchors_fit;
              dropped_fit = dropped_fit;
              near_block = (0, d.fingerprints, l.indices, far.cache, refl);
              far_block = (d.count, d.fingerprints, l.indices, cache, refl);
              in_order = messages;
              raw_count = a ∙ length-AllShown p digest hex opts window.shown;
              anchor_count = b;
              dropped_count = c ∙ n;
              near_count = x ∙ near_span;
              far_count = y ∙ far_span;
            }
      ]

  build_records-Whereabouts :
      (rs : List Record) (cache : Option SummaryCache) (res : BuildResult)
      → build_records p digest hex opts rs cache ≡ some res
      → Whereabouts (select is_legacy rs) (select is_raw rs) res
  unfolding build_records select count assemble_tier
  build_records-Whereabouts [] cache res e = record {
    older = [];
    raw = [];
    anchors = [];
    dropped = [];
    near = [];
    far = [];
    anchor_messages = [];
    kept = [];
    near_tier = assemble_tier p digest hex opts (codes "near") [] 0 [] [] cache;
    far_tier = assemble_tier p digest hex opts (codes "far") [] 0 [] [] cache;
    everywhere = λ q. omega arith;
    newest = refl;
    raw_shown = none_shown;
    anchors_shown = none_shown;
    anchors_fit = tt;
    dropped_fit = tt;
    near_block = (0, [], [], cache, refl);
    far_block = (0, [], [], cache, refl);
    in_order =
        sym (ap (read_off (λ x. x.messages) []) e)
        ∙ sym (append-nil (system_messages p digest hex opts));
    raw_count = sym (ap (read_off (λ x. x.included_raw) 0) e);
    anchor_count = sym (ap (read_off (λ x. x.anchored_records) 0) e);
    dropped_count = sym (ap (read_off (λ x. x.dropped_dead_topics) 0) e);
    near_count = sym (ap (read_off (λ x. x.near_summarized_span) 0) e);
    far_count = sym (ap (read_off (λ x. x.far_summarized_span) 0) e);
  }
  build_records-Whereabouts (r ∷ rs) cache res e =
      compact-Whereabouts (select is_legacy (r ∷ rs)) (select is_raw (r ∷ rs)) cache
        (walk p digest hex opts none (select is_raw (r ∷ rs))) res
        (walk-IsWindow p digest hex opts none (select is_raw (r ∷ rs))) e

-- Where Build returns a result, every record that it passes on is in exactly one place: the newest
-- ones are shown at the end of the messages, each as it is shown after the one before it; before
-- them the anchors; the dropped ones are on dead topics; and each of the others has been given to
-- one of the two tiers, whose blocks are in the messages. Whatever test one puts to the records, it
-- accepts as many of them as in these five places together, and the counts in the result are theirs.
pub build_accounts :
    {F : Type 0} (p : Platform F) (digest hex : Text → Text) (opts : BuildOptions F) (s : Session)
    (cache : Option SummaryCache) (res : BuildResult)
    → build p digest hex opts (some s) cache ≡ some res
    → Whereabouts p digest hex
        (resolve_defaults p opts)
        (select is_legacy s.records)
        (select is_raw s.records)
        res
unfolding build
build_accounts p digest hex opts s cache res e =
    build_records-Whereabouts p digest hex (resolve_defaults p opts) s.records cache res e
