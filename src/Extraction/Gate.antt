-- ===== src/Extraction/Gate.antt =====
-- What the extraction can bring into the memory stores (the loop of extractMemories in
-- app/internal/agent/agent_extract.go).
use mathlib.Core.Path.{subst}
use shell_agent_v.Base.{
  ℕ, zero, suc, ◌≡◌, sym, Bool, true, false, not, ◌&&◌, ◌||◌, Option, none, some, List, [], ◌∷◌,
  ◌++◌, length, take, drop, leb, ltb, ◌==◌, All, All-append, arith, inl, inr, Bool-cases,
}
use shell_agent_v.Text.{Text, codes, ◌=ᵗ◌, has_prefix}
use shell_agent_v.Session.{Record}
use shell_agent_v.Memory.Floats.{Platform}
use shell_agent_v.Memory.Lifecycle.{Thresholds}
use shell_agent_v.Memory.Store.{
  Entry, Store, add, add_or_touch, touch, touch_entries, touch_entry, update_at, evict_over,
  evict_lowest_relevance, default_max_session_memory, consolidate, completed, worst_from,
}
use shell_agent_v.Memory.Edit.{default_max_global_memory, is_global_category}
use shell_agent_v.Chunker.{split_lines}
use shell_agent_v.TextTools.{trimmed}
use shell_agent_v.Extraction.{
  Candidate, is_self_referential, parse_extraction_line, hot_window, user_turn_count,
}
use shell_agent_v.Extraction.Apply.{
  Memories, Round, is_extraction_category, new_entry, touch_session, touch_fact, add_to_session,
  add_global, add_session, route, admit, apply_line, apply_lines, apply_reply, origin,
}

module _ {F : Type 0} (p : Platform F) where
  -- A property of entries that their fact and their category decide.
  module _ {X : Type 0} (P : Text → Text → Type 0) where
    abbrev pub AllEntries : List (Entry F X) → Type 0
    AllEntries es = All (λ e. P e.fact e.category) es

    touch_entries-AllEntries :
        (now : ℕ) (match : Text → Bool) (turn : ℕ) (th : Thresholds F) (es : List (Entry F X))
        → AllEntries es
        → AllEntries (touch_entries p now match turn th es).0
    unfolding touch_entries touch_entry
    touch_entries-AllEntries now match turn th [] h = tt
    touch_entries-AllEntries now match turn th (e ∷ es) (q, h) =
        let rest = touch_entries-AllEntries now match turn th es h in
        elim (Bool-cases (match e.fact)) [ inl a ↦ rw a (q, rest) | inr a ↦ rw a (q, rest) ]

    touch-AllEntries :
        (now : ℕ) (match : Text → Bool) (turn : ℕ) (s : Store F X)
        → AllEntries s.entries
        → AllEntries (touch p now (some match) turn s).1.entries
    unfolding touch
    touch-AllEntries now match turn s h =
        touch_entries-AllEntries now match turn s.thresholds s.entries h

    update_at-AllEntries :
        (i : ℕ) (now : ℕ) (th : Thresholds F) (e : Entry F X) (es : List (Entry F X))
        → AllEntries es
        → AllEntries (update_at i (consolidate p now th e) es)
    unfolding update_at consolidate
    update_at-AllEntries i now th e [] h = tt
    update_at-AllEntries zero now th e (x ∷ es) (q, h) = (q, h)
    update_at-AllEntries (suc i) now th e (x ∷ es) (q, h) =
        (q, update_at-AllEntries i now th e es h)

    take-AllEntries : (n : ℕ) (es : List (Entry F X)) → AllEntries es → AllEntries (take n es)
    take-AllEntries zero es h = tt
    take-AllEntries (suc n) [] h = tt
    take-AllEntries (suc n) (e ∷ es) (q, h) = (q, take-AllEntries n es h)

    drop-AllEntries : (n : ℕ) (es : List (Entry F X)) → AllEntries es → AllEntries (drop n es)
    drop-AllEntries zero es h = h
    drop-AllEntries (suc n) [] h = tt
    drop-AllEntries (suc n) (e ∷ es) (q, h) = drop-AllEntries n es h

    evict-AllEntries :
        (es : List (Entry F X)) → AllEntries es → AllEntries (evict_lowest_relevance p es)
    unfolding evict_lowest_relevance
    evict-AllEntries [] h = tt
    evict-AllEntries (e ∷ es) h =
        let k = worst_from p 0 e 1 es in
        All-append (λ x. P x.fact x.category) (take k (e ∷ es)) (drop (suc k) (e ∷ es))
          (take-AllEntries k (e ∷ es) h) (drop-AllEntries (suc k) (e ∷ es) h)

    evict_over-AllEntries :
        (n : ℕ) (es : List (Entry F X)) → AllEntries es → AllEntries (evict_over p n es)
    evict_over-AllEntries n es h = elim (Bool-cases (ltb n (length es))) [
      | inl a ↦ rw a (evict-AllEntries es h)
      | inr a ↦ rw a h
    ]

    add_or_touch-AllEntries :
        (default_max now : ℕ) (th : Thresholds F) (e : Entry F X) (m : Option ℕ) (s : Store F X)
        → P e.fact e.category
        → AllEntries s.entries
        → AllEntries (add_or_touch p default_max now th e m s).1.entries
    unfolding completed
    add_or_touch-AllEntries d now th e (some i) s q h = update_at-AllEntries i now th e s.entries h
    add_or_touch-AllEntries d now th e none s q h =
        evict_over-AllEntries _ (s.entries ++ _)
          (All-append (λ x. P x.fact x.category) s.entries _ h (q, tt))

    add-AllEntries :
        (default_max now : ℕ) (e : Entry F X) (s : Store F X)
        → P e.fact e.category
        → AllEntries s.entries
        → AllEntries (add p default_max now e s).1.entries
    unfolding add
    add-AllEntries d now e s q h = add_or_touch-AllEntries d now _ e _ s q h

  unfoldable pub SessionAll : (Text → Text → Type 0) → Option (Store F ℕ) → Type 0
  SessionAll Q none = Unit
  SessionAll Q (some s) = AllEntries Q s.entries

  units : {X : Type 0} (es : List (Entry F X)) → AllEntries (λ fact category. Unit) es
  units [] = tt
  units (e ∷ es) = (tt, units es)

  all_units : (o : Option (Store F ℕ)) → SessionAll (λ fact category. Unit) o
  unfolding SessionAll
  all_units none = tt
  all_units (some s) = units s.entries

  -- What holds of all entries of the stores, `P` in the global one and `Q` in the one of the session,
  -- and of every candidate that comes through the filters, holds of all entries afterwards.
  module _ (P Q : Text → Text → Type 0) (round : Round)
      (admits_global : (fact category : Text)
        → round.is_private ≡ false
        → is_global_category category ≡ true
        → is_self_referential p.lower fact ≡ false
        → P fact category)
      (admits_session : (fact category : Text)
        → is_global_category category ≡ false
        → is_extraction_category category ≡ true
        → is_self_referential p.lower fact ≡ false
        → Q fact category) where
    Guarded : Memories F → Type 0
    Guarded m = AllEntries P m.global.entries × SessionAll Q m.session

    touch_session-SessionAll :
        (fact : Text) (o : Option (Store F ℕ))
        → SessionAll Q o
        → SessionAll Q (touch_session p round fact o).0
    unfolding SessionAll touch_session
    touch_session-SessionAll fact none h = tt
    touch_session-SessionAll fact (some s) h = touch-AllEntries Q round.now _ round.turn s h

    touch_fact-Guarded :
        (fact : Text) (m : Memories F) → Guarded m → Guarded (touch_fact p round fact m)
    unfolding Guarded touch_fact
    touch_fact-Guarded fact m (g, s) = (
      touch-AllEntries P round.now (λ existing. existing =ᵗ fact) round.turn m.global g,
      touch_session-SessionAll fact m.session s,
    )

    add_global-Guarded :
        (role : Text) (c : Candidate) (m : Memories F)
        → P c.fact c.category
        → Guarded m
        → Guarded (add_global p round role c m)
    unfolding Guarded add_global new_entry
    add_global-Guarded role c m q (g, s) = (
      add-AllEntries P default_max_global_memory round.now (new_entry p tt round role c) m.global q
          g,
      s,
    )

    add_to_session-SessionAll :
        (role : Text) (idx : ℕ) (c : Candidate) (o : Option (Store F ℕ))
        → Q c.fact c.category
        → SessionAll Q o
        → SessionAll Q (add_to_session p round role idx c o).1
    unfolding SessionAll add_to_session new_entry
    add_to_session-SessionAll role idx c none q h = tt
    add_to_session-SessionAll role idx c (some s) q h =
        add-AllEntries Q default_max_session_memory round.now (new_entry p idx round role c) s q h

    add_session-Guarded :
        (role : Text) (idx : ℕ) (c : Candidate) (m : Memories F)
        → Q c.fact c.category
        → Guarded m
        → Guarded (add_session p round role idx c m)
    unfolding Guarded add_session
    add_session-Guarded role idx c m q (g, s) =
        (g, add_to_session-SessionAll role idx c m.session q s)

    route-Guarded :
        (c : Candidate) (m : Memories F)
        → is_extraction_category c.category ≡ true
        → is_self_referential p.lower c.fact ≡ false
        → Guarded m
        → Guarded (route p round c m)
    unfolding route
    route-Guarded c m a b h =
        let role = (origin p.lower c round.hot).0 in
        let idx = (origin p.lower c round.hot).1 in
        elim (Bool-cases (is_global_category c.category)) [
          | inr q ↦ rw q (add_session-Guarded role idx c m (admits_session _ _ q a b) h)
          | inl q ↦ elim (Bool-cases round.is_private) [
            | inl k ↦ rw (q, k) h
            | inr k ↦ rw (q, k) (add_global-Guarded role c m (admits_global _ _ k q b) h)
          ]
        ]

    admit-Guarded :
        (o : Option Candidate) (m : Memories F) → Guarded m → Guarded (admit p round o m)
    unfolding admit
    admit-Guarded none m h = h
    admit-Guarded (some c) m h = elim (Bool-cases (is_extraction_category c.category)) [
      | inr a ↦ rw a h
      | inl a ↦ elim (Bool-cases (is_self_referential p.lower c.fact)) [
        | inl b ↦ rw (a, b) h
        | inr b ↦ rw (a, b) (route-Guarded c m a b h)
      ]
    ]

    apply_line-Guarded :
        (line : Text) (m : Memories F) → Guarded m → Guarded (apply_line p round line m)
    unfolding apply_line
    apply_line-Guarded line m h =
        let fact = trimmed (drop 8 line) in
        elim (Bool-cases (length line == 0)) [
          | inl a ↦ rw a h
          | inr a ↦ elim (Bool-cases (has_prefix line (codes "touched|"))) [
            | inr b ↦ rw (a, b) (admit-Guarded (parse_extraction_line line) m h)
            | inl b ↦ elim (Bool-cases (length fact == 0)) [
              | inl c ↦ rw (a, b, c) h
              | inr c ↦ rw (a, b, c) (touch_fact-Guarded fact m h)
            ]
          ]
        ]

    apply_lines-Guarded :
        (lines : List Text) (m : Memories F) → Guarded m → Guarded (apply_lines p round lines m)
    unfolding apply_lines
    apply_lines-Guarded [] m h = h
    apply_lines-Guarded (l ∷ ls) m h =
        apply_lines-Guarded ls (apply_line p round (trimmed l) m)
          (apply_line-Guarded (trimmed l) m h)

  apply_reply-Guarded :
      (P Q : Text → Text → Type 0) (upper : Text → Text) (now : ℕ) (records : List Record)
      (is_private : Bool) (reply : Text)
      (admits_global : (fact category : Text)
        → is_private ≡ false
        → is_global_category category ≡ true
        → is_self_referential p.lower fact ≡ false
        → P fact category)
      (admits_session : (fact category : Text)
        → is_global_category category ≡ false
        → is_extraction_category category ≡ true
        → is_self_referential p.lower fact ≡ false
        → Q fact category)
      (m : Memories F)
      → AllEntries P m.global.entries
      → SessionAll Q m.session
      → AllEntries P (apply_reply p upper now records is_private reply m).global.entries
        × SessionAll Q (apply_reply p upper now records is_private reply m).session
  unfolding apply_reply
  apply_reply-Guarded P Q upper now records is_private reply to_global to_session m g s =
      let round : Round = record {
        hot = (hot_window records).0;
        turn = user_turn_count records;
        is_private = is_private;
        now = now;
      } in
      let text = trimmed reply in
      let runs =
        leb 2 (hot_window records).1 && not (length text == 0 || upper text =ᵗ codes "NONE") in
      elim (Bool-cases runs) [
        | inr a ↦ rw a (g, s)
        | inl a ↦ rw a (
            unfold Guarded in
            apply_lines-Guarded P Q round to_global to_session (split_lines text) m
              (unfold Guarded in (g, s)))
      ]

  -- A fact that the global memory may hold, and one that the memory of a session may hold.
  abbrev pub IsGlobalFact : Text → Text → Type 0
  IsGlobalFact fact category =
      (is_global_category category ≡ true) × (is_self_referential p.lower fact ≡ false)

  abbrev pub IsSessionFact : Text → Text → Type 0
  IsSessionFact fact category =
      (is_global_category category ≡ false)
      × (is_extraction_category category ≡ true)
      × (is_self_referential p.lower fact ≡ false)

  -- No reply brings into the global memory a fact that is self-referential or whose category is not
  -- one of the two global ones, or into the memory of the session one that is self-referential or
  -- whose category is not one of its two: stores that hold no such facts hold none afterwards.
  pub apply_reply-admits :
      (upper : Text → Text) (now : ℕ) (records : List Record) (is_private : Bool) (reply : Text)
      (m : Memories F) (s : Store F ℕ)
      → m.session ≡ some s
      → AllEntries IsGlobalFact m.global.entries
      → AllEntries IsSessionFact s.entries
      → AllEntries IsGlobalFact (apply_reply p upper now records is_private reply m).global.entries
        × SessionAll IsSessionFact (apply_reply p upper now records is_private reply m).session
  unfolding SessionAll
  apply_reply-admits upper now records is_private reply m s e g h =
      apply_reply-Guarded IsGlobalFact IsSessionFact upper now records is_private reply
        (λ fact category _ a b. (a, b)) (λ fact category a b c. (a, b, c)) m g
        (subst (SessionAll IsSessionFact) (sym e) h)

  -- In a private session no reply brings a fact into the global memory: what holds of the facts and
  -- the categories of all its entries, whatever it is, holds of all afterwards.
  pub apply_reply-private :
      (P : Text → Text → Type 0) (upper : Text → Text) (now : ℕ) (records : List Record)
      (reply : Text) (m : Memories F)
      → AllEntries P m.global.entries
      → AllEntries P (apply_reply p upper now records true reply m).global.entries
  apply_reply-private P upper now records reply m g =
      (apply_reply-Guarded P (λ fact category. Unit) upper now records true reply
        (λ fact category k _ _. ground (arith, k)) (λ fact category _ _ _. tt) m g
        (all_units m.session)).0
