-- ===== src/Memory/Store.antt =====
-- The session and the global memory store (app/internal/memory/session_memory.go,
-- global_memory.go), whose bodies are the same: `X` holds what only one of them has,
-- SourceTurnIndex. `now` is what time.Now returns; times are numbers, 0 being the zero time.
pub mod Eviction
pub mod Decay
use shell_agent_v.Base.{
  ℕ, zero, suc, ◌+◌, Bool, true, false, not, ◌&&◌, ◌||◌, Option, none, some, List, [], ◌∷◌, ◌++◌,
  length, ltb, ◌==◌, if◌then◌else◌, map, get_elem?, take, drop,
}
use shell_agent_v.Text.{Text, codes, member, ◌=ᵗ◌, trim_space, runes}
use shell_agent_v.Memory.Floats.{Platform, nought, one}
use shell_agent_v.Memory.Lifecycle.{
  Lifecycle, fresh, active, dormant, archived, other, Thresholds, resolved, decayed_relevance,
  derive_state, consolidation_match, is_nil,
}

pub record Entry (F X : Type 0) : Type 0 where
  pub fact : Text
  pub native_fact : Text
  pub category : Text
  pub source_time : ℕ
  pub created_at : ℕ
  pub source_turn_index : X
  pub source : Text
  pub tool_originated : Bool
  pub relevance : F
  pub created_turn : ℕ
  pub last_touched_at : ℕ
  pub last_touched_turn : ℕ
  pub touch_count : ℕ
  pub state : Lifecycle

-- A negative MaxEntries counts as 0; `default_max` is the constant of the store.
pub record Store (F X : Type 0) : Type 0 where
  pub entries : List (Entry F X)
  pub max_entries : ℕ
  pub thresholds : Thresholds F

abbrev pub default_max_session_memory : ℕ
default_max_session_memory = 50

unfoldable pub rank : Lifecycle → ℕ
rank archived = 0
rank dormant = 1
rank active = 2
rank fresh = 3
rank (other t) = 2

abbrev pub is_unset : Lifecycle → Bool
is_unset (other []) = true
is_unset _ = false

abbrev pub is_fresh : Lifecycle → Bool
is_fresh fresh = true
is_fresh _ = false

abbrev pub same_state : Lifecycle → Lifecycle → Bool
same_state a b = rank a == rank b

unfoldable pub update_at {ℓ} : {A : Type ℓ} → ℕ → (A → A) → List A → List A
update_at i f [] = []
update_at zero f (x ∷ xs) = f x ∷ xs
update_at (suc i) f (x ∷ xs) = x ∷ update_at i f xs

abbrev pub capacity : ℕ → ℕ → ℕ
capacity default_max max_entries = if max_entries == 0 then default_max else max_entries

module _ {F X : Type 0} (p : Platform F) where
  unfoldable pub facts : List (Entry F X) → List Text
  facts [] = []
  facts (e ∷ es) = e.fact ∷ facts es

  unfoldable pub legacy_fill : Entry F X → Entry F X
  legacy_fill e = if p.lt (nought p) e.relevance then e else record e {
    relevance = one p;
    last_touched_at = if e.last_touched_at == 0 then e.created_at else e.last_touched_at;
    state = if is_unset e.state then active else e.state;
  }

  -- The same entry again: a touch.
  unfoldable pub consolidate : ℕ → Thresholds F → Entry F X → Entry F X → Entry F X
  consolidate now th e existing = record existing {
    touch_count = existing.touch_count + 1;
    relevance = one p;
    last_touched_at = now;
    last_touched_turn =
        if ltb existing.last_touched_turn e.created_turn
        then e.created_turn
        else existing.last_touched_turn;
    state = derive_state p (one p) existing.created_turn e.created_turn th;
  }

  -- The fields that Add fills in.
  unfoldable pub completed : ℕ → Thresholds F → Entry F X → Entry F X
  completed now th e =
      let created = if e.created_at == 0 then now else e.created_at in
      let relevance = if p.eq e.relevance (nought p) then one p else e.relevance in
      record e {
        created_at = created;
        source_time = if e.source_time == 0 then now else e.source_time;
        relevance = relevance;
        last_touched_at = if e.last_touched_at == 0 then created else e.last_touched_at;
        last_touched_turn =
            if e.last_touched_turn == 0 then e.created_turn else e.last_touched_turn;
        state = derive_state p relevance e.created_turn e.created_turn th;
      }

  -- The switch of evictLowestRelevanceLocked: whether b takes the place of a.
  unfoldable pub is_worse : Entry F X → Entry F X → Bool
  is_worse b a =
      ltb (rank b.state) (rank a.state)
      || rank b.state == rank a.state && p.lt b.relevance a.relevance
      || rank b.state == rank a.state
        && p.eq b.relevance a.relevance
        && ltb b.last_touched_at a.last_touched_at

  -- The loop: the index and the entry of the worst so far, and the index of the next.
  unfoldable pub worst_from : ℕ → Entry F X → ℕ → List (Entry F X) → ℕ
  worst_from worst w i [] = worst
  worst_from worst w i (e ∷ es) =
      worst_from (if is_worse e w then i else worst) (if is_worse e w then e else w) (suc i) es

  unfoldable pub evict_lowest_relevance : List (Entry F X) → List (Entry F X)
  evict_lowest_relevance [] = []
  evict_lowest_relevance (e ∷ es) =
      let worst = worst_from 0 e 1 es in take worst (e ∷ es) ++ drop (suc worst) (e ∷ es)

  abbrev pub evict_over : ℕ → List (Entry F X) → List (Entry F X)
  evict_over cap es = if ltb cap (length es) then evict_lowest_relevance es else es

  abbrev pub add_or_touch :
      ℕ → ℕ → Thresholds F → Entry F X → Option ℕ → Store F X → Bool × Store F X
  add_or_touch default_max now th e (some idx) s =
      (false, record s { entries = update_at idx (consolidate now th e) s.entries })
  add_or_touch default_max now th e none s = (
    true,
    record s {
      entries =
          evict_over (capacity default_max s.max_entries) (s.entries ++ completed now th e ∷ []);
    },
  )

  unfoldable pub add : ℕ → ℕ → Entry F X → Store F X → Bool × Store F X
  add default_max now e s =
      let th = resolved p s.thresholds in
      add_or_touch default_max now th e
        (consolidation_match p (facts s.entries) e.fact th.consolidation_jaccard_threshold) s

  unfoldable pub touch_entry : ℕ → ℕ → Thresholds F → Entry F X → Entry F X
  touch_entry now current_turn th e = record e {
    relevance = one p;
    last_touched_at = now;
    last_touched_turn = current_turn;
    touch_count = e.touch_count + 1;
    state = derive_state p (one p) e.created_turn current_turn th;
  }

  -- The loop of Touch: the entries and the number of those that match.
  unfoldable pub touch_entries :
      ℕ → (Text → Bool) → ℕ → Thresholds F → List (Entry F X) → List (Entry F X) × ℕ
  touch_entries now match current_turn th [] = ([], 0)
  touch_entries now match current_turn th (e ∷ es) =
      let (es', n) = touch_entries now match current_turn th es in
      if match e.fact then (touch_entry now current_turn th e ∷ es', suc n) else (e ∷ es', n)

  unfoldable pub touch : ℕ → Option (Text → Bool) → ℕ → Store F X → ℕ × Store F X
  touch now none current_turn s = (0, s)
  touch now (some match) current_turn s =
      let (es, n) = touch_entries now match current_turn s.thresholds s.entries in
      (n, record s { entries = es })

  unfoldable pub decay_entry : ℕ → Thresholds F → Entry F X → Entry F X
  decay_entry current_turn th e =
      let relevance =
        if is_fresh (derive_state p e.relevance e.created_turn current_turn th)
        then e.relevance
        else decayed_relevance p e.relevance th.decay_rate in
      record e {
        relevance = relevance;
        state = derive_state p relevance e.created_turn current_turn th;
      }

  -- Whether the decay changes the state that the entry is in at this turn.
  unfoldable pub flips : ℕ → Thresholds F → Entry F X → Bool
  flips current_turn th e = not (
      same_state (derive_state p e.relevance e.created_turn current_turn th)
        (decay_entry current_turn th e).state)

  unfoldable pub decay_entries : ℕ → Thresholds F → List (Entry F X) → List (Entry F X) × ℕ
  decay_entries current_turn th [] = ([], 0)
  decay_entries current_turn th (e ∷ es) =
      let (es', n) = decay_entries current_turn th es in
      (decay_entry current_turn th e ∷ es', if flips current_turn th e then suc n else n)

  unfoldable pub decay_all : ℕ → Store F X → ℕ × Store F X
  decay_all current_turn s =
      let (es, n) = decay_entries current_turn (resolved p s.thresholds) s.entries in
      (n, record s { entries = es })
