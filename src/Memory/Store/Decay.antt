-- ===== src/Memory/Store/Decay.antt =====
-- DecayAll and Touch (app/internal/memory/session_memory.go, global_memory.go).
use shell_agent_v.Base.{
  ℕ, zero, suc, ◌+◌, ◌≡◌, refl, Bool, true, false, some, List, [], ◌∷◌, if◌then◌else◌, get_elem?,
  arith,
}
use shell_agent_v.Text.{Text}
use shell_agent_v.Memory.Floats.{Platform, one}
use shell_agent_v.Memory.Lifecycle.{Thresholds, derive_state}
use shell_agent_v.Memory.Store.{Entry, Store, touch, touch_entry, touch_entries}

module _ {F X : Type 0} (p : Platform F) where
  -- What the decay makes of one entry at a turn: another state and relevance, and nothing else.
  abbrev pub IsDecayed : ℕ → Thresholds F → Entry F X → Entry F X → Type 0
  IsDecayed turn th e e' =
      (e' ≡ record e { relevance = e'.relevance; state = e'.state })
      × (e'.state ≡ derive_state p e'.relevance e'.created_turn turn th)
      × (p.le e'.relevance e.relevance ≡ true)

  -- The entries whose fact a predicate accepts.
  abbrev pub count_matching : (Text → Bool) → List (Entry F X) → ℕ
  count_matching match [] = 0
  count_matching match (e ∷ es) = (if match e.fact then 1 else 0) + count_matching match es

  abbrev pub touched_or_kept : ℕ → (Text → Bool) → ℕ → Thresholds F → Entry F X → Entry F X
  touched_or_kept now match turn th e = if match e.fact then touch_entry p now turn th e else e

  touch_entries_lem :
      (now : ℕ) (match : Text → Bool) (turn : ℕ) (th : Thresholds F) (es : List (Entry F X)) (i : ℕ)
      (e : Entry F X)
      → get_elem? es i ≡ some e
      → get_elem? (touch_entries p now match turn th es).0 i
        ≡ some (touched_or_kept now match turn th e)
  unfolding touch_entries
  touch_entries_lem now match turn th [] i e h = cc
  touch_entries_lem now match turn th (x ∷ es) zero e h = ground (arith, h)
  touch_entries_lem now match turn th (x ∷ es) (suc i) e h =
      ground (arith, touch_entries_lem now match turn th es i e)

  touch_entries_count :
      (now : ℕ) (match : Text → Bool) (turn : ℕ) (th : Thresholds F) (es : List (Entry F X))
      → (touch_entries p now match turn th es).1 ≡ count_matching match es
  unfolding touch_entries
  touch_entries_count now match turn th [] = refl
  touch_entries_count now match turn th (x ∷ es) =
      ground (arith, touch_entries_count now match turn th es)

  -- Touch reports how many entries the predicate accepts. An accepted entry gets the relevance one
  -- and the state that DeriveState gives for it; an entry that is not accepted is left as it is.
  pub touch_lem :
      (now : ℕ) (match : Text → Bool) (turn : ℕ) (s : Store F X) (i : ℕ) (e : Entry F X)
      → get_elem? s.entries i ≡ some e
      → (e' : Entry F X) × (get_elem? (touch p now (some match) turn s).1.entries i ≡ some e')
        × ((touch p now (some match) turn s).0 ≡ count_matching match s.entries)
        × (if match e.fact
            then (e'.relevance ≡ one p)
              × (e'.state ≡ derive_state p (one p) e.created_turn turn s.thresholds)
            else (e' ≡ e))
  unfolding touch touch_entry
  touch_lem now match turn s i e h = (
    touched_or_kept now match turn s.thresholds e,
    touch_entries_lem now match turn s.thresholds s.entries i e h,
    touch_entries_count now match turn s.thresholds s.entries,
    elim (match e.fact)
        as (λ b.
          if b
          then ((if b then touch_entry p now turn s.thresholds e else e).relevance ≡ one p)
            × ((if b then touch_entry p now turn s.thresholds e else e).state
                ≡ derive_state p (one p) e.created_turn turn s.thresholds)
          else ((if b then touch_entry p now turn s.thresholds e else e) ≡ e)) [
            | true ↦ (refl, refl)
            | false ↦ refl
          ],
  )
