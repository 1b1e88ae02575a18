-- ===== src/Memory/Edit.antt =====
-- Set, Delete, DeleteByFacts, Get, GetByFact and Import of the memory stores
-- (app/internal/memory/global_memory.go, session_memory.go).
pub mod Laws
use shell_agent_v.Base.{
  ℕ, zero, suc, ◌+◌, Bool, true, false, not, ◌&&◌, ◌||◌, Option, none, some, List, [], ◌∷◌, ◌++◌,
  get_elem?, if◌then◌else◌,
}
use shell_agent_v.Text.{Text, codes, ◌=ᵗ◌, member, runes, trim_space}
use shell_agent_v.Memory.Floats.{Platform, one}
use shell_agent_v.Memory.Lifecycle.{active, is_nil}
use shell_agent_v.Memory.Store.{Entry, Store, add}

-- DefaultMaxGlobalMemory
abbrev pub default_max_global_memory : ℕ
default_max_global_memory = 100

unfoldable pub is_global_category : Text → Bool
unfolding ◌=ᵗ◌
is_global_category c = c =ᵗ codes "preference" || c =ᵗ codes "decision"

abbrev pub valid_category : Text → Text
valid_category c = if is_global_category c then c else codes "decision"

module _ {F X : Type 0} where
  unfoldable pub get_by_fact : Text → List (Entry F X) → Option (Entry F X)
  unfolding ◌=ᵗ◌
  get_by_fact fact [] = none
  get_by_fact fact (e ∷ es) = if e.fact =ᵗ fact then some e else get_by_fact fact es

  unfoldable pub get : ℕ → Store F X → Option (Entry F X)
  get index s = get_elem? s.entries index

  -- The entries without the first one of that fact, and whether there was one.
  unfoldable pub delete_entry : Text → List (Entry F X) → Bool × List (Entry F X)
  unfolding ◌=ᵗ◌
  delete_entry fact [] = (false, [])
  delete_entry fact (e ∷ es) =
      let (found, es') = delete_entry fact es in
      if e.fact =ᵗ fact then (true, es) else (found, e ∷ es')

  unfoldable pub delete : Text → Store F X → Bool × Store F X
  unfolding delete_entry
  delete fact s =
      let (found, es) = delete_entry fact s.entries in (found, record s { entries = es })

  unfoldable pub drop_facts : List Text → List (Entry F X) → List (Entry F X) × ℕ
  unfolding member
  drop_facts facts [] = ([], 0)
  drop_facts facts (e ∷ es) =
      let (kept, deleted) = drop_facts facts es in
      if member e.fact facts then (kept, suc deleted) else (e ∷ kept, deleted)

  unfoldable pub delete_by_facts : List Text → Store F X → ℕ × Store F X
  unfolding drop_facts
  delete_by_facts facts s =
      let (kept, deleted) = drop_facts facts s.entries in
      if is_nil facts then (0, s) else (deleted, record s { entries = kept })

  module _ (p : Platform F) (extra : X) where
    abbrev pub manual_entry : ℕ → Text → Text → Text → Entry F X
    manual_entry now fact native category = record {
      fact = fact;
      native_fact = native;
      category = category;
      source_time = now;
      created_at = now;
      source_turn_index = extra;
      source = codes "manual";
      tool_originated = false;
      relevance = one p;
      created_turn = 0;
      last_touched_at = now;
      last_touched_turn = 0;
      touch_count = 0;
      state = active;
    }

    -- The loop of Set: the first entry of that fact is changed, or a new one is appended.
    unfoldable pub set_entry : ℕ → Text → Text → Text → List (Entry F X) → List (Entry F X)
    unfolding ◌=ᵗ◌
    set_entry now fact native category [] = manual_entry now fact native category ∷ []
    set_entry now fact native category (e ∷ es) =
        let rest = set_entry now fact native category es in
        if e.fact =ᵗ fact
        then record e { native_fact = native; category = category } ∷ es
        else e ∷ rest

    unfoldable pub set : ℕ → Text → Text → Text → Store F X → Store F X
    unfolding set_entry is_global_category
    set now fact native category s = record s {
      entries = set_entry now fact native (valid_category category) s.entries;
    }

  module _ (p : Platform F) where
    abbrev pub count_added : Bool × Store F X → ℕ × ℕ → ℕ × ℕ
    count_added (true, s) (added, skipped) = (suc added, skipped)
    count_added (false, s) (added, skipped) = (added, suc skipped)

    -- The loop of Import: the counts of the added and the skipped, and the store.
    unfoldable pub import_entries : ℕ → ℕ → List (Entry F X) → Store F X → (ℕ × ℕ) × Store F X
    unfolding trim_space runes is_global_category
    import_entries default_max now [] s = ((0, 0), s)
    import_entries default_max now (e ∷ es) s =
        let is_blank = is_nil (trim_space (runes e.fact)) in
        let result =
          if is_blank
          then (false, s)
          else add p default_max now (record e { category = valid_category e.category }) s in
        let rest = import_entries default_max now es result.1 in (count_added result rest.0, rest.1)
