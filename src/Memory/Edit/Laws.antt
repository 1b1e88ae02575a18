-- ===== src/Memory/Edit/Laws.antt =====
-- What the edits of a store do to a lookup (app/internal/memory/global_memory.go,
-- session_memory.go).
use shell_agent_v.Base.{
  ℕ, suc, ◌+◌, ◌≤◌, ◌≡◌, refl, ap, Bool, true, false, none, some, List, [], ◌∷◌, length,
  if◌then◌else◌, max, arith, inl, inr, Bool-cases,
}
use shell_agent_v.Text.{Text, ◌=ᵗ◌, member, runes, trim_space}
use shell_agent_v.Text.Laws.{text_eq→eq, text_eq_refl}
use shell_agent_v.Memory.Floats.{Platform}
use shell_agent_v.Memory.Lifecycle.{is_nil, consolidation_match, resolved}
use shell_agent_v.Memory.Store.{Entry, Store, add, capacity, facts, add_or_touch}
use shell_agent_v.Memory.Store.Eviction.{add_bound}
use shell_agent_v.Memory.Edit.{
  get_by_fact, set, set_entry, delete_by_facts, drop_facts, import_entries, valid_category,
  manual_entry, count_added,
}

module _ {F X : Type 0} (p : Platform F) (extra : X) where
  set_entry_found :
      (now : ℕ) (fact native category : Text) (es : List (Entry F X))
      → (e : Entry F X) × (get_by_fact fact (set_entry p extra now fact native category es)
          ≡ some e)
        × (e.fact ≡ fact)
        × (e.native_fact ≡ native)
        × (e.category ≡ category)
  unfolding set_entry get_by_fact
  set_entry_found now fact native category [] = (
    manual_entry p extra now fact native category,
    ground (arith, text_eq_refl fact),
    refl,
    refl,
    refl,
  )
  set_entry_found now fact native category (x ∷ es) = elim (Bool-cases (x.fact =ᵗ fact)) [
    | inl h ↦ (
      record x { native_fact = native; category = category },
      ground (arith, h),
      text_eq→eq x.fact fact h,
      refl,
      refl,
    )
    | inr h ↦
        (let (e, g, a, b, c) = set_entry_found now fact native category es in
          (e, ground (arith, h, g), a, b, c))
  ]

  -- After Set the fact is found, with the native fact that was given and the category that was
  -- given, or `decision` where that is no category of global memory.
  pub set_lem :
      (now : ℕ) (fact native category : Text) (s : Store F X)
      → (e : Entry F X) × (get_by_fact fact (set p extra now fact native category s).entries
          ≡ some e)
        × (e.fact ≡ fact)
        × (e.native_fact ≡ native)
        × (e.category ≡ valid_category category)
  unfolding set
  set_lem now fact native category s =
      set_entry_found now fact native (valid_category category) s.entries

  length-set_entry :
      (now : ℕ) (fact native category : Text) (es : List (Entry F X))
      → get_by_fact fact es ≡ none
      → length (set_entry p extra now fact native category es) ≡ suc (length es)
  unfolding set_entry get_by_fact
  length-set_entry now fact native category [] h = refl
  length-set_entry now fact native category (x ∷ es) h =
      ground (arith, length-set_entry now fact native category es)

  -- Set adds a fact that the store does not have also where the store is at its capacity: it evicts
  -- nothing.
  pub set_grows :
      (now : ℕ) (fact native category : Text) (s : Store F X)
      → get_by_fact fact s.entries ≡ none
      → length (set p extra now fact native category s).entries ≡ suc (length s.entries)
  unfolding set
  set_grows now fact native category s h =
      length-set_entry now fact native (valid_category category) s.entries h

module _ {F X : Type 0} where
  drop_facts-none :
      (facts : List Text) (fact : Text) (es : List (Entry F X))
      → member fact facts ≡ true
      → get_by_fact fact (drop_facts facts es).0 ≡ none
  unfolding drop_facts get_by_fact
  drop_facts-none facts fact [] h = refl
  drop_facts-none facts fact (e ∷ es) h = elim (Bool-cases (e.fact =ᵗ fact)) [
    | inl q ↦ ground (
      arith,
      q,
      ap (λ t. member t facts) (text_eq→eq e.fact fact q),
      drop_facts-none facts fact es,
    )
    | inr q ↦ ground (arith, q, drop_facts-none facts fact es)
  ]

  drop_facts_kept :
      (facts : List Text) (fact : Text) (es : List (Entry F X))
      → member fact facts ≡ false
      → get_by_fact fact (drop_facts facts es).0 ≡ get_by_fact fact es
  unfolding drop_facts get_by_fact
  drop_facts_kept facts fact [] h = refl
  drop_facts_kept facts fact (e ∷ es) h = elim (Bool-cases (e.fact =ᵗ fact)) [
    | inl q ↦ ground (
      arith,
      q,
      ap (λ t. member t facts) (text_eq→eq e.fact fact q),
      drop_facts_kept facts fact es,
    )
    | inr q ↦ ground (arith, q, drop_facts_kept facts fact es)
  ]

  drop_facts_count :
      (facts : List Text) (es : List (Entry F X))
      → (drop_facts facts es).1 + length (drop_facts facts es).0 ≡ length es
  unfolding drop_facts
  drop_facts_count facts [] = refl
  drop_facts_count facts (e ∷ es) = ground (arith, drop_facts_count facts es)

  -- After DeleteByFacts with a list that is not empty, the facts of the list are not found, every
  -- other fact is found as before, and the count is by how much the store has shrunk.
  pub delete_by_facts_lem :
      (facts : List Text) (fact : Text) (s : Store F X)
      → is_nil facts ≡ false
      → let (n, s') = delete_by_facts facts s in
        (get_by_fact fact s'.entries
          ≡ (if member fact facts then none else get_by_fact fact s.entries))
        × (n + length s'.entries ≡ length s.entries)
  unfolding delete_by_facts
  delete_by_facts_lem facts fact s h = ground (
    arith,
    drop_facts-none facts fact s.entries,
    drop_facts_kept facts fact s.entries,
    drop_facts_count facts s.entries,
  )

module _ {F X : Type 0} (p : Platform F) where
  count_added_sum :
      (r : Bool × Store F X) (c : ℕ × ℕ)
      → (count_added p r c).0 + (count_added p r c).1 ≡ suc (c.0 + c.1)
  count_added_sum (true, s) (a, b) = omega arith
  count_added_sum (false, s) (a, b) = omega arith

  add_keeps_max :
      (default_max now : ℕ) (e : Entry F X) (s : Store F X)
      → (add p default_max now e s).1.max_entries ≡ s.max_entries
  unfolding add
  add_keeps_max d now e s =
      elim (consolidation_match p (facts p s.entries) e.fact
          (resolved p s.thresholds).consolidation_jaccard_threshold)
        as (λ m.
          (add_or_touch p d now (resolved p s.thresholds) e m s).1.max_entries ≡ s.max_entries) [
            | none ↦ refl
            | some i ↦ refl
          ]

  grown :
      (d : ℕ) (s s' : Store F X) (n : ℕ)
      → s'.max_entries ≡ s.max_entries
      → length s'.entries ≤ max (capacity d s.max_entries) (length s.entries)
      → n ≤ max (capacity d s'.max_entries) (length s'.entries)
      → n ≤ max (capacity d s.max_entries) (length s.entries)
  grown d s s' n e h k = ground (arith, e, h, k)

  -- Import counts every entry once, as added or as skipped, and does not bring the store over its
  -- capacity, or over the size it had where that was more.
  pub import_entries_lem :
      (default_max now : ℕ) (es : List (Entry F X)) (s : Store F X)
      → let ((added, skipped), s') = import_entries p default_max now es s in
        (added + skipped ≡ length es)
        × (length s'.entries ≤ max (capacity default_max s.max_entries) (length s.entries))
  unfolding import_entries
  import_entries_lem d now [] s = (refl, omega arith)
  import_entries_lem d now (e ∷ es) s =
      let e' : Entry F X = record e { category = valid_category e.category } in
      let r = add p d now e' s in
      elim (Bool-cases (is_nil (trim_space (runes e.fact)))) [
        | inl h ↦ (let (a, b) = import_entries_lem d now es s in rw h (omega (arith, a), b))
        | inr h ↦
            (let (a, b) = import_entries_lem d now es r.1 in
              rw h (
                omega (arith, a, count_added_sum r (import_entries p d now es r.1).0),
                grown d s r.1 _ (add_keeps_max d now e' s) (add_bound p d now e' s) b,
              ))
      ]
