-- ===== src/Memory/Store/Eviction.antt =====
-- Add and the eviction (app/internal/memory/session_memory.go, global_memory.go).
use shell_agent_v.Base.{
  ℕ, zero, suc, ◌+◌, ◌≤◌, ◌<◌, ◌≡◌, ◌⊎◌, refl, Bool, true, false, ◌&&◌, ◌||◌, Option, none, some,
  List, [], ◌∷◌, ◌++◌, length, ltb, ◌==◌, get_elem?, take, drop, All, arith, inl, inr, Bool-cases,
  length-append, length-take, length-drop, max,
}
use shell_agent_v.Memory.Floats.{Platform, IsOrdered}
use shell_agent_v.Memory.Lifecycle.{Thresholds}
use shell_agent_v.Memory.Store.{
  Entry, Store, rank, is_worse, worst_from, evict_lowest_relevance, update_at, evict_over, add,
  add_or_touch, capacity,
}

module _ {F X : Type 0} (p : Platform F) where
  -- Whether an entry has a lower rank, or the same rank and a lower relevance.
  abbrev pub is_lower : Entry F X → Entry F X → Bool
  is_lower x v =
      ltb (rank x.state) (rank v.state)
      || rank x.state == rank v.state && p.lt x.relevance v.relevance

  -- Where the entry that the loop picks stands: it is the one that the loop began with, or in the
  -- list that the loop walks.
  Place : ℕ → Entry F X → ℕ → List (Entry F X) → ℕ → Entry F X → Type 0
  Place worst w i es k v =
      ((k ≡ worst) × (v ≡ w)) ⊎ ((j : ℕ) × (k ≡ i + j) × (get_elem? es j ≡ some v))

  -- What the loop finds: an entry that none is lower than.
  record Found (worst : ℕ) (w : Entry F X) (i : ℕ) (es : List (Entry F X)) (k : ℕ) : Type 0 where
    victim : Entry F X
    place : Place worst w i es k victim
    lowest : All (λ x. is_lower x victim ≡ false) es
    below : (x : Entry F X) → is_lower x w ≡ false → is_lower x victim ≡ false

  module _ (laws : IsOrdered p) where
    not_lower_itself : (e : Entry F X) → is_lower e e ≡ false
    not_lower_itself e = ground (arith, laws.lt_irrefl e.relevance)

    replaces :
        (x e w : Entry F X) → is_worse p e w ≡ true → is_lower x w ≡ false → is_lower x e ≡ false
    unfolding is_worse
    replaces x e w h k = ground (
      arith,
      laws.lt_trans x.relevance e.relevance w.relevance,
      laws.lt_eq x.relevance e.relevance w.relevance,
    )

    keeps : (e w : Entry F X) → is_worse p e w ≡ false → is_lower e w ≡ false
    unfolding is_worse
    keeps e w h = ground arith

    Place-replaced :
        (worst : ℕ) (w : Entry F X) (i : ℕ) (e : Entry F X) (es : List (Entry F X)) (k : ℕ)
        (v : Entry F X)
        → Place i e (suc i) es k v
        → Place worst w i (e ∷ es) k v
    unfolding Place
    Place-replaced worst w i e es k v (inl (a, b)) = inr (0, omega (arith, a), ground (arith, b))
    Place-replaced worst w i e es k v (inr (j, a, b)) = inr (suc j, omega (arith, a), b)

    Place-kept :
        (worst : ℕ) (w : Entry F X) (i : ℕ) (e : Entry F X) (es : List (Entry F X)) (k : ℕ)
        (v : Entry F X)
        → Place worst w (suc i) es k v
        → Place worst w i (e ∷ es) k v
    unfolding Place
    Place-kept worst w i e es k v (inl h) = inl h
    Place-kept worst w i e es k v (inr (j, a, b)) = inr (suc j, omega (arith, a), b)

    worst_from-Found :
        (worst : ℕ) (w : Entry F X) (i : ℕ) (es : List (Entry F X))
        → Found worst w i es (worst_from p worst w i es)
    unfolding worst_from
    worst_from-Found worst w i [] = record {
      victim = w;
      place = (unfold Place in inl (refl, refl));
      lowest = tt;
      below = λ x h. h;
    }
    worst_from-Found worst w i (e ∷ es) = elim (Bool-cases (is_worse p e w)) [
      | inl h ↦
          (let f = worst_from-Found i e (suc i) es in
            rw h (record {
              victim = f.victim;
              place = Place-replaced worst w i e es _ f.victim f.place;
              lowest = (f.below e (not_lower_itself e), f.lowest);
              below = λ x k. f.below x (replaces x e w h k);
            }))
      | inr h ↦
          (let f = worst_from-Found worst w (suc i) es in
            rw h (record {
              victim = f.victim;
              place = Place-kept worst w i e es _ f.victim f.place;
              lowest = (f.below e (keeps e w h), f.lowest);
              below = f.below;
            }))
    ]

    -- What the eviction leaves of a list: all but the victim, at its index.
    Place-start :
        (e : Entry F X) (es : List (Entry F X)) (k : ℕ) (v : Entry F X)
        → Place 0 e 1 es k v
        → get_elem? (e ∷ es) k ≡ some v
    unfolding Place
    Place-start e es k v (inl (a, b)) = ground (arith, a, b)
    Place-start e es k v (inr (j, a, b)) = ground (arith, a, b)

  -- The eviction takes one entry out of a store that is not empty, and leaves the others in their
  -- order: no entry of the store has a lower rank than the one taken, nor the same rank and a lower
  -- relevance.
  pub evict_lowest_relevance_lem :
      IsOrdered p
      → (e : Entry F X) (es : List (Entry F X))
      → (k : ℕ) × (v : Entry F X) × (get_elem? (e ∷ es) k ≡ some v)
        × (evict_lowest_relevance p (e ∷ es) ≡ take k (e ∷ es) ++ drop (suc k) (e ∷ es))
        × All (λ x. is_lower x v ≡ false) (e ∷ es)
  unfolding evict_lowest_relevance
  evict_lowest_relevance_lem laws e es =
      let f = worst_from-Found laws 0 e 1 es in
      (
        worst_from p 0 e 1 es,
        f.victim,
        Place-start laws e es _ f.victim f.place,
        refl,
        (f.below e (not_lower_itself laws e), f.lowest),
      )

  worst_from_bound :
      (worst : ℕ) (w : Entry F X) (i : ℕ) (es : List (Entry F X))
      → worst < i
      → worst_from p worst w i es < i + length es
  unfolding worst_from
  worst_from_bound worst w i [] h = omega (arith, h)
  worst_from_bound worst w i (e ∷ es) h = elim (Bool-cases (is_worse p e w)) [
    | inl q ↦ rw q (omega (arith, worst_from_bound i e (suc i) es (omega arith)))
    | inr q ↦ rw q (omega (arith, worst_from_bound worst w (suc i) es (omega (arith, h))))
  ]

  length-evict :
      (e : Entry F X) (es : List (Entry F X))
      → length (evict_lowest_relevance p (e ∷ es)) ≡ length es
  unfolding evict_lowest_relevance
  length-evict e es =
      let k = worst_from p 0 e 1 es in
      omega (
        arith,
        worst_from_bound 0 e 1 es (omega arith),
        length-append (take k (e ∷ es)) (drop (suc k) (e ∷ es)),
        length-take k (e ∷ es),
        length-drop (suc k) (e ∷ es),
      )

  evict_over-cons :
      (cap : ℕ) (e : Entry F X) (es : List (Entry F X))
      → length (evict_over p cap (e ∷ es)) ≤ max cap (length es)
  evict_over-cons cap e es = elim (Bool-cases (ltb cap (length (e ∷ es)))) [
    | inl h ↦ rw h (omega (arith, length-evict e es))
    | inr h ↦ rw h (ground arith)
  ]

  evict_over_bound :
      (cap : ℕ) (es : List (Entry F X)) (x : Entry F X)
      → length (evict_over p cap (es ++ x ∷ [])) ≤ max cap (length es)
  evict_over_bound cap [] x = evict_over-cons cap x []
  evict_over_bound cap (e ∷ es) x =
      omega (arith, evict_over-cons cap e (es ++ x ∷ []), length-append es (x ∷ []))

  length-update_at :
      (i : ℕ) (f : Entry F X → Entry F X) (es : List (Entry F X))
      → length (update_at i f es) ≡ length es
  unfolding update_at
  length-update_at i f [] = refl
  length-update_at zero f (x ∷ xs) = refl
  length-update_at (suc i) f (x ∷ xs) = omega (arith, length-update_at i f xs)

  add_or_touch_bound :
      (default_max now : ℕ) (th : Thresholds F) (e : Entry F X) (m : Option ℕ) (s : Store F X)
      → length (add_or_touch p default_max now th e m s).1.entries
        ≤ max (capacity default_max s.max_entries) (length s.entries)
  add_or_touch_bound d now th e (some i) s = omega (arith, length-update_at i _ s.entries)
  add_or_touch_bound d now th e none s = evict_over_bound _ s.entries _

  -- Add leaves no more entries than the capacity of the store, or than it had before where that was
  -- more.
  pub add_bound :
      (default_max now : ℕ) (e : Entry F X) (s : Store F X)
      → length (add p default_max now e s).1.entries
        ≤ max (capacity default_max s.max_entries) (length s.entries)
  unfolding add
  add_bound d now e s = add_or_touch_bound d now _ e _ s
