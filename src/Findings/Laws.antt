-- ===== src/Findings/Laws.antt =====
-- Laws of the findings of a session (app/internal/findings/findings.go).
use mathlib.Core.Path.{subst}
use shell_agent_v.Base.{
  ℕ, suc, ◌+◌, ◌≤◌, ◌<◌, ◌≡◌, refl, ap, sym, ◌∙◌, Bool, true, false, none, some, List, [], ◌∷◌,
  ◌++◌, length, ltb, ◌==◌, All, All-append, arith, inl, inr, Bool-cases, length-append, max,
  append_assoc,
}
use shell_agent_v.Text.{Text, has_prefix, trim_space, runes, member}
use shell_agent_v.Text.Laws.{text_eq_refl}
use shell_agent_v.Memory.Floats.{Platform}
use shell_agent_v.Findings.{
  Finding, Store, Moment, contents, capacity, evict_oldest, append_finding, new_finding, add,
  count_for_day, day_prefix, finding_id, max_numbered, delete_from,
}
use shell_agent_v.Findings.Similar.{is_same, is_same_as_any, is_duplicate}

capacity-positive : (s : Store) → 1 ≤ capacity s
unfolding capacity
capacity-positive s = ground arith

-- What the eviction keeps of a list that a finding has been appended to.
length-evict_oldest :
    (cap : ℕ) (fs : List Finding) (f : Finding)
    → length (evict_oldest cap (fs ++ f ∷ [])) ≤ max cap (length fs)
unfolding evict_oldest
length-evict_oldest cap [] f = ground arith
length-evict_oldest cap (g ∷ fs) f = elim (Bool-cases (ltb cap (length (g ∷ fs ++ f ∷ [])))) [
  | inl h ↦ rw h (omega (arith, length-append fs (f ∷ [])))
  | inr h ↦ rw h (ground (arith, h))
]

-- Each day's prefix, and the count of the findings that bear it.
abbrev pub IsOfDay : Text → Finding → Type 0
IsOfDay day f = has_prefix f.id (day_prefix day) ≡ true

count_for_day-All :
    (day : Text) (fs : List Finding) → All (IsOfDay day) fs → count_for_day day fs ≡ length fs
unfolding count_for_day
count_for_day-All day [] h = refl
count_for_day-All day (f ∷ fs) (q, h) = rw q (omega (arith, count_for_day-All day fs h))

has_prefix-append : (a b : Text) → has_prefix (a ++ b) a ≡ true
unfolding has_prefix
has_prefix-append [] b = refl
has_prefix-append (c ∷ a) b = ground (arith, has_prefix-append a b)

finding_id-IsOfDay :
    (random day : Text) (n : ℕ) → has_prefix (finding_id random day n) (day_prefix day) ≡ true
unfolding finding_id
finding_id-IsOfDay random day n = elim (Bool-cases (ltb max_numbered n)) [
  | inl h ↦ rw h (has_prefix-append (day_prefix day) _)
  | inr h ↦ rw h (has_prefix-append (day_prefix day) _)
]

module _ {F : Type 0} (p : Platform F) (is_letter_or_digit : ℕ → Bool) where
  -- What a call of Add that records has done.
  add-some :
      (now : Moment) (random content : Text) (tags : List Text) (source : Text) (orig : Bool)
      (s s' : Store) (f : Finding)
      → add p is_letter_or_digit now random content tags source orig s ≡ (some f, s')
      → (is_duplicate p is_letter_or_digit content (contents s.findings) ≡ false)
        × (f ≡ new_finding now random content tags source orig s.findings)
        × (s' ≡ append_finding f s)
  unfolding add
  add-some now r c tags source orig s s' f h =
      elim (Bool-cases (is_duplicate p is_letter_or_digit c (contents s.findings))) [
        | inl e ↦ ground (arith, e, h)
        | inr e ↦ ground (arith, e, h)
      ]

  is_same_refl : (c : Text) → is_same p is_letter_or_digit c c ≡ true
  unfolding is_same
  is_same_refl c = ground (arith, text_eq_refl c)

  is_same_as_any-last :
      (c : Text) (fs : List Finding) (f : Finding)
      → f.content ≡ c
      → is_same_as_any p is_letter_or_digit c (contents (fs ++ f ∷ [])) ≡ true
  unfolding is_same_as_any contents
  is_same_as_any-last c [] f e = rw e (ground (arith, is_same_refl c))
  is_same_as_any-last c (g ∷ fs) f e = ground (arith, is_same_as_any-last c fs f e)

  is_same_as_any-kept :
      (c : Text) (cap : ℕ) (fs : List Finding) (f : Finding)
      → 1 ≤ cap
      → f.content ≡ c
      → is_same_as_any p is_letter_or_digit c (contents (evict_oldest cap (fs ++ f ∷ []))) ≡ true
  unfolding evict_oldest
  is_same_as_any-kept c n [] f h e =
      let q : (ltb n 1 ≡ false) = ground (arith, h) in rw q (is_same_as_any-last c [] f e)
  is_same_as_any-kept c n (g ∷ fs) f h e = elim (Bool-cases (ltb n (length (g ∷ fs ++ f ∷ [])))) [
    | inl q ↦ rw q (is_same_as_any-last c fs f e)
    | inr q ↦ rw q (is_same_as_any-last c (g ∷ fs) f e)
  ]

  is_same_as_any-held :
      (c : Text) (f : Finding) (before after : List Finding)
      → f.content ≡ c
      → is_same_as_any p is_letter_or_digit c (contents (before ++ f ∷ after)) ≡ true
  unfolding is_same_as_any contents
  is_same_as_any-held c f [] after e = rw e (ground (arith, is_same_refl c))
  is_same_as_any-held c f (g ∷ before) after e =
      ground (arith, is_same_as_any-held c f before after e)

  -- A text that is no mere space and that Add has recorded is refused by the next call, and by a call
  -- on any later store as long as that store holds the finding that was recorded: the call gives nil
  -- and leaves the store as it is, whatever else it passes.
  pub add_again :
      (now : Moment) (random content : Text) (tags : List Text) (source : Text) (orig : Bool)
      (s s' : Store) (f : Finding)
      → add p is_letter_or_digit now random content tags source orig s ≡ (some f, s')
      → (length (trim_space (runes content)) == 0) ≡ false
      → (later : Moment) (random' : Text) (tags' : List Text) (source' : Text) (orig' : Bool)
      → (add p is_letter_or_digit later random' content tags' source' orig' s' ≡ (none, s'))
        × ((t : Store) (before after : List Finding)
            → t.findings ≡ before ++ f ∷ after
            → add p is_letter_or_digit later random' content tags' source' orig' t ≡ (none, t))
  unfolding add is_duplicate append_finding new_finding
  add_again now r c tags source orig s s' f h blank later r' tags' source' orig' =
      let (_, e, q) = add-some now r c tags source orig s s' f h in
      let same : (f.content ≡ c) = ground (arith, e) in
      let k = is_same_as_any-kept c (capacity s) s.findings f (capacity-positive s) same in
      (
        ground (arith, blank, k, q),
        λ t before after held.
            let found = is_same_as_any-held c f before after same in
            let shown =
              ap (λ fs. is_same_as_any p is_letter_or_digit c (contents fs)) held ∙ found in
            ground (arith, blank, shown),
      )

  -- Add leaves no more findings than the capacity of the store, or than it had before.
  pub add_fits :
      (now : Moment) (random content : Text) (tags : List Text) (source : Text) (orig : Bool)
      (s : Store)
      → length (add p is_letter_or_digit now random content tags source orig s).1.findings
        ≤ max (capacity s) (length s.findings)
  unfolding add append_finding
  add_fits now r c tags source orig s =
      elim (Bool-cases (is_duplicate p is_letter_or_digit c (contents s.findings))) [
        | inl e ↦ rw e (omega arith)
        | inr e ↦ rw e (length-evict_oldest (capacity s) s.findings _)
      ]

-- What the eviction does to a list that was at the capacity.
evict_oldest-full :
    (cap : ℕ) (g : Finding) (fs : List Finding) (f : Finding)
    → suc (length fs) ≡ cap
    → evict_oldest cap (g ∷ fs ++ f ∷ []) ≡ fs ++ f ∷ []
unfolding evict_oldest
evict_oldest-full n g fs f h =
    let q : (ltb n (length (g ∷ fs ++ f ∷ [])) ≡ true) =
      ground (arith, h, length-append fs (f ∷ [])) in
    rw q refl

finding_id-numbered :
    (random random' day : Text) (n : ℕ)
    → n ≤ max_numbered
    → finding_id random day n ≡ finding_id random' day n
unfolding finding_id
finding_id-numbered r r' day n h =
    let q : (ltb max_numbered n ≡ false) = ground (arith, h) in rw q refl

-- The findings after a call that records in a store at its capacity.
append_finding-full :
    (f g : Finding) (fs : List Finding) (s : Store)
    → s.findings ≡ g ∷ fs
    → suc (length fs) ≡ capacity s
    → ((append_finding f s).findings ≡ fs ++ f ∷ []) × (capacity (append_finding f s) ≡ capacity s)
unfolding append_finding capacity
append_finding-full f g fs s e h = (rw e (evict_oldest-full (capacity s) g fs f h), refl)

new_finding-id :
    (now : Moment) (random content : Text) (tags : List Text) (source : Text) (orig : Bool)
    (fs : List Finding) (n : ℕ)
    → count_for_day now.day fs ≡ n
    → (new_finding now random content tags source orig fs).id ≡ finding_id random now.day (suc n)
unfolding new_finding
new_finding-id now r c tags source orig fs n h = rw h

module _ {F : Type 0} (p : Platform F) (is_letter_or_digit : ℕ → Bool) where
  -- One step at the capacity: the id that the finding gets, and the findings after it.
  add-full :
      (now : Moment) (random content : Text) (tags : List Text) (source : Text) (orig : Bool)
      (s s' : Store) (f a : Finding) (fs : List Finding)
      → s.findings ≡ a ∷ fs
      → suc (length fs) ≡ capacity s
      → All (IsOfDay now.day) (a ∷ fs)
      → add p is_letter_or_digit now random content tags source orig s ≡ (some f, s')
      → (f.id ≡ finding_id random now.day (suc (capacity s)))
        × (s'.findings ≡ fs ++ f ∷ [])
        × (capacity s' ≡ capacity s)
  add-full now r c tags source orig s s' f a fs e n h k =
      let (_, x, y) = add-some p is_letter_or_digit now r c tags source orig s s' f k in
      let count : (count_for_day now.day s.findings ≡ capacity s) =
        ap (count_for_day now.day) e ∙ count_for_day-All now.day (a ∷ fs) h ∙ n in
      let (kept, same) = append_finding-full f a fs s e n in
      (
        ap (λ g. g.id) x ∙ new_finding-id now r c tags source orig s.findings (capacity s) count,
        rw y kept,
        rw y same,
      )

  -- In a store that holds as many findings as its capacity, from 2 to 998, all of one day, two
  -- findings of that day that Add records one after the other get the same id, and both stand in
  -- the store then.
  pub same_id_at_capacity :
      (now later : Moment) (random random' content content' : Text) (tags tags' : List Text)
      (source source' : Text) (orig orig' : Bool) (s s' s'' : Store) (f g a b : Finding)
      (fs : List Finding)
      → s.findings ≡ a ∷ b ∷ fs
      → suc (suc (length fs)) ≡ capacity s
      → capacity s < max_numbered
      → All (IsOfDay now.day) (a ∷ b ∷ fs)
      → later.day ≡ now.day
      → add p is_letter_or_digit now random content tags source orig s ≡ (some f, s')
      → add p is_letter_or_digit later random' content' tags' source' orig' s' ≡ (some g, s'')
      → (f.id ≡ g.id) × (s''.findings ≡ fs ++ (f ∷ (g ∷ [])))
  same_id_at_capacity now later r r' c c' tags tags' source source' orig orig' s s' s'' f g a b fs e
        n small (ha, (hb, h)) d k k' =
      let (id, kept, same) =
        add-full now r c tags source orig s s' f a (b ∷ fs) e n (ha, (hb, h)) k in
      let day : IsOfDay now.day f = rw id (finding_id-IsOfDay r now.day _) in
      let all = All-append (IsOfDay now.day) fs (f ∷ []) h (day, tt) in
      let (id', kept', _) =
        add-full later r' c' tags' source' orig' s' s'' g b (fs ++ f ∷ []) kept
          (omega (arith, n, same, length-append fs (f ∷ [])))
          (subst (λ x. All (IsOfDay x) (b ∷ fs ++ f ∷ [])) (sym d) (hb, all)) k' in
      (
        rw (id, id', same, d) (finding_id-numbered r r' now.day _ (omega (arith, small))),
        kept' ∙ append_assoc fs (f ∷ []) (g ∷ []),
      )

-- What DeleteByIDs keeps is not among the ids, and is with what it deletes as much as there was.
delete_from_lem :
    (ids : List Text) (fs : List Finding)
    → All (λ f. member f.id ids ≡ false) (delete_from ids fs).0
      × (length (delete_from ids fs).0 + (delete_from ids fs).1 ≡ length fs)
unfolding delete_from
delete_from_lem ids [] = (tt, refl)
delete_from_lem ids (f ∷ fs) =
    let (all, n) = delete_from_lem ids fs in
    elim (Bool-cases (member f.id ids)) [
      | inl e ↦ rw e (all, omega (arith, n))
      | inr e ↦ rw e ((e, all), omega (arith, n))
    ]
