-- ===== src/Objects/Laws.antt =====
-- Laws of the object store (app/internal/objstore/objstore.go).
use mathlib.Core.Path.{subst}
use shell_agent_v.Base.{
  ℕ, ◌≡◌, ◌⊎◌, refl, sym, ap, ◌∙◌, Bool, true, false, ◌&&◌, none, some, List, [], ◌∷◌, take,
  if◌then◌else◌, arith, inl, inr, Bool-cases, Option-cases,
}
use shell_agent_v.Text.{Text, ◌=ᵗ◌}
use shell_agent_v.Text.Laws.{text_eq→eq}
use shell_agent_v.Dict.{
  Dict, find, put, remove, find-put, find-put_other, find-remove, find-remove_other,
  find-remove-put,
}
use shell_agent_v.Objects.{
  ObjectType, ObjectMeta, Store, Disk, Result, ok, failed, Failure, save_failed, no_directory,
  no_content, no_fresh_id, write_failed, fresh_id, placeholder, reserve, new_meta, save, commit,
  store, get, delete, after_failure,
}

fresh_id_lem :
    (cs : List Text) (index : Dict ObjectMeta) (id : Text)
    → fresh_id cs index ≡ some id
    → find id index ≡ none
unfolding fresh_id
fresh_id_lem [] index id h = ground (arith, h)
fresh_id_lem (c ∷ cs) index id h = elim (Option-cases (find c index)) [
  | inl e ↦ ground (arith, e, h)
  | inr (m, e) ↦ fresh_id_lem cs index id (ground (arith, e, h))
]

-- What a reservation does: the id was free, and bears the placeholder.
reserve_lem :
    (cs : List Text) (s s' : Store) (id : Text)
    → reserve cs s ≡ some (id, s')
    → (get id s ≡ none) × (s' ≡ record s { index = put id (placeholder id) s.index })
unfolding reserve get
reserve_lem cs s s' id h = elim (Option-cases (fresh_id (take 3 cs) s.index)) [
  | inl e ↦ ground (arith, e, h)
  | inr (c, e) ↦ let free = fresh_id_lem (take 3 cs) s.index c e in ground (arith, e, h, free)
]

-- What a deletion leaves of a lookup.
pub get-delete :
    (disk : Disk) (id j : Text) (s : Store)
    → get j (delete disk id s).1 ≡ (if id =ᵗ j then none else get j s)
unfolding get delete save
get-delete disk id j s = elim (Bool-cases (id =ᵗ j)) [
  | inl e ↦
      let gone = find-remove id s.index in
      let same = text_eq→eq id j e in
      elim (Bool-cases (disk.makes_dir && disk.saves)) [
        | inl q ↦ ground (arith, q, e, gone, same)
        | inr q ↦ ground (arith, q, e, gone, same)
      ]
  | inr e ↦
      let kept = find-remove_other id j s.index e in
      elim (Bool-cases (disk.makes_dir && disk.saves)) [
        | inl q ↦ ground (arith, q, e, kept)
        | inr q ↦ ground (arith, q, e, kept)
      ]
]

pub files-delete :
    (disk : Disk) (id j : Text) (s : Store)
    → find j (delete disk id s).1.files ≡ (if id =ᵗ j then none else find j s.files)
unfolding delete save
files-delete disk id j s = elim (Bool-cases (id =ᵗ j)) [
  | inl e ↦
      let gone = find-remove id s.files in
      let same = text_eq→eq id j e in
      elim (Bool-cases (disk.makes_dir && disk.saves)) [
        | inl q ↦ ground (arith, q, e, gone, same)
        | inr q ↦ ground (arith, q, e, gone, same)
      ]
  | inr e ↦
      let kept = find-remove_other id j s.files e in
      elim (Bool-cases (disk.makes_dir && disk.saves)) [
        | inl q ↦ ground (arith, q, e, kept)
        | inr q ↦ ground (arith, q, e, kept)
      ]
]

-- A deletion writes the index file, where that can be written.
pub saved-delete :
    (disk : Disk) (id : Text) (s : Store)
    → (disk.makes_dir && disk.saves) ≡ true
    → (delete disk id s).1.saved ≡ some (delete disk id s).1.index
unfolding delete save
saved-delete disk id s h = ground (arith, h)

-- What other calls may do to the store meanwhile: they reserve ids, write data files, enter or give
-- up an id, or delete one, all of which is another id but in the reservations.
pub data Meanwhile (id : Text) : Store → Store → Type 0 where
  idle : {s : Store} → Meanwhile id s s
  reserves :
      {s t u : Store}
      → (j : Text) (cs : List Text) → Meanwhile id s t
      → reserve cs t ≡ some (j, u)
      → Meanwhile id s u
  writes_files :
      {s t : Store}
      → (files : Dict Text) → Meanwhile id s t
      → Meanwhile id s (record t { files = files })
  commits :
      {s t : Store}
      → (disk : Disk) (meta : ObjectMeta) → (meta.id =ᵗ id) ≡ false
      → Meanwhile id s t
      → Meanwhile id s (commit disk meta t).1
  gives_up :
      {s t : Store}
      → (j : Text) → (j =ᵗ id) ≡ false
      → Meanwhile id s t
      → Meanwhile id s (record t { index = remove j t.index })
  deletes :
      {s t : Store}
      → (disk : Disk) (j : Text) → (j =ᵗ id) ≡ false
      → Meanwhile id s t
      → Meanwhile id s (delete disk j t).1

distinct_from_taken :
    (cs : List Text) (s s' : Store) (id id' : Text) (m : ObjectMeta)
    → get id s ≡ some m
    → reserve cs s ≡ some (id', s')
    → (id' =ᵗ id) ≡ false
unfolding get
distinct_from_taken cs s s' id id' m taken h = elim (Bool-cases (id' =ᵗ id)) [
  | inr e ↦ e
  | inl e ↦
      let (free, _) = reserve_lem cs s s' id' h in
      let same = text_eq→eq id' id e in ground (arith, free, taken, same)
]

get-commit_other :
    (disk : Disk) (meta : ObjectMeta) (id : Text) (s : Store)
    → (meta.id =ᵗ id) ≡ false
    → get id (commit disk meta s).1 ≡ get id s
unfolding get commit save
get-commit_other disk meta id s h =
    let kept = find-put_other meta.id id meta s.index h in
    elim (Bool-cases (disk.makes_dir && disk.saves)) [
      | inl e ↦ ground (arith, e, kept)
      | inr e ↦ ground (arith, e, kept)
    ]

get-Meanwhile :
    (id : Text) (m : ObjectMeta) {s t : Store}
    → Meanwhile id s t
    → get id s ≡ some m
    → get id t ≡ some m
unfolding get
get-Meanwhile id m idle h = h
get-Meanwhile id m (reserves {s} {t} {u} j cs w k) h =
    let before = get-Meanwhile id m w h in
    let (_, q) = reserve_lem cs t u j k in
    let other = distinct_from_taken cs t u id j m before k in
    ap (get id) q ∙ find-put_other j id (placeholder j) t.index other ∙ before
get-Meanwhile id m (writes_files files w) h = get-Meanwhile id m w h
get-Meanwhile id m (commits {s} {t} disk meta k w) h =
    get-commit_other disk meta id t k ∙ get-Meanwhile id m w h
get-Meanwhile id m (gives_up {s} {t} j k w) h =
    find-remove_other j id t.index k ∙ get-Meanwhile id m w h
get-Meanwhile id m (deletes {s} {t} disk j k w) h =
    get-delete disk j id t ∙ rw k (get-Meanwhile id m w h)

-- Between the two locks of a call of Store, whatever other calls do meanwhile with other ids, the
-- index has the placeholder of the id that it has reserved, and no call is given that id.
pub reserve_distinct :
    (cs cs' : List Text) (s s' t t' : Store) (id id' : Text)
    → reserve cs s ≡ some (id, s')
    → Meanwhile id s' t
    → (get id t ≡ some (placeholder id)) × (reserve cs' t ≡ some (id', t') → (id' =ᵗ id) ≡ false)
reserve_distinct cs cs' s s' t t' id id' h w =
    let (_, q) = reserve_lem cs s s' id h in
    let at_first : (get id s' ≡ some (placeholder id)) =
      ap (get id) q ∙ (unfold get in find-put id (placeholder id) s.index) in
    let held = get-Meanwhile id (placeholder id) w at_first in
    (held, λ k. distinct_from_taken cs' t t' id id' (placeholder id) held k)

abbrev pub is_save_failure : Failure → Bool
is_save_failure save_failed = true
is_save_failure _ = false

new_meta-id :
    (id : Text) (t : ObjectType) (mime name session : Text) (now : ℕ) (content : Text)
    → (new_meta id t mime name session now content).id ≡ id
unfolding new_meta
new_meta-id id t mime name session now content = refl

-- What `commit` does to a store.
commit-ok :
    (disk : Disk) (meta m : ObjectMeta) (s s' : Store)
    → commit disk meta s ≡ (ok m, s')
    → (m ≡ meta)
      × (s'.index ≡ put meta.id meta s.index)
      × (s'.files ≡ s.files)
      × (s'.saved ≡ some s'.index)
unfolding commit save
commit-ok disk meta m s s' h = elim (Bool-cases (disk.makes_dir && disk.saves)) [
  | inl e ↦ ground (arith, e, h)
  | inr e ↦ ground (arith, e, h)
]

commit-failed :
    (disk : Disk) (meta : ObjectMeta) (s s' : Store) (e : Failure)
    → commit disk meta s ≡ (failed e, s')
    → is_save_failure e ≡ true
unfolding commit save
commit-failed disk meta s s' e h = elim (Bool-cases (disk.makes_dir && disk.saves)) [
  | inl q ↦ ground (arith, q, h)
  | inr q ↦ ground (arith, q, h)
]

module _ (disk : Disk) (candidates : List Text) (now : ℕ) (content : Text) (t : ObjectType)
    (mime name session : Text) (s : Store) where
  -- The store after a reservation whose data file has been written.
  written : Text → Store → Store
  written id s' = record s' { files = put id content s'.files }

  -- The store after a write that has failed.
  unwritten : Text → Store → Store
  unwritten id s' = record s' {
    index = remove id s'.index;
    files = after_failure id disk.leaves s'.files;
  }

  -- What each way through Store has done.
  Ways : Result ObjectMeta × Store → Type 0
  Ways r =
      ((e : Failure) × (r ≡ (failed e, s)))
      ⊎ ((id : Text) × (s' : Store) × (reserve candidates s ≡ some (id, s'))
          × ((r ≡ (failed write_failed, unwritten id s'))
              ⊎ (r ≡ commit disk (new_meta id t mime name session now content) (written id s'))))

  store-Ways : Ways (store disk candidates now content t mime name session s)
  unfolding Ways store written unwritten
  store-Ways = elim (Bool-cases disk.makes_dir) [
    | inr a ↦ inl (no_directory, ground (arith, a))
    | inl a ↦ elim (Bool-cases disk.reads) [
      | inr b ↦ inl (no_content, ground (arith, a, b))
      | inl b ↦ elim (Option-cases (reserve candidates s)) [
        | inl c ↦ inl (no_fresh_id, ground (arith, a, b, c))
        | inr ((id, s'), c) ↦ elim (Bool-cases disk.writes) [
          | inl d ↦ inr (id, s', c, inr (ground (arith, a, b, c, d)))
          | inr d ↦ inr (id, s', c, inl (ground (arith, a, b, c, d)))
        ]
      ]
    ]
  ]

  -- Where Store returns an entry, its id was free; it is in the index and in the index file then,
  -- and its data file holds the content.
  pub store-ok :
      (m : ObjectMeta) (s' : Store)
      → store disk candidates now content t mime name session s ≡ (ok m, s')
      → (m ≡ new_meta m.id t mime name session now content)
        × (get m.id s ≡ none)
        × (get m.id s' ≡ some m)
        × (find m.id s'.files ≡ some content)
        × (s'.saved ≡ some s'.index)
  unfolding Ways get written
  store-ok m s' h = elim store-Ways [
    | inl (e, q) ↦ ground (arith, q, h)
    | inr (id, r, k, inl q) ↦ ground (arith, q, h)
    | inr (id, r, k, inr q) ↦
        let meta = new_meta id t mime name session now content in
        let (a, b, c, d) = commit-ok disk meta m (written id r) s' (sym q ∙ h) in
        let (free, e) = reserve_lem candidates s r id k in
        let same : (m.id ≡ id) =
          ap (λ x. x.id) a ∙ new_meta-id id t mime name session now content in
        (
          subst (λ x. m ≡ new_meta x t mime name session now content) (sym same) a,
          rw same free,
          rw (b, a) (find-put meta.id meta r.index),
          rw (same, c) (find-put id content r.files),
          d,
        )
  ]

  find-unwritten :
      (id j : Text) (s' : Store)
      → (find j (unwritten id s').files ≡ find j s'.files) ⊎ ((id =ᵗ j) ≡ true)
  unfolding unwritten
  find-unwritten id j s' = elim (Option-cases disk.leaves) [
    | inl e ↦ inl (ground (arith, e))
    | inr (part, e) ↦ elim (Bool-cases (id =ᵗ j)) [
      | inl q ↦ inr q
      | inr q ↦
          inl
            (ap (λ o. find j (after_failure id o s'.files)) e ∙ find-put_other id j part s'.files q)
    ]
  ]

  -- Where Store fails, other than by the writing of the index file, every id has the entry that it
  -- had, or none, and every data file is as it was; only where the writing of the data file has
  -- failed, a file of an id that has no entry may be changed.
  pub store-failed :
      (e : Failure) (s' : Store) (j : Text)
      → store disk candidates now content t mime name session s ≡ (failed e, s')
      → is_save_failure e ≡ false
      → (get j s' ≡ get j s)
        × ((find j s'.files ≡ find j s.files) ⊎ ((get j s ≡ none) × (e ≡ write_failed)))
  unfolding Ways get
  store-failed e s' j h k = elim store-Ways [
    | inl (_, q) ↦ (ground (arith, q, h), inl (ground (arith, q, h)))
    | inr (id, r, c, inl q) ↦
        let (free, x) = reserve_lem candidates s r id c in
        let back = find-remove-put id (placeholder id) s.index j free in
        let stays : (r.files ≡ s.files) = ap (λ y. y.files) x in
        let ends : (s' ≡ unwritten id r) = ap (λ y. y.1) (sym h ∙ q) in
        let failure : (e ≡ write_failed) = ground (arith, q, h) in
        (
          ap (get j) ends ∙ (unfold unwritten in ap (λ y. find j (remove id y.index)) x ∙ back),
          elim (find-unwritten id j r) [
            | inl kept ↦ inl (ap (λ y. find j y.files) ends ∙ kept ∙ ap (find j) stays)
            | inr same ↦ inr (ap (λ y. get y s) (sym (text_eq→eq id j same)) ∙ free, failure)
          ],
        )
    | inr (id, r, c, inr q) ↦
        let bad = commit-failed disk _ (written id r) s' e (sym q ∙ h) in ground (arith, bad, k)
  ]

  -- And the index file is as it was.
  pub saved-store-failed :
      (e : Failure) (s' : Store)
      → store disk candidates now content t mime name session s ≡ (failed e, s')
      → is_save_failure e ≡ false
      → s'.saved ≡ s.saved
  unfolding Ways unwritten
  saved-store-failed e s' h k = elim store-Ways [
    | inl (_, q) ↦ ground (arith, q, h)
    | inr (id, r, c, inl q) ↦
        let (_, x) = reserve_lem candidates s r id c in
        ap (λ y. y.1.saved) (sym h ∙ q) ∙ ap (λ y. y.saved) x
    | inr (id, r, c, inr q) ↦
        let bad = commit-failed disk _ (written id r) s' e (sym q ∙ h) in ground (arith, bad, k)
  ]

  -- Where Store returns an entry, every other data file is as it was.
  pub files-store_other :
      (m : ObjectMeta) (s' : Store) (j : Text)
      → store disk candidates now content t mime name session s ≡ (ok m, s')
      → (m.id =ᵗ j) ≡ false
      → find j s'.files ≡ find j s.files
  unfolding Ways written
  files-store_other m s' j h k = elim store-Ways [
    | inl (e, q) ↦ ground (arith, q, h)
    | inr (id, r, c, inl q) ↦ ground (arith, q, h)
    | inr (id, r, c, inr q) ↦
        let meta = new_meta id t mime name session now content in
        let (a, _, f, _) = commit-ok disk meta m (written id r) s' (sym q ∙ h) in
        let (_, e) = reserve_lem candidates s r id c in
        let same : (m.id ≡ id) =
          ap (λ x. x.id) a ∙ new_meta-id id t mime name session now content in
        let k' : ((id =ᵗ j) ≡ false) = ap (λ x. x =ᵗ j) (sym same) ∙ k in
        ap (find j) f ∙ find-put_other id j content r.files k' ∙ ap (λ x. find j x.files) e
  ]

  -- Where Store returns an entry, every other id has the entry that it had, or none.
  pub store_other :
      (m : ObjectMeta) (s' : Store) (j : Text)
      → store disk candidates now content t mime name session s ≡ (ok m, s')
      → (m.id =ᵗ j) ≡ false
      → get j s' ≡ get j s
  unfolding Ways get written
  store_other m s' j h k = elim store-Ways [
    | inl (e, q) ↦ ground (arith, q, h)
    | inr (id, r, c, inl q) ↦ ground (arith, q, h)
    | inr (id, r, c, inr q) ↦
        let meta = new_meta id t mime name session now content in
        let (a, b, _, _) = commit-ok disk meta m (written id r) s' (sym q ∙ h) in
        let (_, e) = reserve_lem candidates s r id c in
        let same : (m.id ≡ id) =
          ap (λ x. x.id) a ∙ new_meta-id id t mime name session now content in
        let k' : ((id =ᵗ j) ≡ false) = ap (λ x. x =ᵗ j) (sym same) ∙ k in
        let last =
          find-put_other meta.id j meta r.index
            (ap (λ x. x =ᵗ j) (new_meta-id id t mime name session now content) ∙ k') in
        ap (find j) b
        ∙ last
        ∙ ap (λ x. find j x.index) e
        ∙ find-put_other id j (placeholder id) s.index k'
  ]
