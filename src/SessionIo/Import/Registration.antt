-- ===== src/SessionIo/Import/Registration.antt =====
-- What can be taken back after the objects of an import have been registered, or some of them
-- (the second loop of ImportSession in app/internal/sessionio/import.go).
use mathlib.Core.Path.{subst}
use shell_agent_v.Base.{
  ℕ, ◌≡◌, ◌≢◌, ◌⊎◌, refl, sym, ap, ◌∙◌, Bool, true, false, ◌&&◌, ◌||◌, Option, none, some, List, [],
  ◌∷◌, ◌++◌, length, if◌then◌else◌, arith, inl, inr, Bool-cases, Option-cases,
}
use shell_agent_v.Text.{Text, ◌=ᵗ◌, member}
use shell_agent_v.Text.Laws.{text_eq→eq}
use shell_agent_v.Dict.{Dict, find, put}
use shell_agent_v.Objects.{
  ObjectMeta, Store, Disk, Failure, Result, ok, failed, store, get, delete, write_failed,
}
use shell_agent_v.Objects.Laws.{
  store-ok, store-failed, store_other, files-store_other, get-delete, files-delete, saved-delete,
  saved-store-failed, is_save_failure,
}
use shell_agent_v.SessionIo.Bundle.{ZipEntry, IndexEntry}
use shell_agent_v.SessionIo.Import.{
  Calls, ImportFailure, not_registered, blob_not_closed, Registered, settle, register_one, register,
  delete_each,
}

-- The failures after which an object stays: the index file could not be written, or a blob that has
-- been registered could not be closed.
abbrev pub leaves_object : ImportFailure → Bool
leaves_object (not_registered why) = is_save_failure why
leaves_object (blob_not_closed id) = true
leaves_object _ = false

append-not_nil : (xs : List Text) (x : Text) → xs ++ x ∷ [] ≢ []
append-not_nil [] x h = ground (arith, h)
append-not_nil (y ∷ xs) x h = ground (arith, h)

member-append :
    (j : Text) (xs : List Text) (x : Text) → member j (xs ++ x ∷ []) ≡ (member j xs || x =ᵗ j)
unfolding member
member-append j [] x = ground arith
member-append j (y ∷ xs) x = ground (arith, member-append j xs x)

pub files-delete_each :
    (disk : Disk) (xs : List Text) (j : Text) (s : Store)
    → find j (delete_each disk xs s).files ≡ (if member j xs then none else find j s.files)
unfolding delete_each member
files-delete_each disk [] j s = refl
files-delete_each disk (x ∷ xs) j s =
    let rest = files-delete_each disk xs j (delete disk x s).1 in
    let one = files-delete disk x j s in ground (arith, rest, one)

pub saved-delete_each :
    (disk : Disk) (x : Text) (xs : List Text) (s : Store)
    → (disk.makes_dir && disk.saves) ≡ true
    → (delete_each disk (x ∷ xs) s).saved ≡ some (delete_each disk (x ∷ xs) s).index
unfolding delete_each
saved-delete_each disk x [] s h = saved-delete disk x s h
saved-delete_each disk x (y ∷ ys) s h = saved-delete_each disk y ys (delete disk x s).1 h

pub get-delete_each :
    (disk : Disk) (xs : List Text) (j : Text) (s : Store)
    → get j (delete_each disk xs s) ≡ (if member j xs then none else get j s)
unfolding delete_each member
get-delete_each disk [] j s = refl
get-delete_each disk (x ∷ xs) j s =
    let rest = get-delete_each disk xs j (delete disk x s).1 in
    let one = get-delete disk x j s in ground (arith, rest, one)

module _ (start : Store) where
  -- An id with the entry and the data file that it had. The file of an id without an entry may be
  -- gone; and, where the writing of a data file has failed, it may be anything.
  abbrev pub IsAsBefore : Option ImportFailure → Text → Option ObjectMeta → Option Text → Type 0
  IsAsBefore stopped j entry file =
      (entry ≡ get j start)
      × ((file ≡ find j start.files)
          ⊎ ((get j start ≡ none)
              × ((file ≡ none) ⊎ (stopped ≡ some (not_registered write_failed)))))

  -- What deleting the registered ids would give back.
  unfoldable pub Restores : Option ImportFailure → Registered → Type 0
  Restores stopped r =
      ((j : Text)
        → IsAsBefore stopped j (if member j r.ids then none else get j r.objects)
            (if member j r.ids then none else find j r.objects.files))
      × (r.ids ≡ [] → r.objects.saved ≡ start.saved)

  -- Nothing is excused where the registration has not stopped.
  pub Restores-any : (o : Option ImportFailure) (r : Registered) → Restores none r → Restores o r
  unfolding Restores
  Restores-any o r (h, saved) = (
    λ j.
        let (e, files) = h j in
        elim files [
          | inl f ↦ (e, inl f)
          | inr (g, inl f) ↦ (e, inr (g, inl f))
          | inr (g, inr f) ↦ ground (arith, f)
        ],
    saved,
  )

  -- That, unless the registration has stopped in a way that leaves an object.
  unfoldable pub Restorable : Registered → Type 0
  Restorable r =
      ((why : ImportFailure) × (r.stopped ≡ some why) × (leaves_object why ≡ true))
      ⊎ Restores r.stopped r

  Restores-registered :
      (r : Registered) (s' : Store) (id_map : Dict Text) (m : ObjectMeta)
      → get m.id r.objects ≡ none
      → ((j : Text) → (m.id =ᵗ j) ≡ false → get j s' ≡ get j r.objects)
      → ((j : Text) → (m.id =ᵗ j) ≡ false → find j s'.files ≡ find j r.objects.files)
      → Restores none r
      → Restores none (record r { ids = r.ids ++ m.id ∷ []; id_map = id_map; objects = s' })
  unfolding Restores
  Restores-registered r s' id_map m free others files (h, _) = (
    λ j.
        let split = member-append j r.ids m.id in
        let now = (h j).0 in
        elim (Bool-cases (m.id =ᵗ j)) [
          | inl e ↦
              let gone : (get j r.objects ≡ none) =
                ap (λ x. get x r.objects) (sym (text_eq→eq m.id j e)) ∙ free in
              let added : (member j (r.ids ++ m.id ∷ []) ≡ true) = ground (arith, split, e) in
              let before : (get j start ≡ none) = ground (arith, gone, now) in
              rw added (sym before, inr (before, inl refl))
          | inr e ↦
              let same : (member j (r.ids ++ m.id ∷ []) ≡ member j r.ids) =
                ground (arith, split, e) in
              rw (same, others j e, files j e) (h j)
        ],
    λ e. absurd (append-not_nil r.ids m.id e),
  )

  -- One id after a call of Store that has failed, other than by the writing of the index file.
  IsAsBefore-failed :
      (deleted : Bool) (why : Failure) (j : Text) (entry entry' : Option ObjectMeta)
      (file file' : Option Text)
      → IsAsBefore none j (if deleted then none else entry) (if deleted then none else file)
      → entry' ≡ entry
      → (file' ≡ file) ⊎ ((entry ≡ none) × (why ≡ write_failed))
      → IsAsBefore
          (some (not_registered why))
          j
          (if deleted then none else entry')
          (if deleted then none else file')
  IsAsBefore-failed true why j x x' f f' (e, inl h) q k = (e, inl h)
  IsAsBefore-failed true why j x x' f f' (e, inr (g, inl h)) q k = (e, inr (g, inl h))
  IsAsBefore-failed true why j x x' f f' (e, inr (g, inr h)) q k = ground (arith, h)
  IsAsBefore-failed false why j x x' f f' (e, inl h) q (inl k) = (q ∙ e, inl (k ∙ h))
  IsAsBefore-failed false why j x x' f f' (e, inr (g, inl h)) q (inl k) =
      (q ∙ e, inr (g, inl (k ∙ h)))
  IsAsBefore-failed false why j x x' f f' (e, inr (g, inr h)) q (inl k) = ground (arith, h)
  IsAsBefore-failed false why j x x' f f' (e, h) q (inr (gone, w)) =
      (q ∙ e, inr (sym e ∙ gone, inr (ap (λ y. some (not_registered y)) w)))

  module _ (disk : Disk) (candidates : List Text) (now : ℕ) (content session : Text)
      (e : IndexEntry) (r : Registered) where
    settle-Restorable :
        (closes : Bool) (x : Result ObjectMeta × Store)
        → store disk candidates now content e.object_type e.mime_type e.orig_name session r.objects
          ≡ x
        → Restores none r
        → Restorable (settle e closes r x)
    unfolding Restorable Restores settle
    settle-Restorable closes (failed why, s) h g = elim (Bool-cases (is_save_failure why)) [
      | inl q ↦ inl (not_registered why, refl, q)
      | inr q ↦ inr (
        λ j.
            let (kept, files) =
              store-failed disk candidates now content e.object_type e.mime_type e.orig_name session
                r.objects why s j h q in
            IsAsBefore-failed (member j r.ids) why j (get j r.objects) (get j s)
              (find j r.objects.files) (find j s.files) (g.0 j) kept files,
        λ none_yet.
            saved-store-failed disk candidates now content e.object_type e.mime_type e.orig_name
              session r.objects why s h q
            ∙ g.1 none_yet,
      )
    ]
    settle-Restorable false (ok meta, s) h g = inl (blob_not_closed e.id, refl, refl)
    settle-Restorable true (ok meta, s) h g =
        let (_, free, _, _, _) =
          store-ok disk candidates now content e.object_type e.mime_type e.orig_name session
            r.objects meta s h in
        inr (
          Restores-any r.stopped
            (record r {
              ids = r.ids ++ meta.id ∷ [];
              id_map = put e.id meta.id r.id_map;
              objects = s;
            })
            (Restores-registered r s (put e.id meta.id r.id_map) meta free
              (λ j k.
                store_other disk candidates now content e.object_type e.mime_type e.orig_name
                  session r.objects meta s j h k)
              (λ j k.
                files-store_other disk candidates now content e.object_type e.mime_type e.orig_name
                  session r.objects meta s j h k)
              g))

  register_one-Restorable :
      (calls : Calls) (session : Text) (blobs : Dict ZipEntry) (e : IndexEntry) (r : Registered)
      → Restores none r
      → Restorable (register_one calls session blobs e r)
  unfolding register_one Restores Restorable
  register_one-Restorable calls session blobs e r h = elim (Option-cases (find e.id blobs)) [
    | inl a ↦ rw (register_one, a) (inr (Restores-any _ r h))
    | inr (blob, a) ↦ elim (Option-cases blob.content) [
      | inl b ↦ rw (register_one, a, b) (inr (Restores-any _ r h))
      | inr (content, b) ↦
          let n = length r.ids in
          rw (register_one, a, b)
            (settle-Restorable (calls.disk n) (calls.ids n) (calls.now n) content session e r
              blob.closes _ refl h)
    ]
  ]

  register-stopped :
      (calls : Calls) (session : Text) (blobs : Dict ZipEntry) (es : List IndexEntry)
      (r : Registered) (why : ImportFailure)
      → r.stopped ≡ some why
      → register calls session blobs es r ≡ r
  unfolding register
  register-stopped calls session blobs [] r why h = refl
  register-stopped calls session blobs (e ∷ es) r why h = ground (arith, h)

  register-cons :
      (calls : Calls) (session : Text) (blobs : Dict ZipEntry) (e : IndexEntry)
      (es : List IndexEntry) (r : Registered)
      → r.stopped ≡ none
      → register calls session blobs (e ∷ es) r
        ≡ register calls session blobs es (register_one calls session blobs e r)
  unfolding register
  register-cons calls session blobs e es r h =
      ap
        (λ o. elim o as (λ x. Registered) [
          | some why ↦ r
          | none ↦ register calls session blobs es (register_one calls session blobs e r)
        ])
        h

  pub register-Restorable :
      (calls : Calls) (session : Text) (blobs : Dict ZipEntry) (es : List IndexEntry)
      (r : Registered)
      → Restores r.stopped r
      → Restorable (register calls session blobs es r)
  unfolding Restorable register
  register-Restorable calls session blobs [] r h = inr h
  register-Restorable calls session blobs (e ∷ es) r h = elim (Option-cases r.stopped) [
    | inr (why, a) ↦
        subst Restorable (sym (register-stopped calls session blobs (e ∷ es) r why a)) (inr h)
    | inl a ↦
        subst Restorable (sym (register-cons calls session blobs e es r a))
          (elim (register_one-Restorable calls session blobs e r (subst (λ o. Restores o r) a h)) [
            | inr g ↦ register-Restorable calls session blobs es _ g
            | inl (why, b, c) ↦
                subst Restorable (sym (register-stopped calls session blobs es _ why b))
                  (inl (why, b, c))
          ])
  ]
