-- ===== src/Objects.antt =====
-- The object store (app/internal/objstore/objstore.go): the index, the data files, and the index
-- file as it was last written. `Disk` says which calls of the file system succeed in an operation;
-- `leaves` is what a write that fails leaves of the data file, where it has created it, and `remains`
-- what os.RemoveAll leaves of a directory, which is nothing where it succeeds. The JSON of the index
-- file is taken to read back as it was written, and os.Remove to succeed. Load is modelled for a store whose
-- index is still empty. The lock is released inside
-- Store: `reserve` and `commit` are what it does under the lock, before and after.
pub mod Attach
pub mod Laws
pub mod RoundTrip
use shell_agent_v.Base.{
  ℕ, suc, zero, ◌+◌, Bool, true, false, not, ◌&&◌, ◌||◌, Option, none, some, List, [], ◌∷◌, ◌++◌,
  length, take, ltb, ◌==◌, if◌then◌else◌,
}
use shell_agent_v.Text.{Text, codes, ◌=ᵗ◌, has_prefix}
use shell_agent_v.Dict.{Dict, find, put, remove}
use shell_agent_v.Context.Render.{estimate_tokens}

pub data ObjectType : Type 0 where
  image blob report markdown : ObjectType
  -- Any other text, the empty one of a placeholder included.
  other_type : Text → ObjectType

pub record ObjectMeta : Type 0 where
  pub id : Text
  pub object_type : ObjectType
  pub mime_type : Text
  pub orig_name : Text
  pub created_at : ℕ
  pub session_id : Text
  pub size : ℕ
  pub lines : ℕ
  pub tokens : ℕ

pub record Store : Type 0 where
  pub index : Dict ObjectMeta
  pub files : Dict Text
  pub saved : Option (Dict ObjectMeta)

pub record Disk : Type 0 where
  pub makes_dir : Bool
  pub reads : Bool
  pub writes : Bool
  pub leaves : Option Text
  pub saves : Bool
  pub remains : Option (Dict Text)

pub data Failure : Type 0 where
  no_directory no_content no_fresh_id write_failed save_failed : Failure
  invalid_data_url bad_base64 not_found unreadable : Failure
  too_large : ℕ → Failure

pub data Result (A : Type 0) : Type 0 where
  ok : A → Result A
  failed : Failure → Result A

unfoldable pub is_text_mime : Text → Bool
unfolding has_prefix
is_text_mime mime = has_prefix mime (codes "text/")

-- bytes.Count(content, '\n') + 1
unfoldable pub count_breaks : Text → ℕ
count_breaks [] = 0
count_breaks (c ∷ s) = (if c == 0x0A then 1 else 0) + count_breaks s

-- s.saveLocked()
unfoldable pub save : Disk → Store → Bool × Store
save disk s =
    if disk.makes_dir && disk.saves then (true, record s { saved = some s.index }) else (false, s)

-- The loop over the candidates.
unfoldable pub fresh_id : List Text → Dict ObjectMeta → Option Text
unfolding find
fresh_id [] index = none
fresh_id (c ∷ cs) index = elim (find c index) [ none ↦ some c | some m ↦ fresh_id cs index ]

unfoldable pub placeholder : Text → ObjectMeta
placeholder id = record {
  id = id;
  object_type = other_type [];
  mime_type = [];
  orig_name = [];
  created_at = 0;
  session_id = [];
  size = 0;
  lines = 0;
  tokens = 0;
}

-- Store under its first lock; `candidates` are what generateID returns.
unfoldable pub reserve : List Text → Store → Option (Text × Store)
unfolding fresh_id placeholder put
reserve candidates s = elim (fresh_id (take 3 candidates) s.index) [
  | none ↦ none
  | some id ↦ some (id, record s { index = put id (placeholder id) s.index })
]

unfoldable pub new_meta : Text → ObjectType → Text → Text → Text → ℕ → Text → ObjectMeta
unfolding is_text_mime count_breaks estimate_tokens
new_meta id object_type mime name session now content =
    let measured = is_text_mime mime && ltb 0 (length content) in
    record {
      id = id;
      object_type = object_type;
      mime_type = mime;
      orig_name = name;
      created_at = now;
      session_id = session;
      size = length content;
      lines = if measured then suc (count_breaks content) else 0;
      tokens = if measured then estimate_tokens content else 0;
    }

-- Store under its last lock.
unfoldable pub commit : Disk → ObjectMeta → Store → Result ObjectMeta × Store
unfolding put save
commit disk meta s =
    let (saved, s') = save disk (record s { index = put meta.id meta s.index }) in
    if saved then (ok meta, s') else (failed save_failed, s')

-- The data files after a write that has failed.
abbrev pub after_failure : Text → Option Text → Dict Text → Dict Text
after_failure id none files = files
after_failure id (some part) files = put id part files

-- Store with nothing in between.
unfoldable pub store :
    Disk
    → List Text
    → ℕ
    → Text
    → ObjectType
    → Text
    → Text
    → Text
    → Store
    → Result ObjectMeta × Store
unfolding reserve put remove commit new_meta
store disk candidates now content object_type mime name session s =
    if not disk.makes_dir
    then (failed no_directory, s)
    else if not disk.reads
    then (failed no_content, s)
    else elim (reserve candidates s) [
      | none ↦ (failed no_fresh_id, s)
      | some r ↦
          let (id, s') = r in
          if disk.writes
          then commit disk (new_meta id object_type mime name session now content)
              (record s' { files = put id content s'.files })
          else (
            failed write_failed,
            record s' { index = remove id s'.index; files = after_failure id disk.leaves s'.files },
          )
    ]

unfoldable pub get : Text → Store → Option ObjectMeta
unfolding find
get id s = find id s.index

unfoldable pub delete : Disk → Text → Store → Bool × Store
unfolding remove save
delete disk id s = save disk (record s { index = remove id s.index; files = remove id s.files })

unfoldable pub same_type : ObjectType → ObjectType → Bool
unfolding ◌=ᵗ◌
same_type image image = true
same_type blob blob = true
same_type report report = true
same_type markdown markdown = true
same_type (other_type a) (other_type b) = a =ᵗ b
same_type _ _ = false

unfoldable pub list_by_type : ObjectType → Dict ObjectMeta → List ObjectMeta
unfolding same_type
list_by_type t [] = []
list_by_type t ((id, m) ∷ d) =
    let rest = list_by_type t d in if same_type m.object_type t then m ∷ rest else rest

unfoldable pub list_by_session : Text → Dict ObjectMeta → List ObjectMeta
unfolding ◌=ᵗ◌
list_by_session session [] = []
list_by_session session ((id, m) ∷ d) =
    let rest = list_by_session session d in if m.session_id =ᵗ session then m ∷ rest else rest

-- The ids that DeleteBySession collects.
unfoldable pub ids_of_session : Text → Dict ObjectMeta → List Text
unfolding ◌=ᵗ◌
ids_of_session session [] = []
ids_of_session session ((id, m) ∷ d) =
    let rest = ids_of_session session d in if m.session_id =ᵗ session then id ∷ rest else rest

unfoldable pub remove_all : List Text → Store → Store
unfolding remove
remove_all [] s = s
remove_all (id ∷ ids) s =
    remove_all ids (record s { index = remove id s.index; files = remove id s.files })

unfoldable pub delete_by_session : Disk → Text → Store → Bool × Store
unfolding ids_of_session remove_all save
delete_by_session disk session s = elim (ids_of_session session s.index) [
  | [] ↦ (true, s)
  | id ∷ ids ↦ save disk (remove_all (id ∷ ids) s)
]

-- One round of the loop of Load; the flag says that the entry has changed.
unfoldable pub backfill : Dict Text → ObjectMeta → ObjectMeta × Bool
unfolding is_text_mime find count_breaks estimate_tokens
backfill files m =
    if ltb 0 m.lines || not (is_text_mime m.mime_type) then (m, false) else elim (find m.id files) [
      | none ↦ (m, false)
      | some content ↦ if length content == 0 then (m, false) else (
        record m { lines = suc (count_breaks content); tokens = estimate_tokens content },
        true,
      )
    ]

unfoldable pub backfill_all : Dict Text → Dict ObjectMeta → Dict ObjectMeta × Bool
unfolding backfill
backfill_all files [] = ([], false)
backfill_all files ((id, m) ∷ d) =
    let (rest, dirty) = backfill_all files d in
    let (m', changed) = backfill files m in ((id, m') ∷ rest, changed || dirty)

-- Load, where the index file can be read. Without one the index stays as it is.
unfoldable pub load : Disk → Store → Store
unfolding backfill_all save
load disk s = elim s.saved [
  | none ↦ s
  | some index ↦
      let (filled, dirty) = backfill_all s.files index in
      if dirty then (save disk (record s { index = filled })).1 else record s { index = filled }
]
