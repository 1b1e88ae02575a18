-- ===== src/SessionIo/Import.antt =====
-- The import of a session (ImportSession in app/internal/sessionio/import.go). `World` is the object
-- store and the new session directory, which is `none` where there is none. What the calls of the
-- object store meet, by their number: the disk, the ids that are generated, the time. An extracted
-- directory is not a file of the model, and neither are the failures of the file system there.

pub mod Registration
pub mod Rollback
use shell_agent_v.Base.{
  ℕ, zero, suc, Bool, true, false, not, ◌&&◌, ◌||◌, Option, none, some, List, [], ◌∷◌, ◌++◌, length,
  ◌==◌, if◌then◌else◌,
}
use shell_agent_v.Text.{Text, codes, ◌=ᵗ◌, has_prefix}
use shell_agent_v.Dict.{Dict, find, put}
use shell_agent_v.Session.{Session}
use shell_agent_v.Context.Cache.{SummaryCache}
use shell_agent_v.Objects.{ObjectMeta, Store, Disk, Failure, Result, ok, failed, store, delete}
use shell_agent_v.Objects.Attach.{has_suffix}
use shell_agent_v.SessionIo.{resolve_title, allocate_id, max_attempts}
use shell_agent_v.SessionIo.Bundle.{
  ZipEntry, IndexEntry, Manifest, Plan, Problem, Checked, fine, refused, validate_bundle,
}
use shell_agent_v.SessionIo.Rewrite.{rewrite_records, rewrite_summaries}

pub record Calls : Type 0 where
  pub disk : ℕ → Disk
  pub ids : ℕ → List Text
  pub now : ℕ → ℕ

pub data ImportFailure : Type 0 where
  not_valid : Problem → ImportFailure
  no_session_id bad_chat_json bad_summaries_json : ImportFailure
  not_extracted : Text → ImportFailure
  blob_missing blob_not_opened blob_not_closed : Text → ImportFailure
  not_registered : Failure → ImportFailure

pub record World : Type 0 where
  pub objects : Store
  pub session_dir : Option (Dict Text)

-- The first loop of ImportSession and extractEntry: the files of the new directory.
unfoldable pub extract : List ZipEntry → Dict Text → Option Text × Dict Text
unfolding has_prefix ◌=ᵗ◌ has_suffix put
extract [] dir = (none, dir)
extract (f ∷ fs) dir =
    let skipped =
      has_prefix f.name (codes "objects/")
      || f.name =ᵗ codes "manifest.json"
      || has_suffix f.name (codes "/") in
    elim (if skipped then some [] else f.content) [
      | none ↦ (some f.name, dir)
      | some content ↦ extract fs (if skipped then dir else put f.name content dir)
    ]

-- What the second loop has done: the ids that are registered, in their order, the map from the old
-- ids to the new, and the store; and why it has stopped before the end, where it has.
pub record Registered : Type 0 where
  pub stopped : Option ImportFailure
  pub ids : List Text
  pub id_map : Dict Text
  pub objects : Store

-- The end of a round, after `store` has returned: the closing of the reader, and then the notes.
unfoldable pub settle : IndexEntry → Bool → Registered → Result ObjectMeta × Store → Registered
unfolding put
settle e closes r (failed why, s) = record r { stopped = some (not_registered why); objects = s }
settle e closes r (ok meta, s) =
    if closes
    then record r { ids = r.ids ++ meta.id ∷ []; id_map = put e.id meta.id r.id_map; objects = s }
    else record r { stopped = some (blob_not_closed e.id); objects = s }

unfoldable pub register_one : Calls → Text → Dict ZipEntry → IndexEntry → Registered → Registered
unfolding find settle store
register_one calls session blobs e r = elim (find e.id blobs) [
  | none ↦ record r { stopped = some (blob_missing e.id) }
  | some blob ↦ elim blob.content [
    | none ↦ record r { stopped = some (blob_not_opened e.id) }
    | some content ↦
        let n = length r.ids in
        settle e blob.closes r (
          store (calls.disk n) (calls.ids n) (calls.now n) content e.object_type e.mime_type
            e.orig_name session r.objects)
  ]
]

unfoldable pub register : Calls → Text → Dict ZipEntry → List IndexEntry → Registered → Registered
unfolding register_one
register calls session blobs [] r = r
register calls session blobs (e ∷ es) r = elim r.stopped [
  | some why ↦ r
  | none ↦ register calls session blobs es (register_one calls session blobs e r)
]

-- The deletions of the rollback, whose errors are dropped.
unfoldable pub delete_each : Disk → List Text → Store → Store
unfolding delete
delete_each disk [] s = s
delete_each disk (id ∷ ids) s = delete_each disk ids (delete disk id s).1

unfoldable pub rollback : Disk → Registered → World
unfolding delete_each
rollback disk r = record { objects = delete_each disk r.ids r.objects; session_dir = disk.remains }

pub data ImportResult : Type 0 where
  -- The new session id and the number of objects.
  imported : Text → Manifest → ℕ → ImportResult
  import_failed : ImportFailure → ImportResult

abbrev pub untouched : Store → World
untouched s = record { objects = s; session_dir = none }

abbrev pub nothing_registered : Store → Registered
nothing_registered s = record { stopped = none; ids = []; id_map = []; objects = s }

-- After the rewriting of summaries.json.
unfoldable pub conclude :
    Disk → Text → Manifest → ℕ → Registered → Option (Dict Text) → ImportResult × World
unfolding rollback
conclude disk id manifest count r none = (import_failed bad_summaries_json, rollback disk r)
conclude disk id manifest count r (some dir) =
    (imported id manifest count, record { objects = r.objects; session_dir = some dir })

module _ (parse_session : Text → Option Session) (print_session : Session → Text)
    (parse_cache : Text → Option SummaryCache) (print_cache : SummaryCache → Text) where
  unfoldable pub rewrite_chat_json : Text → Text → Bool → Dict Text → Dict Text → Option (Dict Text)
  unfolding find put rewrite_records
  rewrite_chat_json id title is_private ids dir = elim (find (codes "chat.json") dir) [
    | none ↦ none
    | some content ↦ elim (parse_session content) [
      | none ↦ none
      | some session ↦ some (
          put (codes "chat.json")
            (print_session (record session {
              id = id;
              title = title;
              is_private = is_private;
              records = rewrite_records ids session.records;
            }))
            dir)
    ]
  ]

  unfoldable pub rewrite_summaries_json : Dict Text → Dict Text → Option (Dict Text)
  unfolding find put rewrite_summaries
  rewrite_summaries_json ids dir = elim (find (codes "summaries.json") dir) [
    | none ↦ some dir
    | some content ↦ elim (parse_cache content) [
      | none ↦ none
      | some cache ↦ some (
          put (codes "summaries.json")
            (print_cache (record cache { entries = rewrite_summaries ids cache.entries })) dir)
    ]
  ]

  -- After the rewriting of chat.json.
  unfoldable pub after_chat :
      Disk → Text → Manifest → ℕ → Registered → Option (Dict Text) → ImportResult × World
  unfolding conclude rewrite_summaries_json
  after_chat disk id manifest count r none = (import_failed bad_chat_json, rollback disk r)
  after_chat disk id manifest count r (some dir) =
      conclude disk id manifest count r (rewrite_summaries_json r.id_map dir)

  -- From the end of the registration on.
  unfoldable pub finish :
      Disk
      → Text
      → Text
      → Manifest
      → ℕ
      → Dict Text
      → Registered
      → Option ImportFailure
      → ImportResult × World
  unfolding after_chat rewrite_chat_json
  finish disk id title manifest count dir r (some why) = (import_failed why, rollback disk r)
  finish disk id title manifest count dir r none =
      after_chat disk id manifest count r
        (rewrite_chat_json id title manifest.is_private r.id_map dir)

  unfoldable pub after_extract :
      Calls
      → Disk
      → Text
      → Text
      → Manifest
      → Plan
      → Store
      → Option Text × Dict Text
      → ImportResult × World
  unfolding register finish rollback
  after_extract calls disk id title manifest plan s (some name, dir) =
      (import_failed (not_extracted name), rollback disk (nothing_registered s))
  after_extract calls disk id title manifest plan s (none, dir) =
      let r = register calls id plan.object_blobs plan.object_index (nothing_registered s) in
      finish disk id title manifest (length plan.object_index) dir r r.stopped

  unfoldable pub extract_and_register :
      Calls → Disk → Text → Text → Manifest → Plan → Store → ImportResult × World
  unfolding after_extract extract
  extract_and_register calls disk id title manifest plan s =
      after_extract calls disk id title manifest plan s (extract plan.entries [])

  -- After the allocation of the session id.
  unfoldable pub after_allocation :
      Calls → Disk → Text → Manifest → Plan → Store → Option Text → ImportResult × World
  unfolding extract_and_register
  after_allocation calls disk title manifest plan s none =
      (import_failed no_session_id, untouched s)
  after_allocation calls disk title manifest plan s (some id) =
      extract_and_register calls disk id title manifest plan s

  -- `millis` and `nanos` are the times that the ids and the title take, `dirs` the directories that
  -- exist.
  unfoldable pub after_validation :
      Calls
      → Disk
      → (ℕ → ℕ)
      → ℕ
      → List Text
      → List Text
      → Store
      → Checked (Manifest × Plan)
      → ImportResult × World
  unfolding resolve_title allocate_id after_allocation
  after_validation calls disk millis nanos dirs existing_titles s (refused p) =
      (import_failed (not_valid p), untouched s)
  after_validation calls disk millis nanos dirs existing_titles s (fine (manifest, plan)) =
      after_allocation calls disk (resolve_title nanos manifest.title existing_titles) manifest plan
        s (allocate_id max_attempts 0 millis dirs)

  unfoldable pub import_session :
      (Text → Option (List IndexEntry))
      → (Text → Option Manifest)
      → Calls
      → Disk
      → (ℕ → ℕ)
      → ℕ
      → List Text
      → List Text
      → List ZipEntry
      → Store
      → ImportResult × World
  unfolding after_validation validate_bundle
  import_session parse_index parse_manifest calls disk millis nanos dirs existing_titles files s =
      after_validation calls disk millis nanos dirs existing_titles s
        (validate_bundle parse_index parse_manifest files)
