-- ===== src/Examples/ImportRuns.antt =====
-- The import of a bundle with two objects (app/internal/sessionio).
use shell_agent_v.Objects.Attach.{has_suffix}
use shell_agent_v.Memory.Prompt.{decimal, decimal_from}
use shell_agent_v.Context.Render.{count_wide, estimate_tokens}
use shell_agent_v.Base.{
  ℕ, zero, suc, ◌≡◌, ◌⊎◌, ◌≤◌, ◌<◌, refl, true, false, Option, none, some, List, [], ◌∷◌, ◌++◌, ltb,
}
use shell_agent_v.Text.{
  Text, codes, ◌=ᵗ◌, member, contains, count_fields, first_rune, has_prefix, is_continuation,
  is_space, runes, runes_from,
}
use shell_agent_v.Dict.{find, put, remove}
use shell_agent_v.Session.{Session}
use shell_agent_v.Context.Cache.{SummaryCache}
use shell_agent_v.Objects.{
  Store, Disk, image, get, new_meta, store, reserve, commit, count_breaks, delete, fresh_id,
  is_text_mime, placeholder, save,
}
use shell_agent_v.SessionIo.{
  resolve_title, title_base, numbered_title, safe_bundle_filename, allocate_id, candidate_id,
  first_free,
}
use shell_agent_v.SessionIo.Archive.{
  safe_archive_path, safe, components, back, clean, clean_from, join_back,
}
use shell_agent_v.SessionIo.Paths.{lands, safe_archive_path-inside}
use shell_agent_v.SessionIo.Titles.{resolve_title-free}
use shell_agent_v.SessionIo.Bundle.{
  ZipEntry, IndexEntry, Manifest, validate_bundle, check_name, categorise, read_index, add_blob,
  check_blobs, check_index, unmarshal_manifest, walk,
}
use shell_agent_v.SessionIo.Rewrite.{
  rewrite_text, all_hex, id_length, is_hex, is_id_at, is_word_byte, match_at, new_id, replaced,
  rewrite_from, rewrite_record, rewrite_records, rewrite_summaries, rewrite_summary,
}
use shell_agent_v.SessionIo.Import.{
  Calls, World, ImportResult, import_failed, blob_not_closed, import_session, after_validation,
  after_allocation, extract_and_register, after_extract, extract, finish, register, register_one,
  settle, after_chat, conclude, delete_each, rewrite_chat_json, rewrite_summaries_json, rollback,
}

abbrev entry : Text → ZipEntry
entry name = record { name = name; content = some name; closes = true }

abbrev stubborn : Text → ZipEntry
stubborn name = record { name = name; content = some name; closes = false }

abbrev picture : Text → IndexEntry
picture id = record {
  id = id;
  object_type = image;
  mime_type = codes "image/png";
  orig_name = [];
  created_at = [];
  size = 0;
}

abbrev manifest : Manifest
manifest = record {
  schema_version = 1;
  exported_at = 0;
  exported_by_app_version = [];
  original_id = codes "sess-1";
  title = codes "plan";
  is_private = false;
}

-- The disk is full from the second object on.
abbrev disk_at : ℕ → Disk
disk_at n = record {
  makes_dir = true;
  reads = true;
  writes = ltb n 1;
  leaves = none;
  saves = true;
  remains = none;
}

abbrev id_at : ℕ → List Text
id_at zero = codes "n1" ∷ []
id_at (suc n) = codes "n2" ∷ []

abbrev calls : Calls
calls = record { disk = disk_at; ids = id_at; now = λ n. 0 }

abbrev no_objects : Store
no_objects = record { index = []; files = []; saved = some [] }

abbrev bundle : List ZipEntry → List ZipEntry
bundle blobs =
    entry (codes "manifest.json")
    ∷ entry (codes "chat.json")
    ∷ entry (codes "objects/index.json")
    ∷ blobs

abbrev no_sessions : Text → Option Session
no_sessions s = none

abbrev no_caches : Text → Option SummaryCache
no_caches s = none

abbrev run_import : List IndexEntry → List ZipEntry → ImportResult × World
run_import index blobs =
    import_session no_sessions (λ s. []) no_caches (λ s. []) (λ s. some index) (λ s. some manifest)
      calls (disk_at 0) (λ n. 5) 9 [] (codes "plan" ∷ []) (bundle blobs) no_objects

abbrev two_blobs : List ZipEntry
two_blobs = entry (codes "objects/data/o1") ∷ entry (codes "objects/data/o2") ∷ []

-- The object of a blob that cannot be closed stays in the store.
object_is_left :
    (run_import (picture (codes "o1") ∷ []) (stubborn (codes "objects/data/o1") ∷ [])).0
    ≡ import_failed (blob_not_closed (codes "o1"))
unfolding import_session
object_is_left = refl

object_is_there :
    get
      (codes "n1")
      (run_import (picture (codes "o1") ∷ []) (stubborn (codes "objects/data/o1") ∷ [])).1.objects
    ≡ some (
        new_meta
          (codes "n1")
          image
          (codes "image/png")
          []
          (codes "sess-5")
          0
          (codes "objects/data/o1"))
unfolding import_session get after_validation validate_bundle check_name categorise read_index
    add_blob after_allocation extract_and_register after_extract extract finish register
    register_one settle store reserve count_wide estimate_tokens find put remove decimal
    decimal_from has_suffix commit count_breaks delete fresh_id is_text_mime new_meta placeholder
    save back clean clean_from components join_back safe_archive_path check_blobs check_index
    unmarshal_manifest walk after_chat conclude delete_each rewrite_chat_json rewrite_summaries_json
    rollback all_hex id_length is_hex is_id_at is_word_byte match_at new_id replaced rewrite_from
    rewrite_record rewrite_records rewrite_summaries rewrite_summary rewrite_text allocate_id
    candidate_id first_free numbered_title resolve_title contains count_fields first_rune has_prefix
    is_continuation is_space member runes runes_from ◌=ᵗ◌
object_is_there = refl

path_is_safe : safe_archive_path (codes "work//../a/./b") ≡ safe
unfolding safe_archive_path
path_is_safe = refl

path_stays_inside :
    (rest : List Text) × (lands (codes "s" ∷ []) (components (codes "work//../a/./b"))
      ≡ rest ++ codes "s" ∷ [])
path_stays_inside = safe_archive_path-inside (codes "work//../a/./b") (codes "s" ∷ []) path_is_safe

second_import :
    (member
        (resolve_title 9 (codes "plan") (codes "plan" ∷ codes "plan (imported)" ∷ []))
        (codes "plan" ∷ codes "plan (imported)" ∷ [])
      ≡ false)
    ⊎ ((member (title_base (codes "plan")) (codes "plan" ∷ codes "plan (imported)" ∷ []) ≡ true)
        × (member
              (title_base (codes "plan") ++ codes " (imported)")
              (codes "plan" ∷ codes "plan (imported)" ∷ [])
            ≡ true)
        × ((n : ℕ)
            → 2 ≤ n
            → n < 1000
            → member
                (numbered_title (title_base (codes "plan")) n)
                (codes "plan" ∷ codes "plan (imported)" ∷ [])
              ≡ true))
second_import = resolve_title-free 9 (codes "plan") (codes "plan" ∷ codes "plan (imported)" ∷ [])

third_title :
    resolve_title 9 (codes "plan") (codes "plan" ∷ codes "plan (imported)" ∷ [])
    ≡ codes "plan (imported 2)"
unfolding resolve_title
third_title = refl

rewrites_link :
    rewrite_text
      ((codes "0123456789ab", codes "NEW") ∷ [])
      (codes "![](object:0123456789ab) 0123456789abc")
    ≡ codes "![](object:NEW) 0123456789abc"
unfolding rewrite_text
rewrites_link = refl

names_bundle :
    safe_bundle_filename (codes "plan") (codes "sess-5") (codes "d") ≡ codes "plan-d.shellagent"
unfolding safe_bundle_filename
names_bundle = refl
