-- ===== src/Examples/ObjectRuns.antt =====
-- An attached note, and two calls of Store at once (app/internal/objstore/objstore.go).
use shell_agent_v.Base.{◌≡◌, ◌⊎◌, refl, true, false, none, some, [], ◌∷◌}
use shell_agent_v.Text.{codes, ◌=ᵗ◌}
use shell_agent_v.Dict.{find, remove}
use shell_agent_v.Objects.{
  ObjectMeta, Store, Disk, ok, failed, markdown, image, write_failed, placeholder, reserve, store,
  get, delete_by_session, commit, new_meta,
}
use shell_agent_v.Objects.Attach.{save_data_url, load_as_data_url, mime_by_name}
use shell_agent_v.Objects.Laws.{Meanwhile, reserve_distinct, store-failed}
use shell_agent_v.Objects.RoundTrip.{data_url, has_comma, save_data_url-load}

abbrev healthy : Disk
healthy = record {
  makes_dir = true;
  reads = true;
  writes = true;
  leaves = none;
  saves = true;
  remains = none;
}

abbrev full : Disk
full = record {
  makes_dir = true;
  reads = true;
  writes = false;
  leaves = none;
  saves = true;
  remains = none;
}

abbrev empty_store : Store
empty_store = record { index = []; files = []; saved = none }

abbrev note : ObjectMeta
note = record {
  id = codes "aa";
  object_type = markdown;
  mime_type = codes "text/markdown";
  orig_name = codes "a.md";
  created_at = 7;
  session_id = codes "s1";
  size = 7;
  lines = 2;
  tokens = 2;
}

abbrev with_note : Store
with_note = record {
  index = (codes "aa", note) ∷ [];
  files = (codes "aa", codes "one\ntwo") ∷ [];
  saved = some ((codes "aa", note) ∷ []);
}

-- The texts stand for their own encoding.
saves_note :
    save_data_url
      (λ s. s)
      (λ s. some s)
      healthy
      (codes "aa" ∷ [])
      7
      (data_url (codes "text/markdown") (codes "one\ntwo"))
      (codes "a.md")
      (codes "s1")
      empty_store
    ≡ (ok note, with_note)
unfolding save_data_url data_url reserve commit new_meta
saves_note = refl

no_comma : has_comma (codes "text/markdown") ≡ false
unfolding has_comma
no_comma = refl

not_by_name : mime_by_name (λ s. s) (codes "a.md") (codes "text/markdown") ≡ codes "text/markdown"
unfolding mime_by_name
not_by_name = refl

reads_back :
    load_as_data_url (λ s. s) note.id with_note
    ≡ ok (data_url (codes "text/markdown") (codes "one\ntwo"))
reads_back =
    save_data_url-load (λ s. s) (λ s. some s) (λ s. s) healthy (codes "aa" ∷ []) 7
      (codes "text/markdown") (codes "one\ntwo") (codes "a.md") (codes "s1") empty_store with_note
      note refl no_comma not_by_name saves_note

abbrev reserved : Store
reserved = record { index = (codes "aa", placeholder (codes "aa")) ∷ []; files = []; saved = none }

abbrev reserved_twice : Store
reserved_twice = record {
  index = (codes "aa", placeholder (codes "aa")) ∷ (codes "ab", placeholder (codes "ab")) ∷ [];
  files = [];
  saved = none;
}

reserves : reserve (codes "aa" ∷ []) empty_store ≡ some (codes "aa", reserved)
unfolding reserve
reserves = refl

reserves_again : reserve (codes "aa" ∷ codes "ab" ∷ []) reserved ≡ some (codes "ab", reserved_twice)
unfolding reserve
reserves_again = refl

-- A third call, after a second has reserved its id and the first has not come to its end.
third_id :
    (get (codes "aa") reserved_twice ≡ some (placeholder (codes "aa")))
    × (reserve (codes "aa" ∷ codes "ac" ∷ []) reserved_twice ≡ some (codes "ac", reserved_twice)
        → (codes "ac" =ᵗ codes "aa") ≡ false)
third_id =
    reserve_distinct (codes "aa" ∷ []) (codes "aa" ∷ codes "ac" ∷ []) empty_store reserved
      reserved_twice reserved_twice (codes "aa") (codes "ac") reserves
      (Meanwhile.reserves (codes "ab") (codes "aa" ∷ codes "ab" ∷ []) Meanwhile.idle reserves_again)

fails_to_write :
    store full
      (codes "aa" ∷ codes "ab" ∷ [])
      8
      (codes "x")
      image
      (codes "image/png")
      []
      (codes "s2")
      with_note
    ≡ (failed write_failed, with_note)
unfolding store reserve remove
fails_to_write = refl

note_is_kept :
    (get (codes "aa") with_note ≡ get (codes "aa") with_note)
    × ((find (codes "aa") with_note.files ≡ find (codes "aa") with_note.files)
        ⊎ ((get (codes "aa") with_note ≡ none) × (write_failed ≡ write_failed)))
note_is_kept =
    store-failed full (codes "aa" ∷ codes "ab" ∷ []) 8 (codes "x") image (codes "image/png") []
      (codes "s2") with_note write_failed with_note (codes "aa") fails_to_write refl

-- What the session had is gone, and nothing else.
session_is_deleted :
    delete_by_session healthy (codes "s1") with_note
    ≡ (true, record { index = []; files = []; saved = some [] })
unfolding delete_by_session
session_is_deleted = refl
