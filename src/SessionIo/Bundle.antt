-- ===== src/SessionIo/Bundle.antt =====
-- The validation of a bundle (validateBundle in app/internal/sessionio/import.go, and
-- UnmarshalManifest in manifest.go). The content of an entry is `none` where it cannot be opened or
-- read; `parse_manifest` and `parse_index` are json.Unmarshal. Where several blobs are orphans, the
-- code names the one that Go's map gives first, and the model the first in the bundle.
use shell_agent_v.Base.{
  ℕ, Bool, true, false, ◌||◌, Option, none, some, List, [], ◌∷◌, ◌++◌, length, drop, ◌==◌,
  if◌then◌else◌,
}
use shell_agent_v.Text.{Text, codes, ◌=ᵗ◌, member, has_prefix, contains}
use shell_agent_v.Dict.{Dict, find, put}
use shell_agent_v.Objects.{ObjectType}
use shell_agent_v.SessionIo.Archive.{safe_archive_path, safe}

pub record ZipEntry : Type 0 where
  pub name : Text
  pub content : Option Text
  -- Whether closing its reader succeeds.
  pub closes : Bool

pub record Manifest : Type 0 where
  pub schema_version : ℕ
  pub exported_at : ℕ
  pub exported_by_app_version : Text
  pub original_id : Text
  pub title : Text
  pub is_private : Bool

pub record IndexEntry : Type 0 where
  pub id : Text
  pub object_type : ObjectType
  pub mime_type : Text
  pub orig_name : Text
  pub created_at : Text
  pub size : ℕ

pub data Problem : Type 0 where
  bad_name : Text → Problem
  unreadable_entry : Text → Problem
  bad_index no_manifest bad_manifest no_chat empty_id : Problem
  bad_blob_path : Text → Problem
  wrong_version : ℕ → Problem
  missing_blob : Text → Problem
  orphan_blob : Text → Problem

pub data Checked (A : Type 0) : Type 0 where
  fine : A → Checked A
  refused : Problem → Checked A

infixl 5 ◌>>=◌
abbrev pub ◌>>=◌ : {A B : Type 0} → Checked A → (A → Checked B) → Checked B
fine a >>= f = f a
refused e >>= f = refused e

-- importPlan, and what the walk over the entries keeps beside it.
pub record Plan : Type 0 where
  pub manifest_file : Option ZipEntry
  pub has_chat_json : Bool
  pub entries : List ZipEntry
  pub object_index : List IndexEntry
  pub object_blobs : Dict ZipEntry

abbrev pub empty_plan : Plan
empty_plan = record {
  manifest_file = none;
  has_chat_json = false;
  entries = [];
  object_index = [];
  object_blobs = [];
}

abbrev pub schema_version : ℕ
schema_version = 1

abbrev pub required : Problem → {A : Type 0} → Option A → Checked A
required e none = refused e
required e (some a) = fine a

unfoldable pub check_name : ZipEntry → Checked Text
unfolding safe_archive_path
check_name f = elim (safe_archive_path f.name) [
  | safe ↦ fine f.name
  | _ ↦ refused (bad_name f.name)
]

-- objects/data/<id>
unfoldable pub add_blob : ZipEntry → Plan → Checked Plan
unfolding contains put
add_blob f plan =
    let id = drop 13 f.name in
    if length id == 0 || contains id (codes "/")
    then refused (bad_blob_path f.name)
    else fine (record plan { object_blobs = put id f plan.object_blobs })

-- The index names each blob, and every blob is named.
unfoldable pub check_index : List IndexEntry → Dict ZipEntry → Checked (List Text)
unfolding find
check_index [] blobs = fine []
check_index (e ∷ es) blobs =
    let rest = check_index es blobs in
    if length e.id == 0 then refused empty_id else elim (find e.id blobs) [
      | none ↦ refused (missing_blob e.id)
      | some b ↦ elim rest [ fine ids ↦ fine (e.id ∷ ids) | refused p ↦ refused p ]
    ]

unfoldable pub check_blobs : List Text → Dict ZipEntry → Checked (List Text)
unfolding member
check_blobs ids [] = fine []
check_blobs ids ((id, b) ∷ blobs) =
    let rest = check_blobs ids blobs in if member id ids then rest else refused (orphan_blob id)

module _ (parse_index : Text → Option (List IndexEntry)) where
  unfoldable pub read_index : ZipEntry → Plan → Checked Plan
  read_index f plan = do
    content ← required (unreadable_entry f.name) f.content
    index ← required bad_index (parse_index content)
    fine (record plan { object_index = index })

  unfoldable pub categorise : ZipEntry → Plan → Checked Plan
  unfolding ◌=ᵗ◌ has_prefix read_index add_blob
  categorise f plan =
      if f.name =ᵗ codes "manifest.json"
      then fine (record plan { manifest_file = some f })
      else if f.name =ᵗ codes "chat.json"
      then fine (record plan { has_chat_json = true })
      else if f.name =ᵗ codes "objects/index.json"
      then read_index f plan
      else if has_prefix f.name (codes "objects/data/")
      then add_blob f plan
      else fine plan

  unfoldable pub walk : List ZipEntry → Plan → Checked Plan
  unfolding check_name categorise
  walk [] plan = fine plan
  walk (f ∷ fs) plan = do
    name ← check_name f
    next ← categorise f plan
    walk fs (record next { entries = next.entries ++ f ∷ [] })

  module _ (parse_manifest : Text → Option Manifest) where
    unfoldable pub unmarshal_manifest : Text → Checked Manifest
    unmarshal_manifest data_bytes = do
      m ← required bad_manifest (parse_manifest data_bytes)
      if m.schema_version == schema_version
          then fine m
          else refused (wrong_version m.schema_version)

    unfoldable pub validate_bundle : List ZipEntry → Checked (Manifest × Plan)
    unfolding walk unmarshal_manifest check_index check_blobs
    validate_bundle files = do
      plan ← walk files empty_plan
      file ← required no_manifest plan.manifest_file
      content ← required (unreadable_entry (codes "manifest.json")) file.content
      manifest ← unmarshal_manifest content
      chat ← (if plan.has_chat_json then fine plan else refused no_chat)
      ids ← check_index plan.object_index plan.object_blobs
      blobs ← check_blobs ids plan.object_blobs
      fine (manifest, plan)
