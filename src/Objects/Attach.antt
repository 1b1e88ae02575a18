-- ===== src/Objects/Attach.antt =====
-- Attachments as data URLs (SaveDataURL and LoadAsDataURL in app/internal/objstore/objstore.go).
-- `decode` and `encode` are base64.StdEncoding, `lower` is strings.ToLower.
use shell_agent_v.Base.{
  ℕ, ◌-◌, ◌*◌, Bool, ◌&&◌, ◌||◌, Option, none, some, List, [], ◌∷◌, ◌++◌, length, take, drop, leb,
  ltb, ◌==◌, if◌then◌else◌,
}
use shell_agent_v.Text.{Text, codes, ◌=ᵗ◌, has_prefix}
use shell_agent_v.Dict.{find}
use shell_agent_v.Objects.{
  ObjectType, image, blob, markdown, ObjectMeta, Store, Disk, Result, ok, failed, invalid_data_url,
  bad_base64, too_large, not_found, unreadable, store, get,
}

abbrev pub max_attachment_bytes : ℕ
max_attachment_bytes = 50 * 1024 * 1024

-- strings.SplitN(s, ",", 2), where there is a comma.
unfoldable pub split_comma : Text → Option (Text × Text)
split_comma [] = none
split_comma (c ∷ s) =
    let rest = split_comma s in
    if c == 0x2C then some ([], s) else elim rest [ none ↦ none | some r ↦ some (c ∷ r.0, r.1) ]

unfoldable pub has_suffix : Text → Text → Bool
unfolding ◌=ᵗ◌
has_suffix s p = leb (length p) (length s) && drop (length s - length p) s =ᵗ p

unfoldable pub trim_suffix : Text → Text → Text
unfolding has_suffix
trim_suffix s p = if has_suffix s p then take (length s - length p) s else s

unfoldable pub header_mime : Text → Text
unfolding has_prefix trim_suffix
header_mime header =
    if has_prefix header (codes "data:") then trim_suffix (drop 5 header) (codes ";base64") else []

unfoldable pub mime_by_name : (Text → Text) → Text → Text → Text
unfolding has_suffix ◌=ᵗ◌
mime_by_name lower name mime =
    if (length mime == 0 || mime =ᵗ codes "application/octet-stream") && ltb 0 (length name)
    then (if has_suffix (lower name) (codes ".md") || has_suffix (lower name) (codes ".markdown")
        then codes "text/markdown"
        else if has_suffix (lower name) (codes ".txt")
        then codes "text/plain"
        else mime)
    else mime

unfoldable pub type_of_mime : Text → ObjectType
unfolding has_prefix ◌=ᵗ◌
type_of_mime mime =
    if has_prefix mime (codes "image/")
    then image
    else if mime =ᵗ codes "text/markdown" || mime =ᵗ codes "text/plain"
    then markdown
    else blob

unfoldable pub save_data_url :
    (Text → Text)
    → (Text → Option Text)
    → Disk
    → List Text
    → ℕ
    → Text
    → Text
    → Text
    → Store
    → Result ObjectMeta × Store
unfolding split_comma header_mime mime_by_name type_of_mime store
save_data_url lower decode disk candidates now data_url name session s =
    elim (split_comma data_url) [
      | none ↦ (failed invalid_data_url, s)
      | some parts ↦ elim (decode parts.1) [
        | none ↦ (failed bad_base64, s)
        | some decoded ↦
            let mime = mime_by_name lower name (header_mime parts.0) in
            if ltb max_attachment_bytes (length decoded)
            then (failed (too_large (length decoded)), s)
            else store disk candidates now decoded (type_of_mime mime) mime name session s
      ]
    ]

unfoldable pub load_as_data_url : (Text → Text) → Text → Store → Result Text
unfolding get find
load_as_data_url encode id s = elim (get id s) [
  | none ↦ failed not_found
  | some meta ↦ elim (find id s.files) [
    | none ↦ failed unreadable
    | some content ↦ ok (codes "data:" ++ (meta.mime_type ++ (codes ";base64," ++ encode content)))
  ]
]
