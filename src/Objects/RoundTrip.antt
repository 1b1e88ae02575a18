-- ===== src/Objects/RoundTrip.antt =====
-- What an attachment reads back as (SaveDataURL and LoadAsDataURL in
-- app/internal/objstore/objstore.go).
use shell_agent_v.Base.{
  ℕ, ◌-◌, ◌≡◌, refl, sym, ap, Bool, true, false, ◌||◌, Option, some, List, [], ◌∷◌, ◌++◌, length,
  take, drop, leb, ◌==◌, arith, append_assoc, length-append,
}
use shell_agent_v.Text.{Text, codes, has_prefix}
use shell_agent_v.Text.Laws.{text_eq_refl}
use shell_agent_v.Objects.{ObjectMeta, Store, Disk, ok, store, new_meta}
use shell_agent_v.Objects.Attach.{
  split_comma, has_suffix, trim_suffix, header_mime, mime_by_name, type_of_mime, save_data_url,
  load_as_data_url,
}
use shell_agent_v.Objects.Laws.{store-ok}

unfoldable pub has_comma : Text → Bool
has_comma [] = false
has_comma (c ∷ s) = c == 0x2C || has_comma s

has_comma-append :
    (a b : Text) → has_comma a ≡ false → has_comma b ≡ false → has_comma (a ++ b) ≡ false
unfolding has_comma
has_comma-append [] b h k = k
has_comma-append (c ∷ a) b h k = ground (arith, h, has_comma-append a b (ground (arith, h)) k)

split_comma_lem : (a b : Text) → has_comma a ≡ false → split_comma (a ++ 0x2C ∷ b) ≡ some (a, b)
unfolding has_comma split_comma
split_comma_lem [] b h = refl
split_comma_lem (c ∷ a) b h =
    let q : ((c == 0x2C) ≡ false) = ground (arith, h) in
    rw (q, split_comma_lem a b (ground (arith, h))) refl

drop-append : (a b : Text) → drop (length a) (a ++ b) ≡ b
drop-append [] b = refl
drop-append (c ∷ a) b = drop-append a b

take-append : (a b : Text) → take (length a) (a ++ b) ≡ a
take-append [] b = refl
take-append (c ∷ a) b = rw (take-append a b)

trim_suffix-append : (a p : Text) → trim_suffix (a ++ p) p ≡ a
unfolding trim_suffix has_suffix
trim_suffix-append a p =
    let n : (length (a ++ p) - length p ≡ length a) = omega (arith, length-append a p) in
    let fits : (leb (length p) (length (a ++ p)) ≡ true) = ground (arith, length-append a p) in
    rw (n, fits, drop-append a p, text_eq_refl p, take-append a p) refl

unfoldable pub data_url : Text → Text → Text
data_url mime payload = codes "data:" ++ (mime ++ (codes ";base64," ++ payload))

header_of : Text → Text
header_of mime = codes "data:" ++ (mime ++ codes ";base64")

header_mime-header_of : (mime : Text) → header_mime (header_of mime) ≡ mime
unfolding header_mime header_of has_prefix
header_mime-header_of mime = trim_suffix-append mime (codes ";base64")

split_comma-data_url :
    (mime payload : Text)
    → has_comma mime ≡ false
    → split_comma (data_url mime payload) ≡ some (header_of mime, payload)
unfolding data_url header_of has_comma
split_comma-data_url mime payload h =
    let q : (data_url mime payload ≡ header_of mime ++ 0x2C ∷ payload) =
      ap (λ t. codes "data:" ++ t) (sym (append_assoc mime (codes ";base64") (0x2C ∷ payload))) in
    rw q (
      split_comma_lem (header_of mime) payload (
        has_comma-append (codes "data:") (mime ++ codes ";base64") refl
          (has_comma-append mime (codes ";base64") h refl)))

new_meta-mime :
    (m : ObjectMeta) (id : Text) (mime name session : Text) (now : ℕ) (content : Text)
    → m ≡ new_meta id (type_of_mime mime) mime name session now content
    → m.mime_type ≡ mime
unfolding new_meta
new_meta-mime m id mime name session now content h = ap (λ x. x.mime_type) h

module _ (lower : Text → Text) (decode : Text → Option Text) (encode : Text → Text) where
  -- The call of Store that a data URL of this form comes to.
  save_data_url-store :
      (disk : Disk) (candidates : List Text) (now : ℕ) (mime content name session : Text)
      (s s' : Store) (m : ObjectMeta)
      → decode (encode content) ≡ some content
      → has_comma mime ≡ false
      → mime_by_name lower name mime ≡ mime
      → save_data_url lower decode disk candidates now
          (data_url mime (encode content))
          name
          session
          s
        ≡ (ok m, s')
      → store disk candidates now content (type_of_mime mime) mime name session s ≡ (ok m, s')
  unfolding save_data_url
  save_data_url-store disk cs now mime content name session s s' m d c n h =
      let a = split_comma-data_url mime (encode content) c in
      let b = header_mime-header_of mime in ground (arith, a, b, d, n, h)

  -- An attachment that has been saved from a data URL with a MIME type, where the type has no comma
  -- and is not one that the name decides, reads back as that URL.
  pub save_data_url-load :
      (disk : Disk) (candidates : List Text) (now : ℕ) (mime content name session : Text)
      (s s' : Store) (m : ObjectMeta)
      → decode (encode content) ≡ some content
      → has_comma mime ≡ false
      → mime_by_name lower name mime ≡ mime
      → save_data_url lower decode disk candidates now
          (data_url mime (encode content))
          name
          session
          s
        ≡ (ok m, s')
      → load_as_data_url encode m.id s' ≡ ok (data_url mime (encode content))
  unfolding load_as_data_url data_url
  save_data_url-load disk cs now mime content name session s s' m d c n h =
      let k = save_data_url-store disk cs now mime content name session s s' m d c n h in
      let (e, _, g, f, _) =
        store-ok disk cs now content (type_of_mime mime) mime name session s m s' k in
      let q = new_meta-mime m m.id mime name session now content e in ground (arith, g, f, q)
