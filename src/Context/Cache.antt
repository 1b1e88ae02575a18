-- ===== src/Context/Cache.antt =====
-- The summary cache (app/internal/contextbuild/cache.go). `digest` is SHA-256 and `hex` its
-- hexadecimal spelling; times are numbers, 0 being the zero time.
use shell_agent_v.Base.{
  ℕ, ◌-◌, Bool, true, false, not, ◌&&◌, ◌||◌, Option, none, some, List, [], ◌∷◌, ◌++◌, length, drop,
  map, ltb, leb, ◌==◌, if◌then◌else◌,
}
use shell_agent_v.Text.{Text, codes, ◌=ᵗ◌, concat}
use shell_agent_v.Session.{Record}
use shell_agent_v.Memory.Prompt.{decimal}

pub record SummaryEntry : Type 0 where
  pub range_key : Text
  pub kind : Text
  pub tier : Text
  pub summarizer_id : Text
  pub from_timestamp : ℕ
  pub to_timestamp : ℕ
  pub record_count : ℕ
  pub summary : Text
  pub created_at : ℕ

pub record SummaryCache : Type 0 where
  pub entries : List SummaryEntry
  pub max_items : ℕ

abbrev pub kind_content_v2 : Text
kind_content_v2 = codes "content_v2"

abbrev pub default_max_items : ℕ
default_max_items = 64

unfoldable pub text_leb : Text → Text → Bool
text_leb [] t = true
text_leb (c ∷ s) [] = false
text_leb (c ∷ s) (d ∷ t) = ltb c d || c == d && text_leb s t

module _ {ℓ} {A : Type ℓ} (le : A → A → Bool) where
  -- In front of the first element that is not less, which keeps the sort stable.
  unfoldable pub insert_after : A → List A → List A
  insert_after x [] = x ∷ []
  insert_after x (y ∷ ys) = let rest = insert_after x ys in if le x y then x ∷ y ∷ ys else y ∷ rest

  unfoldable pub sort : List A → List A
  unfolding insert_after
  sort [] = []
  sort (x ∷ xs) = insert_after x (sort xs)

unfoldable pub record_part : Record → Text
record_part r = r.role ++ (0 ∷ (r.tool_name ++ (0 ∷ (r.content ++ (0 ∷ [])))))

abbrev pub ended : Text → Text
ended t = t ++ (0 ∷ [])

unfoldable pub compute_content_key :
    (Text → Text) → (Text → Text) → List Record → Text → List Text → List ℕ → Text → Text
unfolding record_part sort text_leb concat decimal
compute_content_key digest hex records summarizer_id dead anchors tier = hex (
    digest (
      summarizer_id
      ++ (codes "|"
          ++ (digest (concat (map record_part records))
              ++ (digest (concat (map ended (sort text_leb dead)))
                  ++ (digest (concat (map (λ a. ended (decimal a)) (sort leb anchors)))
                      ++ (codes "|" ++ tier)))))))

unfoldable pub get_entry : Text → List SummaryEntry → Option SummaryEntry
unfolding ◌=ᵗ◌
get_entry key [] = none
get_entry key (e ∷ es) =
    let rest = get_entry key es in
    if not (e.kind =ᵗ kind_content_v2) then rest else if e.range_key =ᵗ key then some e else rest

-- A nil cache has no entry.
unfoldable pub get : Text → Option SummaryCache → Option SummaryEntry
unfolding get_entry
get key none = none
get key (some c) = get_entry key c.entries

abbrev pub same_slot : SummaryEntry → SummaryEntry → Bool
same_slot e f = e.range_key =ᵗ f.range_key && e.kind =ᵗ f.kind

-- The entries with the first one of the same key and kind replaced, if there is one.
unfoldable pub replace_entry : SummaryEntry → List SummaryEntry → Option (List SummaryEntry)
unfolding ◌=ᵗ◌
replace_entry e [] = none
replace_entry e (f ∷ es) =
    if same_slot f e
    then some (e ∷ es)
    else elim (replace_entry e es) [ none ↦ none | some es' ↦ some (f ∷ es') ]

abbrev pub older : SummaryEntry → SummaryEntry → Bool
older e f = leb e.created_at f.created_at

unfoldable pub trim : ℕ → List SummaryEntry → List SummaryEntry
unfolding sort
trim limit es = if ltb limit (length es) then drop (length es - limit) (sort older es) else es

abbrev pub stamped : ℕ → SummaryEntry → SummaryEntry
stamped now e = record e {
  created_at = if e.created_at == 0 then now else e.created_at;
  kind = if length e.kind == 0 then kind_content_v2 else e.kind;
}

abbrev pub limit_of : SummaryCache → ℕ
limit_of c = if c.max_items == 0 then default_max_items else c.max_items

unfoldable pub put : ℕ → SummaryEntry → SummaryCache → SummaryCache
unfolding replace_entry trim
put now e c = elim (replace_entry (stamped now e) c.entries) [
  | some es ↦ record c { entries = es }
  | none ↦ record c { entries = trim (limit_of c) (c.entries ++ stamped now e ∷ []) }
]
