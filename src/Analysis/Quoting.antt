-- ===== src/Analysis/Quoting.antt =====
-- What a reader of SQL makes of the texts that the engine puts between quotation marks
-- (app/internal/analysis/engine.go, readonly.go).
use shell_agent_v.Base.{
  ℕ, ◌≡◌, refl, sym, ap, ◌∙◌, Bool, true, false, ◌&&◌, ◌||◌, not, List, [], ◌∷◌, ◌++◌, map,
  append_assoc, append-nil, arith, ◌==◌, if◌then◌else◌,
}
use shell_agent_v.Text.{Text, codes, replace_byte}
use shell_agent_v.Analysis.{
  doubled, sanitize_identifier, literal, load_csv_sql, load_json_sql, load_jsonl_sql,
  description_sql, drop_sql, attach_sql,
}

-- A reader of SQL by itself: a byte outside quotation marks, the marks that open and close a quoted
-- part, and a byte that such a part stands for.
pub data Piece : Type 0 where
  plain : ℕ → Piece
  opened : ℕ → Piece
  in_quotes : ℕ → ℕ → Piece
  closed : ℕ → Piece

pub data Mode : Type 0 where
  outside : Mode
  inside : ℕ → Mode
  closing : ℕ → Mode

unfoldable pub is_quote : ℕ → Bool
is_quote c = c == b'"' || c == b'\''

unfoldable pub enter : ℕ → List Piece × Mode
unfolding is_quote
enter c = if is_quote c then (opened c ∷ [], inside c) else (plain c ∷ [], outside)

unfoldable pub next : Mode → ℕ → List Piece × Mode
unfolding enter
next outside c = enter c
next (inside q) c = if c == q then ([], closing q) else (in_quotes q c ∷ [], inside q)
next (closing q) c =
    if c == q then (in_quotes q c ∷ [], inside q) else (closed q ∷ (enter c).0, (enter c).1)

abbrev pub ended : Mode → List Piece
ended outside = []
ended (inside q) = []
ended (closing q) = closed q ∷ []

unfoldable pub pieces_from : Mode → Text → List Piece
unfolding next
pieces_from m [] = ended m
pieces_from m (c ∷ s) = (next m c).0 ++ pieces_from (next m c).1 s

unfoldable pub pieces : Text → List Piece
unfolding pieces_from
pieces s = pieces_from outside s

-- A quoted part that stands for a text.
abbrev pub quoted : ℕ → Text → List Piece
quoted q s = opened q ∷ (map (in_quotes q) s ++ closed q ∷ [])

unfoldable pub is_plain : Text → Bool
unfolding is_quote
is_plain [] = true
is_plain (c ∷ s) = not (is_quote c) && is_plain s

abbrev pub begins_with : ℕ → Text → Bool
begins_with q [] = false
begins_with q (c ∷ s) = c == q

words_then :
    (s r : Text) (ps : List Piece)
    → is_plain s ≡ true
    → pieces_from outside r ≡ ps
    → pieces_from outside (s ++ r) ≡ map plain s ++ ps
unfolding pieces_from is_plain
words_then [] r ps h e = e
words_then (c ∷ s) r ps h e = ground (arith, h, words_then s r ps (ground (arith, h)) e)

doubled_read :
    (q : ℕ) (s r : Text)
    → pieces_from (inside q) (doubled q s ++ r) ≡ map (in_quotes q) s ++ pieces_from (inside q) r
unfolding pieces_from doubled replace_byte
doubled_read q [] r = refl
doubled_read q (c ∷ s) r = ground (arith, doubled_read q s r)

ending :
    (q : ℕ) (r : Text)
    → is_quote q ≡ true
    → begins_with q r ≡ false
    → pieces_from (inside q) (q ∷ r) ≡ closed q ∷ pieces_from outside r
unfolding pieces_from
ending q [] h k = ground arith
ending q (c ∷ r) h k = ground (arith, k)

opening :
    (q : ℕ) (r : Text)
    → is_quote q ≡ true
    → pieces_from outside (q ∷ r) ≡ opened q ∷ pieces_from (inside q) r
unfolding pieces_from
opening q r h = rw h refl

quoted_body :
    (q : ℕ) (s r : Text)
    → is_quote q ≡ true
    → begins_with q r ≡ false
    → pieces_from (inside q) ((doubled q s ++ q ∷ []) ++ r)
      ≡ (map (in_quotes q) s ++ closed q ∷ []) ++ pieces_from outside r
quoted_body q s r h k =
    ap (pieces_from (inside q)) (append_assoc (doubled q s) (q ∷ []) r)
    ∙ doubled_read q s (q ∷ r)
    ∙ ap (λ ps. map (in_quotes q) s ++ ps) (ending q r h k)
    ∙ sym (append_assoc (map (in_quotes q) s) (closed q ∷ []) (pieces_from outside r))

quoted_then :
    (q : ℕ) (s r : Text) (ps : List Piece)
    → is_quote q ≡ true
    → begins_with q r ≡ false
    → pieces_from outside r ≡ ps
    → pieces_from outside ((q ∷ (doubled q s ++ q ∷ [])) ++ r) ≡ quoted q s ++ ps
quoted_then q s r ps h k e =
    opening q ((doubled q s ++ q ∷ []) ++ r) h
    ∙ ap (λ x. opened q ∷ x)
        (quoted_body q s r h k ∙ ap (λ x. (map (in_quotes q) s ++ closed q ∷ []) ++ x) e)

-- What a statement is made of: words of SQL, an identifier, a string literal.
pub data Part : Type 0 where
  words : Text → Part
  identifier : Text → Part
  string : Text → Part

unfoldable pub meaning : List Part → List Piece
meaning [] = []
meaning (words s ∷ ps) = map plain s ++ meaning ps
meaning (identifier s ∷ ps) = quoted b'"' s ++ meaning ps
meaning (string s ∷ ps) = quoted b'\'' s ++ meaning ps

spelled : List Part → Text
unfolding sanitize_identifier literal
spelled [] = []
spelled (words s ∷ ps) = s ++ spelled ps
spelled (identifier s ∷ ps) = sanitize_identifier s ++ spelled ps
spelled (string s ∷ ps) = literal s ++ spelled ps

-- No quotation mark among the words, and none directly behind a quoted part.
is_clear : List Part → Bool
unfolding is_plain spelled
is_clear [] = true
is_clear (words s ∷ ps) = is_plain s && is_clear ps
is_clear (identifier s ∷ ps) = not (begins_with b'"' (spelled ps)) && is_clear ps
is_clear (string s ∷ ps) = not (begins_with b'\'' (spelled ps)) && is_clear ps

spelled-read : (ps : List Part) → is_clear ps ≡ true → pieces_from outside (spelled ps) ≡ meaning ps
unfolding is_clear meaning pieces_from
spelled-read [] h = refl
spelled-read (words s ∷ ps) h =
    words_then s (spelled ps) (meaning ps) (ground (arith, h)) (spelled-read ps (ground (arith, h)))
spelled-read (identifier s ∷ ps) h =
    quoted_then b'"' s (spelled ps) (meaning ps) (unfold is_quote in refl) (ground (arith, h))
      (spelled-read ps (ground (arith, h)))
spelled-read (string s ∷ ps) h =
    quoted_then b'\'' s (spelled ps) (meaning ps) (unfold is_quote in refl) (ground (arith, h))
      (spelled-read ps (ground (arith, h)))

abbrev pub load_parts : Text → Text → List Part → List Part
load_parts call table arguments =
    words (codes "CREATE OR REPLACE TABLE ") ∷ identifier table ∷ words call ∷ arguments

abbrev pub csv_parts : Text → Text → List Part
csv_parts table path =
    load_parts (codes " AS SELECT * FROM read_csv_auto(") table
      (string path ∷ words (codes ")") ∷ [])

abbrev pub json_parts : Text → Text → List Part
json_parts table path =
    load_parts (codes " AS SELECT * FROM read_json_auto(") table
      (string path ∷ words (codes ")") ∷ [])

abbrev pub jsonl_parts : Text → Text → List Part
jsonl_parts table path = load_parts (codes " AS SELECT * FROM read_json_auto(") table (
    string path
    ∷ words (codes ", format=")
    ∷ string (codes "newline_delimited")
    ∷ words (codes ")")
    ∷ [])

abbrev pub description_parts : Text → Text → List Part
description_parts table description =
    words (codes "COMMENT ON TABLE ")
    ∷ identifier table
    ∷ words (codes " IS ")
    ∷ string description
    ∷ []

abbrev pub drop_parts : Text → List Part
drop_parts table = words (codes "DROP TABLE IF EXISTS ") ∷ identifier table ∷ []

abbrev pub attach_parts : Text → Text → List Part
attach_parts path alias =
    words (codes "ATTACH ")
    ∷ string path
    ∷ words (codes " AS ")
    ∷ identifier alias
    ∷ words (codes " (READ_ONLY)")
    ∷ []

-- Every name, path or description that the engine puts into one of these six statements is read
-- back as that one identifier or string literal, whatever its bytes are, and around it stand the
-- words of the statement.
pub statements-quoted :
    (table text : Text)
    → (pieces (load_csv_sql table text) ≡ meaning (csv_parts table text))
      × (pieces (load_json_sql table text) ≡ meaning (json_parts table text))
      × (pieces (load_jsonl_sql table text) ≡ meaning (jsonl_parts table text))
      × (pieces (description_sql table text) ≡ meaning (description_parts table text))
      × (pieces (drop_sql table) ≡ meaning (drop_parts table))
      × (pieces (attach_sql text table) ≡ meaning (attach_parts text table))
unfolding pieces load_csv_sql load_json_sql load_jsonl_sql description_sql drop_sql attach_sql
    is_clear
statements-quoted table text = (
  spelled-read (csv_parts table text) refl,
  spelled-read (json_parts table text) refl,
  spelled-read (jsonl_parts table text) refl,
  ap (λ s. pieces (codes "COMMENT ON TABLE " ++ (sanitize_identifier table ++ (codes " IS " ++ s))))
        (sym (append-nil (literal text)))
      ∙ spelled-read (description_parts table text) refl,
  ap (λ s. pieces (codes "DROP TABLE IF EXISTS " ++ s))
        (sym (append-nil (sanitize_identifier table)))
      ∙ spelled-read (drop_parts table) refl,
  spelled-read (attach_parts text table) refl,
)
