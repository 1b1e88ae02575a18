-- ===== src/Analysis.antt =====
-- The SQL that the analysis engine builds from names and paths (app/internal/analysis/engine.go,
-- readonly.go). A statement is the text that the code hands to DuckDB; DuckDB itself is not modelled.
pub mod Quoting
use shell_agent_v.Base.{ℕ, List, [], ◌∷◌, ◌++◌, if◌then◌else◌}
use shell_agent_v.Text.{Text, codes, contains, member, replace_byte}
use shell_agent_v.Agent.ToolName.{is_empty}
use shell_agent_v.Memory.Prompt.{decimal}

-- strings.ReplaceAll of a quotation mark by two.
unfoldable pub doubled : ℕ → Text → Text
unfolding replace_byte
doubled q s = replace_byte q (q ∷ q ∷ []) s

unfoldable pub escape_sql_string : Text → Text
unfolding doubled
escape_sql_string s = doubled b'\'' s

unfoldable pub sanitize_identifier : Text → Text
unfolding doubled
sanitize_identifier name = b'"' ∷ (doubled b'"' name ++ b'"' ∷ [])

-- `'%s'` with an escaped text.
unfoldable pub literal : Text → Text
unfolding escape_sql_string
literal s = b'\'' ∷ (escape_sql_string s ++ b'\'' ∷ [])

unfoldable pub load_csv_sql : Text → Text → Text
unfolding sanitize_identifier literal
load_csv_sql table path =
    codes "CREATE OR REPLACE TABLE "
    ++ (sanitize_identifier table
        ++ (codes " AS SELECT * FROM read_csv_auto(" ++ (literal path ++ codes ")")))

unfoldable pub load_json_sql : Text → Text → Text
unfolding sanitize_identifier literal
load_json_sql table path =
    codes "CREATE OR REPLACE TABLE "
    ++ (sanitize_identifier table
        ++ (codes " AS SELECT * FROM read_json_auto(" ++ (literal path ++ codes ")")))

unfoldable pub load_jsonl_sql : Text → Text → Text
unfolding sanitize_identifier literal
load_jsonl_sql table path =
    codes "CREATE OR REPLACE TABLE "
    ++ (sanitize_identifier table
        ++ (codes " AS SELECT * FROM read_json_auto("
            ++ (literal path
                ++ (codes ", format=" ++ (literal (codes "newline_delimited") ++ codes ")")))))

unfoldable pub description_sql : Text → Text → Text
unfolding sanitize_identifier literal
description_sql table description =
    codes "COMMENT ON TABLE "
    ++ (sanitize_identifier table ++ (codes " IS " ++ literal description))

unfoldable pub drop_sql : Text → Text
unfolding sanitize_identifier
drop_sql table = codes "DROP TABLE IF EXISTS " ++ sanitize_identifier table

unfoldable pub count_sql : Text → Text
unfolding sanitize_identifier
count_sql table = codes "SELECT COUNT(*) FROM " ++ sanitize_identifier table

unfoldable pub preview_sql : Text → ℕ → Text
unfolding sanitize_identifier decimal
preview_sql table limit =
    codes "SELECT * FROM " ++ (sanitize_identifier table ++ (codes " LIMIT " ++ decimal limit))

unfoldable pub copy_saved_sql : Text → Text
unfolding sanitize_identifier
copy_saved_sql table =
    codes "CREATE TABLE " ++ (sanitize_identifier table ++ codes " AS SELECT * FROM stage.result")

-- `stem` is the file name of the database without its extension, `lowered` the stem in lower case.
unfoldable pub reader_alias : Text → Text → Text
unfolding member
reader_alias stem lowered =
    if member lowered ([] ∷ codes "memory" ∷ codes "system" ∷ codes "temp" ∷ codes "stage" ∷ [])
    then codes "session"
    else stem

unfoldable pub attach_sql : Text → Text → Text
unfolding sanitize_identifier literal
attach_sql path alias =
    codes "ATTACH "
    ++ (literal path ++ (codes " AS " ++ (sanitize_identifier alias ++ codes " (READ_ONLY)")))

unfoldable pub attach_stage_sql : Text → Text
unfolding literal
attach_stage_sql stage = codes "ATTACH " ++ (literal stage ++ codes " AS stage")

unfoldable pub spill_sql : Text → Text
unfolding literal
spill_sql path = codes "SET temp_directory = " ++ literal (path ++ codes ".tmp")

abbrev pub lock_statements : List Text
lock_statements =
    codes "SET autoinstall_known_extensions = false"
    ∷ codes "SET autoload_known_extensions = false"
    ∷ codes "SET lock_configuration = true"
    ∷ []

-- The statements that open a reader, in their order; an empty `stage` attaches no second database.
unfoldable pub reader_statements : Text → Text → Text → List Text
unfolding attach_sql attach_stage_sql spill_sql
reader_statements path alias stage =
    attach_sql path alias
    ∷ ((if is_empty stage then [] else attach_stage_sql stage ∷ [])
        ++ ((codes "USE " ++ sanitize_identifier alias) ∷ spill_sql path ∷ lock_statements))

-- What the driver's Prepare says of a query: the type of its one statement, or an error's text.
pub data Prepared : Type 0 where
  select_statement : Prepared
  other_statement : Prepared
  prepare_error : Text → Prepared

pub data Gate : Type 0 where
  passed : Gate
  not_select : Gate
  failed : Text → Gate

unfoldable pub require_select : Prepared → Gate
unfolding contains
require_select select_statement = passed
require_select other_statement = not_select
require_select (prepare_error e) =
    if contains e (codes "multi-statement") then not_select else failed e
