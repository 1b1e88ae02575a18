-- ===== src/Examples/SqlRuns.antt =====
-- SQL built from a name and a path that hold quotation marks (app/internal/analysis/engine.go).
use shell_agent_v.Base.{◌≡◌, refl, [], ◌∷◌}
use shell_agent_v.Text.{Text, codes}
use shell_agent_v.Analysis.{
  load_csv_sql, drop_sql, reader_statements, reader_alias, require_select, prepare_error,
  not_select,
}
use shell_agent_v.Analysis.Quoting.{pieces, meaning, csv_parts, statements-quoted}

abbrev hostile_name : Text
hostile_name = codes "t\"; DROP TABLE u; --"

abbrev hostile_path : Text
hostile_path = codes "/tmp/o'brien.csv"

load_is_read :
    pieces (load_csv_sql hostile_name hostile_path) ≡ meaning (csv_parts hostile_name hostile_path)
load_is_read = (statements-quoted hostile_name hostile_path).0

dropped : drop_sql (codes "a\"b") ≡ codes "DROP TABLE IF EXISTS \"a\"\"b\""
unfolding drop_sql
dropped = refl

reader_without_stage :
    reader_statements (codes "/s/analysis.duckdb") (codes "analysis") []
    ≡ codes "ATTACH '/s/analysis.duckdb' AS \"analysis\" (READ_ONLY)"
      ∷ codes "USE \"analysis\""
      ∷ codes "SET temp_directory = '/s/analysis.duckdb.tmp'"
      ∷ codes "SET autoinstall_known_extensions = false"
      ∷ codes "SET autoload_known_extensions = false"
      ∷ codes "SET lock_configuration = true"
      ∷ []
unfolding reader_statements
reader_without_stage = refl

reserved_stem : reader_alias (codes "Memory") (codes "memory") ≡ codes "session"
unfolding reader_alias
reserved_stem = refl

several_statements : require_select (prepare_error (codes "a multi-statement query")) ≡ not_select
unfolding require_select
several_statements = refl
