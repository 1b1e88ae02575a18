-- ===== src/SessionIo/Import/Rollback.antt =====
-- What a failed import leaves behind (ImportSession in app/internal/sessionio/import.go).
use shell_agent_v.Base.{◌≡◌, ◌⊎◌, false, ◌&&◌, none, some}
use shell_agent_v.Text.{Text}
use shell_agent_v.Dict.{Dict, find}
use shell_agent_v.Session.{Session}
use shell_agent_v.Objects.{Store, Disk, get}
use shell_agent_v.SessionIo.Import.{ImportFailure, World, ImportResult, import_failed}
use shell_agent_v.SessionIo.Import.Registration.{leaves_object, IsAsBefore}

module _ (start : Store) where
  -- The index file is as it was, or holds the index, or could not be written.
  abbrev pub IsWritten : Disk → Store → Type 0
  IsWritten disk s =
      (s.saved ≡ start.saved)
      ⊎ ((s.saved ≡ some s.index) ⊎ ((disk.makes_dir && disk.saves) ≡ false))

  -- No session directory, and each id with the entry and the file that it had, or with none.
  abbrev pub IsRolledBack : Disk → ImportFailure → World → Type 0
  IsRolledBack disk why w =
      (w.session_dir ≡ none)
      × ((j : Text) → IsAsBefore start (some why) j (get j w.objects) (find j w.objects.files))
      × IsWritten disk w.objects

  -- The same for what has been reported as a failure that leaves no object.
  Fails : Disk → ImportResult × World → Type 0
  Fails disk x =
      (why : ImportFailure) (w : World)
      → disk.remains ≡ none
      → x ≡ (import_failed why, w)
      → leaves_object why ≡ false
      → IsRolledBack disk why w
