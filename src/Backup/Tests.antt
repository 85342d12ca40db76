-- ===== src/Backup/Tests.antt =====
-- The property of useAutoBackup.ts at two days.
use beidar_pos.Prelude.{
  ◌≡◌, refl, String, true, false, none, some, List, [], ◌∷◌, ◌===◌, if◌then◌else◌,
}
use beidar_pos.Store.{Storage}
use beidar_pos.Utils.{flag, Prefs}
use beidar_pos.Backup.{BackupState, Event, rendered, finished, backup_effect, run}

abbrev prefs : Prefs
prefs key = if key === "autoBackup" then some (flag true) else none

abbrev empty : Storage
empty key = none

abbrev start : BackupState
start = record { called = false; prefs = prefs; storage = empty; notices = [] }

abbrev events : List Event
events =
    rendered (record { app_state = "login"; prefs = prefs; today = "2025-01-01" })
    ∷ rendered (record { app_state = "app"; prefs = prefs; today = "2025-01-01" })
    ∷ finished prefs (some "2025-01-01T08:00:00Z")
    ∷ rendered (record { app_state = "app"; prefs = prefs; today = "2025-01-02" })
    ∷ []

stringify : Prefs → String
stringify p = "prefs"

one_started : (run stringify events start).1 ≡ 1
unfolding run backup_effect
one_started = refl
