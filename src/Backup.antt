-- ===== src/Backup.antt =====
-- The automatic backup: frontend/src/hooks/useAutoBackup.ts. The effect reads what was rendered; what follows
-- the five seconds and the call of the backend is a second function.
mod Tests
use package.text.Mathlib.Text.{starts_with}
use beidar_pos.Prelude.{
  ℕ, ◌+◌, ◌≤◌, String, ◌≡◌, refl, Bool, true, false, not, ◌&&◌, ◌||◌, Option, none, some, List, [],
  ◌∷◌, arith, ◌===◌, if◌then◌else◌,
}
use beidar_pos.Store.{Storage, set_item}
use beidar_pos.Utils.{Pref, text, flag, number, array, Prefs, sanitize_prefs_for_storage}

-- The ref, the preferences, the stored texts and the calls of `notify`, latest first: whether each is a success.
pub record BackupState : Type 0 where
  pub called : Bool
  pub prefs : Prefs
  pub storage : Storage
  pub notices : List Bool

-- What a render gives the effect: the state of the application, the preferences and today's date.
pub record Render : Type 0 where
  pub app_state : String
  pub prefs : Prefs
  pub today : String

abbrev is_on : Option Pref → Bool
is_on (some (flag b)) = b
is_on _ = false

-- `prefs.lastBackupDate?.startsWith(today)`
abbrev starts : Option Pref → String → Bool
starts (some (text t)) today = starts_with t today
starts _ today = false

-- The effect, and whether it starts a backup.
unfoldable pub backup_effect : Render → BackupState → BackupState × Bool
backup_effect r s =
    if not (r.app_state === "app") || not (is_on (r.prefs "autoBackup"))
    then (s, false)
    else if starts (r.prefs "lastBackupDate") r.today || s.called
    then (s, false)
    else (record s { called = true }, true)

abbrev pub with_date : String → Prefs → Prefs
with_date now prefs key = if key === "lastBackupDate" then some (text now) else prefs key

-- The rest of `performBackup`: the time of a success, or none. `seen` are the preferences of the render that
-- started it; `stringify` is `JSON.stringify`.
unfoldable pub finish_backup : (Prefs → String) → Prefs → Option String → BackupState → BackupState
finish_backup stringify seen none s = record s { notices = false ∷ s.notices }
finish_backup stringify seen (some now) s = record s {
  prefs = with_date now seen;
  storage =
      set_item "beidar_preferences" (stringify (sanitize_prefs_for_storage (with_date now seen)))
        s.storage;
  notices = true ∷ s.notices;
}

-- What can happen to a mounted hook.
pub data Event : Type 0 where
  rendered : Render → Event
  finished : Prefs → Option String → Event

-- The events in turn, with the number of backups that they start.
unfoldable pub run : (Prefs → String) → List Event → BackupState → BackupState × ℕ
unfolding backup_effect finish_backup
run stringify [] s = (s, 0)
run stringify (rendered r ∷ events) s =
    let first : BackupState × Bool = backup_effect r s in
    let more : BackupState × ℕ = run stringify events first.0 in
    (more.0, if first.1 then 1 + more.1 else more.1)
run stringify (finished seen result ∷ events) s =
    run stringify events (finish_backup stringify seen result s)

called_starts_none :
    (stringify : Prefs → String) (events : List Event) (s : BackupState)
    → s.called ≡ true
    → (run stringify events s).1 ≡ 0
unfolding run
called_starts_none stringify [] s h = refl
called_starts_none stringify (rendered r ∷ events) s h =
    ground (arith, called_starts_none stringify events s)
called_starts_none stringify (finished seen none ∷ events) s h =
    called_starts_none stringify events _ h
called_starts_none stringify (finished seen (some now) ∷ events) s h =
    called_starts_none stringify events _ h

-- However often the application renders, whatever its preferences and the date become, one mount starts at
-- most one backup; a date that changes to another day starts no second one.
pub at_most_one_backup :
    (stringify : Prefs → String) (events : List Event) (s : BackupState)
    → (run stringify events s).1 ≤ 1
unfolding run
at_most_one_backup stringify [] s = omega arith
at_most_one_backup stringify (rendered r ∷ events) s = ground (
  arith,
  called_starts_none stringify events (record s { called = true }),
  at_most_one_backup stringify events s,
)
at_most_one_backup stringify (finished seen result ∷ events) s =
    at_most_one_backup stringify events _
