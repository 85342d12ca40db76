-- ===== src/Startup/Tests.antt =====
-- The properties of the start and of the shortcuts at some events.
use beidar_pos.Prelude.{◌≡◌, refl, true, false, none, some, List, [], ◌∷◌}
use beidar_pos.Store.{Storage}
use beidar_pos.AppStore.{AppState, initial, theme_toggled, app, after}
use beidar_pos.Startup.{
  failed, answered, Event, timed_out, first_checked, checked_again, acted, is_splash, step, run,
  navigate, toggle_palette, blocked, shortcut, screen_of, login_screen, check_auth_status,
  prevents_key, prevents_backspace, view_shortcut, is_reload, is_dev_tools,
}
use beidar_pos.Startup.Stages.{starting, start_leaves_splash}
use beidar_pos.Startup.Entry.{is_behind, no_entry_without_grant}
use beidar_pos.Startup.Keys.{plain}

abbrev empty : Storage
empty key = none

-- After six seconds the licence screen is shown; the answer that comes late still signs in.
abbrev late : List Event
late = acted theme_toggled ∷ timed_out ∷ first_checked (answered true) failed failed ∷ []

late_answer_counts : screen_of (run late (starting true empty)).state.app_state ≡ login_screen
unfolding run step after check_auth_status screen_of
late_answer_counts = refl

start_leaves_splash_example :
    is_splash
      (run
        (acted theme_toggled ∷ [])
        (step timed_out (run (acted theme_toggled ∷ []) (starting true empty)))).state.app_state
    ≡ false
start_leaves_splash_example =
    start_leaves_splash true empty (acted theme_toggled ∷ []) (acted theme_toggled ∷ []) timed_out
      (refl, tt) (refl, tt) refl

abbrev refused : List Event
refused =
    timed_out
    ∷ first_checked failed (answered false) (answered true)
    ∷ checked_again (answered false) failed (answered false)
    ∷ []

no_entry_without_grant_example :
    is_behind (run refused (starting true empty)).state.app_state ≡ false
no_entry_without_grant_example =
    no_entry_without_grant true empty refused (refl, (refl, (refl, tt))) (refl, (refl, (refl, tt)))

shortcuts_at_keys :
    (shortcut (plain "F2") ≡ some (navigate "sales"))
    × (shortcut (plain "F5") ≡ some blocked)
    × (shortcut (record (plain "k") { ctrl = true }) ≡ some toggle_palette)
    × (prevents_key (record (plain "S") { ctrl = true }) ≡ true)
    × (prevents_backspace (plain "Backspace") ≡ true)
unfolding shortcut view_shortcut is_reload is_dev_tools prevents_key prevents_backspace
shortcuts_at_keys = (refl, refl, refl, refl, refl)

abbrev shown : AppState
shown = record (initial true empty) { app_state = app }
