-- ===== src/Startup/Keys.antt =====
-- What the keyboard shortcuts do to the store.
use beidar_pos.Prelude.{
  String, ◌≡◌, ◌≢◌, refl, ap, ◌⊎◌, inl, inr, Bool, true, false, ◌||◌, ◌&&◌, not, Option, none, some,
  arith, ◌===◌, if◌then◌else◌, Bool-cases,
}
use beidar_pos.Store.{set_item}
use beidar_pos.AppStore.{
  set_active_view, AppState, Stage, splash, cloud_auth, license, login, app, after,
}
use beidar_pos.Startup.{
  KeyPress, Shortcut, blocked, toggle_palette, toggle_shortcuts, navigate, shortcut, view_shortcut,
  handle_key, handle_at, perform, is_reload, is_dev_tools,
}

-- A key without modifiers, pressed outside of every field.
abbrev pub plain : String → KeyPress
plain key = record {
  key = key;
  ctrl = false;
  shift = false;
  command_key = false;
  in_field = false;
  is_editable = false;
}

abbrev opens : String → Option Shortcut → Bool
opens view (some (navigate v)) = v === view
opens view _ = false

views_without_f5 :
    (key : String) → (key === "F5") ≡ false → opens "invoices" (view_shortcut key) ≡ false
unfolding view_shortcut
views_without_f5 key h = ground arith

reload_key : (e : KeyPress) → is_reload e ≡ false → (e.key === "F5") ≡ false
unfolding is_reload
reload_key e h = ground arith

-- The branches of the handler behind the reload keys.
by_branch :
    (dev palette help : Bool) (view : Option Shortcut)
    → opens "invoices" view ≡ false
    → opens "invoices" (
        if dev
        then some blocked
        else if palette
        then some toggle_palette
        else if help
        then some toggle_shortcuts
        else view)
      ≡ false
by_branch true palette help view h = refl
by_branch false true help view h = refl
by_branch false false true view h = refl
by_branch false false false view h = h

never_opens_invoices : (e : KeyPress) → opens "invoices" (shortcut e) ≡ false
unfolding shortcut
never_opens_invoices e = elim (Bool-cases (is_reload e)) [
  | inl reload ↦ rw reload refl
  | inr other ↦ rw other (
      by_branch (is_dev_tools e) ((e.command_key || e.ctrl) && e.key === "k")
        (e.key === "?" && not e.ctrl && not e.command_key && not e.in_field) (view_shortcut e.key)
        (views_without_f5 e.key (reload_key e other)))
]

-- No key press opens the invoices, though the map of views has a key for them.
pub invoices_unreachable : (e : KeyPress) → shortcut e ≢ some (navigate "invoices")
invoices_unreachable e same =
    absurd (ground (arith, never_opens_invoices e, ap (opens "invoices") same))

-- The state `s'` has the stage of `s` and its stored texts, but for the last view.
abbrev pub IsSameSession : AppState → AppState → Type 0
IsSameSession s s' =
    (s'.app_state ≡ s.app_state)
    × ((s'.storage ≡ s.storage)
        ⊎ ((view : String) × (s'.storage ≡ set_item "beidar_last_view" view s.storage)))

perform-IsSameSession : (c : Shortcut) (s : AppState) → IsSameSession s (perform c s)
unfolding after set_active_view
perform-IsSameSession blocked s = (refl, inl refl)
perform-IsSameSession toggle_palette s = (refl, inl refl)
perform-IsSameSession toggle_shortcuts s = (refl, inl refl)
perform-IsSameSession (navigate view) s = elim (Bool-cases (s.active_view === view)) [
  | inl here ↦ rw here (refl, inl refl)
  | inr away ↦ rw away (refl, inr (view, refl))
]

at-IsSameSession :
    (stage : Stage) (c : Option Shortcut) (s : AppState) → IsSameSession s (handle_at stage c s)
at-IsSameSession app (some c) s = perform-IsSameSession c s
at-IsSameSession app none s = (refl, inl refl)
at-IsSameSession splash c s = (refl, inl refl)
at-IsSameSession cloud_auth c s = (refl, inl refl)
at-IsSameSession license c s = (refl, inl refl)
at-IsSameSession login c s = (refl, inl refl)

idle : (stage : Stage) (c : Option Shortcut) (s : AppState) → stage ≢ app → handle_at stage c s ≡ s
idle app c s away = absurd (away refl)
idle splash c s away = refl
idle cloud_auth c s away = refl
idle license c s away = refl
idle login c s away = refl

-- A key press changes neither the stage nor a stored text but the last view, so it signs nobody in or out; and
-- before the application is shown it changes nothing at all.
pub keys_keep_session :
    (e : KeyPress) (s : AppState)
    → IsSameSession s (handle_key e s) × (s.app_state ≢ app → handle_key e s ≡ s)
unfolding handle_key
keys_keep_session e s =
    (at-IsSameSession s.app_state (shortcut e) s, idle s.app_state (shortcut e) s)
