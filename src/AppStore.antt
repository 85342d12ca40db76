-- ===== src/AppStore.antt =====
-- The global state of the frontend: frontend/src/store/appStore.ts. What zustand keeps of the view and the
-- theme is left out.
mod Tests
use beidar_pos.Prelude.{
  ℕ, ◌+◌, ◌≤◌, String, ◌≡◌, refl, sym, ◌∙◌, Bool-cases, inl, inr, Bool, true, false, ◌&&◌, Option,
  none, some, List, [], ◌∷◌, arith, eq_iff, ltb, ◌===◌, if◌then◌else◌,
}
use beidar_pos.Store.{Storage, set_item, remove_item}

pub data Theme : Type 0 where
  dark light : Theme

pub data Stage : Type 0 where
  splash cloud_auth license login app : Stage

pub data Kind : Type 0 where
  success error info : Kind

-- A toast that was shown, with its time.
pub record Toast : Type 0 where
  pub message : String
  pub kind : Kind
  pub time : ℕ

-- The state, the variable `lastNotify` with the toasts shown, latest first, and the stored texts.
pub record AppState : Type 0 where
  pub active_view : String
  pub theme : Theme
  pub is_command_palette_open : Bool
  pub is_ai_chat_open : Bool
  pub is_shortcuts_open : Bool
  pub last_message : String
  pub last_time : ℕ
  pub toasts : List Toast
  pub online_status : Bool
  pub app_state : Stage
  pub storage : Storage

unfoldable pub initial : Bool → Storage → AppState
initial online st = record {
  active_view = "dashboard";
  theme = dark;
  is_command_palette_open = false;
  is_ai_chat_open = false;
  is_shortcuts_open = false;
  last_message = "";
  last_time = 0;
  toasts = [];
  online_status = online;
  app_state = splash;
  storage = st;
}

unfoldable pub set_active_view : String → AppState → AppState
set_active_view view s = record s {
  active_view = view;
  storage = set_item "beidar_last_view" view s.storage;
}

abbrev other_theme : Theme → Theme
other_theme dark = light
other_theme light = dark

unfoldable pub toggle_theme : AppState → AppState
toggle_theme s = record s { theme = other_theme s.theme }

-- `notify`: the same message again within two seconds is dropped.
unfoldable pub notify : String → Kind → ℕ → AppState → AppState
notify message kind now s =
    if s.last_message === message && ltb now (s.last_time + 2000) then s else record s {
      last_message = message;
      last_time = now;
      toasts = record { message = message; kind = kind; time = now } ∷ s.toasts;
    }

unfoldable pub clear_auth_session : AppState → AppState
clear_auth_session s = record s {
  storage =
      remove_item "beidar_last_activity"
        (remove_item "beidar_auth_token" (remove_item "beidar_auth_session" s.storage));
  app_state = login;
}

-- The actions of the store.
pub data Action : Type 0 where
  view_set : String → Action
  theme_toggled : Action
  palette_set : Bool → Action
  chat_set : Bool → Action
  shortcuts_set : Bool → Action
  notified : String → Kind → ℕ → Action
  online_set : Bool → Action
  stage_set : Stage → Action
  session_cleared : Action

unfoldable pub after : Action → AppState → AppState
unfolding set_active_view toggle_theme notify clear_auth_session
after (view_set view) s = set_active_view view s
after theme_toggled s = toggle_theme s
after (palette_set open_now) s = record s { is_command_palette_open = open_now }
after (chat_set open_now) s = record s { is_ai_chat_open = open_now }
after (shortcuts_set open_now) s = record s { is_shortcuts_open = open_now }
after (notified message kind now) s = notify message kind now s
after (online_set online) s = record s { online_status = online }
after (stage_set stage) s = record s { app_state = stage }
after session_cleared s = clear_auth_session s

unfoldable pub run : List Action → AppState → AppState
run [] s = s
run (a ∷ actions) s = run actions (after a s)

-- Two toasts in a row with the same message are two seconds apart, the list being latest first.
abbrev pub IsSpaced : List Toast → Type 0
IsSpaced [] = Unit
IsSpaced (t ∷ []) = Unit
IsSpaced (t ∷ u ∷ rest) = (t.message ≡ u.message → u.time + 2000 ≤ t.time) × IsSpaced (u ∷ rest)

-- The latest toast is what `lastNotify` remembers.
abbrev pub IsLast : List Toast → AppState → Type 0
IsLast [] s = Unit
IsLast (t ∷ rest) s = (s.last_message ≡ t.message) × (s.last_time ≡ t.time)

pub record IsQuiet (s : AppState) : Type 0 where
  pub spaced : IsSpaced s.toasts
  pub last : IsLast s.toasts s

push-IsSpaced :
    (message : String) (kind : Kind) (now : ℕ) (s : AppState) (toasts : List Toast)
    → IsSpaced toasts
    → IsLast toasts s
    → (s.last_message === message && ltb now (s.last_time + 2000)) ≡ false
    → IsSpaced (record { message = message; kind = kind; time = now } ∷ toasts)
push-IsSpaced message kind now s [] q l h = tt
push-IsSpaced message kind now s (t ∷ rest) q l h =
    (λ e. ground (arith, eq_iff s.last_message message), q)

-- Actions that leave the remembered message keep the relation.
moved :
    (s s' : AppState) (toasts : List Toast)
    → s.last_message ≡ s'.last_message
    → s.last_time ≡ s'.last_time
    → IsLast toasts s
    → IsLast toasts s'
moved s s' [] m t l = tt
moved s s' (u ∷ rest) m t l = (sym m ∙ l.0, sym t ∙ l.1)

notify-IsQuiet :
    (message : String) (kind : Kind) (now : ℕ) (s : AppState)
    → IsQuiet s
    → IsQuiet (notify message kind now s)
unfolding notify
notify-IsQuiet message kind now s q =
    elim (Bool-cases (s.last_message === message && ltb now (s.last_time + 2000))) [
      | inl again ↦ rw again q
      | inr fresh ↦ rw fresh (record {
        spaced = push-IsSpaced message kind now s s.toasts q.spaced q.last fresh;
        last = (refl, refl);
      })
    ]

after-IsQuiet : (a : Action) (s : AppState) → IsQuiet s → IsQuiet (after a s)
unfolding after
after-IsQuiet (view_set view) s q = record {
  spaced = q.spaced;
  last = moved s _ s.toasts refl refl q.last;
}
after-IsQuiet theme_toggled s q = record {
  spaced = q.spaced;
  last = moved s _ s.toasts refl refl q.last;
}
after-IsQuiet (palette_set b) s q = record {
  spaced = q.spaced;
  last = moved s _ s.toasts refl refl q.last;
}
after-IsQuiet (chat_set b) s q = record {
  spaced = q.spaced;
  last = moved s _ s.toasts refl refl q.last;
}
after-IsQuiet (shortcuts_set b) s q = record {
  spaced = q.spaced;
  last = moved s _ s.toasts refl refl q.last;
}
after-IsQuiet (notified message kind now) s q = notify-IsQuiet message kind now s q
after-IsQuiet (online_set b) s q = record {
  spaced = q.spaced;
  last = moved s _ s.toasts refl refl q.last;
}
after-IsQuiet (stage_set stage) s q = record {
  spaced = q.spaced;
  last = moved s _ s.toasts refl refl q.last;
}
after-IsQuiet session_cleared s q = record {
  spaced = q.spaced;
  last = moved s _ s.toasts refl refl q.last;
}

run-IsQuiet : (actions : List Action) (s : AppState) → IsQuiet s → IsQuiet (run actions s)
unfolding run
run-IsQuiet [] s q = q
run-IsQuiet (a ∷ actions) s q = run-IsQuiet actions (after a s) (after-IsQuiet a s q)

-- After any actions of the store, two toasts that were shown one after the other with the same message are at
-- least two seconds apart.
pub run-IsSpaced :
    (online : Bool) (st : Storage) (actions : List Action)
    → IsSpaced (run actions (initial online st)).toasts
unfolding initial
run-IsSpaced online st actions =
    (run-IsQuiet actions (initial online st) (record { spaced = tt; last = tt })).spaced
