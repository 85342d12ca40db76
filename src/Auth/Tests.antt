-- ===== src/Auth/Tests.antt =====
-- The properties of AuthContext.tsx at a session of one cashier.
use beidar_pos.Prelude.{
  ◌*◌, ◌-◌, ◌≡◌, refl, ◌⊎◌, true, false, none, some, List, [], ◌∷◌, arith, ◌===◌, leb,
  if◌then◌else◌, is_some,
}
use beidar_pos.Prelude.Int.{pos}
use beidar_pos.Store.{Storage, throws}
use beidar_pos.Auth.{
  Staff, Reply, result, Codec, IsRead, AuthState, initial, login, logout, tick, has_permission,
  Event, logged_in, logged_in_by_pin, logged_out, minute, after, run, last_activity_key,
}
use beidar_pos.Auth.Access.{access_only_by_reply, reached, Accepts, reply_of}
use beidar_pos.Auth.Idle.{idle_logout}

-- A codec that knows one time.
abbrev codec : Codec
codec = record {
  stringify_session = λ staff permissions. "session";
  parse_session = λ text. throws;
  number_to_string = λ n. "1000";
  parse_int = λ text. if text === "1000" then some 1000 else none;
}

codec-reads : IsRead codec 1000
codec-reads = record { number_back = refl; number_text = refl }

abbrev cashier : Staff
cashier = record { id = "s1"; name = "Zainab"; must_change_pin = true; role = "cashier" }

abbrev accepted : Reply
accepted = result (record {
  success = true;
  staff = some cashier;
  permissions = some ("sales.create" ∷ []);
  require_pin_change = none;
})

abbrev empty : Storage
empty key = none

abbrev session : AuthState
session = login codec 1000 accepted (initial empty)

may_sell :
    (has_permission "sales.create" session ≡ true)
    × (has_permission "sales.delete" session ≡ false)
    × (session.require_pin_change ≡ true)
unfolding login initial has_permission
may_sell = (refl, refl, refl)

activity_stored : session.storage last_activity_key ≡ some (codec.number_to_string 1000)
unfolding login initial
activity_stored = refl

session_minutes : session.idle_timeout ≡ pos 60
unfolding login initial
session_minutes = refl

session_user : is_some session.current_user ≡ true
unfolding login initial
session_user = refl

must_change : session.require_pin_change ≡ true
unfolding login initial
must_change = refl

abbrev day : List Event
day = logged_in 1000 accepted ∷ minute 61_000 ∷ logged_out ∷ []

signed_out : is_some (reached codec empty day).current_user ≡ false
unfolding run after login initial logout tick
signed_out = refl

access_only_by_reply_example :
    let s' = after codec (logged_in_by_pin 1000 accepted) (initial empty) in
    ((s'.current_user ≡ (initial empty).current_user)
      × (s'.permissions ≡ (initial empty).permissions))
    ⊎ ((s'.current_user ≡ none) × (s'.permissions ≡ []))
    ⊎ Accepts (reply_of (logged_in_by_pin 1000 accepted)) s'.current_user s'.permissions
access_only_by_reply_example =
    access_only_by_reply codec (logged_in_by_pin 1000 accepted) (initial empty)

idle_logout_example :
    (tick codec 3_601_000 session).current_user
    ≡ (if leb (60 * 60_000) (3_601_000 - 1000) then none else session.current_user)
idle_logout_example =
    idle_logout codec 1000 3_601_000 60 session codec-reads activity_stored session_minutes
      (omega arith) (omega arith)
