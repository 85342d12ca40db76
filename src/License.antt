-- ===== src/License.antt =====
-- The licence functions of the server: supabase/functions/activate_license/index.ts and
-- supabase/functions/verify_license/index.ts. A function is up to two parts, before and after an answer of
-- the database. Times are milliseconds.
mod Tests
mod Message
pub mod Owner
use beidar_pos.Prelude.{
  ℕ, ◌<◌, String, Bool, true, false, not, ◌&&◌, ◌||◌, Option, none, some, ltb, ◌===◌, if◌then◌else◌,
  is_some,
}
use beidar_pos.License.Message
use beidar_pos.Store.{truthy, Parsed, throws, other, value}

-- A row of the table `licenses`.
pub record License : Type 0 where
  pub id : String
  pub license_key : String
  pub user_id : Option String
  pub status : String
  pub expires_at : Option ℕ
  pub features : Option String
  pub bound_at : Option ℕ
  pub last_check_in : Option ℕ

-- What `single()` and `maybeSingle()` answer: an error, which two rows give as well, no row, or the row.
pub data Fetched : Type 0 where
  fetch_error absent : Fetched
  row : License → Fetched

-- The body of an answer; the two that an exception gives carry its message.
pub data Body : Type 0 where
  preflight : Body
  refused : String → Body
  licensed : String → Option ℕ → String → Body

pub record Response : Type 0 where
  pub status : ℕ
  pub body : Body

abbrev refuse : ℕ → String → Response
refuse status message = record { status = status; body = refused message }

-- What a call of the function asks for next: an answer at once, or a query of the table.
pub data Asked : Type 0 where
  answer : Response → Asked
  by_key : String → String → Asked
  by_user : String → Asked

-- `license.features || {}`
abbrev pub features_of : License → String
features_of l = elim (truthy l.features) [ none ↦ "{}" | some f ↦ f ]

abbrev pub granted : String → License → Response
granted message l = record { status = 200; body = licensed message l.expires_at (features_of l) }

-- `activate_license` up to its query. The body of the request is a key and a user, empty where missing; a
-- body that is no JSON is an exception with a message. `to_upper` is `toUpperCase`.
unfoldable pub begin_activate : (String → String) → Bool → Parsed (String × String) → String → Asked
begin_activate to_upper true body message = answer (record { status = 200; body = preflight })
begin_activate to_upper false throws message = answer (refuse 500 message)
begin_activate to_upper false other message = answer (refuse 400 Message.key_and_user)
begin_activate to_upper false (value (key, user)) message =
    if key === "" || user === ""
    then answer (refuse 400 Message.key_and_user)
    else by_key (to_upper key) user

-- The update that binds a licence: of the row with an identifier, to a user at a time.
pub record LicenseUpdate : Type 0 where
  pub row_id : String
  pub user_id : String
  pub bound_at : ℕ
  pub last_check_in : ℕ

-- `license.user_id && license.user_id !== userId`
abbrev pub is_bound_elsewhere : String → License → Bool
is_bound_elsewhere user l = elim (truthy l.user_id) [
  | none ↦ false
  | some owner ↦ not (owner === user)
]

-- From the fetched row to an answer or to the update.
unfoldable pub check_activation : String → ℕ → Fetched → Response × Option LicenseUpdate
check_activation user now fetch_error = (refuse 200 Message.no_such_key, none)
check_activation user now absent = (refuse 200 Message.no_such_key, none)
check_activation user now (row l) =
    if not (l.status === "active")
    then (refuse 200 Message.not_active, none)
    else if is_bound_elsewhere user l
    then (refuse 200 Message.bound_elsewhere, none)
    else (
      granted Message.activated l,
      some (record { row_id = l.id; user_id = user; bound_at = now; last_check_in = now }),
    )

-- The whole answer: with an update, whether the database took it decides.
unfoldable pub activate : String → ℕ → Fetched → Bool → Response
unfolding check_activation
activate user now fetched updated = elim ((check_activation user now fetched).1) [
  | none ↦ (check_activation user now fetched).0
  | some b ↦
      if updated then (check_activation user now fetched).0 else refuse 500 Message.update_failed
]

-- What the update does to a row.
unfoldable pub apply_update : LicenseUpdate → License → License
apply_update b l =
    if l.id === b.row_id
    then record l {
      user_id = some b.user_id;
      bound_at = some b.bound_at;
      last_check_in = some b.last_check_in;
    }
    else l

-- `verify_license` up to its query, for a body with a user.
unfoldable pub begin_verify : Bool → Parsed String → String → Asked
begin_verify true body message = answer (record { status = 200; body = preflight })
begin_verify false throws message = answer (refuse 500 message)
begin_verify false other message = answer (refuse 400 Message.user_missing)
begin_verify false (value user) message =
    if user === "" then answer (refuse 400 Message.user_missing) else by_user user

-- `license.expires_at && new Date(license.expires_at) < new Date()`
abbrev pub is_expired : ℕ → License → Bool
is_expired now l = elim l.expires_at [ none ↦ false | some at ↦ ltb at now ]

-- From the fetched row on, with the row whose check-in is updated; the outcome of that update is ignored.
unfoldable pub verify : ℕ → Fetched → Response × Option String
verify now fetch_error = (refuse 200 Message.no_licence, none)
verify now absent = (refuse 200 Message.no_licence, none)
verify now (row l) =
    if is_expired now l
    then (refuse 200 Message.expired, none)
    else (granted Message.valid l, some l.id)

-- The condition of the query by user: `user_id` is the user and `status` is active.
abbrev pub matches_user : String → License → Bool
matches_user user l =
    (elim l.user_id [ none ↦ false | some u ↦ u === user ]) && (l.status === "active")
