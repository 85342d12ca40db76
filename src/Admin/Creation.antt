-- ===== src/Admin/Creation.antt =====
-- New licences: admin-dashboard/src/pages/CreateLicense.tsx, and what the licence functions make of them. The
-- random digits of a key, the date that `setMonth` gives and what the database fills in are arguments.
use Prim.Native.String.{◌++◌}
use beidar_pos.Prelude.{
  ℕ, String, ◌≡◌, ◌≢◌, refl, Bool, true, false, not, Option, none, some, List, ◌∷◌, ◌===◌,
  if◌then◌else◌, leb, arith, eq_iff,
}
use beidar_pos.License.{
  License, row, check_activation, activate, apply_update, verify, matches_user,
}
use beidar_pos.License.Owner.{is_licensed, activate_then_verify}
use beidar_pos.Admin.{AdminLicense}
use beidar_pos.Admin.Operations.{Answer, refused, written}

-- The form and its toasts, latest first.
pub record CreationState : Type 0 where
  pub new_license_name : String
  pub new_license_phone : String
  pub new_license_months : ℕ
  pub new_license_features : String → Bool
  pub toasts : List (String × Bool)
  pub log : List (String × String)
  pub has_left : Bool

unfoldable pub toggle_feature_form : String → CreationState → CreationState
toggle_feature_form key s = record s {
  new_license_features = λ name.
      if name === key then not (s.new_license_features name) else s.new_license_features name;
}

-- `generateLicenseKey`, with the sixteen digits.
unfoldable pub license_key_of : String → String
license_key_of digits = "BIDAR-" ++ digits

-- What the database and the clock give to a new row: its identifier, the time, the stored text of its features.
pub record Defaults : Type 0 where
  pub new_id : String
  pub now : ℕ
  pub features_text : String

-- The row that is inserted.
unfoldable pub new_license :
    (String → String) → String → ℕ → Defaults → CreationState → AdminLicense
new_license trim digits expiry d s = record {
  row = record {
    id = d.new_id;
    license_key = license_key_of digits;
    user_id = none;
    status = "active";
    expires_at = some expiry;
    features = some d.features_text;
    bound_at = none;
    last_check_in = none;
  };
  store_name = "";
  customer_name = trim s.new_license_name;
  customer_phone = trim s.new_license_phone;
  created_at = d.now;
  updated_at = d.now;
  is_paid = false;
  flags = s.new_license_features;
}

-- `createLicense` up to the insertion.
unfoldable pub begin_create_license :
    (String → String) → String → ℕ → Defaults → CreationState → Option AdminLicense × CreationState
begin_create_license trim digits expiry d s =
    if trim s.new_license_name === ""
    then (
      none,
      record s {
        toasts =
            (
              "\u{627}\u{633}\u{645} \u{627}\u{644}\u{639}\u{645}\u{64a}\u{644} \u{645}\u{637}\u{644}\u{648}\u{628}.",
              true,
            )
            ∷ s.toasts;
      },
    )
    else (some (new_license trim digits expiry d s), s)

unfoldable pub finish_create_license : String → Answer → CreationState → CreationState
finish_create_license digits (refused message) s = record s {
  toasts =
      (
        "\u{641}\u{634}\u{644} \u{625}\u{646}\u{634}\u{627}\u{621} \u{627}\u{644}\u{62a}\u{631}\u{62e}\u{64a}\u{635}: "
            ++ message,
        true,
      )
      ∷ s.toasts;
}
finish_create_license digits written s = record s {
  toasts =
      (
        "\u{62a}\u{645} \u{625}\u{646}\u{634}\u{627}\u{621} \u{627}\u{644}\u{631}\u{62e}\u{635}\u{629} \u{628}\u{646}\u{62c}\u{627}\u{62d}: "
            ++ license_key_of digits,
        false,
      )
      ∷ s.toasts;
  log = ("CREATE_LICENSE", license_key_of digits) ∷ s.log;
  new_license_name = "";
  new_license_phone = "";
  has_left = true;
}

-- The row after an activation: what is written of it, if anything is.
abbrev pub activated : String → ℕ → License → License
activated user now l = elim ((check_activation user now (row l)).1) [
  | none ↦ l
  | some b ↦ apply_update b l
]

-- A licence that the page creates can be activated by any one user, and what the activation writes binds it to
-- that user; from then on a verification of the user finds it, and grants it at a time exactly if the time is
-- not behind the expiry that the page has computed.
pub created_is_usable :
    (trim : String → String) (digits : String) (expiry : ℕ) (d : Defaults) (s : CreationState)
    (user : String) (now later : ℕ)
    → trim s.new_license_name ≢ ""
    → let l = new_license trim digits expiry d s in
      ((begin_create_license trim digits expiry d s).0 ≡ some l)
      × (is_licensed (activate user now (row l.row) true) ≡ true)
      × ((activated user now l.row).user_id ≡ some user)
      × (matches_user user (activated user now l.row) ≡ true)
      × (is_licensed (verify later (row (activated user now l.row))).0 ≡ leb later expiry)
unfolding begin_create_license new_license activate check_activation
created_is_usable trim digits expiry d s user now later named =
    let usable =
      activate_then_verify user now later (new_license trim digits expiry d s).row
        {b = record { row_id = d.new_id; user_id = user; bound_at = now; last_check_in = now }}
        refl in
    (ground (arith, eq_iff (trim s.new_license_name) ""), refl, usable.0, usable.1, usable.2)
