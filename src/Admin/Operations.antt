-- ===== src/Admin/Operations.antt =====
-- The operations of the page of licences on the table, with the state of the page. An operation runs in one
-- step, with the answers of the database as arguments; what `setDate` and `setMonth` of a date give is an
-- argument too. The table is listed as the query orders it. The flag of the loading screen and the details of a
-- log entry are left out.
use Prim.Native.String.{◌++◌}
use beidar_pos.Prelude.{
  ℕ, String, Bool, true, false, not, Option, none, some, List, ◌∷◌, map, ◌===◌, if◌then◌else◌,
  keep_if,
}
use beidar_pos.Admin.{AdminLicense, expiry_of}

-- The database's answer to a change: an error with its message, which may be empty, or none.
pub data Answer : Type 0 where
  refused : String → Answer
  written : Answer

-- The state of the page with the table; toasts and log entries latest first.
pub record AdminState : Type 0 where
  pub table : List AdminLicense
  pub licenses : List AdminLicense
  pub details_modal : Option AdminLicense
  pub extend_modal : Option AdminLicense
  pub status_confirm : Option (String × String × String)
  pub reset_confirm : Option (String × String)
  pub delete_confirm : Option (String × String)
  pub toasts : List (String × Bool)
  pub log : List (String × String)

-- `.update(...).eq('id', id)`
abbrev pub update_row :
    String → (AdminLicense → AdminLicense) → List AdminLicense → List AdminLicense
update_row id change table = map (λ l. if l.id === id then change l else l) table

abbrev pub toast : String → Bool → AdminState → AdminState
toast message is_error s = record s { toasts = (message, is_error) ∷ s.toasts }

-- `fetchLicenses`, where the query gives the table.
unfoldable pub fetch_licenses : Answer → AdminState → AdminState
fetch_licenses written s = record s { licenses = s.table }
fetch_licenses (refused message) s =
    toast
      ("\u{62e}\u{637}\u{623} \u{641}\u{64a} \u{62a}\u{62d}\u{645}\u{64a}\u{644} \u{627}\u{644}\u{62a}\u{631}\u{627}\u{62e}\u{64a}\u{635}: "
        ++ message)
      true s

abbrev pub with_status : String → ℕ → AdminLicense → AdminLicense
with_status status now l = record l { row = record l.row { status = status }; updated_at = now }

abbrev pub with_expiry : ℕ → ℕ → AdminLicense → AdminLicense
with_expiry expiry now l = record l {
  row = record l.row { expires_at = some expiry; status = "active" };
  updated_at = now;
}

abbrev pub with_payment : Bool → ℕ → AdminLicense → AdminLicense
with_payment is_paid now l = record l { is_paid = is_paid; updated_at = now }

-- A change that the database takes: the row is written, the action logged, a toast shown and the table fetched.
abbrev pub take :
    (List AdminLicense → List AdminLicense)
    → String × String
    → String
    → Answer
    → AdminState
    → AdminState
take change entry message fetched s =
    fetch_licenses fetched
      (toast message false (record s { table = change s.table; log = entry ∷ s.log }))

unfoldable pub toggle_payment_status :
    String → Bool → String → ℕ → Answer → Answer → AdminState → AdminState
toggle_payment_status id current key now (refused message) fetched s =
    toast
      ("\u{641}\u{634}\u{644} \u{62a}\u{639}\u{62f}\u{64a}\u{644} \u{62d}\u{627}\u{644}\u{629} \u{627}\u{644}\u{62f}\u{641}\u{639}: "
        ++ message)
      true s
toggle_payment_status id current key now written fetched s =
    take (update_row id (with_payment (not current) now)) ("UPDATE_PAYMENT", key)
      (if current
        then "\u{62a}\u{645} \u{62a}\u{639}\u{644}\u{64a}\u{642} \u{62f}\u{641}\u{639} \u{627}\u{644}\u{62a}\u{631}\u{62e}\u{64a}\u{635}"
        else "\u{62a}\u{645} \u{62a}\u{633}\u{62c}\u{64a}\u{644} \u{62a}\u{633}\u{62f}\u{64a}\u{62f} \u{627}\u{644}\u{62a}\u{631}\u{62e}\u{64a}\u{635} \u{628}\u{646}\u{62c}\u{627}\u{62d}")
      fetched s

-- `setDate(getDate() + 7)` of now is `in_a_week`.
unfoldable pub confirm_reset_to_trial : ℕ → ℕ → Answer → Answer → AdminState → AdminState
confirm_reset_to_trial in_a_week now answer fetched s = elim s.reset_confirm [
  | none ↦ s
  | some (id, key) ↦
      let closed : AdminState = record s { reset_confirm = none } in
      elim answer [
        | refused message ↦
            toast
              ("\u{641}\u{634}\u{644} \u{625}\u{639}\u{627}\u{62f}\u{629} \u{636}\u{628}\u{637} \u{627}\u{644}\u{62a}\u{631}\u{62e}\u{64a}\u{635}: "
                ++ message)
              true closed
        | written ↦
            take (update_row id (with_expiry in_a_week now)) ("RESET_TO_TRIAL", key)
              "\u{62a}\u{645}\u{62a} \u{625}\u{639}\u{627}\u{62f}\u{629} \u{636}\u{628}\u{637} \u{627}\u{644}\u{62a}\u{631}\u{62e}\u{64a}\u{635} \u{644}\u{641}\u{62a}\u{631}\u{629} \u{62a}\u{62c}\u{631}\u{64a}\u{628}\u{64a}\u{629} 7 \u{623}\u{64a}\u{627}\u{645}"
              fetched closed
      ]
]

unfoldable pub confirm_status_update : ℕ → Answer → Answer → AdminState → AdminState
confirm_status_update now answer fetched s = elim s.status_confirm [
  | none ↦ s
  | some (id, status, key) ↦
      let closed : AdminState = record s { status_confirm = none } in
      elim answer [
        | refused message ↦
            toast
              ("\u{641}\u{634}\u{644} \u{62a}\u{62d}\u{62f}\u{64a}\u{62b} \u{627}\u{644}\u{62d}\u{627}\u{644}\u{629}: "
                ++ message)
              true closed
        | written ↦
            take (update_row id (with_status status now)) ("UPDATE_STATUS", key)
              (if status === "active"
                then "\u{62a}\u{645} \u{62a}\u{641}\u{639}\u{64a}\u{644} \u{627}\u{644}\u{62a}\u{631}\u{62e}\u{64a}\u{635}"
                else "\u{62a}\u{645} \u{62d}\u{638}\u{631} \u{627}\u{644}\u{62a}\u{631}\u{62e}\u{64a}\u{635} \u{628}\u{646}\u{62c}\u{627}\u{62d}")
              fetched closed
      ]
]

-- `add_months` is what `setMonth(getMonth() + months)` makes of a date.
unfoldable pub confirm_extend_license :
    (ℕ → ℕ → ℕ) → ℕ → ℕ → Answer → Answer → AdminState → AdminState
confirm_extend_license add_months months now answer fetched s = elim s.extend_modal [
  | none ↦ s
  | some l ↦
      let closed : AdminState = record s { extend_modal = none } in
      elim answer [
        | refused message ↦
            toast
              ("\u{641}\u{634}\u{644} \u{62a}\u{645}\u{62f}\u{64a}\u{62f} \u{627}\u{644}\u{62a}\u{631}\u{62e}\u{64a}\u{635}: "
                ++ message)
              true closed
        | written ↦
            take (update_row l.id (with_expiry (add_months months (expiry_of l)) now))
              ("EXTEND_LICENSE", l.license_key)
              "\u{62a}\u{645} \u{62a}\u{645}\u{62f}\u{64a}\u{62f} \u{635}\u{644}\u{627}\u{62d}\u{64a}\u{629} \u{627}\u{644}\u{62a}\u{631}\u{62e}\u{64a}\u{635} \u{628}\u{646}\u{62c}\u{627}\u{62d}"
              fetched closed
      ]
]

unfoldable pub confirm_delete_license : Answer → Answer → AdminState → AdminState
confirm_delete_license answer fetched s = elim s.delete_confirm [
  | none ↦ s
  | some (id, key) ↦
      let closed : AdminState = record s { delete_confirm = none } in
      elim answer [
        | refused message ↦
            toast ("\u{641}\u{634}\u{644} \u{627}\u{644}\u{62d}\u{630}\u{641}: " ++ message) true
              closed
        | written ↦
            take (keep_if (λ l. not (l.id === id))) ("DELETE_LICENSE", key)
              "\u{62a}\u{645} \u{62d}\u{630}\u{641} \u{627}\u{644}\u{62a}\u{631}\u{62e}\u{64a}\u{635} \u{628}\u{646}\u{62c}\u{627}\u{62d}"
              fetched closed
      ]
]

-- The operations, with the times that they compute.
pub data Operation : Type 0 where
  toggle : String → Bool → String → Operation
  reset : ℕ → Operation
  set_status extend_months delete : Operation

unfoldable pub operate : (ℕ → ℕ → ℕ) → ℕ → ℕ → Operation → Answer → Answer → AdminState → AdminState
unfolding toggle_payment_status confirm_reset_to_trial confirm_status_update confirm_extend_license
    confirm_delete_license
operate add_months months now (toggle id current key) answer fetched s =
    toggle_payment_status id current key now answer fetched s
operate add_months months now (reset in_a_week) answer fetched s =
    confirm_reset_to_trial in_a_week now answer fetched s
operate add_months months now set_status answer fetched s =
    confirm_status_update now answer fetched s
operate add_months months now extend_months answer fetched s =
    confirm_extend_license add_months months now answer fetched s
operate add_months months now delete answer fetched s = confirm_delete_license answer fetched s

abbrev pub with_flags : (String → Bool) → String → ℕ → AdminLicense → AdminLicense
with_flags flags stored now l = record l {
  row = record l.row { features = some stored };
  flags = flags;
  updated_at = now;
}

-- `toggleFeature` of a licence as the page shows it; `to_json` gives the stored text of its features. The list
-- that is shown is changed in place.
unfoldable pub toggle_feature :
    ((String → Bool) → String)
    → AdminLicense
    → String
    → String
    → Bool
    → ℕ
    → Answer
    → AdminState
    → AdminState
toggle_feature to_json license key label value now (refused message) s =
    toast
      ("\u{641}\u{634}\u{644} \u{62a}\u{639}\u{62f}\u{64a}\u{644} \u{627}\u{644}\u{645}\u{64a}\u{632}\u{629}: "
        ++ message)
      true s
toggle_feature to_json license key label value now written s =
    let flags : String → Bool = λ name. if name === key then value else license.flags name in
    let updated : AdminLicense = record license {
      row = record license.row { features = some (to_json flags) };
      flags = flags;
    } in
    let t : AdminState =
      toast
        ("\u{62a}\u{645} \u{62a}\u{639}\u{62f}\u{64a}\u{644} \u{645}\u{64a}\u{632}\u{629} " ++ label
          ++ " \u{628}\u{646}\u{62c}\u{627}\u{62d}")
        false s in
    record t {
      table = update_row license.id (with_flags flags (to_json flags) now) s.table;
      log = ("TOGGLE_FEATURE", license.license_key) ∷ s.log;
      licenses = update_row license.id (λ l. updated) s.licenses;
      details_modal = elim s.details_modal [
        | none ↦ none
        | some shown ↦ some (if shown.id === license.id then updated else shown)
      ];
    }
