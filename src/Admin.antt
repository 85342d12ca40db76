-- ===== src/Admin.antt =====
-- The licences page of the dashboard: admin-dashboard/src/pages/Licenses.tsx. It shows the table whose
-- rows the licence functions read: the numbers and the filters. A date that is missing counts as 1970.
mod Tests
pub mod Operations
pub mod Creation
pub mod Sorting
pub mod Counts
pub mod Grants
use Prim.Native.String.{◌++◌}
use beidar_pos.Prelude.{
  ℕ, ◌*◌, ◌-◌, String, Bool, true, false, not, ◌&&◌, ◌||◌, Option, none, some, List, [], ◌∷◌, map,
  length, ltb, ◌===◌, if◌then◌else◌, or_default, keep_if,
}
use beidar_pos.License
use beidar_pos.License.{License}

-- A row with the columns that the page shows beside those that the functions read. `flags` are the features
-- as the page reads them.
pub record AdminLicense : Type 0 where
  pub row : License
  pub open row use *
  pub store_name : String
  pub customer_name : String
  pub customer_phone : String
  pub created_at : ℕ
  pub updated_at : ℕ
  pub is_paid : Bool
  pub flags : String → Bool

abbrev pub expiry_of : AdminLicense → ℕ
expiry_of l = or_default l.expires_at 0

abbrev pub is_past : ℕ → AdminLicense → Bool
is_past now l = ltb (expiry_of l) now

-- The tests of the numbers on top of the page.
abbrev pub is_active : ℕ → AdminLicense → Bool
is_active now l = l.status === "active" && ltb now (expiry_of l)

abbrev pub is_banned : AdminLicense → Bool
is_banned l = l.status === "banned"

abbrev pub has_expired : ℕ → AdminLicense → Bool
has_expired now l = not (l.status === "banned") && is_past now l

pub record Stats : Type 0 where
  pub total : ℕ
  pub active : ℕ
  pub banned : ℕ
  pub expired : ℕ
  pub paid_count : ℕ
  pub unpaid_count : ℕ
  pub active_ai : ℕ
  pub active_cloud : ℕ
  pub active_whats_app : ℕ
  pub estimated_value : ℕ
  pub unpaid_value : ℕ

abbrev pub count : (AdminLicense → Bool) → List AdminLicense → ℕ
count p licenses = length (keep_if p licenses)

unfoldable pub stats : ℕ → List AdminLicense → Stats
stats now licenses =
    let paid = count (λ l. l.is_paid) licenses in
    let unpaid = length licenses - paid in
    record {
      total = length licenses;
      active = count (is_active now) licenses;
      banned = count is_banned licenses;
      expired = count (has_expired now) licenses;
      paid_count = paid;
      unpaid_count = unpaid;
      active_ai = count (λ l. l.flags "ai_features") licenses;
      active_cloud = count (λ l. l.flags "cloud_sync") licenses;
      active_whats_app = count (λ l. l.flags "whatsapp_integration") licenses;
      estimated_value = paid * 250_000;
      unpaid_value = unpaid * 250_000;
    }

pub data StatusFilter : Type 0 where
  any_status only_active only_banned only_expired : StatusFilter

pub data PaymentFilter : Type 0 where
  any_payment only_paid only_unpaid : PaymentFilter

-- What the search looks in.
abbrev pub match_text : AdminLicense → String
match_text l =
    l.customer_name ++ " " ++ l.customer_phone ++ " " ++ l.store_name ++ " " ++ l.license_key

abbrev pub matches_status : ℕ → StatusFilter → AdminLicense → Bool
matches_status now any_status l = true
matches_status now only_active l = l.status === "active" && not (is_past now l)
matches_status now only_banned l = l.status === "banned"
matches_status now only_expired l = is_past now l && not (l.status === "banned")

abbrev pub matches_payment : PaymentFilter → AdminLicense → Bool
matches_payment any_payment l = true
matches_payment only_paid l = l.is_paid
matches_payment only_unpaid l = not l.is_paid

-- The filter of `filteredLicenses`; `found` says whether the lower-cased text holds the lower-cased search.
unfoldable pub filtered_licenses :
    (String → Bool) → ℕ → StatusFilter → PaymentFilter → List AdminLicense → List AdminLicense
filtered_licenses found now status payment licenses =
    keep_if (λ l. found (match_text l) && matches_status now status l && matches_payment payment l)
      licenses
