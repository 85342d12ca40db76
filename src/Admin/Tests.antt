-- ===== src/Admin/Tests.antt =====
-- The properties of the licences page at a small table.
use beidar_pos.License
use beidar_pos.License.{activate, verify, matches_user, apply_update}
use beidar_pos.License.Owner.{is_licensed}
use beidar_pos.Admin.Sorting.{
  AreInOrder, expiry_soon, visible_licenses, sorted, insert, shown_in_order,
}
use beidar_pos.Admin.Creation.{
  CreationState, Defaults, new_license, begin_create_license, activated, created_is_usable,
}
use beidar_pos.Prelude.{
  ap, map, ◌≢◌, ℕ, ◌+◌, ◌*◌, ◌≡◌, refl, inl, inr, String, true, false, none, some, List, [], ◌∷◌,
  All, ◌===◌, arith,
}
use beidar_pos.Admin.{
  count, is_banned, filtered_licenses, AdminLicense, stats, only_active, only_banned, only_expired,
  any_status, any_payment, only_paid, only_unpaid, filtered_licenses,
}
use beidar_pos.Admin.Operations.{AdminState, written, confirm_status_update}
use beidar_pos.Admin.Counts.{IsRegular, shown, counts_fit_filters}
use beidar_pos.Admin.Grants.{IsRefused, ban_refuses}

abbrev license : String → String → ℕ → AdminLicense
license id status expiry = record {
  row = record {
    id = id;
    license_key = id;
    user_id = some "u1";
    status = status;
    expires_at = some expiry;
    features = none;
    bound_at = none;
    last_check_in = none;
  };
  store_name = "";
  customer_name = id;
  customer_phone = "";
  created_at = 1;
  updated_at = 1;
  is_paid = false;
  flags = λ name. false;
}

abbrev table : List AdminLicense
table = license "1" "active" 5_000 ∷ license "2" "banned" 9_000 ∷ license "3" "active" 1_000 ∷ []

two_are_shown :
    shown 2_000 only_active any_payment table + shown 2_000 only_expired any_payment table ≡ 2
unfolding filtered_licenses
two_are_shown = refl

table-IsRegular : All (IsRegular 2_000) table
table-IsRegular =
    ((inl refl, omega arith), ((inr refl, omega arith), ((inl refl, omega arith), tt)))

counts_fit_filters_example :
    let n = stats 2_000 table in
    (n.active + n.banned + n.expired ≡ n.total)
    × (n.paid_count + n.unpaid_count ≡ n.total)
    × (shown 2_000 only_active any_payment table ≡ n.active)
    × (shown 2_000 only_banned any_payment table ≡ n.banned)
    × (shown 2_000 only_expired any_payment table ≡ n.expired)
    × (shown 2_000 any_status only_paid table ≡ n.paid_count)
    × (shown 2_000 any_status only_unpaid table ≡ n.unpaid_count)
counts_fit_filters_example = counts_fit_filters 2_000 table table-IsRegular

abbrev page : AdminState
page = record {
  table = table;
  licenses = table;
  details_modal = none;
  extend_modal = none;
  status_confirm = none;
  reset_confirm = none;
  delete_confirm = none;
  toasts = [];
  log = [];
}

ban_refuses_example :
    All
      (λ l. (l.id === "1") ≡ true → IsRefused "u1" 3_000 l)
      (confirm_status_update 2_500 written written
        (record page { status_confirm = some ("1", "banned", "1") })).table
ban_refuses_example = ban_refuses "1" "1" "u1" 2_500 3_000 written page

abbrev add_months : ℕ → ℕ → ℕ
add_months months date = date + months * 100

abbrev expired : AdminLicense
expired = license "3" "active" 1_000

shown_in_order_example :
    AreInOrder expiry_soon
      (visible_licenses (λ text. true) 2_000 any_status any_payment expiry_soon table)
    × (count is_banned
          (visible_licenses (λ text. true) 2_000 any_status any_payment expiry_soon table)
        ≡ count is_banned (filtered_licenses (λ text. true) 2_000 any_status any_payment table))
shown_in_order_example =
    shown_in_order (λ text. true) 2_000 any_status any_payment expiry_soon table is_banned

expiring_first :
    map (λ l. l.id) (visible_licenses (λ text. true) 2_000 any_status any_payment expiry_soon table)
    ≡ "3" ∷ "1" ∷ "2" ∷ []
unfolding visible_licenses filtered_licenses sorted insert
expiring_first = refl

abbrev form : CreationState
form = record {
  new_license_name = "Shop";
  new_license_phone = "";
  new_license_months = 12;
  new_license_features = λ name. true;
  toasts = [];
  log = [];
  has_left = false;
}

abbrev defaults : Defaults
defaults = record { new_id = "9"; now = 1_000; features_text = "{}" }

abbrev trim : String → String
trim text = text

name_is_given : trim form.new_license_name ≢ ""
name_is_given e = absurd (ground (arith, ap (λ text. text === "") e))

created_is_usable_example :
    let l = new_license trim "0123456789ABCDEF" 9_000 defaults form in
    ((begin_create_license trim "0123456789ABCDEF" 9_000 defaults form).0 ≡ some l)
    × (is_licensed (activate "u1" 2_000 (License.row l.row) true) ≡ true)
    × ((activated "u1" 2_000 l.row).user_id ≡ some "u1")
    × (matches_user "u1" (activated "u1" 2_000 l.row) ≡ true)
    × (is_licensed (verify 3_000 (License.row (activated "u1" 2_000 l.row))).0 ≡ true)
created_is_usable_example =
    created_is_usable trim "0123456789ABCDEF" 9_000 defaults form "u1" 2_000 3_000 name_is_given
