-- ===== src/Admin/Grants.antt =====
-- What the operations of the dashboard mean for the licence functions.
use beidar_pos.Prelude.{
  ℕ, ◌≡◌, refl, inl, inr, String, true, false, not, some, List, [], ◌∷◌, arith, ◌===◌, All, ltb,
  Bool-cases, Option-cases,
}
use beidar_pos.License
use beidar_pos.License.{License, verify, activate, check_activation, matches_user, is_expired}
use beidar_pos.License.Owner.{is_licensed}
use beidar_pos.Admin.{AdminLicense}
use beidar_pos.Admin.Operations.{
  AdminState, Answer, refused, written, update_row, with_status, confirm_status_update, Operation,
  toggle, reset, set_status, extend_months, delete, operate, fetch_licenses,
}

-- Every row with the identifier satisfies the predicate once it is changed.
updated :
    (P : AdminLicense → Type 0) (id : String) (change : AdminLicense → AdminLicense)
    (holds : (l : AdminLicense) → P (change l)) (keeps : (l : AdminLicense) → (change l).id ≡ l.id)
    (table : List AdminLicense)
    → All (λ l. (l.id === id) ≡ true → P l) (update_row id change table)
updated P id change holds keeps [] = tt
updated P id change holds keeps (l ∷ table) = elim (Bool-cases (l.id === id)) [
  | inl same ↦ rw same (λ e. holds l, updated P id change holds keeps table)
  | inr other ↦ rw other (λ e. absurd (ground arith), updated P id change holds keeps table)
]

-- Neither function lets a user on with the row.
abbrev pub IsRefused : String → ℕ → AdminLicense → Type 0
IsRefused user now l =
    (matches_user user l.row ≡ false)
    × (is_licensed (activate user now (License.row l.row) true) ≡ false)

banned-IsRefused :
    (user : String) (now at : ℕ) (l : AdminLicense) → IsRefused user now (with_status "banned" at l)
unfolding activate check_activation
banned-IsRefused user now at l = (ground arith, refl)

-- A licence that the page has banned, once the database has taken the change, lets nobody on any more: a
-- verification finds no row for any user, and an activation refuses every user.
pub ban_refuses :
    (id key user : String) (at now : ℕ) (fetched : Answer) (s : AdminState)
    → All
        (λ l. (l.id === id) ≡ true → IsRefused user now l)
        (confirm_status_update at written fetched
          (record s { status_confirm = some (id, "banned", key) })).table
unfolding confirm_status_update fetch_licenses
ban_refuses id key user at now written s =
    updated (IsRefused user now) id (with_status "banned" at) (banned-IsRefused user now at)
      (λ l. refl) s.table
ban_refuses id key user at now (refused message) s =
    updated (IsRefused user now) id (with_status "banned" at) (banned-IsRefused user now at)
      (λ l. refl) s.table

-- The licence is the one that its owner's verification asks for, is granted until it expires, and not longer.
abbrev pub IsGrantedUntil : ℕ → AdminLicense → Type 0
IsGrantedUntil expiry l =
    ((user : String) → l.user_id ≡ some user → matches_user user l.row ≡ true)
    × ((later : ℕ) → is_licensed (verify later (License.row l.row)).0 ≡ not (ltb expiry later))

-- The same table, list and log.
abbrev pub IsUnchanged : AdminState → AdminState → Type 0
IsUnchanged s s' = (s'.table ≡ s.table) × (s'.licenses ≡ s.licenses) × (s'.log ≡ s.log)

-- A change that the database refuses leaves the table, the list that is shown and the log as they are.
pub refused-IsUnchanged :
    (add_months : ℕ → ℕ → ℕ) (months now : ℕ) (o : Operation) (message : String) (fetched : Answer)
    (s : AdminState)
    → IsUnchanged s (operate add_months months now o (refused message) fetched s)
unfolding operate
refused-IsUnchanged add_months months now (toggle id current key) message fetched s =
    (refl, refl, refl)
refused-IsUnchanged add_months months now (reset in_a_week) message fetched s =
    elim (Option-cases s.reset_confirm) [
      | inl none_asked ↦ rw none_asked (refl, refl, refl)
      | inr (asked, e) ↦ rw e (refl, refl, refl)
    ]
refused-IsUnchanged add_months months now set_status message fetched s =
    elim (Option-cases s.status_confirm) [
      | inl none_asked ↦ rw none_asked (refl, refl, refl)
      | inr (asked, e) ↦ rw e (refl, refl, refl)
    ]
refused-IsUnchanged add_months months now extend_months message fetched s =
    elim (Option-cases s.extend_modal) [
      | inl none_asked ↦ rw none_asked (refl, refl, refl)
      | inr (asked, e) ↦ rw e (refl, refl, refl)
    ]
refused-IsUnchanged add_months months now delete message fetched s =
    elim (Option-cases s.delete_confirm) [
      | inl none_asked ↦ rw none_asked (refl, refl, refl)
      | inr (asked, e) ↦ rw e (refl, refl, refl)
    ]
