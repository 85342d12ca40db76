-- ===== src/License/Owner.antt =====
-- Whom a licence may be bound to, and how activation and verification agree.
use beidar_pos.Prelude.{
  ℕ, String, ◌≡◌, Bool, true, false, none, some, arith, eq_iff, ◌===◌, ◌⊎◌, ap, refl, leb, inl, inr,
  Option, Bool-cases,
}
use beidar_pos.License.{
  License, fetch_error, absent, row, licensed, Response, LicenseUpdate, is_bound_elsewhere,
  check_activation, activate, apply_update, is_expired, verify, matches_user,
}

abbrev pub is_licensed : Response → Bool
is_licensed r = elim r.body [ licensed message at features ↦ true | _ ↦ false ]

-- A row with this owner may be bound to the user: it has no owner, an empty one, or the user.
abbrev pub IsFree : String → Option String → Type 0
IsFree user none = Unit
IsFree user (some owner) = (owner ≡ "") ⊎ (owner ≡ user)

abbrev pub IsBindable : String → License → Type 0
IsBindable user l = (l.status ≡ "active") × IsFree user l.user_id

-- What the code finds of the owner, and what it means.
abbrev Finds : String → Option String → Bool → Type 0
Finds user owner elsewhere =
    (IsFree user owner × (elsewhere ≡ false)) ⊎ ((¬ IsFree user owner) × (elsewhere ≡ true))

owner-Finds :
    (user : String) (owner : Option String) (l : License)
    → l.user_id ≡ owner
    → Finds user owner (is_bound_elsewhere user l)
owner-Finds user none l e = inl (tt, ground (arith, e))
owner-Finds user (some owner) l e = elim (Bool-cases (owner === "")) [
  | inl empty ↦ inl (inl (ground (arith, empty, eq_iff owner "")), ground (arith, e, empty))
  | inr full ↦ elim (Bool-cases (owner === user)) [
    | inl same ↦ inl (inr (ground (arith, same, eq_iff owner user)), ground (arith, e, full, same))
    | inr other ↦ inr (
      λ free. elim free [
        | inl q ↦ absurd (ground (arith, full, q, eq_iff owner ""))
        | inr q ↦ absurd (ground (arith, other, q, eq_iff owner user))
      ],
      ground (arith, e, full, other),
    )
  ]
]

module _ (user : String) (now : ℕ) (l : License) (updated : Bool) where
  abbrev Decides : Type 0
  Decides =
      (IsBindable user l
        × ((check_activation user now (row l)).1
            ≡ some (record { row_id = l.id; user_id = user; bound_at = now; last_check_in = now }))
        × (is_licensed (activate user now (row l) updated) ≡ updated))
      ⊎ ((¬ IsBindable user l)
          × ((check_activation user now (row l)).1 ≡ none)
          × (is_licensed (activate user now (row l) updated) ≡ false))

  by_owner :
      (l.status === "active") ≡ true → Finds user l.user_id (is_bound_elsewhere user l) → Decides
  unfolding activate check_activation
  by_owner active (inl (free, elsewhere)) =
      inl ((ground (arith, active, eq_iff l.status "active"), free), ground arith, ground arith)
  by_owner active (inr (owned, elsewhere)) = inr (λ b. owned b.1, ground arith, ground arith)

  -- An activation of a fetched row writes exactly if the row is active and has no owner, an empty one or the asking
  -- user; what it writes binds the row to that user, and it reports a licence if the database took the write.
  -- Otherwise, and where no row was fetched, it reports none.
  pub activate_binds_only_free :
      ((IsBindable user l
          × ((check_activation user now (row l)).1
              ≡ some
                  (record { row_id = l.id; user_id = user; bound_at = now; last_check_in = now }))
          × (is_licensed (activate user now (row l) updated) ≡ updated))
        ⊎ ((¬ IsBindable user l)
            × ((check_activation user now (row l)).1 ≡ none)
            × (is_licensed (activate user now (row l) updated) ≡ false)))
      × (is_licensed (activate user now absent updated) ≡ false)
      × (is_licensed (activate user now fetch_error updated) ≡ false)
  unfolding activate check_activation
  activate_binds_only_free = (
    elim (Bool-cases (l.status === "active")) [
      | inl active ↦ by_owner active (owner-Finds user l.user_id l refl)
      | inr inactive ↦ inr (
        λ b. absurd (ground (arith, inactive, b.0, eq_iff l.status "active")),
        ground arith,
        ground arith,
      )
    ],
    refl,
    refl,
  )

-- A licence that is bound to one user, by an identifier that is not empty, stays so: when another user
-- asks for its key, nothing is written and no licence is reported.
pub bound_stays_bound :
    (owner user : String) (now : ℕ) (l : License) (updated : Bool)
    → l.user_id ≡ some owner
    → (owner === "") ≡ false
    → (owner === user) ≡ false
    → ((check_activation user now (row l)).1 ≡ none)
      × (is_licensed (activate user now (row l) updated) ≡ false)
unfolding activate check_activation
bound_stays_bound owner user now l updated h e n = ground arith

binding_of :
    (user : String) (now : ℕ) (l : License) {b : LicenseUpdate}
    → (check_activation user now (row l)).1 ≡ some b
    → (b.row_id ≡ l.id) × (b.user_id ≡ user) × ((l.status === "active") ≡ true)
unfolding check_activation
binding_of user now l h = ground arith

abbrev applied_row : LicenseUpdate → License → License
applied_row b l = record l {
  user_id = some b.user_id;
  bound_at = some b.bound_at;
  last_check_in = some b.last_check_in;
}

applied : (b : LicenseUpdate) (l : License) → b.row_id ≡ l.id → apply_update b l ≡ applied_row b l
unfolding apply_update
applied b l h =
    let same : (l.id === b.row_id) ≡ true = ground (arith, eq_iff l.id b.row_id) in rw same

-- The time is not behind the expiry, if there is one.
abbrev pub is_before : ℕ → Option ℕ → Bool
is_before now none = true
is_before now (some expiry) = leb now expiry

verify-until :
    (later : ℕ) (l : License) → is_licensed (verify later (row l)).0 ≡ is_before later l.expires_at
unfolding verify
verify-until later l = by_expiry l.expires_at refl
  where
    by_expiry :
        (expiry : Option ℕ)
        → l.expires_at ≡ expiry
        → is_licensed (verify later (row l)).0 ≡ is_before later l.expires_at
    by_expiry none e = rw e refl
    by_expiry (some at) e = ground (arith, e)

-- After an activation, the row that was written has the asking user and is the one that a verification of that user
-- asks for; at any time it is licensed exactly if it never expires or the time is not behind its expiry.
pub activate_then_verify :
    (user : String) (now later : ℕ) (l : License) {b : LicenseUpdate}
    → (check_activation user now (row l)).1 ≡ some b
    → ((apply_update b l).user_id ≡ some user)
      × (matches_user user (apply_update b l) ≡ true)
      × (is_licensed (verify later (row (apply_update b l))).0 ≡ is_before later l.expires_at)
activate_then_verify user now later l {b} h =
    let (at, who, active) = binding_of user now l h in
    rw (applied b l at) (
      ap some who,
      ground (arith, who, active, eq_iff b.user_id user),
      verify-until later (applied_row b l),
    )

-- An expired licence that may be bound to the user is activated and reported as licensed, though a
-- verification refuses it at that time.
pub expired_is_activated :
    (user : String) (now : ℕ) (l : License)
    → IsBindable user l
    → is_expired now l ≡ true
    → (is_licensed (activate user now (row l) true) ≡ true)
      × (is_licensed (verify now (row l)).0 ≡ false)
unfolding verify
expired_is_activated user now l b e = elim (activate_binds_only_free user now l true).0 [
  | inl (bindable, written, reported) ↦ (reported, ground (arith, e))
  | inr (owned, nothing, refused) ↦ absurd (owned b)
]
