-- ===== src/Admin/Counts.antt =====
-- The numbers on top of the licences page, against its filters.
use beidar_pos.Prelude.{
  ap, keep_if_yes, keep_if_no, ℕ, ◌+◌, ◌≡◌, ◌≢◌, refl, ◌⊎◌, inl, inr, String, Bool, true, false,
  ◌&&◌, not, List, [], ◌∷◌, length, arith, eq_iff, ◌===◌, Bool-cases, All,
}
use beidar_pos.Admin.{
  AdminLicense, expiry_of, is_past, is_active, is_banned, has_expired, count, stats, StatusFilter,
  any_status, only_active, only_banned, only_expired, PaymentFilter, any_payment, only_paid,
  only_unpaid, matches_status, filtered_licenses,
}

-- The status is one of the two that the page sets, and the licence does not expire at this very moment.
abbrev pub IsRegular : ℕ → AdminLicense → Type 0
IsRegular now l = ((l.status ≡ "active") ⊎ (l.status ≡ "banned")) × (expiry_of l ≢ now)

count-agree :
    (p q : AdminLicense → Bool) (licenses : List AdminLicense)
    → All (λ l. p l ≡ q l) licenses
    → count p licenses ≡ count q licenses
count-agree p q [] h = refl
count-agree p q (l ∷ licenses) h = ground (arith, count-agree p q licenses h.1, h.0)

count-not :
    (p : AdminLicense → Bool) (licenses : List AdminLicense)
    → count p licenses + count (λ l. not (p l)) licenses ≡ length licenses
count-not p [] = refl
count-not p (l ∷ licenses) = ground (arith, count-not p licenses)

-- The licence counts as exactly one of active, banned and expired.
abbrev IsOne : ℕ → AdminLicense → Type 0
IsOne now l =
    ((is_active now l ≡ true) × (is_banned l ≡ false) × (has_expired now l ≡ false))
    ⊎ (((is_active now l ≡ false) × (is_banned l ≡ true) × (has_expired now l ≡ false))
        ⊎ ((is_active now l ≡ false) × (is_banned l ≡ false) × (has_expired now l ≡ true)))

apart : (status : String) → status ≡ "active" → (status === "banned") ≡ false
apart status e = rw e refl

regular-IsOne : (now : ℕ) (l : AdminLicense) → IsRegular now l → IsOne now l
regular-IsOne now l (inr b, n) = inr (inl (rw b refl, rw b refl, rw b refl))
regular-IsOne now l (inl a, n) = elim (Bool-cases (is_past now l)) [
  | inl past ↦ inr (inr (ground arith, apart l.status a, ground (arith, apart l.status a)))
  | inr future ↦ inl (ground (arith, eq_iff l.status "active"), apart l.status a, ground arith)
]

count_yes :
    (p : AdminLicense → Bool) (l : AdminLicense) (licenses : List AdminLicense)
    → p l ≡ true
    → count p (l ∷ licenses) ≡ count p licenses + 1
count_yes p l licenses h = omega (arith, ap length (keep_if_yes p l licenses h))

count_no :
    (p : AdminLicense → Bool) (l : AdminLicense) (licenses : List AdminLicense)
    → p l ≡ false
    → count p (l ∷ licenses) ≡ count p licenses
count_no p l licenses h = ap length (keep_if_no p l licenses h)

count-add :
    (now : ℕ) (l : AdminLicense) (licenses : List AdminLicense)
    → IsOne now l
    → count (is_active now) (l ∷ licenses)
        + count is_banned (l ∷ licenses)
        + count (has_expired now) (l ∷ licenses)
      ≡ count (is_active now) licenses
        + count is_banned licenses
        + count (has_expired now) licenses
        + 1
count-add now l licenses (inl (a, b, e)) = omega (
  arith,
  count_yes (is_active now) l licenses a,
  count_no is_banned l licenses b,
  count_no (has_expired now) l licenses e,
)
count-add now l licenses (inr (inl (a, b, e))) = omega (
  arith,
  count_no (is_active now) l licenses a,
  count_yes is_banned l licenses b,
  count_no (has_expired now) l licenses e,
)
count-add now l licenses (inr (inr (a, b, e))) = omega (
  arith,
  count_no (is_active now) l licenses a,
  count_no is_banned l licenses b,
  count_yes (has_expired now) l licenses e,
)

partition :
    (now : ℕ) (licenses : List AdminLicense)
    → All (IsRegular now) licenses
    → count (is_active now) licenses + count is_banned licenses + count (has_expired now) licenses
      ≡ length licenses
partition now [] r = refl
partition now (l ∷ licenses) r =
    omega (arith, count-add now l licenses (regular-IsOne now l r.0), partition now licenses r.1)

active-agrees :
    (now : ℕ) (licenses : List AdminLicense)
    → All (IsRegular now) licenses
    → All (λ l. (true && matches_status now only_active l && true) ≡ is_active now l) licenses
active-agrees now [] r = tt
active-agrees now (l ∷ licenses) r = (ground (arith, r.0.1), active-agrees now licenses r.1)

banned-agrees :
    (licenses : List AdminLicense)
    → All (λ l. (true && matches_status 0 only_banned l && true) ≡ is_banned l) licenses
banned-agrees [] = tt
banned-agrees (l ∷ licenses) = (ground arith, banned-agrees licenses)

expired-agrees :
    (now : ℕ) (licenses : List AdminLicense)
    → All (λ l. (true && matches_status now only_expired l && true) ≡ has_expired now l) licenses
expired-agrees now [] = tt
expired-agrees now (l ∷ licenses) = (ground arith, expired-agrees now licenses)

-- The number of licences that a filter of the page shows, without a search.
abbrev pub shown : ℕ → StatusFilter → PaymentFilter → List AdminLicense → ℕ
shown now status payment licenses =
    length (filtered_licenses (λ text. true) now status payment licenses)

-- The numbers on top of the page fit together and fit the filters, where both are computed at one moment, for
-- licences that are active or banned and do not expire at that very moment: active, banned and expired ones add up to all of them, as do paid and
-- unpaid ones, and each number is how many licences the filter of that name shows.
pub counts_fit_filters :
    (now : ℕ) (licenses : List AdminLicense)
    → All (IsRegular now) licenses
    → let n = stats now licenses in
      (n.active + n.banned + n.expired ≡ n.total)
      × (n.paid_count + n.unpaid_count ≡ n.total)
      × (shown now only_active any_payment licenses ≡ n.active)
      × (shown now only_banned any_payment licenses ≡ n.banned)
      × (shown now only_expired any_payment licenses ≡ n.expired)
      × (shown now any_status only_paid licenses ≡ n.paid_count)
      × (shown now any_status only_unpaid licenses ≡ n.unpaid_count)
unfolding stats filtered_licenses
counts_fit_filters now licenses r = (
  partition now licenses r,
  omega (arith, count-not (λ l. l.is_paid) licenses),
  count-agree _ _ licenses (active-agrees now licenses r),
  count-agree _ _ licenses (banned-agrees licenses),
  count-agree _ _ licenses (expired-agrees now licenses),
  refl,
  omega (arith, count-not (λ l. l.is_paid) licenses),
)
