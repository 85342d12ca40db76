-- ===== src/Finance/Shares.antt =====
-- What the charts of the finance page add up to.
use native.Mathlib.Nat.{mul-le-mul, le_refl}
use native.Mathlib.Decide.{dec_le}
use beidar_pos.Prelude.{ℕ, ◌+◌, ◌*◌, ◌≤◌, ◌<◌, ◌≡◌, refl, ◌↔◌, false, arith, if◌then◌else◌}
use beidar_pos.Prelude.Int.{
  ℤ, pos, negsuc, ◌+ℤ◌, ◌-ℤ◌, ◌*ℤ◌, pos_part, ltb_ℤ, eqb_ℤ, +ℤ_parts, *ℤ_parts, eq_of_parts,
  floor_div, floor_div_bounds,
}
use beidar_pos.Finance.{percent, debt_info, debt_label, DebtInfo, balanced, excellent, careful}

numerator : (a b : ℕ) → pos 200 *ℤ pos a +ℤ pos (a + b) ≡ pos (200 * a + (a + b))
numerator a b =
    eq_of_parts _ _
      (omega (arith, *ℤ_parts (pos 200) (pos a), +ℤ_parts (pos 200 *ℤ pos a) (pos (a + b))))

hundred_at_most : (n d q : ℕ) → 0 < d → d * q ≤ n → n < d * 101 → q ≤ 100
hundred_at_most n d q h le lt = elim (dec_le 101 q) [
  | yes over ↦ absurd (omega (arith, le, lt, mul-le-mul (le_refl d) over))
  | no under ↦ omega (arith, under)
]

-- The rounded share of a part of a whole, by its distance from the exact one.
percent_bounds :
    (a b : ℕ)
    → 0 < a + b
    → let q = percent (pos a) (pos (a + b)) in
      (q ≡ pos (pos_part q))
      × (pos_part q ≤ 100)
      × (2 * (a + b) * pos_part q ≤ 200 * a + (a + b))
      × (200 * a < 2 * (a + b) * pos_part q + (a + b))
unfolding percent floor_div
percent_bounds a b h = rw (numerator a b) (
    let bounds = floor_div_bounds (pos (200 * a + (a + b))) (2 * (a + b)) (omega arith) in
    (
      refl,
      hundred_at_most (200 * a + (a + b)) (2 * (a + b)) _ (omega arith) (omega (arith, bounds.0))
          (omega arith),
      omega (arith, bounds.0),
      omega (arith, bounds.1),
    ))

sum_is_pos : (a b : ℕ) → pos a +ℤ pos b ≡ pos (a + b)
sum_is_pos a b = eq_of_parts _ _ (omega (arith, +ℤ_parts (pos a) (pos b)))

abbrev shares : ℕ → ℕ → DebtInfo
shares a b = record {
  receivables_pct = percent (pos a) (pos (a + b));
  payables_pct = pos 100 -ℤ percent (pos a) (pos (a + b));
  label = debt_label (pos a) (pos b);
}

is_not_nothing : (n : ℕ) → 0 < n → eqb_ℤ (pos n) (pos 0) ≡ false
is_not_nothing n h = ground (arith, h)

debt_info-shares : (a b : ℕ) → 0 < a + b → debt_info (pos a) (pos b) ≡ shares a b
unfolding debt_info
debt_info-shares a b h = rw (sum_is_pos a b, is_not_nothing (a + b) h) refl

product : (k n : ℕ) → pos k *ℤ pos n ≡ pos (k * n)
product k n = eq_of_parts _ _ (omega (arith, *ℤ_parts (pos k) (pos n)))

balanced_fits :
    (a b : ℕ)
    → (if ltb_ℤ (pos (3 * b)) (pos (2 * a))
        then excellent
        else if ltb_ℤ (pos (3 * a)) (pos (2 * b))
        then careful
        else balanced)
      ≡ balanced
    → (2 * a ≤ 3 * b) × (2 * b ≤ 3 * a)
balanced_fits a b e = (ground (arith, e), ground (arith, e))

rest_of_100 :
    (q : ℤ)
    → q ≡ pos (pos_part q)
    → pos_part q ≤ 100
    → (pos_part q + pos_part (pos 100 -ℤ q) ≡ 100) × (pos 100 -ℤ q ≡ pos (pos_part (pos 100 -ℤ q)))
unfolding ◌-ℤ◌
rest_of_100 (pos q) e h = (ground (arith, h), ground (arith, h))
rest_of_100 (negsuc q) e h = absurd (cc)

debt_label-balanced :
    (a b : ℕ) → (debt_label (pos a) (pos b) ≡ balanced) ↔ ((2 * a ≤ 3 * b) × (2 * b ≤ 3 * a))
debt_label-balanced a b =
    rw (product 3 b, product 2 a, product 3 a, product 2 b)
      (λ e. balanced_fits a b e, λ h. ground (arith, h.0, h.1))

-- Of debts of which at least one is positive and none negative, the bar of the receivables has the share that is
-- theirs, to the nearest percent, and the bar of the payables what is left of 100; both are from 0 to 100. The
-- label says that the debts are balanced exactly where neither is more than one and a half times the other.
pub debt_bars_fit :
    (a b : ℕ)
    → 0 < a + b
    → let info = debt_info (pos a) (pos b) in
      (pos_part info.receivables_pct + pos_part info.payables_pct ≡ 100)
      × (info.receivables_pct ≡ pos (pos_part info.receivables_pct))
      × (info.payables_pct ≡ pos (pos_part info.payables_pct))
      × (2 * (a + b) * pos_part info.receivables_pct ≤ 200 * a + (a + b))
      × (200 * a < 2 * (a + b) * pos_part info.receivables_pct + (a + b))
      × ((info.label ≡ balanced) ↔ ((2 * a ≤ 3 * b) × (2 * b ≤ 3 * a)))
debt_bars_fit a b h =
    let p = percent_bounds a b h in
    let r = rest_of_100 (percent (pos a) (pos (a + b))) p.0 p.1 in
    rw (debt_info-shares a b h) (r.0, p.0, r.1, p.2, p.3, debt_label-balanced a b)
