-- ===== src/Prelude/Int.antt =====
-- Signed integers over the native numbers. A JavaScript number is an integer count of a stated unit.
use native.Mathlib.Nat.{mul-le-mul, le_refl, le_trans, le-div_iff_mul-le, div-mul-le_self}
use beidar_pos.Prelude.{
  ℕ, zero, suc, ◌+◌, ◌-◌, ◌*◌, ◌/◌, ◌%◌, ◌≤◌, ◌<◌, ◌≡◌, refl, Bool, ◌&&◌, arith, ltb, leb,
  if◌then◌else◌,
}

-- `negsuc n` is -(n + 1).
pub data ℤ : Type 0 where
  pos : ℕ → ℤ
  negsuc : ℕ → ℤ

abbrev pub pos_part : ℤ → ℕ
pos_part (pos n) = n
pos_part (negsuc n) = 0

abbrev pub neg_part : ℤ → ℕ
neg_part (pos n) = 0
neg_part (negsuc n) = suc n

-- a - b, as an integer.
abbrev pub sub_ℕ : ℕ → ℕ → ℤ
sub_ℕ a b = if leb b a then pos (a - b) else negsuc (b - a - 1)

infixl 65 ◌+ℤ◌ ◌-ℤ◌
infixl 70 ◌*ℤ◌
infix 50 ◌≤ℤ◌ ◌<ℤ◌
unfoldable pub ◌+ℤ◌ : ℤ → ℤ → ℤ
a +ℤ b = sub_ℕ (pos_part a + pos_part b) (neg_part a + neg_part b)

unfoldable pub ◌-ℤ◌ : ℤ → ℤ → ℤ
a -ℤ b = sub_ℕ (pos_part a + neg_part b) (neg_part a + pos_part b)

unfoldable pub ◌*ℤ◌ : ℤ → ℤ → ℤ
a *ℤ b =
    sub_ℕ (pos_part a * pos_part b + neg_part a * neg_part b)
      (pos_part a * neg_part b + neg_part a * pos_part b)

abbrev pub ◌≤ℤ◌ : ℤ → ℤ → Type 0
a ≤ℤ b = pos_part a + neg_part b ≤ pos_part b + neg_part a

abbrev pub ◌<ℤ◌ : ℤ → ℤ → Type 0
a <ℤ b = pos_part a + neg_part b < pos_part b + neg_part a

abbrev pub ltb_ℤ : ℤ → ℤ → Bool
ltb_ℤ a b = ltb (pos_part a + neg_part b) (pos_part b + neg_part a)

abbrev pub leb_ℤ : ℤ → ℤ → Bool
leb_ℤ a b = leb (pos_part a + neg_part b) (pos_part b + neg_part a)

-- `Math.min` and `Math.max`.
abbrev pub min_ℤ : ℤ → ℤ → ℤ
min_ℤ a b = if leb_ℤ a b then a else b

abbrev pub max_ℤ : ℤ → ℤ → ℤ
max_ℤ a b = if leb_ℤ a b then b else a

-- `Math.floor(a / d)` for a positive d.
unfoldable pub floor_div : ℤ → ℕ → ℤ
floor_div (pos n) d = pos (n / d)
floor_div (negsuc n) d = negsuc (n / d)

-- `Math.round(a / d)` for a positive even d: to the nearest integer, a half upwards.
unfoldable pub round_div : ℤ → ℕ → ℤ
round_div a d = floor_div (a +ℤ pos (d / 2)) d

pub +ℤ_parts :
    (a b : ℤ)
    → pos_part (a +ℤ b) + neg_part a + neg_part b ≡ neg_part (a +ℤ b) + pos_part a + pos_part b
unfolding ◌+ℤ◌
+ℤ_parts a b = ground arith

pub -ℤ_parts :
    (a b : ℤ)
    → pos_part (a -ℤ b) + neg_part a + pos_part b ≡ neg_part (a -ℤ b) + pos_part a + neg_part b
unfolding ◌-ℤ◌
-ℤ_parts a b = ground arith

pub eq_of_parts : (a b : ℤ) → pos_part a + neg_part b ≡ pos_part b + neg_part a → a ≡ b
eq_of_parts a b h = ground arith

pub ruleset int_laws = (arith, +ℤ_parts, -ℤ_parts, eq_of_parts)

-- The floor, by its defining inequalities: d * q ≤ a < d * q + d.
pub floor_div_bounds :
    (a : ℤ) (d : ℕ)
    → 0 < d
    → (d * pos_part (floor_div a d) + neg_part a ≤ pos_part a + d * neg_part (floor_div a d))
      × (pos_part a + d * neg_part (floor_div a d) < d * pos_part (floor_div a d) + d + neg_part a)
unfolding floor_div
floor_div_bounds (pos n) d h = (grind arith, grind arith)
floor_div_bounds (negsuc n) d h = (grind arith, grind arith)

pub *ℤ_parts :
    (a b : ℤ)
    → pos_part (a *ℤ b) + (pos_part a * neg_part b + neg_part a * pos_part b)
      ≡ neg_part (a *ℤ b) + (pos_part a * pos_part b + neg_part a * neg_part b)
unfolding ◌*ℤ◌
*ℤ_parts a b = ground arith

pub *ℤ_nonneg : (a b : ℤ) → pos 0 ≤ℤ a → pos 0 ≤ℤ b → pos 0 ≤ℤ a *ℤ b
*ℤ_nonneg (pos a) (pos b) h k = omega (arith, *ℤ_parts (pos a) (pos b))
*ℤ_nonneg (negsuc a) _ h k = absurd (omega arith)
*ℤ_nonneg (pos a) (negsuc b) h k = absurd (omega arith)

pub *ℤ_mono : (a b c : ℤ) → a ≤ℤ b → pos 0 ≤ℤ c → a *ℤ c ≤ℤ b *ℤ c
*ℤ_mono a b (pos k) h _ =
    omega (arith, *ℤ_parts a (pos k), *ℤ_parts b (pos k), mul-le-mul h (le_refl k))
*ℤ_mono a b (negsuc k) h c = absurd (omega arith)

pub *ℤ_mono_right : (a b c : ℤ) → pos 0 ≤ℤ a → b ≤ℤ c → a *ℤ b ≤ℤ a *ℤ c
*ℤ_mono_right (pos k) b c _ h =
    omega (arith, *ℤ_parts (pos k) b, *ℤ_parts (pos k) c, mul-le-mul (le_refl k) h)
*ℤ_mono_right (negsuc k) b c n h = absurd (omega arith)

div_mono : (a b d : ℕ) → 0 < d → a ≤ b → a / d ≤ b / d
div_mono a b d h le = (le-div_iff_mul-le h).1 (le_trans (div-mul-le_self a d) le)

pub floor_div_mono : (a b : ℤ) (d : ℕ) → 0 < d → a ≤ℤ b → floor_div a d ≤ℤ floor_div b d
unfolding floor_div
floor_div_mono (pos a) (pos b) d h le = omega (arith, div_mono a b d h (omega arith))
floor_div_mono (negsuc a) (negsuc b) d h le = omega (arith, div_mono b a d h (omega arith))
floor_div_mono (negsuc a) (pos b) d h le = omega arith
floor_div_mono (pos a) (negsuc b) d h le = absurd (omega arith)

pub round_div_mono : (a b : ℤ) (d : ℕ) → 0 < d → a ≤ℤ b → round_div a d ≤ℤ round_div b d
unfolding round_div
round_div_mono a b d h le =
    floor_div_mono _ _ d h (omega (arith, +ℤ_parts a (pos (d / 2)), +ℤ_parts b (pos (d / 2))))

-- `a === b`
abbrev pub eqb_ℤ : ℤ → ℤ → Bool
eqb_ℤ a b = leb_ℤ a b && leb_ℤ b a
