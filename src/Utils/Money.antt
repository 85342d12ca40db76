-- ===== src/Utils/Money.antt =====
-- What the amounts of utils.ts guarantee, and that an exported cell is no formula.
use beidar_pos.Prelude.{
  ◌+◌, ◌*◌, ◌<◌, ◌≡◌, refl, false, some, [], ◌∷◌, arith, if◌then◌else◌, Bool-cases, inl, inr,
}
use beidar_pos.Prelude.Int.{
  ℤ, pos, ◌+ℤ◌, ◌-ℤ◌, ◌*ℤ◌, ◌≤ℤ◌, round_div, int_laws, floor_div, floor_div_bounds, *ℤ_mono_right,
  *ℤ_parts, *ℤ_nonneg,
}
use beidar_pos.Logger.Mask.{Text, trim_start, is_space}
use beidar_pos.Utils.{format_cents, calculate_discount, cents_of, sanitize_csv_cell, starts_formula}

-- What is shown of a whole number of cents tells it exactly: its sign, and units and cents, of which there
-- are fewer than a hundred.
pub format_cents_exact :
    (cents : ℤ)
    → let f = format_cents (some cents) in
      (cents ≡ (
        if f.is_negative
        then pos 0 -ℤ pos (f.dollars * 100 + f.rem_cents)
        else pos (f.dollars * 100 + f.rem_cents)))
      × (f.rem_cents < 100)
unfolding format_cents ◌-ℤ◌
format_cents_exact cents = (ground arith, ground arith)

trim_start-twice : (s : Text) → trim_start (trim_start s) ≡ trim_start s
unfolding trim_start
trim_start-twice [] = refl
trim_start-twice (c ∷ s) = ground (arith, trim_start-twice s)

trim_start-quote : (s : Text) → trim_start (b'\'' ∷ s) ≡ b'\'' ∷ s
unfolding trim_start is_space
trim_start-quote s = refl

-- An exported cell never begins a formula, whatever white space stands before it: a value that would is
-- quoted, and any other is exported as it is.
pub csv_cell_is_no_formula :
    (str : Text)
    → (starts_formula (trim_start (sanitize_csv_cell (some str))) ≡ false)
      × (sanitize_csv_cell (some str)
          ≡ (if starts_formula (trim_start str) then b'\'' ∷ str else str))
unfolding sanitize_csv_cell
csv_cell_is_no_formula str = elim (Bool-cases (starts_formula (trim_start str))) [
  | inl bad ↦ (rw bad (rw (trim_start-quote str) refl), refl)
  | inr good ↦ (rw good good, refl)
]

-- A discount of at most 100 % of an amount that is not negative is between nothing and the amount, in cents.
pub calculate_discount_le :
    (amount percent : ℤ)
    → pos 0 ≤ℤ cents_of amount
    → pos 0 ≤ℤ percent
    → percent ≤ℤ pos 100_000
    → (pos 0 ≤ℤ calculate_discount amount percent)
      × (calculate_discount amount percent ≤ℤ cents_of amount)
unfolding calculate_discount round_div
calculate_discount_le amount percent a p le = (
  omega (
    int_laws,
    floor_div_bounds (cents_of amount *ℤ percent +ℤ pos 50_000) 100_000 (omega arith),
    *ℤ_nonneg (cents_of amount) percent a p,
    *ℤ_parts (floor_div (cents_of amount *ℤ percent +ℤ pos 50_000) 100_000) (pos 100_000),
  ),
  omega (
    int_laws,
    floor_div_bounds (cents_of amount *ℤ percent +ℤ pos 50_000) 100_000 (omega arith),
    *ℤ_mono_right (cents_of amount) percent (pos 100_000) a le,
    *ℤ_parts (cents_of amount) (pos 100_000),
    *ℤ_parts (floor_div (cents_of amount *ℤ percent +ℤ pos 50_000) 100_000) (pos 100_000),
  ),
)
