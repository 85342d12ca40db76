-- ===== src/Logger/Mask.antt =====
-- `maskPhone` and the replacement of phone numbers in a text: frontend/src/core/logger.ts. A text is the
-- list of its UTF-16 code units.
use native.Mathlib.Nat.{sub-zero}
use beidar_pos.Prelude.{
  ℕ, zero, suc, ◌+◌, ◌-◌, ◌≤◌, ◌<◌, ◌≡◌, refl, Bool, false, ◌&&◌, ◌||◌, Option, none, some, List,
  [], ◌∷◌, ◌++◌, arith, leb, ◌==◌, if◌then◌else◌, length, take, drop, replicate, Bool-cases, inl,
  inr,
}

abbrev pub Text : Type 0
Text = List ℕ

-- The white space that `trim` takes off.
unfoldable pub is_space : ℕ → Bool
is_space c =
    leb 9 c && leb c 13
    || c == 32
    || c == 160
    || c == 5760
    || leb 8192 c && leb c 8202
    || c == 8232
    || c == 8233
    || c == 8239
    || c == 8287
    || c == 12288
    || c == 65279

unfoldable pub trim_start : Text → Text
trim_start [] = []
trim_start (c ∷ s) = let rest = trim_start s in if is_space c then rest else c ∷ s

trim_end : Text → Text
trim_end [] = []
trim_end (c ∷ s) = elim (trim_end s) [ [] ↦ if is_space c then [] else c ∷ [] | d ∷ t ↦ c ∷ d ∷ t ]

unfoldable pub trim : Text → Text
unfolding trim_start trim_end is_space
trim s = trim_end (trim_start s)

abbrev pub star : ℕ
star = b'*'

abbrev pub stars : ℕ → Text
stars n = replicate n star

-- `s.slice(-n)`
abbrev pub last_of : ℕ → Text → Text
last_of n s = drop (length s - n) s

abbrev starts_with_plus : Text → Bool
starts_with_plus [] = false
starts_with_plus (c ∷ s) = c == b'+'

abbrev prefix_len : Text → ℕ
prefix_len s = if starts_with_plus s then 5 else 4

-- `maskPhone` from the trimmed text on.
mask_cleaned : Text → Text
mask_cleaned s =
    if length s == 0
    then []
    else if leb (length s) 4
    then stars 3
    else if leb (length s) 7
    then take 2 s ++ (stars 4 ++ last_of 1 s)
    else if leb (length s) (prefix_len s + 3)
    then take 2 s ++ (stars 4 ++ last_of 2 s)
    else take (prefix_len s) s ++ (stars (length s - prefix_len s - 3) ++ last_of 3 s)

unfoldable pub mask_phone : Text → Text
unfolding mask_cleaned trim
mask_phone phone = mask_cleaned (trim phone)

is_digit : ℕ → Bool
is_digit c = leb b'0' c && leb c b'9'

-- How many of the next characters are digits, up to a bound.
digits_upto : ℕ → Text → ℕ
digits_upto zero s = 0
digits_upto (suc n) [] = 0
digits_upto (suc n) (c ∷ s) = let more = digits_upto n s in if is_digit c then suc more else 0

-- `7[0-9]{8,9}` at the front: the length of the match.
match_local : Text → Option ℕ
unfolding digits_upto is_digit
match_local [] = none
match_local (c ∷ s) =
    if c == b'7'
    then (if leb 8 (digits_upto 9 s) then some (suc (digits_upto 9 s)) else none)
    else none

abbrev after_964 : Text → Option Text
after_964 (a ∷ b ∷ c ∷ s) = if a == b'9' && (b == b'6' && c == b'4') then some s else none
after_964 _ = none

-- `(?:\+?964|0)?` at the front: its length and what follows it.
match_prefix : Text → Option (ℕ × Text)
match_prefix [] = none
match_prefix (c ∷ s) =
    if c == b'+'
    then (elim (after_964 s) [ none ↦ none | some t ↦ some (4, t) ])
    else (if c == b'0'
        then some (1, s)
        else (elim (after_964 (c ∷ s)) [ none ↦ none | some t ↦ some (3, t) ]))

-- `PHONE_REGEX` at the front: with the optional prefix first, and without it if that fails.
unfoldable pub match_phone : Text → Option ℕ
unfolding match_local match_prefix
match_phone s = elim (match_prefix s) [
  | none ↦ match_local s
  | some (n, t) ↦ elim (match_local t) [ none ↦ match_local s | some m ↦ some (n + m) ]
]

-- `text.replace(PHONE_REGEX, m => maskPhone(m))`: `skip` counts the characters of a match that are left.
replace_from : ℕ → Text → Text
replace_from skip [] = []
replace_from (suc skip) (c ∷ s) = replace_from skip s
replace_from zero (c ∷ s) = elim (match_phone (c ∷ s)) [
  | none ↦ c ∷ replace_from 0 s
  | some n ↦ mask_phone (take n (c ∷ s)) ++ replace_from (n - 1) s
]

unfoldable pub replace_phones : Text → Text
unfolding replace_from match_phone mask_phone
replace_phones s = replace_from 0 s

-- A mask of a text: its first `a` characters, `k` stars and its last `b` characters.
abbrev pub Masks : Text → Text → ℕ → ℕ → ℕ → Type 0
Masks s out a k b = out ≡ take a s ++ (stars k ++ last_of b s)

drop_all : (s : Text) → drop (length s) s ≡ []
drop_all [] = refl
drop_all (c ∷ s) = drop_all s

last_of_zero : (s : Text) → last_of 0 s ≡ []
last_of_zero s = rw sub-zero (drop_all s)

-- What a mask of a text keeps: the first `a` characters and the last `b`, with `k` stars between.
abbrev pub Hides : Text → Text → Type 0
Hides s out =
    (a : ℕ) × (k : ℕ) × (b : ℕ) × Masks s out a k b
    × (a ≤ 5)
    × (b ≤ 3)
    × (1 ≤ k)
    × (a + b < length s)

mask_cleaned-Hides : (s : Text) → 0 < length s → Hides s (mask_cleaned s)
unfolding mask_cleaned
mask_cleaned-Hides s h = elim (Bool-cases (leb (length s) 4)) [
  | inl tiny ↦ (0, 3, 0, ground (arith, last_of_zero s), omega arith, omega arith, omega arith, h)
  | inr more ↦ elim (Bool-cases (leb (length s) 7)) [
    | inl short ↦ (2, 4, 1, ground arith, omega arith, omega arith, omega arith, ground arith)
    | inr long ↦ elim (Bool-cases (leb (length s) (prefix_len s + 3))) [
      | inl eight ↦ (2, 4, 2, ground arith, omega arith, omega arith, omega arith, ground arith)
      | inr rest ↦ (
        prefix_len s,
        length s - prefix_len s - 3,
        3,
        ground arith,
        ground arith,
        omega arith,
        ground arith,
        ground arith,
      )
    ]
  ]
]

-- The mask of a number that is not blank is its first characters, at most five, then stars, then its last
-- characters, at most three; at least one character of the trimmed number is left out.
pub mask_phone-Hides :
    (phone : Text) → 0 < length (trim phone) → Hides (trim phone) (mask_phone phone)
unfolding mask_phone
mask_phone-Hides phone h = mask_cleaned-Hides (trim phone) h
