-- ===== src/Notes/Lines.antt =====
-- `split('\n')` and `join('\n')` of a text, and one line of it.
use beidar_pos.Prelude.{
  ℕ, ◌≡◌, refl, ap, ◌∙◌, inl, inr, Bool, true, false, List, [], ◌∷◌, ◌++◌, arith, ◌==◌,
  if◌then◌else◌, Bool-cases,
}
use beidar_pos.Logger.Mask.{Text}

abbrev pub newline : ℕ
newline = 10

-- A character before the first line.
abbrev pub onto_first : ℕ → List Text → List Text
onto_first c [] = (c ∷ []) ∷ []
onto_first c (line ∷ lines) = (c ∷ line) ∷ lines

unfoldable pub split : Text → List Text
split [] = [] ∷ []
split (c ∷ cs) = let rest = split cs in if c == newline then [] ∷ rest else onto_first c rest

unfoldable pub join : List Text → Text
join [] = []
join (line ∷ []) = line
join (line ∷ next ∷ lines) = line ++ (newline ∷ join (next ∷ lines))

-- The text has no line break.
unfoldable pub is_line : Text → Bool
is_line [] = true
is_line (c ∷ cs) = if c == newline then false else is_line cs

abbrev pub AreLines : List Text → Type 0
AreLines [] = Unit
AreLines (line ∷ lines) = (is_line line ≡ true) × AreLines lines

split-line : (line : Text) → is_line line ≡ true → split line ≡ line ∷ []
unfolding split is_line
split-line [] h = refl
split-line (c ∷ cs) h = elim (Bool-cases (c == newline)) [
  | inl break ↦ absurd (ground (arith, h, break))
  | inr plain ↦ rw plain (ap (onto_first c) (split-line cs (ground (arith, h, plain))))
]

split-append :
    (line rest : Text) → is_line line ≡ true → split (line ++ (newline ∷ rest)) ≡ line ∷ split rest
unfolding split is_line
split-append [] rest h = refl
split-append (c ∷ cs) rest h = elim (Bool-cases (c == newline)) [
  | inl break ↦ absurd (ground (arith, h, break))
  | inr plain ↦ rw plain (ap (onto_first c) (split-append cs rest (ground (arith, h, plain))))
]

-- What is joined of lines splits into them.
pub split-join :
    (line : Text) (lines : List Text)
    → AreLines (line ∷ lines)
    → split (join (line ∷ lines)) ≡ line ∷ lines
unfolding join
split-join line [] h = split-line line h.0
split-join line (next ∷ lines) h =
    split-append line (join (next ∷ lines)) h.0 ∙ ap (◌∷◌ line) (split-join next lines h.1)

join-onto : (c : ℕ) (lines : List Text) → join (onto_first c lines) ≡ c ∷ join lines
unfolding join
join-onto c [] = refl
join-onto c (line ∷ []) = refl
join-onto c (line ∷ next ∷ lines) = refl

abbrev is_cons : List Text → Bool
is_cons [] = false
is_cons (line ∷ lines) = true

split-is_cons : (cs : Text) → is_cons (split cs) ≡ true
unfolding split
split-is_cons [] = refl
split-is_cons (c ∷ cs) = ground (arith, split-is_cons cs)

join-break : (lines : List Text) → is_cons lines ≡ true → join ([] ∷ lines) ≡ newline ∷ join lines
unfolding join
join-break [] h = absurd (cc)
join-break (line ∷ lines) h = refl

is_newline : (c : ℕ) → (c == newline) ≡ true → newline ≡ c
is_newline c h = ground (arith, h)

-- A text is what is joined of its lines.
pub join-split : (cs : Text) → join (split cs) ≡ cs
unfolding split join
join-split [] = refl
join-split (c ∷ cs) = elim (Bool-cases (c == newline)) [
  | inl break ↦ rw break (
      join-break (split cs) (split-is_cons cs)
      ∙ ap (◌∷◌ newline) (join-split cs)
      ∙ ap (λ k. k ∷ cs) (is_newline c break))
  | inr plain ↦ rw plain (join-onto c (split cs) ∙ ap (◌∷◌ c) (join-split cs))
]

onto_first-AreLines :
    (c : ℕ) (lines : List Text)
    → (c == newline) ≡ false
    → AreLines lines
    → AreLines (onto_first c lines)
unfolding is_line
onto_first-AreLines c [] n h = (ground (arith, n), tt)
onto_first-AreLines c (line ∷ lines) n h = (ground (arith, n, h.0), h.1)

-- No line of a text has a line break.
pub split-AreLines : (cs : Text) → AreLines (split cs)
unfolding split is_line
split-AreLines [] = (refl, tt)
split-AreLines (c ∷ cs) = elim (Bool-cases (c == newline)) [
  | inl break ↦ rw break (refl, split-AreLines cs)
  | inr plain ↦ rw plain (onto_first-AreLines c (split cs) plain (split-AreLines cs))
]
