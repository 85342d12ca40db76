-- ===== src/Notes/Checklist.antt =====
-- The check marks of a note: `toggleChecklistItem` of QuickNotes.tsx, as far as it is about the content.
use beidar_pos.Prelude.{
  ℕ, zero, suc, ◌≡◌, refl, ap, sym, ◌∙◌, ◌⊎◌, inl, inr, Bool, true, false, ◌||◌, Option, none, some,
  List, [], ◌∷◌, ◌++◌, arith, ◌==◌, if◌then◌else◌, is_some, Bool-cases, Option-cases,
}
use beidar_pos.Logger.Mask.{Text}
use beidar_pos.Notes.Lines.{split, join, is_line, AreLines, split-join, join-split, split-AreLines}

-- The marks `[x] ` and `[ ] `.
abbrev pub checked : Text
checked = b'[' ∷ b'x' ∷ b']' ∷ b' ' ∷ []

abbrev pub unchecked : Text
unchecked = b'[' ∷ b' ' ∷ b']' ∷ b' ' ∷ []

-- What follows the mark, where the line starts with it.
unfoldable pub after_mark : Text → Text → Option Text
after_mark [] line = some line
after_mark (m ∷ mark) [] = none
after_mark (m ∷ mark) (c ∷ line) = let rest = after_mark mark line in if c == m then rest else none

abbrev pub plain_toggled : Option Text → Text → Text
plain_toggled (some rest) line = checked ++ rest
plain_toggled none line = checked ++ line

abbrev pub toggled_of : Option Text → Option Text → Text → Text
toggled_of (some rest) plain line = unchecked ++ rest
toggled_of none plain line = plain_toggled plain line

unfoldable pub toggle_line : Text → Text
toggle_line line = toggled_of (after_mark checked line) (after_mark unchecked line) line

abbrev pub cons_to : Text → Option (List Text) → Option (List Text)
cons_to line none = none
cons_to line (some lines) = some (line ∷ lines)

-- `lines[index] = ...`; there is no such line in `none`.
unfoldable pub toggle_nth : ℕ → List Text → Option (List Text)
toggle_nth index [] = none
toggle_nth zero (line ∷ lines) = some (toggle_line line ∷ lines)
toggle_nth (suc index) (line ∷ lines) = cons_to line (toggle_nth index lines)

abbrev pub joined : Option (List Text) → Option Text
joined none = none
joined (some lines) = some (join lines)

unfoldable pub toggle_content : ℕ → Text → Option Text
toggle_content index content = joined (toggle_nth index (split content))

-- The line has a mark.
abbrev pub is_marked : Text → Bool
is_marked line = is_some (after_mark checked line) || is_some (after_mark unchecked line)

unfoldable pub is_marked_at : ℕ → List Text → Bool
is_marked_at index [] = false
is_marked_at zero (line ∷ lines) = is_marked line
is_marked_at (suc index) (line ∷ lines) = is_marked_at index lines

after_mark-split : (mark line rest : Text) → after_mark mark line ≡ some rest → line ≡ mark ++ rest
unfolding after_mark
after_mark-split [] line rest h = ground (arith, h)
after_mark-split (m ∷ mark) [] rest h = absurd (cc)
after_mark-split (m ∷ mark) (c ∷ line) rest h = elim (Bool-cases (c == m)) [
  | inl same ↦ ground (arith, h, same, after_mark-split mark line rest)
  | inr other ↦ absurd (ground (arith, h, other))
]

-- A marked line is a mark and a rest, and gets the other mark.
abbrev Flips : Text → Type 0
Flips line =
    (rest : Text) × (((line ≡ checked ++ rest) × (toggle_line line ≡ unchecked ++ rest))
      ⊎ ((line ≡ unchecked ++ rest) × (toggle_line line ≡ checked ++ rest)))

none_marked : (o : Option Text) → is_some o ≡ true → (rest : Text) × (o ≡ some rest)
none_marked none h = absurd (cc)
none_marked (some rest) h = (rest, refl)

marked-Flips : (line : Text) → is_marked line ≡ true → Flips line
unfolding toggle_line
marked-Flips line h = elim (Option-cases (after_mark checked line)) [
  | inr (rest, found) ↦ (rest, inl (after_mark-split checked line rest found, rw found refl))
  | inl missing ↦
      let (rest, found) = none_marked (after_mark unchecked line) (ground (arith, h, missing)) in
      (rest, inr (after_mark-split unchecked line rest found, rw (missing, found) refl))
]

toggle_checked : (rest : Text) → toggle_line (checked ++ rest) ≡ unchecked ++ rest
unfolding toggle_line after_mark
toggle_checked rest = refl

toggle_unchecked : (rest : Text) → toggle_line (unchecked ++ rest) ≡ checked ++ rest
unfolding toggle_line after_mark
toggle_unchecked rest = refl

marks-is_line :
    (rest : Text)
    → (is_line (checked ++ rest) ≡ is_line rest) × (is_line (unchecked ++ rest) ≡ is_line rest)
unfolding is_line
marks-is_line rest = (refl, refl)

toggle_line-back :
    (line : Text)
    → is_marked line ≡ true
    → (toggle_line (toggle_line line) ≡ line) × (is_line (toggle_line line) ≡ is_line line)
toggle_line-back line h =
    let (rest, flips) = marked-Flips line h in
    let marks = marks-is_line rest in
    elim flips [
      | inl (e, t) ↦ (
        ap toggle_line t ∙ toggle_unchecked rest ∙ sym e,
        ap is_line t ∙ marks.1 ∙ sym (ap is_line e ∙ marks.0),
      )
      | inr (e, t) ↦ (
        ap toggle_line t ∙ toggle_checked rest ∙ sym e,
        ap is_line t ∙ marks.0 ∙ sym (ap is_line e ∙ marks.1),
      )
    ]

-- The lines after the toggle of a marked one, which toggles back.
abbrev TogglesBack : ℕ → List Text → Type 0
TogglesBack index lines =
    (line : Text) × (rest : List Text) × (toggle_nth index lines ≡ some (line ∷ rest))
    × (toggle_nth index (line ∷ rest) ≡ some lines)
    × AreLines (line ∷ rest)

toggle_nth-back :
    (index : ℕ) (lines : List Text)
    → is_marked_at index lines ≡ true
    → AreLines lines
    → TogglesBack index lines
unfolding toggle_nth is_marked_at
toggle_nth-back index [] h a = absurd (cc)
toggle_nth-back zero (line ∷ lines) h a =
    let back = toggle_line-back line h in
    (toggle_line line, lines, refl, ap (λ l. some (l ∷ lines)) back.0, (back.1 ∙ a.0, a.1))
toggle_nth-back (suc index) (line ∷ lines) h a =
    let (next, rest, there, back, are) = toggle_nth-back index lines h a.1 in
    (line, next ∷ rest, ap (cons_to line) there, ap (cons_to line) back, (a.0, are))

-- Toggling a marked line twice gives the content back, whatever its other lines are.
pub toggles_back :
    (index : ℕ) (content : Text)
    → is_marked_at index (split content) ≡ true
    → (changed : Text) × (toggle_content index content ≡ some changed)
      × (toggle_content index changed ≡ some content)
unfolding toggle_content
toggles_back index content h =
    let (line, rest, there, back, are) =
      toggle_nth-back index (split content) h (split-AreLines content) in
    (
      join (line ∷ rest),
      ap joined there,
      ap (λ lines. joined (toggle_nth index lines)) (split-join line rest are)
          ∙ ap joined back
          ∙ ap some (join-split content),
    )
