-- ===== src/Notes/Tests.antt =====
-- Examples of the notes.
use beidar_pos.Prelude.{
  ℕ, ◌≡◌, refl, ap, sym, ◌==◌, if◌then◌else◌, String, true, false, some, List, [], ◌∷◌, arith,
}
use beidar_pos.Logger.Mask.{Text}
use beidar_pos.Store.{Storage, value}
use beidar_pos.Notes.{Note, NotesState, Codec, IsRead, mount, save_notes, create_note, delete_note}
use beidar_pos.Notes.Kept.{Action, created, deleted, step, run, notes_come_back}
use beidar_pos.Notes.Presses.{press, presses_undo}
use beidar_pos.Notes.Lines.{split, join}
use beidar_pos.Notes.Checklist.{toggle_content, toggle_nth, toggle_line, after_mark, is_marked_at}

-- `[x] a` and `b`.
abbrev two_lines : Text
two_lines = b'[' ∷ b'x' ∷ b']' ∷ b' ' ∷ b'a' ∷ 10 ∷ b'b' ∷ []

unchecks : toggle_content 0 two_lines ≡ some (b'[' ∷ b' ' ∷ b']' ∷ b' ' ∷ b'a' ∷ 10 ∷ b'b' ∷ [])
unfolding toggle_content toggle_nth toggle_line after_mark split join
unchecks = refl

abbrev to_buy : Note
to_buy = record {
  id = "1";
  content = two_lines;
  color = "default";
  pinned = false;
  is_checklist = true;
  created_at = 1;
  updated_at = 1;
}

abbrev blank : Note
blank = record {
  id = "2";
  content = [];
  color = "default";
  pinned = false;
  is_checklist = false;
  created_at = 2;
  updated_at = 2;
}

-- A codec for the list that is left in the end.
abbrev codec : Codec
codec = record { stringify = λ notes. "[]"; parse = λ text. value (blank ∷ []) }

abbrev actions : List Action
actions = created 1 ∷ created 2 ∷ deleted "1" ∷ []

abbrev to_text : ℕ → String
to_text n = if n == 1 then "1" else "2"

abbrev empty : Storage
empty = λ key. some ""

one_is_left : (run codec to_text actions (mount codec empty)).notes ≡ blank ∷ []
unfolding run step mount create_note delete_note save_notes
one_is_left = refl

left-IsRead : IsRead codec (run codec to_text actions (mount codec empty)).notes
left-IsRead = record { full = refl; read = ap value (sym one_is_left) }

notes_come_back_example :
    (mount codec (run codec to_text actions (mount codec empty)).storage).notes
    ≡ (run codec to_text actions (mount codec empty)).notes
notes_come_back_example = notes_come_back codec to_text empty actions left-IsRead

abbrev two_notes : NotesState
two_notes = record { notes = blank ∷ to_buy ∷ []; active_note = some "1"; storage = empty }

presses_undo_example :
    (press codec "1" 0 9 (press codec "1" 0 8 two_notes)).notes
    ≡ blank ∷ record to_buy { updated_at = 9 } ∷ []
unfolding is_marked_at split after_mark
presses_undo_example =
    presses_undo codec "1" 0 8 9 to_buy two_notes refl
      ((λ bad. absurd (ground arith)), ((λ same. refl), tt)) refl
