-- ===== src/Notes/Presses.antt =====
-- Two presses of one box of a note: QuickNotes.tsx, from the note that is shown to what is kept of it.
use beidar_pos.Prelude.{
  ℕ, ◌≡◌, refl, ap, sym, ◌∙◌, inl, inr, String, true, Option, none, some, List, [], ◌∷◌, map, find,
  arith, eq_iff, ◌===◌, if◌then◌else◌, Bool-cases, All,
}
use beidar_pos.Logger.Mask.{Text}
use beidar_pos.Notes.{
  Note, NotesState, Codec, touched, update_note, save_notes, toggle_checklist_item, item_toggled,
}
use beidar_pos.Notes.Lines.{split}
use beidar_pos.Notes.Checklist.{toggle_content, is_marked_at, toggles_back}

-- `currentNote`, where a note is active.
abbrev pub current_note : String → List Note → Option Note
current_note id notes = find (λ n. n.id === id) notes

abbrev pub press_of : Codec → ℕ → ℕ → Option Note → NotesState → NotesState
press_of c index now none s = s
press_of c index now (some note) s = toggle_checklist_item c note index now s

-- A press of a box of the note that is shown.
unfoldable pub press : Codec → String → ℕ → ℕ → NotesState → NotesState
press c id index now s = press_of c index now (current_note id s.notes) s

abbrev with_content : Text → Note → Note
with_content content n = record n { content = content }

-- The note with the identifier is of a later time.
abbrev pub timed : String → ℕ → Note → Note
timed id now n = if n.id === id then record n { updated_at = now } else n

found_id :
    (id : String) (note : Note) (notes : List Note)
    → current_note id notes ≡ some note
    → note.id ≡ id
found_id id note [] h = absurd (cc)
found_id id note (n ∷ notes) h = elim (Bool-cases (n.id === id)) [
  | inl here ↦ ground (arith, h, here, eq_iff n.id id)
  | inr later ↦ found_id id note notes (ground (arith, h, later))
]

found-touched :
    (id : String) (content : Text) (now : ℕ) (note : Note) (notes : List Note)
    → current_note id notes ≡ some note
    → current_note id (map (touched id (with_content content) now) notes)
      ≡ some (record note { content = content; updated_at = now })
found-touched id content now note [] h = absurd (cc)
found-touched id content now note (n ∷ notes) h = elim (Bool-cases (n.id === id)) [
  | inl here ↦ ground (arith, h, here)
  | inr later ↦
      ground (arith, later, found-touched id content now note notes (ground (arith, h, later)))
]

one_twice :
    (id : String) (old new : Text) (first second : ℕ) (n : Note)
    → ((n.id === id) ≡ true → n.content ≡ old)
    → touched id (with_content old) second (touched id (with_content new) first n)
      ≡ timed id second n
one_twice id old new first second n same = elim (Bool-cases (n.id === id)) [
  | inl here ↦
      rw (here, here) (ap (λ t. record n { content = t; updated_at = second }) (sym (same here)))
  | inr other ↦ rw (other, other) refl
]

touched_twice :
    (id : String) (old new : Text) (first second : ℕ) (notes : List Note)
    → All (λ n. (n.id === id) ≡ true → n.content ≡ old) notes
    → map (touched id (with_content old) second) (map (touched id (with_content new) first) notes)
      ≡ map (timed id second) notes
touched_twice id old new first second [] h = refl
touched_twice id old new first second (n ∷ notes) h = λ i.
    one_twice id old new first second n h.0 i ∷ touched_twice id old new first second notes h.1 i

pressed :
    (c : Codec) (id : String) (index now : ℕ) (note : Note) (content : Text) (s : NotesState)
    → current_note id s.notes ≡ some note
    → toggle_content index note.content ≡ some content
    → (press c id index now s).notes ≡ map (touched id (with_content content) now) s.notes
unfolding press toggle_checklist_item update_note save_notes
pressed c id index now note content s found there =
    ap (λ o. (press_of c index now o s).notes) found
    ∙ ap (λ o. (item_toggled c note now o s).notes) there
    ∙ ap (λ k. map (touched k (with_content content) now) s.notes) (found_id id note s.notes found)

-- Of the note that is shown, whose content all notes with its identifier have, a press of the box of a marked line
-- and another press of the same box leave all notes as they were, whatever its other lines are, but for the time of
-- that note, which is that of the second press.
pub presses_undo :
    (c : Codec) (id : String) (index first second : ℕ) (note : Note) (s : NotesState)
    → current_note id s.notes ≡ some note
    → All (λ n. (n.id === id) ≡ true → n.content ≡ note.content) s.notes
    → is_marked_at index (split note.content) ≡ true
    → (press c id index second (press c id index first s)).notes ≡ map (timed id second) s.notes
presses_undo c id index first second note s found same marked =
    let (content, there, back) = toggles_back index note.content marked in
    let once = press c id index first s in
    let changed = pressed c id index first note content s found there in
    pressed c id index second (record note { content = content; updated_at = first }) note.content
      once (ap (current_note id) changed ∙ found-touched id content first note s.notes found) back
    ∙ ap (map (touched id (with_content note.content) second)) changed
    ∙ touched_twice id note.content content first second s.notes same
