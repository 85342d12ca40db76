-- ===== src/Notes.antt =====
-- The notes of frontend/src/components/tools/QuickNotes.tsx. A content is its characters, times count milliseconds;
-- what JSON makes of the notes is the codec's, and what `toString` makes of a time is an argument.
mod Tests
pub mod Lines
pub mod Checklist
pub mod Presses
pub mod Kept
use beidar_pos.Prelude.{
  ℕ, suc, ◌+◌, ◌/◌, ◌-◌, ◌≡◌, String, Bool, true, false, not, Option, none, some, List, [], ◌∷◌,
  map, keep_if, find, ltb, ◌===◌, if◌then◌else◌,
}
use beidar_pos.Store.{Storage, set_item, truthy, Parsed, throws, other, value}
use beidar_pos.Logger.Mask.{Text}
use beidar_pos.Notes.Checklist.{toggle_content}

pub record Note : Type 0 where
  pub id : String
  pub content : Text
  pub color : String
  pub pinned : Bool
  pub is_checklist : Bool
  pub created_at : ℕ
  pub updated_at : ℕ

pub record NotesState : Type 0 where
  pub notes : List Note
  pub active_note : Option String
  pub storage : Storage

abbrev pub notes_key : String
notes_key = "beidar_quick_notes"

pub record Codec : Type 0 where
  pub stringify : List Note → String
  pub parse : String → Parsed (List Note)

-- What the codec writes of these notes is not empty, and it reads it back.
pub record IsRead (c : Codec) (notes : List Note) : Type 0 where
  pub full : truthy (some (c.stringify notes)) ≡ some (c.stringify notes)
  pub read : c.parse (c.stringify notes) ≡ value notes

-- `setNotes(JSON.parse(...))`; a text of another shape is not stored.
abbrev pub notes_of : Parsed (List Note) → List Note
notes_of throws = []
notes_of other = []
notes_of (value notes) = notes

abbrev pub saved_notes : Codec → Option String → List Note
saved_notes c none = []
saved_notes c (some text) = notes_of (c.parse text)

-- The notes of a mount.
unfoldable pub mount : Codec → Storage → NotesState
mount c storage = record {
  notes = saved_notes c (truthy (storage notes_key));
  active_note = none;
  storage = storage;
}

unfoldable pub save_notes : Codec → List Note → NotesState → NotesState
save_notes c updated s = record s {
  notes = updated;
  storage = set_item notes_key (c.stringify updated) s.storage;
}

-- `updateNote`: what `updates` changes, and the time.
abbrev pub touched : String → (Note → Note) → ℕ → Note → Note
touched id updates now n = if n.id === id then record (updates n) { updated_at = now } else n

unfoldable pub update_note : Codec → String → (Note → Note) → ℕ → NotesState → NotesState
update_note c id updates now s = save_notes c (map (touched id updates now) s.notes) s

unfoldable pub create_note : Codec → (ℕ → String) → ℕ → NotesState → NotesState
create_note c to_string now s =
    record (save_notes c
      (record {
        id = to_string now;
        content = [];
        color = "default";
        pinned = false;
        is_checklist = false;
        created_at = now;
        updated_at = now;
      }
        ∷ s.notes)
      s) { active_note = some (to_string now) }

abbrev pub is_active : String → Option String → Bool
is_active id none = false
is_active id (some active) = active === id

unfoldable pub delete_note : Codec → String → NotesState → NotesState
delete_note c id s =
    let t : NotesState = save_notes c (keep_if (λ n. not (n.id === id)) s.notes) s in
    if is_active id s.active_note then record t { active_note = none } else t

unfoldable pub toggle_checklist_mode : Codec → Note → ℕ → NotesState → NotesState
toggle_checklist_mode c note now s =
    update_note c note.id (λ n. record n { is_checklist = not note.is_checklist }) now s

abbrev pub item_toggled : Codec → Note → ℕ → Option Text → NotesState → NotesState
item_toggled c note now none s = s
item_toggled c note now (some content) s =
    update_note c note.id (λ n. record n { content = content }) now s

-- `toggleChecklistItem`, which throws at a line that is not there.
unfoldable pub toggle_checklist_item : Codec → Note → ℕ → ℕ → NotesState → NotesState
toggle_checklist_item c note index now s =
    item_toggled c note now (toggle_content index note.content) s

pub data Age : Type 0 where
  just_now : Age
  minutes hours : ℕ → Age
  on_day : ℕ → Age

-- `formatDate`, for a time that is not later than now.
unfoldable pub format_date : ℕ → ℕ → Age
format_date now timestamp =
    let diff = now - timestamp in
    if ltb diff 60000
    then just_now
    else if ltb diff 3600000
    then minutes (diff / 60000)
    else if ltb diff 86400000
    then hours (diff / 3600000)
    else on_day timestamp
