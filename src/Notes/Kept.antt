-- ===== src/Notes/Kept.antt =====
-- The notes and what is stored of them.
use beidar_pos.Prelude.{
  ℕ, ◌≡◌, refl, ◌⊎◌, inl, inr, String, not, Option, none, some, List, [], ◌∷◌, keep_if, ◌===◌,
  Bool-cases,
}
use beidar_pos.Store.{Storage}
use beidar_pos.Logger.Mask.{Text}
use beidar_pos.Notes.{
  Note, NotesState, Codec, IsRead, notes_key, mount, save_notes, update_note, create_note,
  delete_note, toggle_checklist_mode, toggle_checklist_item, item_toggled, is_active,
}
use beidar_pos.Notes.Checklist.{toggle_content}

-- What the user does with the notes, at a time.
pub data Action : Type 0 where
  created : ℕ → Action
  updated : String → (Note → Note) → ℕ → Action
  deleted : String → Action
  mode_toggled : Note → ℕ → Action
  item_pressed : Note → ℕ → ℕ → Action
  opened closed : String → Action

unfoldable pub step : Codec → (ℕ → String) → Action → NotesState → NotesState
step c to_string (created now) s = create_note c to_string now s
step c to_string (updated id updates now) s = update_note c id updates now s
step c to_string (deleted id) s = delete_note c id s
step c to_string (mode_toggled note now) s = toggle_checklist_mode c note now s
step c to_string (item_pressed note index now) s = toggle_checklist_item c note index now s
step c to_string (opened id) s = record s { active_note = some id }
step c to_string (closed id) s = record s { active_note = none }

unfoldable pub run : Codec → (ℕ → String) → List Action → NotesState → NotesState
run c to_string [] s = s
run c to_string (a ∷ actions) s = run c to_string actions (step c to_string a s)

module _ (c : Codec) (to_string : ℕ → String) where
  -- The notes are those that a mount finds, or what is stored is what the codec makes of them.
  abbrev IsKept : NotesState → Type 0
  IsKept s =
      ((mount c s.storage).notes ≡ s.notes) ⊎ (s.storage notes_key ≡ some (c.stringify s.notes))

  saved-IsKept :
      (notes : List Note) (s : NotesState)
      → (save_notes c notes s).storage notes_key ≡ some (c.stringify (save_notes c notes s).notes)
  unfolding save_notes
  saved-IsKept notes s = refl

  pressed-IsKept :
      (note : Note) (now : ℕ) (content : Option Text) (s : NotesState)
      → IsKept s
      → IsKept (item_toggled c note now content s)
  unfolding update_note
  pressed-IsKept note now none s k = k
  pressed-IsKept note now (some content) s k = inr (saved-IsKept _ s)

  deleted-IsKept : (id : String) (s : NotesState) → IsKept (delete_note c id s)
  unfolding delete_note
  deleted-IsKept id s = elim (Bool-cases (is_active id s.active_note)) [
    | inl active ↦ rw active (inr (saved-IsKept (keep_if (λ n. not (n.id === id)) s.notes) s))
    | inr other ↦ rw other (inr (saved-IsKept (keep_if (λ n. not (n.id === id)) s.notes) s))
  ]

  step-IsKept : (a : Action) (s : NotesState) → IsKept s → IsKept (step c to_string a s)
  unfolding step create_note update_note toggle_checklist_mode toggle_checklist_item
  step-IsKept (created now) s k = inr (saved-IsKept _ s)
  step-IsKept (updated id updates now) s k = inr (saved-IsKept _ s)
  step-IsKept (deleted id) s k = deleted-IsKept id s
  step-IsKept (mode_toggled note now) s k = inr (saved-IsKept _ s)
  step-IsKept (item_pressed note index now) s k =
      pressed-IsKept note now (toggle_content index note.content) s k
  step-IsKept (opened id) s k = k
  step-IsKept (closed id) s k = k

  run-IsKept :
      (actions : List Action) (s : NotesState) → IsKept s → IsKept (run c to_string actions s)
  unfolding run
  run-IsKept [] s k = k
  run-IsKept (a ∷ actions) s k = run-IsKept actions (step c to_string a s) (step-IsKept a s k)

  comes_back : (s : NotesState) → IsRead c s.notes → IsKept s → (mount c s.storage).notes ≡ s.notes
  unfolding mount
  comes_back s r (inl same) = same
  comes_back s r (inr stored) = rw (stored, r.full, r.read) refl

  mount-IsKept : (storage : Storage) → IsKept (mount c storage)
  unfolding mount
  mount-IsKept storage = inl refl

  -- If JSON reads the notes back as it wrote them, whatever was done with the notes since they were opened, they come
  -- back when they are opened again.
  pub notes_come_back :
      (storage : Storage) (actions : List Action)
      → IsRead c (run c to_string actions (mount c storage)).notes
      → let s = run c to_string actions (mount c storage) in (mount c s.storage).notes ≡ s.notes
  notes_come_back storage actions r =
      comes_back (run c to_string actions (mount c storage)) r
        (run-IsKept actions (mount c storage) (mount-IsKept storage))
