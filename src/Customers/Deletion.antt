-- ===== src/Customers/Deletion.antt =====
-- How customers get deleted: the dialog of customers.tsx, and when it forces a deletion.
use beidar_pos.Prelude.{
  String, ◌≡◌, refl, true, some, if◌then◌else◌, inl, inr, List, [], none, Bool-cases,
}
use beidar_pos.Confirm.{close_confirm, open_confirm}
use beidar_pos.Confirm.Forced.{
  AppError, Deletion, IsPlain, Event, run, IsWarranted, run-IsWarranted,
}
use beidar_pos.Customers.Handlers.{
  CustomersState, handle_init_add, handle_delete, deleted, delete_failed,
}

-- The operations of the page's dialog.
unfoldable pub deletion : Deletion CustomersState
deletion = record {
  dialog = λ s. s.confirm_state;
  ask = handle_delete;
  cancel = λ s. record s { confirm_state = close_confirm s.confirm_state };
  succeed = deleted;
  refuse = delete_failed;
  other = λ _. handle_init_add;
}

refuses-plain :
    (id : String) (e : AppError) (s : CustomersState)
    → (delete_failed id e s).confirm_state.on_confirm
      ≡ (if e.allow_force then some (id, true) else s.confirm_state.on_confirm)
unfolding delete_failed open_confirm close_confirm
refuses-plain id e s = elim (Bool-cases e.allow_force) [
  | inl allowed ↦ rw allowed refl
  | inr not_allowed ↦ rw not_allowed refl
]

deletion-IsPlain : IsPlain deletion
unfolding deletion handle_delete deleted handle_init_add open_confirm close_confirm
deletion-IsPlain = record {
  asks = λ id s. refl;
  cancels = λ s. refl;
  succeeds = λ s. refl;
  refuses = refuses-plain;
  others = λ id s. inr refl;
}

-- A deletion is forced only after the backend has answered one of the same customer by an error that allows
-- it, whatever the user asks, confirms and cancels and in whatever order the answers arrive, from a page whose
-- dialog has not been opened.
pub force_only_if_allowed :
    (s : CustomersState) (events : List Event)
    → s.confirm_state.on_confirm ≡ none
    → IsWarranted (run deletion events (record { state = s; entries = [] })).entries
unfolding deletion
force_only_if_allowed = run-IsWarranted deletion deletion-IsPlain
