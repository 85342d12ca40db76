-- ===== src/Confirm.antt =====
-- The dialog that asks before an action: frontend/src/hooks/useConfirmModal.ts. What the dialog does when it
-- is confirmed is data of type `A`, which the page that opens it interprets.
pub mod Forced
use beidar_pos.Prelude.{String, Bool, true, false, Option, none, some}

pub record ConfirmState {ℓ} (A : Type ℓ) : Type ℓ where
  pub is_open : Bool
  pub title : String
  pub message : String
  pub kind : Option String
  pub confirm_text : Option String
  pub on_confirm : Option A

module _ {ℓ} {A : Type ℓ} where
  abbrev pub closed : ConfirmState A
  closed = record {
    is_open = false;
    title = "";
    message = "";
    kind = none;
    confirm_text = none;
    on_confirm = none;
  }

  unfoldable pub open_confirm :
      String → String → String → Option String → A → ConfirmState A → ConfirmState A
  open_confirm title message kind confirm_text action _ = record {
    is_open = true;
    title = title;
    message = message;
    kind = some kind;
    confirm_text = confirm_text;
    on_confirm = some action;
  }

  unfoldable pub close_confirm : ConfirmState A → ConfirmState A
  close_confirm s = record s { is_open = false }

  -- What a press of the button does: the dialog is only shown while it is open.
  unfoldable pub pressed : ConfirmState A → Option A
  pressed s = elim s.is_open [ true ↦ s.on_confirm | false ↦ none ]
