-- ===== src/Customers/Handlers.antt =====
-- The handlers of customers.tsx that save, delete and pay, with the state that they change.
use Prim.Native.String.{◌++◌}
use beidar_pos.Prelude.{
  ℕ, ◌+◌, String, Bool, true, false, ◌||◌, Option, none, some, List, [], ◌∷◌, ◌===◌, if◌then◌else◌,
  or_default, is_some,
}
use beidar_pos.Prelude.Int.{ℤ, pos, leb_ℤ}
use beidar_pos.Store.{truthy}
use beidar_pos.Logger.Mask.{Text}
use beidar_pos.Cart.{Customer}
use beidar_pos.Confirm.Forced.{AppError}
use beidar_pos.Confirm.{ConfirmState, open_confirm, close_confirm}
use beidar_pos.Customers.{CustomerForm, customer_to_save}

pub data Call : Type 0 where
  save : CustomerForm → Call
  delete : String → Bool → Call
  create_payment : String → ℤ → Call
  pay_installment : String → ℕ → ℤ → Call

pub data Kind : Type 0 where
  success error : Kind

-- The state that the handlers change; notices latest first. What a confirmed dialog does is a deletion, forced
-- or not.
pub record CustomersState : Type 0 where
  pub form : CustomerForm
  pub modal_open : Bool
  pub pay_debt_modal : Option Customer
  pub paying_key : Option String
  pub confirm_state : ConfirmState (String × Bool)
  pub notices : List (String × Kind)
  pub refreshes : ℕ

abbrev pub notify : String → Kind → CustomersState → CustomersState
notify message kind s = record s { notices = (message, kind) ∷ s.notices }

-- `invalidateAllData`
abbrev pub refresh : CustomersState → CustomersState
refresh s = record s { refreshes = s.refreshes + 1 }

abbrev pub new_form : CustomerForm
new_form = record {
  id = none;
  name = "";
  phone = [];
  notes = some "";
  debt = some (pos 0);
  total_purchases = some (pos 0);
}

unfoldable pub handle_init_add : CustomersState → CustomersState
handle_init_add s = record s { form = new_form; modal_open = true }

unfoldable pub handle_init_edit : CustomerForm → CustomersState → CustomersState
handle_init_edit c s = record s { form = c; modal_open = true }

abbrev is_empty : Text → Bool
is_empty [] = true
is_empty (c ∷ rest) = false

unfoldable pub begin_save : CustomersState → Option Call × CustomersState
begin_save s =
    if s.form.name === "" || is_empty s.form.phone
    then (
      none,
      notify
          "\u{627}\u{644}\u{627}\u{633}\u{645} \u{648}\u{631}\u{642}\u{645} \u{627}\u{644}\u{647}\u{627}\u{62a}\u{641} \u{645}\u{637}\u{644}\u{648}\u{628}\u{627}\u{646}"
          error s,
    )
    else (some (save (customer_to_save s.form)), s)

-- The answer of a call; the text is the message of an `Error`.
pub data Reply : Type 0 where
  done : Reply
  failed : Option String → Reply

unfoldable pub finish_save : Reply → CustomersState → CustomersState
finish_save done s = refresh (
    notify
      (if is_some (truthy s.form.id)
        then "\u{62a}\u{645} \u{62a}\u{62d}\u{62f}\u{64a}\u{62b} \u{627}\u{644}\u{628}\u{64a}\u{627}\u{646}\u{627}\u{62a}"
        else "\u{62a}\u{645} \u{625}\u{636}\u{627}\u{641}\u{629} \u{627}\u{644}\u{639}\u{645}\u{64a}\u{644}")
      success (record s { modal_open = false }))
finish_save (failed message) s =
    notify
      (or_default message
        "\u{62e}\u{637}\u{623} \u{641}\u{64a} \u{627}\u{644}\u{62d}\u{641}\u{638}")
      error s

-- `handlePayDebt` with the amount of the input.
unfoldable pub begin_pay_debt : ℤ → CustomersState → Option Call
begin_pay_debt amount s = elim s.pay_debt_modal [
  | none ↦ none
  | some c ↦ if leb_ℤ amount (pos 0) then none else some (create_payment c.id amount)
]

unfoldable pub finish_pay_debt : String → Reply → CustomersState → CustomersState
finish_pay_debt shown_amount done s = refresh (
    notify ("\u{62a}\u{645} \u{627}\u{644}\u{62a}\u{633}\u{62f}\u{64a}\u{62f} " ++ shown_amount)
      success (record s { pay_debt_modal = none }))
finish_pay_debt shown_amount (failed message) s =
    notify
      (or_default message "\u{641}\u{634}\u{644} \u{627}\u{644}\u{639}\u{645}\u{644}\u{64a}\u{629}")
      error s

-- `handlePayInstallment`; `shown` is the key of the render that the handler belongs to, and `key` the one that
-- is made of the sale and the index.
unfoldable pub begin_pay_installment :
    Option String → String → String → ℕ → ℤ → CustomersState → Option Call × CustomersState
begin_pay_installment shown key sale index amount s =
    if or_default shown "" === key
    then (none, s)
    else (some (pay_installment sale index amount), record s { paying_key = some key })

-- The notice of a failure is found in the error as the handler of the page does; the key is dropped at the end.
unfoldable pub finish_pay_installment : Reply → CustomersState → CustomersState
finish_pay_installment done s =
    record (refresh (
      notify
        "\u{62a}\u{645} \u{62a}\u{633}\u{62f}\u{64a}\u{62f} \u{627}\u{644}\u{642}\u{633}\u{637} \u{628}\u{646}\u{62c}\u{627}\u{62d}"
        success s)) { paying_key = none }
finish_pay_installment (failed message) s =
    record (notify
      (or_default message
        "\u{62d}\u{62f}\u{62b} \u{62e}\u{637}\u{623} \u{623}\u{62b}\u{646}\u{627}\u{621} \u{62a}\u{633}\u{62f}\u{64a}\u{62f} \u{627}\u{644}\u{642}\u{633}\u{637}")
      error s) { paying_key = none }

unfoldable pub handle_delete : String → CustomersState → CustomersState
handle_delete id s = record s {
  confirm_state =
      open_confirm "\u{62d}\u{630}\u{641} \u{627}\u{644}\u{639}\u{645}\u{64a}\u{644}"
        "\u{647}\u{644} \u{623}\u{646}\u{62a} \u{645}\u{62a}\u{623}\u{643}\u{62f} \u{645}\u{646} \u{62d}\u{630}\u{641} \u{647}\u{630}\u{627} \u{627}\u{644}\u{639}\u{645}\u{64a}\u{644}\u{61f} \u{633}\u{64a}\u{62a}\u{645} \u{62d}\u{630}\u{641} \u{62c}\u{645}\u{64a}\u{639} \u{627}\u{644}\u{628}\u{64a}\u{627}\u{646}\u{627}\u{62a} \u{627}\u{644}\u{645}\u{631}\u{62a}\u{628}\u{637}\u{629} \u{628}\u{647}."
        "error" (some "\u{62d}\u{630}\u{641}") (id, false) s.confirm_state;
}

unfoldable pub deleted : CustomersState → CustomersState
deleted s =
    let t : CustomersState =
      refresh (notify "\u{62a}\u{645} \u{627}\u{644}\u{62d}\u{630}\u{641}" success s) in
    record t { confirm_state = close_confirm t.confirm_state }

-- `message || fallback`
abbrev or_else : Option String → String → String
or_else message fallback = or_default (truthy message) fallback

unfoldable pub delete_failed : String → AppError → CustomersState → CustomersState
delete_failed id e s =
    if e.allow_force
    then record s {
      confirm_state =
          open_confirm
            "\u{62a}\u{639}\u{630}\u{631} \u{627}\u{644}\u{62d}\u{630}\u{641} - \u{645}\u{637}\u{644}\u{648}\u{628} \u{62a}\u{623}\u{643}\u{64a}\u{62f} \u{625}\u{636}\u{627}\u{641}\u{64a}"
            (or_default e.message "undefined" ++ "\n\n" ++ or_else e.hint "") "warning"
            (some "\u{62d}\u{630}\u{641} \u{642}\u{633}\u{631}\u{64a} (Force Delete)") (id, true)
            s.confirm_state;
    }
    else (let t : CustomersState =
          notify
            (or_else e.message (
              or_else (some e.raw)
                "\u{62e}\u{637}\u{623} \u{641}\u{64a} \u{627}\u{644}\u{62d}\u{630}\u{641}"))
            error s in
        record t { confirm_state = close_confirm t.confirm_state })
