-- ===== src/Finance/Deletion.antt =====
-- What finance.tsx saves, and how it deletes suppliers.
use beidar_pos.Prelude.{
  String, ◌≡◌, ◌≢◌, refl, ap, ◌⊎◌, inl, inr, Bool, true, false, ◌||◌, Option, none, some, List, [],
  if◌then◌else◌, or_default, Bool-cases, ◌===◌, arith, eq_iff,
}
use beidar_pos.Prelude.Int.{ℤ, pos, eqb_ℤ}
use beidar_pos.Confirm.{ConfirmState, open_confirm, close_confirm}
use beidar_pos.Confirm.Forced.{
  AppError, Deletion, IsPlain, Event, run, IsWarranted, run-IsWarranted,
}
use beidar_pos.Finance.{Expense}
use beidar_pos.Finance.Handlers.{
  FinanceState, ExpenseForm, Deed, expense, supplier, handle_delete_supplier, supplier_deleted,
  supplier_not_deleted, handle_delete_expense, expense_of, begin_save_expense, is_zero, text_of,
  text_or,
}

-- The supplier that the dialog deletes when it is confirmed.
abbrev pub supplier_deed : Option Deed → Option (String × Bool)
supplier_deed none = none
supplier_deed (some (expense id)) = none
supplier_deed (some (supplier id force)) = some (id, force)

abbrev pub supplier_dialog : ConfirmState Deed → ConfirmState (String × Bool)
supplier_dialog c = record {
  is_open = c.is_open;
  title = c.title;
  message = c.message;
  kind = c.kind;
  confirm_text = c.confirm_text;
  on_confirm = supplier_deed c.on_confirm;
}

-- The page's dialog as far as it deletes suppliers; the page uses it for expenses too.
unfoldable pub supplier_deletion : Deletion FinanceState
supplier_deletion = record {
  dialog = λ s. supplier_dialog s.confirm_modal;
  ask = handle_delete_supplier;
  cancel = λ s. record s { confirm_modal = close_confirm s.confirm_modal };
  succeed = supplier_deleted;
  refuse = supplier_not_deleted;
  other = handle_delete_expense;
}

refuses-plain :
    (id : String) (e : AppError) (s : FinanceState)
    → supplier_deed (supplier_not_deleted id e s).confirm_modal.on_confirm
      ≡ (if e.allow_force then some (id, true) else supplier_deed s.confirm_modal.on_confirm)
unfolding supplier_not_deleted open_confirm close_confirm
refuses-plain id e s = elim (Bool-cases e.allow_force) [
  | inl allowed ↦ rw allowed refl
  | inr not_allowed ↦ rw not_allowed refl
]

supplier_deletion-IsPlain : IsPlain supplier_deletion
unfolding supplier_deletion handle_delete_supplier supplier_deleted handle_delete_expense
    open_confirm close_confirm
supplier_deletion-IsPlain = record {
  asks = λ id s. refl;
  cancels = λ s. refl;
  succeeds = λ s. refl;
  refuses = refuses-plain;
  others = λ id s. inl refl;
}

-- A supplier's deletion is forced only after the backend has answered one of the same supplier by an error that
-- allows it, whatever the user asks, confirms and cancels, deletions of expenses by the same dialog among them, and
-- in whatever order the answers arrive, from a page whose dialog has not been opened.
pub supplier_forced_only_if_allowed :
    (s : FinanceState) (events : List Event)
    → supplier_deed s.confirm_modal.on_confirm ≡ none
    → IsWarranted (run supplier_deletion events (record { state = s; entries = [] })).entries
unfolding supplier_deletion
supplier_forced_only_if_allowed = run-IsWarranted supplier_deletion supplier_deletion-IsPlain

-- An expense with a title, an amount and a category.
abbrev pub IsComplete : Expense → Type 0
IsComplete e = (e.title ≢ "") × (e.amount ≢ pos 0) × (e.category ≢ "")

abbrev other_category : String
other_category = "other"

other_is_some : other_category ≢ ""
other_is_some e = absurd (ground (arith, ap (λ t. t === "") e))

text_or-nonempty : (o : Option String) (d : String) → d ≢ "" → text_or o d ≢ ""
text_or-nonempty none d h = h
text_or-nonempty (some t) d h = elim (Bool-cases (t === "")) [
  | inl empty ↦ rw empty h
  | inr full ↦ rw full (λ e. absurd (ground (arith, full, eq_iff t "", e)))
]

guard-fails :
    (f : ExpenseForm)
    → (text_of f.title === "" || is_zero f.amount) ≡ false
    → (text_of f.title === "" ≡ false) × (is_zero f.amount ≡ false)
guard-fails f h = (ground (arith, h), ground (arith, h))

amount-IsSome : (a : Option ℤ) → is_zero a ≡ false → or_default a (pos 0) ≢ pos 0
amount-IsSome none h = absurd (cc)
amount-IsSome (some a) h = λ e. absurd (ground (arith, h, ap (λ v. eqb_ℤ v (pos 0)) e))

-- A press of the button to save either sends the form's expense, which has then a title, an amount and a category,
-- and leaves the page as it is, or sends nothing and leaves the page but for a notice.
pub begin_save_expense-IsComplete :
    (today : String) (s : FinanceState)
    → let r = begin_save_expense today s in
      ((r.0 ≡ some (expense_of today s.expense_form))
        × IsComplete (expense_of today s.expense_form)
        × (r.1 ≡ s))
      ⊎ ((r.0 ≡ none) × (record r.1 { notices = s.notices } ≡ s))
unfolding begin_save_expense expense_of
begin_save_expense-IsComplete today s =
    elim (Bool-cases (text_of s.expense_form.title === "" || is_zero s.expense_form.amount)) [
      | inl refused ↦ rw refused (inr (refl, refl))
      | inr passed ↦
          let g = guard-fails s.expense_form passed in
          rw passed (
            inl (
              refl,
              (
                λ e. absurd (ground (arith, g.0, ap (λ t. t === "") e)),
                amount-IsSome s.expense_form.amount g.1,
                text_or-nonempty s.expense_form.category other_category other_is_some,
              ),
              refl,
            ))
    ]
