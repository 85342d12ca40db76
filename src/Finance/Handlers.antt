-- ===== src/Finance/Handlers.antt =====
-- The handlers of finance.tsx. One that awaits the backend is two functions: up to the call, which is `none` where it
-- returns without one, and from the answer on. Amounts count thousandths.
use Prim.Native.String.{◌++◌}
use beidar_pos.Prelude.{
  ℕ, ◌+◌, String, Bool, true, false, ◌||◌, Option, none, some, List, ◌∷◌, ◌===◌, if◌then◌else◌,
  or_default, is_some,
}
use beidar_pos.Prelude.Int.{ℤ, pos, eqb_ℤ}
use beidar_pos.Store.{truthy}
use beidar_pos.Confirm.{ConfirmState, open_confirm, close_confirm}
use beidar_pos.Confirm.Forced.{AppError}
use beidar_pos.Finance.{Expense}

-- `Partial<Expense>`
pub record ExpenseForm : Type 0 where
  pub id : Option String
  pub title : Option String
  pub amount : Option ℤ
  pub category : Option String
  pub date : Option String
  pub notes : Option String

pub record Supplier : Type 0 where
  pub id : String
  pub name : String
  pub company_name : String
  pub phone : String
  pub balance : ℤ
  pub notes : String
  pub email : String

-- `Partial<Supplier>`
pub record SupplierForm : Type 0 where
  pub id : Option String
  pub name : Option String
  pub company_name : Option String
  pub phone : Option String
  pub balance : Option ℤ
  pub notes : Option String
  pub email : Option String

-- What the confirmed dialog deletes; a supplier forced or not.
pub data Deed : Type 0 where
  expense : String → Deed
  supplier : String → Bool → Deed

pub data Kind : Type 0 where
  success error : Kind

-- The state that the handlers change; notices latest first. `refreshes` counts the reloads after a change.
pub record FinanceState : Type 0 where
  pub expense_modal : Bool
  pub expense_form : ExpenseForm
  pub is_categorizing : Bool
  pub supplier_modal : Bool
  pub supplier_form : SupplierForm
  pub email_modal : Option String
  pub generated_email : String
  pub generating_email : Bool
  pub confirm_modal : ConfirmState Deed
  pub notices : List (String × Kind)
  pub refreshes : ℕ

abbrev pub notify : String → Kind → FinanceState → FinanceState
notify message kind s = record s { notices = (message, kind) ∷ s.notices }

-- `invalidateAllData` and `loadData`.
abbrev pub refresh : FinanceState → FinanceState
refresh s = record s { refreshes = s.refreshes + 1 }

-- `o || ""`
abbrev pub text_of : Option String → String
text_of o = or_default o ""

-- `o || d`
abbrev pub text_or : Option String → String → String
text_or o d = or_default (truthy o) d

abbrev pub is_zero : Option ℤ → Bool
is_zero none = true
is_zero (some a) = eqb_ℤ a (pos 0)

-- The expense that is sent; `today` is the local date.
unfoldable pub expense_of : String → ExpenseForm → Expense
expense_of today f = record {
  id = text_of f.id;
  title = text_of f.title;
  amount = or_default f.amount (pos 0);
  category = text_or f.category "other";
  date = text_or f.date today;
  notes = text_of f.notes;
}

unfoldable pub begin_save_expense : String → FinanceState → Option Expense × FinanceState
begin_save_expense today s =
    if text_of s.expense_form.title === "" || is_zero s.expense_form.amount
    then (
      none,
      notify
          "\u{64a}\u{631}\u{62c}\u{649} \u{625}\u{62f}\u{62e}\u{627}\u{644} \u{627}\u{644}\u{639}\u{646}\u{648}\u{627}\u{646} \u{648}\u{627}\u{644}\u{645}\u{628}\u{644}\u{63a}"
          error s,
    )
    else (some (expense_of today s.expense_form), s)

-- `true` where the call of the backend succeeded. The form is that of the render that the handler belongs to.
unfoldable pub finish_save_expense : ExpenseForm → Bool → FinanceState → FinanceState
finish_save_expense form true s =
    refresh
      (record (notify
        (if is_some (truthy form.id)
          then "\u{62a}\u{645} \u{62a}\u{62d}\u{62f}\u{64a}\u{62b} \u{627}\u{644}\u{645}\u{635}\u{631}\u{648}\u{641}"
          else "\u{62a}\u{645} \u{625}\u{636}\u{627}\u{641}\u{629} \u{627}\u{644}\u{645}\u{635}\u{631}\u{648}\u{641}")
        success s) { expense_modal = false })
finish_save_expense form false s =
    notify "\u{62e}\u{637}\u{623} \u{641}\u{64a} \u{627}\u{644}\u{62d}\u{641}\u{638}" error s

-- `handleAutoCategorize`: the title that is sent.
unfoldable pub begin_categorize : FinanceState → Option String × FinanceState
begin_categorize s =
    if text_of s.expense_form.title === ""
    then (none, s)
    else (s.expense_form.title, record s { is_categorizing = true })

unfoldable pub finish_categorize : Option String → FinanceState → FinanceState
finish_categorize none s = record s { is_categorizing = false }
finish_categorize (some category) s = record s {
  expense_form = record s.expense_form { category = some category };
  is_categorizing = false;
}

unfoldable pub handle_delete_expense : String → FinanceState → FinanceState
handle_delete_expense id s = record s {
  confirm_modal =
      open_confirm "\u{62d}\u{630}\u{641} \u{627}\u{644}\u{645}\u{635}\u{631}\u{648}\u{641}"
        "\u{647}\u{644} \u{623}\u{646}\u{62a} \u{645}\u{62a}\u{623}\u{643}\u{62f} \u{645}\u{646} \u{62d}\u{630}\u{641} \u{647}\u{630}\u{627} \u{627}\u{644}\u{645}\u{635}\u{631}\u{648}\u{641}\u{61f}"
        "warning" (some "\u{62d}\u{630}\u{641}") (expense id) s.confirm_modal;
}

unfoldable pub finish_delete_expense : Bool → FinanceState → FinanceState
finish_delete_expense deleted s =
    let t : FinanceState =
      (if deleted
        then refresh (notify "\u{62a}\u{645} \u{627}\u{644}\u{62d}\u{630}\u{641}" success s)
        else notify "\u{62e}\u{637}\u{623} \u{641}\u{64a} \u{627}\u{644}\u{62d}\u{630}\u{641}" error
            s) in
    record t { confirm_modal = close_confirm t.confirm_modal }

unfoldable pub handle_delete_supplier : String → FinanceState → FinanceState
handle_delete_supplier id s = record s {
  confirm_modal =
      open_confirm "\u{62d}\u{630}\u{641} \u{627}\u{644}\u{645}\u{648}\u{631}\u{62f}"
        "\u{647}\u{644} \u{623}\u{646}\u{62a} \u{645}\u{62a}\u{623}\u{643}\u{62f} \u{645}\u{646} \u{62d}\u{630}\u{641} \u{647}\u{630}\u{627} \u{627}\u{644}\u{645}\u{648}\u{631}\u{62f}\u{61f} \u{633}\u{64a}\u{62a}\u{645} \u{62d}\u{630}\u{641} \u{62c}\u{645}\u{64a}\u{639} \u{627}\u{644}\u{628}\u{64a}\u{627}\u{646}\u{627}\u{62a} \u{627}\u{644}\u{645}\u{631}\u{62a}\u{628}\u{637}\u{629} \u{628}\u{647}."
        "error" (some "\u{62d}\u{630}\u{641}") (supplier id false) s.confirm_modal;
}

unfoldable pub supplier_deleted : FinanceState → FinanceState
supplier_deleted s =
    let t : FinanceState = refresh (
      notify "\u{62a}\u{645} \u{62d}\u{630}\u{641} \u{627}\u{644}\u{645}\u{648}\u{631}\u{62f}"
        success s) in
    record t { confirm_modal = close_confirm t.confirm_modal }

unfoldable pub supplier_not_deleted : String → AppError → FinanceState → FinanceState
supplier_not_deleted id e s =
    if e.allow_force
    then record s {
      confirm_modal =
          open_confirm
            "\u{62a}\u{639}\u{630}\u{631} \u{627}\u{644}\u{62d}\u{630}\u{641} - \u{645}\u{637}\u{644}\u{648}\u{628} \u{62a}\u{623}\u{643}\u{64a}\u{62f} \u{625}\u{636}\u{627}\u{641}\u{64a}"
            (or_default e.message "undefined" ++ "\n\n" ++ text_of e.hint) "warning"
            (some "\u{62d}\u{630}\u{641} \u{642}\u{633}\u{631}\u{64a} (Force Delete)")
            (supplier id true) s.confirm_modal;
    }
    else (let t : FinanceState =
          notify
            (text_or e.message (
              text_or (some e.raw)
                "\u{62e}\u{637}\u{623} \u{641}\u{64a} \u{627}\u{644}\u{62d}\u{630}\u{641}"))
            error s in
        record t { confirm_modal = close_confirm t.confirm_modal })

unfoldable pub supplier_of : SupplierForm → Supplier
supplier_of f = record {
  id = text_of f.id;
  name = text_of f.name;
  company_name = text_of f.company_name;
  phone = text_of f.phone;
  balance = or_default f.balance (pos 0);
  notes = text_of f.notes;
  email = text_of f.email;
}

unfoldable pub begin_save_supplier : FinanceState → Option Supplier × FinanceState
begin_save_supplier s =
    if text_of s.supplier_form.name === ""
    then (
      none,
      notify "\u{627}\u{644}\u{627}\u{633}\u{645} \u{645}\u{637}\u{644}\u{648}\u{628}" error s,
    )
    else (some (supplier_of s.supplier_form), s)

unfoldable pub finish_save_supplier : SupplierForm → Bool → FinanceState → FinanceState
finish_save_supplier form true s =
    refresh
      (record (notify
        (if is_some (truthy form.id)
          then "\u{62a}\u{645} \u{627}\u{644}\u{62a}\u{62d}\u{62f}\u{64a}\u{62b}"
          else "\u{62a}\u{645}\u{62a} \u{627}\u{644}\u{625}\u{636}\u{627}\u{641}\u{629}")
        success s) { supplier_modal = false })
finish_save_supplier form false s =
    notify "\u{62e}\u{637}\u{623} \u{641}\u{64a} \u{627}\u{644}\u{62d}\u{641}\u{638}" error s

-- `handleGenerateEmail`; `writeRestockEmail` answers with a text in any case.
unfoldable pub begin_email : Supplier → FinanceState → FinanceState
begin_email to s = record s { generating_email = true; email_modal = some to.id }

unfoldable pub finish_email : String → FinanceState → FinanceState
finish_email text s = record s { generated_email = text; generating_email = false }
