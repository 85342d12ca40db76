-- ===== src/Invoices/Pin.antt =====
-- Which invoices the page deletes.
use mathlib.Core.Path.{subst}
use beidar_pos.Prelude.{
  ap, sym, String, ◌≡◌, refl, ◌∙◌, inl, inr, Bool, true, false, Option, none, some, List, [], ◌∷◌,
  is_some, Bool-cases, All,
}
use beidar_pos.Store.{truthy}
use beidar_pos.Sales.{Sale}
use beidar_pos.Sales.Scan.{Scan, invoice, barcode, read_code}
use beidar_pos.Invoices.{
  InvoicesState, initial, Event, delete_asked, pin_closed, pin_confirmed, delete_answered,
  return_answered, return_asked, scanned, zoomed_in, zoomed_out, step, deletions,
  handle_init_delete, close_pin, begin_delete, deletion_of, finish_delete, finish_return,
  handle_return_init, handle_scan, zoom_in, zoom_out, Loaded, invoice_loaded, scan_read,
  with_deletion, broken, loaded,
}

-- A scan changes neither the invoice to delete nor whether the PIN is asked for.
abbrev IsSame : InvoicesState → InvoicesState → Type 0
IsSame s s' =
    (s'.delete_confirmation ≡ s.delete_confirmation) × (s'.show_pin_modal ≡ s.show_pin_modal)

loaded-IsSame :
    (id : String) (answer : Loaded) (s : InvoicesState) → IsSame s (invoice_loaded id answer s).0
loaded-IsSame id broken s = (refl, refl)
loaded-IsSame id (loaded none) s = (refl, refl)
loaded-IsSame id (loaded (some sale)) s = (refl, refl)

read-IsSame :
    (load : String → Loaded) (scan : Scan) (s : InvoicesState) → IsSame s (scan_read load scan s).0
read-IsSame load (barcode other) s = (refl, refl)
read-IsSame load (invoice id) s = loaded-IsSame id (load id) s

scan-IsSame :
    (load : String → Loaded) (code : String) (s : InvoicesState)
    → IsSame s (handle_scan load code s).0
unfolding handle_scan
scan-IsSame load code s = read-IsSame load (read_code code) s

step-closed :
    (admin_pin : Option String) (e : Event) (s : InvoicesState)
    → is_some (truthy admin_pin) ≡ false
    → s.show_pin_modal ≡ false
    → ((step admin_pin e s).0.show_pin_modal ≡ false) × ((step admin_pin e s).1 ≡ none)
unfolding step handle_init_delete close_pin begin_delete finish_delete finish_return
    handle_return_init zoom_in zoom_out
step-closed admin_pin (delete_asked sale) s p h = rw p (h, refl)
step-closed admin_pin pin_closed s p h = (refl, refl)
step-closed admin_pin pin_confirmed s p h = (h, rw h refl)
step-closed admin_pin (delete_answered true) s p h = (h, refl)
step-closed admin_pin (delete_answered false) s p h = (refl, refl)
step-closed admin_pin (return_answered true) s p h = (h, refl)
step-closed admin_pin (return_answered false) s p h = (h, refl)
step-closed admin_pin (return_asked sale) s p h = (h, refl)
step-closed admin_pin (scanned load code) s p h = ((scan-IsSame load code s).1 ∙ h, refl)
step-closed admin_pin zoomed_in s p h = (h, refl)
step-closed admin_pin zoomed_out s p h = (h, refl)

none_deleted :
    (admin_pin : Option String) (events : List Event) (s : InvoicesState)
    → is_some (truthy admin_pin) ≡ false
    → s.show_pin_modal ≡ false
    → deletions admin_pin events s ≡ []
unfolding deletions
none_deleted admin_pin [] s p h = refl
none_deleted admin_pin (e ∷ events) s p h =
    ap (λ o. with_deletion o (deletions admin_pin events (step admin_pin e s).0))
      (step-closed admin_pin e s p h).1
    ∙ none_deleted admin_pin events (step admin_pin e s).0 p (step-closed admin_pin e s p h).0

-- Without an administrator's PIN in the preferences, no invoice is ever deleted, whatever the user does.
pub no_pin_no_delete :
    (admin_pin : Option String) (events : List Event)
    → is_some (truthy admin_pin) ≡ false
    → deletions admin_pin events initial ≡ []
no_pin_no_delete admin_pin events p = none_deleted admin_pin events initial p refl

-- What is asked to be deleted satisfies the predicate.
abbrev pub Asks : (String → Type 0) → Event → Type 0
Asks P (delete_asked sale) = P sale.id
Asks P _ = Unit

abbrev Holds : (String → Type 0) → Option Sale → Type 0
Holds P none = Unit
Holds P (some sale) = P sale.id

abbrev HoldsId : (String → Type 0) → Option String → Type 0
HoldsId P none = Unit
HoldsId P (some id) = P id

init-Holds :
    (P : String → Type 0) (admin_pin : Option String) (sale : Sale) (s : InvoicesState)
    → P sale.id
    → Holds P (handle_init_delete admin_pin sale s).delete_confirmation
unfolding handle_init_delete
init-Holds P admin_pin sale s h = elim (Bool-cases (is_some (truthy admin_pin))) [
  | inl given ↦ rw given h
  | inr missing ↦ rw missing h
]

begin-HoldsId :
    (P : String → Type 0) (s : InvoicesState)
    → Holds P s.delete_confirmation
    → HoldsId P (begin_delete s)
unfolding begin_delete
begin-HoldsId P s h = of_parts s.show_pin_modal s.delete_confirmation h
  where
    of_parts : (shown : Bool) (o : Option Sale) → Holds P o → HoldsId P (deletion_of shown o)
    of_parts true none h = tt
    of_parts true (some sale) h = h
    of_parts false none h = tt
    of_parts false (some sale) h = tt

step-Holds :
    (P : String → Type 0) (admin_pin : Option String) (e : Event) (s : InvoicesState)
    → Asks P e
    → Holds P s.delete_confirmation
    → Holds P (step admin_pin e s).0.delete_confirmation × HoldsId P (step admin_pin e s).1
unfolding step close_pin finish_delete finish_return handle_return_init zoom_in zoom_out
step-Holds P admin_pin (delete_asked sale) s a h = (init-Holds P admin_pin sale s a, tt)
step-Holds P admin_pin pin_closed s a h = (tt, tt)
step-Holds P admin_pin pin_confirmed s a h = (h, begin-HoldsId P s h)
step-Holds P admin_pin (delete_answered true) s a h = (h, tt)
step-Holds P admin_pin (delete_answered false) s a h = (tt, tt)
step-Holds P admin_pin (return_answered true) s a h = (h, tt)
step-Holds P admin_pin (return_answered false) s a h = (h, tt)
step-Holds P admin_pin (return_asked sale) s a h = (h, tt)
step-Holds P admin_pin (scanned load code) s a h =
    (subst (Holds P) (sym (scan-IsSame load code s).0) h, tt)
step-Holds P admin_pin zoomed_in s a h = (h, tt)
step-Holds P admin_pin zoomed_out s a h = (h, tt)

add-All :
    (P : String → Type 0) (o : Option String) (rest : List String)
    → HoldsId P o
    → All P rest
    → All P (with_deletion o rest)
add-All P none rest h all = all
add-All P (some id) rest h all = (h, all)

deletions-hold :
    (P : String → Type 0) (admin_pin : Option String) (events : List Event) (s : InvoicesState)
    → All (Asks P) events
    → Holds P s.delete_confirmation
    → All P (deletions admin_pin events s)
unfolding deletions
deletions-hold P admin_pin [] s a h = tt
deletions-hold P admin_pin (e ∷ events) s a h = add-All P _ _ (step-Holds P admin_pin e s a.0 h).1 (
    deletions-hold P admin_pin events (step admin_pin e s).0 a.1
      (step-Holds P admin_pin e s a.0 h).0)

-- Only invoices are deleted that the user asked to delete: what holds of the identifiers of those holds of all
-- that are deleted.
pub deletes_only_asked :
    (P : String → Type 0) (admin_pin : Option String) (events : List Event)
    → All (Asks P) events
    → All P (deletions admin_pin events initial)
deletes_only_asked P admin_pin events a = deletions-hold P admin_pin events initial a tt
