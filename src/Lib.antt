-- ===== src/Lib.antt =====
-- beidar-pos: the logic of the point-of-sale frontend, of the licence functions of the server and of the
-- licences pages of the dashboard.
--
-- Parts and files, with the code that they are about:
--   Prelude, Prelude/Lists, Prelude/Tests, Prelude/Int, Prelude/Keys: the shared names, native lists,
--     tests, integers, and lists without two elements of one key.
--   Store: window.localStorage as a map, and what JSON.parse may give.
--   Cart: frontend/src/features/pos/hooks/useCart.ts. Cart has the items and the actions on them
--     (add_item is addToCart, update_qty is updateQty, and so on), Cart/Totals the computed amounts,
--     Cart/Session the whole state with its three effects and what a mount does. Cart/Items,
--     Cart/Refine, Cart/Totals/Bounds and Cart/Session/Restart hold the theorems.
--   Sales: frontend/src/features/pos/views/SalesPage.tsx over the cart and
--     frontend/src/hooks/useParkedSales.ts: the checkout (begin_checkout and finish_checkout are
--     handleCheckout before and after its await), Sales/Wholesale, Sales/Parking, Sales/Scan,
--     Sales/Remote.
--   Scanner: frontend/src/hooks/useUsbScannerDetection.ts, whose codes the sales page takes.
--   Auth: frontend/src/core/AuthContext.tsx, sessions, permissions and the idle timeout.
--   License: supabase/functions/activate_license and supabase/functions/verify_license.
--   Ai: the daily quota of frontend/src/core/ai.ts.
--   AppStore: frontend/src/store/appStore.ts. PinModal: frontend/src/components/PinModal.tsx.
--   Queries: frontend/src/core/queryClient.ts. StaffError: frontend/src/utils/parseStaffError.ts.
--   Products: frontend/src/hooks/useProducts.ts, the products that the sales page shows.
--   Utils: frontend/src/core/utils.ts. Backup: frontend/src/hooks/useAutoBackup.ts, which stores
--     preferences through Utils.
--   Logger: frontend/src/core/logger.ts.
--   Startup: frontend/src/hooks/useAppInitialization.ts and useGlobalKeyboardShortcuts.ts with the
--     screens of frontend/src/main.tsx, over AppStore.
--   Confirm: frontend/src/hooks/useConfirmModal.ts, the dialog of the pages that follow; Confirm/Forced
--     is what those share that may force a deletion.
--   Purchases: frontend/src/features/finance/components/PurchaseOrdersTab.tsx: the form and the
--     dialog for received goods, Purchases/Tab the state and the handlers (begin_pay and finish_pay
--     are handlePayOrder before and after its await), Purchases/Tab/Dialogs what asks first.
--   Customers: frontend/src/features/customers/customers.tsx. Customers/Handlers has the state and
--     the handlers, Customers/Deletion the dialogs for deletion.
--   Finance: frontend/src/features/finance/finance.tsx over the sales and the purchase orders:
--     Finance the amounts, Finance/Trend the months, Finance/Handlers and Finance/Deletion the rest.
--   Camera: frontend/src/components/BarcodeScannerOverlay.tsx, which scans as the sales page does.
--     Camera/Machine is the overlay as a machine of readings, answers and timers.
--   Catalog: frontend/src/features/products/products.tsx, with the checks of frontend/src/core/schemas:
--     Catalog/Form the form, Catalog/Handlers, Assist, Categories, Stock and Labels the handlers.
--   Staff: frontend/src/components/StaffManager.tsx, whose errors StaffError reads.
--   Inventory: frontend/src/features/inventory/inventory.tsx, Inventory/Analysis the page as a
--     machine, which the routes unmount and mount again. Notes:
--     frontend/src/components/tools/QuickNotes.tsx, Notes/Lines the lines of a text, Notes/Checklist
--     the marks of a checklist, Notes/Presses the presses of its boxes.
--   Shifts: frontend/src/components/ShiftManager.tsx.
--   Invoices: frontend/src/features/invoices/invoices.tsx, which reads codes as the sales page does.
--   Cash: frontend/src/features/pos/components/sales/CartPanel.tsx, the amounts for a cart's total.
--   Export: frontend/src/core/export.ts. Export/Reader is a reader of the files.
--   Admin: admin-dashboard/src/pages/Licenses.tsx and CreateLicense.tsx, which edit the rows that
--     License reads: Admin/Operations has the changes, Admin/Creation the new licences.
--
-- State is passed explicitly. A handler that awaits the backend is two functions, and the answer of
-- the backend, of the database or of a clock is an argument of the second. Where a closure reads an
-- older render, that render is an argument of its own.
--
-- Amounts and quantities are integers that count thousandths, so that sums and products are exact;
-- the rounding of the source is written out, and the rounding errors of binary floating point are
-- not modelled. Amounts of the pages of customers, shifts and purchases count units as their
-- files say. JSON is a parameter with the laws that it reads back what it wrote. Loops run over
-- lists, so no fuel is needed.
--
-- Not modelled: markup, translations, charts, printed reports and sounds, the generated bindings,
-- the rest of the administration dashboard, and the Go backend, whose answers are arguments.
pub mod Prelude
pub mod Store
pub mod Cart
pub mod Sales
pub mod Scanner
pub mod Auth
pub mod License
pub mod Ai
pub mod AppStore
pub mod PinModal
pub mod Queries
pub mod StaffError
pub mod Utils
pub mod Backup
pub mod Products
pub mod Logger
pub mod Confirm
pub mod Export
pub mod Purchases
pub mod Startup
pub mod Admin
pub mod Customers
pub mod Cash
pub mod Shifts
pub mod Invoices
pub mod Camera
pub mod Finance
pub mod Catalog
pub mod Staff
pub mod Inventory
pub mod Notes
