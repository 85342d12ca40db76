-- ===== src/Inventory/Analysis.antt =====
-- How often the inventory page asks for an analysis: the page as a machine of presses, answers, restarts of the
-- application and visits to another page. A page that is left is unmounted, while its request goes on: the report is
-- kept, and its other effects on the state are lost. Coming back mounts a fresh page.
use beidar_pos.Prelude.{ℕ, String, Bool, true, false, Option, none, some, List, [], ◌∷◌}
use beidar_pos.Store.{Storage}
use beidar_pos.Cart.{Product}
use beidar_pos.Inventory.{
  InventoryState, Filters, Codec, mount, begin_analysis, analysis_listed, analysis_done,
  set_filters, hide_report,
}

-- `running` is when the analysis began that is under way, `detached` when those began whose page was left, `done` when
-- the successful ones began, the last to succeed first.
pub record Machine : Type 0 where
  pub state : InventoryState
  pub storage : Storage
  pub running : Option ℕ
  pub detached : List ℕ
  pub done : List ℕ

pub data Event : Type 0 where
  clicked : ℕ → Event
  listed : Option (List Product) → Event
  reported : Option String → Event
  restarted : Event
  left : Event
  late : Option String → Event
  filtered : Filters → Event
  hidden : Event

abbrev pub opened : Codec → Storage → Machine
opened c storage = record {
  state = mount c storage;
  storage = storage;
  running = none;
  detached = [];
  done = [];
}

abbrev pub click : ℕ → Bool × InventoryState → Machine → Machine
click now (true, s) m = record m { state = s; running = some now }
click now (false, s) m = record m { state = s }

-- An answer of the list of products to an analysis that is under way.
abbrev pub list_of : Option ℕ → Bool × InventoryState → Machine → Machine
list_of none r m = m
list_of (some began) (true, s) m = record m { state = s }
list_of (some began) (false, s) m = record m { state = s; running = none }

abbrev pub succeed : Option String → ℕ → List ℕ → List ℕ
succeed none began done = done
succeed (some report) began done = began ∷ done

abbrev pub report_of : Codec → Option String → Option ℕ → Machine → Machine
report_of c reply none m = m
report_of c reply (some began) m =
    let (s, storage) = analysis_done c began reply (m.state, m.storage) in
    record m { state = s; storage = storage; running = none; done = succeed reply began m.done }

abbrev pub detach : Option ℕ → List ℕ → List ℕ
detach none detached = detached
detach (some began) detached = began ∷ detached

-- The end of the last detached analysis, with its report or without one.
abbrev pub late_of : Codec → Option String → List ℕ → Machine → Machine
late_of c reply [] m = m
late_of c reply (began ∷ rest) m = record m {
  storage = (analysis_done c began reply (m.state, m.storage)).1;
  detached = rest;
  done = succeed reply began m.done;
}

unfoldable pub step : Codec → Event → Machine → Machine
step c (clicked now) m = click now (begin_analysis now m.state) m
step c (listed reply) m = list_of m.running (analysis_listed reply m.state) m
step c (reported reply) m = report_of c reply m.running m
step c restarted m = record m { state = mount c m.storage; running = none; detached = [] }
step c left m = record m {
  state = mount c m.storage;
  running = none;
  detached = detach m.running m.detached;
}
step c (late reply) m = late_of c reply m.detached m
step c (filtered filters) m = record m { state = set_filters filters m.state }
step c hidden m = record m { state = hide_report m.state }

unfoldable pub run : Codec → List Event → Machine → Machine
run c [] m = m
run c (e ∷ events) m = run c events (step c e m)
