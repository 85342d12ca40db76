-- ===== src/Shifts/Tests.antt =====
-- The properties of the shift at some events.
use beidar_pos.Prelude.{String, ◌≡◌, refl, none, some, List, [], ◌∷◌}
use beidar_pos.Prelude.Int.{ℤ, pos, ◌-ℤ◌}
use beidar_pos.Shifts.{
  Shift, initial, done, failed, Event, shift_fetched, opened, closed, run, step, fetched,
  finish_open, finish_close,
}

abbrev shift : Shift
shift = record {
  id = "s1";
  opening_balance = pos 100;
  closing_balance = pos 0;
  expected_balance = pos 250;
  variance = pos 0;
}

abbrev shown : ℤ → String
shown amount = "50"

abbrev events : List Event
events =
    shift_fetched (failed none) ∷ opened (done shift) ∷ closed shown (failed (some "offline")) ∷ []

still_open : (run events initial).active_shift ≡ some shift
unfolding run step fetched finish_open finish_close
still_open = refl

abbrev close : Shift → ℤ → Shift
close s counted = record s { closing_balance = counted; variance = counted -ℤ s.expected_balance }
