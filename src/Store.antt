-- ===== src/Store.antt =====
-- `window.localStorage`: a map from keys to texts, and the truthiness of what is read from it.
use beidar_pos.Prelude.{String, Option, none, some, ◌===◌, if◌then◌else◌}

abbrev pub Storage : Type 0
Storage = String → Option String

abbrev pub set_item : String → String → Storage → Storage
set_item k v st j = if j === k then some v else st j

abbrev pub remove_item : String → Storage → Storage
remove_item k st j = if j === k then none else st j

-- `if (saved)`: neither absent nor empty.
abbrev pub truthy : Option String → Option String
truthy none = none
truthy (some t) = if t === "" then none else some t

-- What `JSON.parse` gives: an exception, a value of another shape, or a value of the expected one.
pub data Parsed {ℓ} (A : Type ℓ) : Type ℓ where
  throws : Parsed A
  other : Parsed A
  value : A → Parsed A
