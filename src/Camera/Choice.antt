-- ===== src/Camera/Choice.antt =====
-- Which camera the overlay opens with.
use beidar_pos.Prelude.{
  ◌≡◌, String, true, Bool-cases, inl, inr, some, List, [], ◌∷◌, arith, eq_iff, ◌===◌, find, ap, ◌∙◌,
}
use beidar_pos.Prelude.Keys.{has_key}
use beidar_pos.Store.{Storage}
use beidar_pos.Camera.{Device, choose_camera, remember_camera, saved_or_back, is_back}

find-id :
    (id : String) (devices : List Device)
    → has_key (λ d. d.id) id devices ≡ true
    → (d : Device) × (find (λ d. d.id === id) devices ≡ some d) × (d.id ≡ id)
unfolding has_key
find-id id [] h = absurd (cc)
find-id id (d ∷ devices) h = elim (Bool-cases (d.id === id)) [
  | inl same ↦ (d, ground (arith, same), (eq_iff d.id id).0 same)
  | inr other ↦
      let rest = find-id id devices (ground (arith, h, other)) in
      (rest.0, ground (arith, other, rest.1), rest.2)
]

-- The camera that was started last is the one that the overlay opens with again, if the browser still lists
-- it.
pub camera_is_restored :
    (to_lower_case : String → String) (storage : Storage) (id : String) (devices : List Device)
    → has_key (λ d. d.id) id devices ≡ true
    → choose_camera to_lower_case (remember_camera id storage) devices ≡ some id
unfolding choose_camera remember_camera
camera_is_restored to_lower_case storage id devices listed =
    let (d, found, same) = find-id id devices listed in
    ap (λ o. saved_or_back o (find (is_back to_lower_case) devices) devices) found ∙ ap some same
