-- ===== src/Utils/Secrets.antt =====
-- What of the preferences reaches the disk.
use beidar_pos.Prelude.{
  String, ◌≡◌, refl, sym, ap, Option, none, some, List, [], ◌∷◌, arith, eq_iff, ◌===◌,
  if◌then◌else◌, any, Bool-cases, inl, inr,
}
use beidar_pos.Utils.{
  Pref, array, Prefs, secret_keys, mask_pref, mask_key, mask_keys, sanitize_prefs_for_storage,
}

-- Masked already, or missing.
abbrev pub mask_option : Option Pref → Option Pref
mask_option none = none
mask_option (some v) = some (mask_pref v)

mask_option-twice : (o : Option Pref) → mask_option (mask_option o) ≡ mask_option o
mask_option-twice none = refl
mask_option-twice (some (array items)) = refl
mask_option-twice (some _) = refl

mask_key-at :
    (key j : String) (prefs : Prefs)
    → mask_key key prefs j ≡ (if j === key then mask_option (prefs j) else prefs j)
mask_key-at key j prefs = elim (Bool-cases (j === key)) [
  | inl same ↦
      let eq : j ≡ key = ground (arith, eq_iff j key) in
      rw same (ap (λ k. mask_option (prefs k)) (sym eq))
  | inr different ↦ rw different refl
]

mask_keys-at :
    (keys : List String) (j : String) (prefs : Prefs)
    → mask_keys keys prefs j ≡ (if any (λ k. j === k) keys then mask_option (prefs j) else prefs j)
mask_keys-at [] j prefs = refl
mask_keys-at (key ∷ keys) j prefs = ground (
  arith,
  mask_keys-at keys j (mask_key key prefs),
  mask_key-at key j prefs,
  mask_option-twice (prefs j),
)

-- Of the preferences that are stored, each secret is missing or a mask, and all else is as it was.
pub stored_prefs_are_masked :
    (prefs : Prefs) (j : String)
    → sanitize_prefs_for_storage prefs j
      ≡ (if any (λ k. j === k) secret_keys then mask_option (prefs j) else prefs j)
unfolding sanitize_prefs_for_storage
stored_prefs_are_masked prefs j = mask_keys-at secret_keys j prefs
