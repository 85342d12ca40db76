-- ===== src/Logger/Redact.antt =====
-- What `sanitizeLogData` of frontend/src/core/logger.ts keeps out of the logs.
use Prim.Native.Nat.{max}
use beidar_pos.Prelude.{
  ℕ, suc, ◌+◌, ◌-◌, ◌≤◌, ◌≡◌, refl, Bool, true, false, not, ◌&&◌, ◌||◌, arith, ltb, if◌then◌else◌,
  inl, inr, Bool-cases, [], ◌∷◌,
}
use beidar_pos.Logger.{
  Value, null, undefined, text, number, boolean, failure, array, object, opaque, Stack, no_stack,
  stack, Items, nil, cons, Fields, end, field, is_sensitive, is_phone_key, same_text, redacted,
  sanitize, sanitize_items, sanitize_fields, codes, masked_or, text_at, stack_at,
}
use beidar_pos.Logger.Mask.{Text}

abbrev is_redacted : Value → Bool
is_redacted (text t) = same_text t (codes "[REDACTED]")
is_redacted _ = false

-- No error object, no value of a kind that is not logged, and under a sensitive key, at any depth, only
-- the mark of a redaction.
unfoldable mutual
  pub is_clean : Value → Bool
  is_clean (failure name message trace) = false
  is_clean (opaque t) = false
  is_clean (array items) = clean_items items
  is_clean (object fields) = clean_fields fields
  is_clean _ = true

  pub clean_items : Items → Bool
  clean_items nil = true
  clean_items (cons v items) = is_clean v && clean_items items

  pub clean_fields : Fields → Bool
  clean_fields end = true
  clean_fields (field key v fields) =
      (not (is_sensitive key) || is_redacted v) && is_clean v && clean_fields fields

-- How many levels of arrays and objects a value has, itself included.
unfoldable mutual
  pub levels : Value → ℕ
  levels (array items) = suc (levels_items items)
  levels (object fields) = suc (levels_fields fields)
  levels _ = 1

  pub levels_items : Items → ℕ
  levels_items nil = 0
  levels_items (cons v items) = max (levels v) (levels_items items)

  pub levels_fields : Fields → ℕ
  levels_fields end = 0
  levels_fields (field key v fields) = max (levels v) (levels_fields fields)

is_clean-masked_or :
    (b : Bool) (v clean : Value) → is_clean clean ≡ true → is_clean (masked_or b v clean) ≡ true
unfolding is_clean
is_clean-masked_or true (text t) clean h = refl
is_clean-masked_or _ _ clean h = h

levels-masked_or :
    (b : Bool) (v clean : Value) (n : ℕ)
    → 1 ≤ n
    → levels clean ≤ n
    → levels (masked_or b v clean) ≤ n
unfolding levels
levels-masked_or true (text t) clean n h l = h
levels-masked_or _ _ clean n h l = l

clean_field :
    (s p : Bool) (v w : Value) (rest : Bool)
    → is_clean w ≡ true
    → rest ≡ true
    → ((not s || is_redacted (if s then redacted else masked_or p v w))
        && is_clean (if s then redacted else masked_or p v w)
        && rest)
      ≡ true
unfolding is_clean
clean_field true p v w rest h r = r
clean_field false p v w rest h r = ground (arith, is_clean-masked_or p v w h)

levels_field :
    (s p : Bool) (v w : Value) (n : ℕ)
    → 1 ≤ n
    → levels w ≤ n
    → levels (if s then redacted else masked_or p v w) ≤ n
unfolding levels
levels_field true p v w n h l = h
levels_field false p v w n h l = levels-masked_or p v w n h l

-- The keys of an error's object are not sensitive.
error_keys :
    (is_sensitive (codes "name") ≡ false)
    × (is_sensitive (codes "message") ≡ false)
    × (is_sensitive (codes "stack") ≡ false)
unfolding is_sensitive
error_keys = (refl, refl, refl)

clean_error :
    (name message : Text) (trace : Stack) (depth : ℕ)
    → is_clean (
        object (
          field (codes "name") (text name) (
            field
              (codes "message")
              (text_at depth message)
              (field (codes "stack") (stack_at depth trace) end))))
      ≡ true
unfolding is_clean
clean_error name message no_stack depth = ground (arith, error_keys.0, error_keys.1, error_keys.2)
clean_error name message (stack []) depth = ground (arith, error_keys.0, error_keys.1, error_keys.2)
clean_error name message (stack (c ∷ t)) depth =
    ground (arith, error_keys.0, error_keys.1, error_keys.2)

mutual
  unfolding sanitize is_clean

  clean : (depth : ℕ) (v : Value) → is_clean (sanitize depth v) ≡ true
  clean depth null = refl
  clean depth undefined = refl
  clean depth (text t) = ground arith
  clean depth (number n) = ground arith
  clean depth (boolean b) = ground arith
  clean depth (failure name message trace) = elim (Bool-cases (ltb 5 depth)) [
    | inl deep ↦ ground arith
    | inr more ↦ ground (arith, clean_error name message trace (depth + 1))
  ]
  clean depth (array items) = ground (arith, clean_all (depth + 1) items)
  clean depth (object fields) = ground (arith, clean_each (depth + 1) fields)
  clean depth (opaque t) = ground arith

  clean_all : (depth : ℕ) (items : Items) → clean_items (sanitize_items depth items) ≡ true
  clean_all depth nil = refl
  clean_all depth (cons v items) = ground (arith, clean depth v, clean_all depth items)

  clean_each : (depth : ℕ) (fields : Fields) → clean_fields (sanitize_fields depth fields) ≡ true
  clean_each depth end = refl
  clean_each depth (field key v fields) =
      clean_field (is_sensitive key) (is_phone_key key) v (sanitize depth v) _ (clean depth v)
        (clean_each depth fields)

mutual
  unfolding sanitize levels

  shallow : (depth : ℕ) (v : Value) → depth ≤ 6 → levels (sanitize depth v) + depth ≤ 7
  shallow depth null h = omega (arith, h)
  shallow depth undefined h = omega (arith, h)
  shallow depth (text t) h = ground arith
  shallow depth (number n) h = ground arith
  shallow depth (boolean b) h = ground arith
  shallow depth (failure name message no_stack) h = ground arith
  shallow depth (failure name message (stack [])) h = ground arith
  shallow depth (failure name message (stack (c ∷ t))) h = ground arith
  shallow depth (array items) h = elim (Bool-cases (ltb 5 depth)) [
    | inl deep ↦ ground arith
    | inr more ↦ ground (arith, shallow_all (depth + 1) items (ground arith))
  ]
  shallow depth (object fields) h = elim (Bool-cases (ltb 5 depth)) [
    | inl deep ↦ ground arith
    | inr more ↦ ground (arith, shallow_each (depth + 1) fields (ground arith))
  ]
  shallow depth (opaque t) h = ground arith

  shallow_all :
      (depth : ℕ) (items : Items)
      → depth ≤ 6
      → levels_items (sanitize_items depth items) + depth ≤ 7
  shallow_all depth nil h = omega (arith, h)
  shallow_all depth (cons v items) h = omega (arith, shallow depth v h, shallow_all depth items h)

  shallow_each :
      (depth : ℕ) (fields : Fields)
      → depth ≤ 6
      → levels_fields (sanitize_fields depth fields) + depth ≤ 7
  shallow_each depth end h = omega (arith, h)
  shallow_each depth (field key v fields) h = omega (
    arith,
    levels_field (is_sensitive key) (is_phone_key key) v (sanitize depth v) (7 - depth)
        (omega (arith, h)) (omega (arith, shallow depth v h)),
    shallow_each depth fields h,
  )

-- What is logged of any data is clean: no error object, no value of another kind, and at any depth only
-- the mark of a redaction under a sensitive key.
pub sanitize_redacts : (v : Value) → is_clean (sanitize 0 v) ≡ true
sanitize_redacts v = clean 0 v

-- What is logged of any data has at most seven levels.
pub sanitize_shallow : (v : Value) → levels (sanitize 0 v) ≤ 7
sanitize_shallow v = omega (arith, shallow 0 v (omega arith))
