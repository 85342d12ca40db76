-- ===== src/Logger.antt =====
-- The centralized logger: frontend/src/core/logger.ts. Data is a tree of JavaScript values, and texts and
-- keys are lists of UTF-16 code units.
mod Tests
pub mod Mask
pub mod Redact
pub mod Buffer
use Prim.Native.Char.{code}
use beidar_pos.Prelude.{
  ℕ, zero, suc, ◌+◌, ◌-◌, String, Bool, true, false, not, ◌&&◌, ◌||◌, Option, none, some, List, [],
  ◌∷◌, ◌++◌, map, ltb, leb, ◌==◌, if◌then◌else◌, length, any,
}
use beidar_pos.Prelude.Int.{ℤ}
use beidar_pos.Logger.Mask.{Text, mask_phone, replace_phones}

-- The code units of a text whose characters have one each.
abbrev pub codes : String → Text
codes String.[] = []
codes (String.◌∷◌ c s) = code c ∷ codes s

-- What `sanitizeLogData` tells apart. Any other value is `opaque`, with what `String` makes of it.
mutual
  pub data Value : Type 0 where
    null undefined : Value
    text : Text → Value
    number : ℤ → Value
    boolean : Bool → Value
    failure : Text → Text → Stack → Value
    array : Items → Value
    object : Fields → Value
    opaque : Text → Value

  -- The stack of an `Error`: it may be missing.
  pub data Stack : Type 0 where
    no_stack : Stack
    stack : Text → Stack

  pub data Items : Type 0 where
    nil : Items
    cons : Value → Items → Items

  pub data Fields : Type 0 where
    end : Fields
    field : Text → Value → Fields → Fields

lower : ℕ → ℕ
lower c = if leb b'A' c && leb c b'Z' then c + 32 else c

abbrev pub same_text : Text → Text → Bool
same_text [] [] = true
same_text [] (d ∷ t) = false
same_text (c ∷ s) [] = false
same_text (c ∷ s) (d ∷ t) = c == d && same_text s t

abbrev begins : Text → Text → Bool
begins [] s = true
begins (c ∷ p) [] = false
begins (c ∷ p) (d ∷ s) = c == d && begins p s

abbrev contains : Text → Text → Bool
contains p [] = begins p []
contains p (c ∷ s) = begins p (c ∷ s) || contains p s

abbrev sensitive_keys : List Text
sensitive_keys =
    codes "pin"
    ∷ codes "password"
    ∷ codes "secret"
    ∷ codes "token"
    ∷ codes "apikey"
    ∷ codes "authorization"
    ∷ codes "privatekey"
    ∷ codes "accesstoken"
    ∷ codes "refreshtoken"
    ∷ []

-- `SENSITIVE_KEY_REGEX.test(key)`: one of the words, in any case.
unfoldable pub is_sensitive : Text → Bool
unfolding lower
is_sensitive key = any (same_text (map lower key)) sensitive_keys

-- `/(phone|mobile)/i.test(key)`
unfoldable pub is_phone_key : Text → Bool
unfolding lower
is_phone_key key =
    contains (codes "phone") (map lower key) || contains (codes "mobile") (map lower key)

abbrev pub redacted : Value
redacted = text (codes "[REDACTED]")

abbrev pub nested_object : Value
nested_object = text (codes "[NESTED_OBJECT]")

-- A value under a key: masked if the key names a phone and the value is a text, and otherwise what the
-- recursive call makes of it.
abbrev pub masked_or : Bool → Value → Value → Value
masked_or true (text t) clean = text (mask_phone t)
masked_or _ v clean = clean

-- A text at a depth: the recursive call on it.
abbrev pub text_at : ℕ → Text → Value
text_at depth t = if ltb 5 depth then nested_object else text (replace_phones t)

-- `data.stack ? sanitizeLogData(data.stack, depth + 1) : undefined`
abbrev pub stack_at : ℕ → Stack → Value
stack_at depth no_stack = undefined
stack_at depth (stack []) = undefined
stack_at depth (stack (c ∷ t)) = text_at depth (c ∷ t)

unfoldable mutual
  -- `sanitizeLogData`
  pub sanitize : ℕ → Value → Value
  sanitize depth null = null
  sanitize depth undefined = undefined
  sanitize depth (text t) = text_at depth t
  sanitize depth (number n) = if ltb 5 depth then nested_object else number n
  sanitize depth (boolean b) = if ltb 5 depth then nested_object else boolean b
  sanitize depth (failure name message trace) =
      if ltb 5 depth
      then nested_object
      else object (
          field (codes "name") (text name) (
            field (codes "message") (text_at (depth + 1) message)
              (field (codes "stack") (stack_at (depth + 1) trace) end)))
  sanitize depth (array items) =
      let clean = sanitize_items (depth + 1) items in
      if ltb 5 depth then nested_object else array clean
  sanitize depth (object fields) =
      let clean = sanitize_fields (depth + 1) fields in
      if ltb 5 depth then nested_object else object clean
  sanitize depth (opaque t) = if ltb 5 depth then nested_object else text t

  pub sanitize_items : ℕ → Items → Items
  sanitize_items depth nil = nil
  sanitize_items depth (cons v items) = cons (sanitize depth v) (sanitize_items depth items)

  pub sanitize_fields : ℕ → Fields → Fields
  sanitize_fields depth end = end
  sanitize_fields depth (field key v fields) =
      field key
        (if is_sensitive key then redacted else masked_or (is_phone_key key) v (sanitize depth v))
        (sanitize_fields depth fields)

pub data Level : Type 0 where
  debug info warn error : Level

pub record Entry : Type 0 where
  pub level : Level
  pub message : Text
  pub timestamp : ℕ
  pub data_of : Value
  pub context : Option Text

abbrev pub max_buffer_size : ℕ
max_buffer_size = 100

abbrev pub shift : List Entry → List Entry
shift [] = []
shift (e ∷ entries) = entries

unfoldable pub add_to_buffer : Entry → List Entry → List Entry
add_to_buffer entry buffer =
    let pushed = buffer ++ (entry ∷ []) in
    if ltb max_buffer_size (length pushed) then shift pushed else pushed

abbrev is_loud : Level → Bool
is_loud warn = true
is_loud error = true
is_loud _ = false

-- What `log` leaves in the buffer for later.
unfoldable pub entry_of : Level → Text → ℕ → Value → Option Text → Entry
unfolding sanitize
entry_of level message now v context = record {
  level = level;
  message = replace_phones message;
  timestamp = now;
  data_of = sanitize 0 v;
  context = context;
}

-- `log`: the new buffer, and the entry that goes to the console, if one does. A missing `data` is
-- `undefined`.
unfoldable pub log :
    Bool → Level → Text → ℕ → Value → Option Text → List Entry → List Entry × Option Entry
unfolding entry_of add_to_buffer
log in_production level message now v context buffer =
    let entry = entry_of level message now v context in
    (add_to_buffer entry buffer, if in_production && not (is_loud level) then none else some entry)

-- `clearLogs`
abbrev pub clear_logs : List Entry → List Entry
clear_logs buffer = []
