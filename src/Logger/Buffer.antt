-- ===== src/Logger/Buffer.antt =====
-- The buffer of the latest log entries.
use beidar_pos.Prelude.{
  ℕ, zero, suc, ◌-◌, ◌≤◌, ◌≡◌, refl, sym, ap, ◌∙◌, true, false, List, [], ◌∷◌, ◌++◌, arith, ltb,
  if◌then◌else◌, inl, inr, Bool-cases, length, drop, length-append, length-drop,
}
use beidar_pos.Logger.{Entry, add_to_buffer, max_buffer_size, shift}

-- The latest `n` entries.
abbrev pub latest : ℕ → List Entry → List Entry
latest n entries = drop (length entries - n) entries

-- The buffer after some entries, oldest first.
unfoldable pub buffered : List Entry → List Entry → List Entry
unfolding add_to_buffer
buffered [] buffer = buffer
buffered (e ∷ entries) buffer = buffered entries (add_to_buffer e buffer)

drop-append : (k : ℕ) (xs ys : List Entry) → k ≤ length xs → drop k (xs ++ ys) ≡ drop k xs ++ ys
drop-append zero xs ys h = refl
drop-append (suc k) [] ys h = ground arith
drop-append (suc k) (x ∷ xs) ys h = drop-append k xs ys (omega (arith, h))

shift-drop : (k : ℕ) (xs : List Entry) → shift (drop k xs) ≡ drop (suc k) xs
shift-drop zero [] = refl
shift-drop zero (x ∷ xs) = refl
shift-drop (suc k) [] = refl
shift-drop (suc k) (x ∷ xs) = shift-drop k xs

append_assoc : (xs ys zs : List Entry) → (xs ++ ys) ++ zs ≡ xs ++ (ys ++ zs)
append_assoc [] ys zs = refl
append_assoc (x ∷ xs) ys zs = ap (λ t. x ∷ t) (append_assoc xs ys zs)

append_nil : (xs : List Entry) → xs ++ [] ≡ xs
append_nil [] = refl
append_nil (x ∷ xs) = ap (λ t. x ∷ t) (append_nil xs)

-- A list that is one longer than `n`, without the oldest `n - 100`, is cut to the latest 100.
cut :
    (n : ℕ) (q : List Entry)
    → length q ≡ suc n
    → (let old = drop (n - 100) q in if ltb 100 (length old) then shift old else old) ≡ latest 100 q
cut n q h = elim (Bool-cases (ltb 99 n)) [
  | inl full ↦ ground (arith, length-drop (n - 100) q, shift-drop (n - 100) q, index_full n full)
  | inr room ↦ ground (arith, length-drop (n - 100) q, index_room n room)
]
  where
    index_full : (n : ℕ) → ltb 99 n ≡ true → suc (n - 100) ≡ suc n - 100
    index_full n full = ground arith

    index_room : (n : ℕ) → ltb 99 n ≡ false → n - 100 ≡ suc n - 100
    index_room n room = ground arith

add_latest :
    (e : Entry) (old : List Entry)
    → add_to_buffer e (latest max_buffer_size old) ≡ latest max_buffer_size (old ++ (e ∷ []))
unfolding add_to_buffer
add_latest e old =
    ap (λ b. if ltb 100 (length b) then shift b else b)
      (sym (drop-append (length old - 100) old (e ∷ []) (omega arith)))
    ∙ cut (length old) (old ++ (e ∷ [])) (omega (arith, length-append old (e ∷ [])))

buffered-latest :
    (old entries : List Entry)
    → buffered entries (latest max_buffer_size old) ≡ latest max_buffer_size (old ++ entries)
unfolding buffered
buffered-latest old [] = ap (latest max_buffer_size) (sym (append_nil old))
buffered-latest old (e ∷ entries) =
    ap (buffered entries) (add_latest e old)
    ∙ buffered-latest (old ++ (e ∷ [])) entries
    ∙ ap (latest max_buffer_size) (append_assoc old (e ∷ []) entries)

-- Logging some entries from an empty buffer leaves the latest hundred of them, oldest first.
pub buffer_keeps_latest :
    (entries : List Entry) → buffered entries [] ≡ latest max_buffer_size entries
buffer_keeps_latest entries = buffered-latest [] entries
