-- ===== src/Ai/Tests.antt =====
-- The quota of ai.ts at a codec that writes a count in ones.
use beidar_pos.Prelude.{
  ℕ, zero, suc, ◌+◌, ◌-◌, ◌≤◌, String, ◌≡◌, refl, ap, none, some, [], ◌∷◌, arith, eq_iff, ◌===◌,
  if◌then◌else◌,
}
use beidar_pos.Store.{Storage, value, truthy}
use beidar_pos.Ai.{
  Codec, Request, basic, resolved, rejected, get_usage_data, storage_key, apology, api_quota,
}
use beidar_pos.Ai.Quota.{IsRead, used, ask_all, quota_holds}

abbrev ones : ℕ → String
ones zero = "."
ones (suc n) = String.◌∷◌ "1" (ones n)

abbrev size : String → ℕ
size String.[] = 0
size (String.◌∷◌ c s) = suc (size s)

abbrev pred : ℕ → ℕ
pred zero = 0
pred (suc n) = n

abbrev codec : Codec
codec = record {
  stringify = λ today n. ones n;
  parse = λ text. value ("2025-01-01", pred (size text));
}

size-ones : (n : ℕ) → size (ones n) ≡ suc n
size-ones zero = refl
size-ones (suc n) = ap suc (size-ones n)

size_empty : (s : String) → s ≡ "" → size s ≡ 0
size_empty s e = ap size e

ones-truthy : (n : ℕ) → truthy (some (ones n)) ≡ some (ones n)
ones-truthy n = ground (arith, eq_iff (ones n) "", size-ones n, size_empty (ones n))

codec-reads : IsRead codec "2025-01-01"
codec-reads = record {
  back = λ n. ap (λ k. value ("2025-01-01", pred k)) (size-ones n);
  text = ones-truthy;
}

abbrev request : Request
request = record { complexity = basic; prompt = "describe tea"; system_instruction = none }

-- 19 requests are used.
abbrev busy : Storage
busy key = if key === storage_key then some (ones 19) else none

count_at_start : used codec "2025-01-01" busy ≡ 19
unfolding get_usage_data
count_at_start = refl

quota_error : apology "error 429" ≡ api_quota
unfolding apology
quota_error = refl

quota_holds_example :
    let (st', texts) =
      ask_all codec "2025-01-01"
        ((request, resolved "a") ∷ (request, rejected "b") ∷ (request, resolved "c") ∷ [])
        busy in
    (used codec "2025-01-01" st' ≡ used codec "2025-01-01" busy + texts)
    × (texts ≤ 20 - used codec "2025-01-01" busy)
quota_holds_example =
    quota_holds codec "2025-01-01" codec-reads
      ((request, resolved "a") ∷ (request, rejected "b") ∷ (request, resolved "c") ∷ []) busy
