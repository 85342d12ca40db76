-- ===== src/Ai/Quota.antt =====
-- How far the daily limit of AI requests holds.
use beidar_pos.Prelude.{
  ℕ, ◌+◌, ◌-◌, ◌≤◌, String, ◌≡◌, ◌∙◌, true, false, some, List, [], ◌∷◌, arith, ◌===◌, if◌then◌else◌,
  eq_iff,
}
use beidar_pos.Store.{Storage, set_item, truthy, value}
use beidar_pos.Ai.{
  Codec, get_usage_data, increment_usage, is_ai_limit_reached, Request, limited, generate,
  begin_request, Reply, resolved, rejected, finish_request, storage_key, full_prompt,
}

-- The counts of a day are read back as they were written.
pub record IsRead (c : Codec) (today : String) : Type 0 where
  pub back : (n : ℕ) → c.parse (c.stringify today n) ≡ value (today, n)
  pub text : (n : ℕ) → truthy (some (c.stringify today n)) ≡ some (c.stringify today n)

-- The requests used of a day.
abbrev pub used : Codec → String → Storage → ℕ
used c today st = (get_usage_data c today st).count

-- A request that is answered before the next one starts: the storage, and whether a text was generated.
unfoldable pub ask : Codec → String → Request × Reply → Storage → Storage × ℕ
unfolding begin_request finish_request
ask c today (r, reply) st = elim (begin_request c today r st) [
  | limited answer ↦ (st, 0)
  | generate complexity prompt ↦ elim reply [
    | resolved text ↦ ((finish_request c today (resolved text) st).0, 1)
    | rejected msg ↦ ((finish_request c today (rejected msg) st).0, 0)
  ]
]

-- Requests one after another, with the number of texts generated.
unfoldable pub ask_all : Codec → String → List (Request × Reply) → Storage → Storage × ℕ
unfolding ask
ask_all c today [] st = (st, 0)
ask_all c today (r ∷ rest) st =
    let first : Storage × ℕ = ask c today r st in
    let more : Storage × ℕ = ask_all c today rest first.0 in (more.0, first.1 + more.1)

same_day : (today : String) → (today === today) ≡ true
same_day today = ground (arith, eq_iff today today)

used_written :
    (c : Codec) (day today : String) (n : ℕ) (st : Storage)
    → c.parse (c.stringify today n) ≡ value (today, n)
    → truthy (some (c.stringify today n)) ≡ some (c.stringify today n)
    → used c day (set_item storage_key (c.stringify today n) st) ≡ (if today === day then n else 0)
unfolding get_usage_data
used_written c day today n st back text = ground arith

module _ (c : Codec) (today : String) (read : IsRead c today) where
  used-increment : (st : Storage) → used c today (increment_usage c today st) ≡ used c today st + 1
  unfolding increment_usage
  used-increment st =
      let n = used c today st + 1 in
      used_written c today today n st (read.back n) (read.text n) ∙ (rw (same_day today))

  used-ask :
      (r : Request × Reply) (st : Storage)
      → (used c today (ask c today r st).0 ≡ used c today st + (ask c today r st).1)
        × ((ask c today r st).1 ≤ 1)
        × ((ask c today r st).1 ≤ 20 - used c today st)
  unfolding ask begin_request is_ai_limit_reached finish_request
  used-ask (r, resolved text) st = ground (arith, used-increment st)
  used-ask (r, rejected msg) st = ground arith

  -- If the counts of the day are read back as they were written, requests that follow one another generate at
  -- most what is left of the day's 20, and the count grows by exactly what was generated.
  pub quota_holds :
      (requests : List (Request × Reply)) (st : Storage)
      → let (st', texts) = ask_all c today requests st in
        (used c today st' ≡ used c today st + texts) × (texts ≤ 20 - used c today st)
  unfolding ask_all
  quota_holds [] st = omega arith
  quota_holds (r ∷ rest) st =
      let (counted, one, left) = used-ask r st in
      let (more, bound) = quota_holds rest (ask c today r st).0 in
      omega (arith, counted, one, left, more, bound)

  -- Requests that overlap are not held, if the counts of the day are read back as they were written: with
  -- one request left, two that start before either is answered are both sent, and after both succeed the
  -- count is 21.
  pub overlapping_exceed :
      (r r' : Request) (t t' : String) (st : Storage)
      → used c today st ≡ 19
      → (begin_request c today r st ≡ generate r.complexity (full_prompt r))
        × (begin_request c today r' st ≡ generate r'.complexity (full_prompt r'))
        × (used c today
              (finish_request c today (resolved t') (finish_request c today (resolved t) st).0).0
            ≡ 21)
  unfolding begin_request is_ai_limit_reached finish_request
  overlapping_exceed r r' t t' st h =
      ground (arith, used-increment st, used-increment (increment_usage c today st))

-- On another day nothing is used, whatever was stored, if the count is read back as it was written.
pub new_day_is_free :
    (c : Codec) (today tomorrow : String) (st : Storage)
    → IsRead c today
    → (today === tomorrow) ≡ false
    → used c tomorrow (increment_usage c today st) ≡ 0
unfolding increment_usage
new_day_is_free c today tomorrow st read n =
    let m = used c today st + 1 in
    used_written c tomorrow today m st (read.back m) (read.text m) ∙ rw n
