-- ===== src/Ai.antt =====
-- The daily quota of AI requests: frontend/src/core/ai.ts. Today's date is an argument, the same for all steps
-- of a request; a request that awaits the backend is two functions.
mod Tests
pub mod Quota
use Prim.Native.String.{◌++◌, slice, len}
use Prim.Native.Nat.{min}
use text.Mathlib.Text.{find?}
use beidar_pos.Prelude.{
  ℕ, ◌+◌, String, Bool, true, false, not, ◌||◌, Option, none, some, leb, ◌===◌, if◌then◌else◌,
  is_some,
}
use beidar_pos.Store.{Storage, set_item, truthy, Parsed, throws, other, value}

abbrev pub daily_ai_limit : ℕ
daily_ai_limit = 20

abbrev pub storage_key : String
storage_key = "ai_usage_tracking"

pub record AiUsageData : Type 0 where
  pub date : String
  pub count : ℕ

-- `JSON` at a date and a count.
pub record Codec : Type 0 where
  pub stringify : String → ℕ → String
  pub parse : String → Parsed (String × ℕ)

unfoldable pub get_usage_data : Codec → String → Storage → AiUsageData
get_usage_data c today st = elim (truthy (st storage_key)) [
  | none ↦ record { date = today; count = 0 }
  | some text ↦ elim (c.parse text) [
    | throws ↦ record { date = today; count = 0 }
    | other ↦ record { date = today; count = 0 }
    | value (date, count) ↦
        if not (date === today)
        then record { date = today; count = 0 }
        else record { date = date; count = count }
  ]
]

unfoldable pub increment_usage : Codec → String → Storage → Storage
unfolding get_usage_data
increment_usage c today st =
    set_item storage_key (c.stringify today ((get_usage_data c today st).count + 1)) st

unfoldable pub is_ai_limit_reached : Codec → String → Storage → Bool
unfolding get_usage_data
is_ai_limit_reached c today st = leb daily_ai_limit (get_usage_data c today st).count

pub data Complexity : Type 0 where
  basic complex : Complexity

pub record Request : Type 0 where
  pub complexity : Complexity
  pub prompt : String
  pub system_instruction : Option String

-- What a request gives: a text of the backend, or one of the five apologies of the source, the last with the
-- start of the error's message.
pub data Answer : Type 0 where
  generated : String → Answer
  daily_limit api_quota no_connection bad_key : Answer
  failed : String → Answer

-- A request is refused at once, or calls the generator of its complexity with a prompt.
pub data Begun : Type 0 where
  limited : Answer → Begun
  generate : Complexity → String → Begun

abbrev pub full_prompt : Request → String
full_prompt r = elim (truthy r.system_instruction) [
  | none ↦ r.prompt
  | some instruction ↦ instruction ++ ("\n\n---\nUser Request: " ++ r.prompt)
]

-- `executeAIRequest` up to the call.
unfoldable pub begin_request : Codec → String → Request → Storage → Begun
unfolding is_ai_limit_reached
begin_request c today r st =
    if is_ai_limit_reached c today st
    then limited daily_limit
    else generate r.complexity (full_prompt r)

-- The call gives a text or fails with a message.
pub data Reply : Type 0 where
  resolved : String → Reply
  rejected : String → Reply

abbrev includes : String → String → Bool
includes text part = is_some (find? text part)

-- The apology for an error, by its message.
unfoldable pub apology : String → Answer
apology msg =
    if includes msg "daily_limit_exceeded"
    then daily_limit
    else if includes msg "429"
        || (includes msg "RESOURCE_EXHAUSTED" || (includes msg "quota" || includes msg "exceeded"))
    then api_quota
    else if includes msg "connection_failed" || (includes msg "network" || includes msg "timeout")
    then no_connection
    else if includes msg "API key"
        || (includes msg "invalid" || (includes msg "401" || includes msg "403"))
    then bad_key
    else failed (slice msg 0 (min 100 (len msg)))

-- The rest of `executeAIRequest`: only a success counts.
unfoldable pub finish_request : Codec → String → Reply → Storage → Storage × Answer
unfolding increment_usage apology
finish_request c today (resolved text) st = (increment_usage c today st, generated text)
finish_request c today (rejected msg) st = (st, apology msg)
