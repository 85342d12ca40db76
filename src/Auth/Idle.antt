-- ===== src/Auth/Idle.antt =====
-- The idle logout of AuthContext.tsx, from the last activity to the check of a minute.
use beidar_pos.Prelude.{
  ℕ, ◌+◌, ◌*◌, ◌-◌, ◌/◌, ◌≤◌, ◌<◌, ◌≡◌, true, false, none, some, arith, leb, if◌then◌else◌, is_some,
  Bool-cases, inl, inr,
}
use beidar_pos.Prelude.Int.{pos, ◌-ℤ◌, floor_div, -ℤ_parts}
use beidar_pos.Auth.{
  Codec, IsRead, AuthState, extend_session, check_idle, remaining, tick, last_activity_key,
}

sub_pos : (a b : ℕ) → b ≤ a → pos a -ℤ pos b ≡ pos (a - b)
unfolding ◌-ℤ◌
sub_pos a b h = ground arith

module _ (c : Codec) where
  remaining_after :
      (last now minutes : ℕ) (s : AuthState)
      → IsRead c last
      → s.storage last_activity_key ≡ some (c.number_to_string last)
      → s.idle_timeout ≡ pos minutes
      → last ≤ now
      → remaining c now s ≡ some (pos minutes -ℤ pos ((now - last) / 60_000))
  unfolding remaining floor_div
  remaining_after last now minutes s read stored m h =
      ground (arith, read.number_text, read.number_back, sub_pos now last h)

  -- If its time is read back as it was written: at the check of a minute, a user whose last activity was
  -- recorded is logged out exactly when at least the timeout has passed since, to the millisecond.
  pub idle_logout :
      (last now minutes : ℕ) (s : AuthState)
      → IsRead c last
      → s.storage last_activity_key ≡ some (c.number_to_string last)
      → s.idle_timeout ≡ pos minutes
      → 0 < minutes
      → last ≤ now
      → (tick c now s).current_user
        ≡ (if leb (minutes * 60_000) (now - last) then none else s.current_user)
  unfolding tick check_idle
  idle_logout last now minutes s read stored m p h = ground (
    arith,
    remaining_after last now minutes s read stored m h,
    -ℤ_parts (pos minutes) (pos ((now - last) / 60_000)),
  )

  -- Before that, if its time is read back as it was written, the check shows the warning in the last five
  -- minutes of the timeout, and leaves it as it was earlier.
  pub idle_warning :
      (last now minutes : ℕ) (s : AuthState)
      → IsRead c last
      → s.storage last_activity_key ≡ some (c.number_to_string last)
      → s.idle_timeout ≡ pos minutes
      → is_some s.current_user ≡ true
      → last ≤ now
      → now < last + minutes * 60_000
      → (tick c now s).session_timeout_warning
        ≡ (if leb minutes ((now - last) / 60_000 + 5) then true else s.session_timeout_warning)
  unfolding tick check_idle
  idle_warning last now minutes s read stored m u h alive = ground (
    arith,
    remaining_after last now minutes s read stored m h,
    -ℤ_parts (pos minutes) (pos ((now - last) / 60_000)),
  )

  extend_absent :
      (at : ℕ) (s : AuthState) → is_some s.current_user ≡ false → extend_session c at s ≡ s
  unfolding extend_session
  extend_absent at s h = rw h

  tick_absent : (now : ℕ) (s : AuthState) → is_some s.current_user ≡ false → tick c now s ≡ s
  unfolding tick
  tick_absent now s h = rw h

  -- If its time is read back as it was written, activity starts the timeout anew: a check before the whole
  -- timeout has passed since keeps the user.
  pub activity_keeps :
      (at now minutes : ℕ) (s : AuthState)
      → IsRead c at
      → s.idle_timeout ≡ pos minutes
      → at ≤ now
      → now < at + minutes * 60_000
      → (tick c now (extend_session c at s)).current_user ≡ s.current_user
  unfolding extend_session
  activity_keeps at now minutes s read m h alive = elim (Bool-cases (is_some s.current_user)) [
    | inl present ↦ ground (arith, idle_logout at now minutes (extend_session c at s) read)
    | inr absent ↦ rw (extend_absent at s absent, tick_absent now s absent)
  ]
