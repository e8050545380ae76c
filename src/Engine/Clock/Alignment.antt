-- ===== src/Engine/Clock/Alignment.antt =====
-- `engine_ms_to_next_minute` of engine.c aims at the minute boundary.
use bramka_setup.Base.{ℕ, ◌+◌, ◌-◌, ◌*◌, ◌/◌, ◌%◌, ◌^◌, ◌≤◌, ◌<◌, ◌≡◌, true, some, arith}
use bramka_setup.Engine.State.{Engine}
use bramka_setup.Engine.Clock.{TimeOfDay, wall_now, ms_to_next_minute}

-- The wait lies between 1 and 60000 ms.
pub ms_to_next_minute_bounds :
    (e : Engine) (now : ℕ) → (1 ≤ ms_to_next_minute e now) × (ms_to_next_minute e now ≤ 60000)
unfolding ms_to_next_minute
ms_to_next_minute_bounds e now = ground arith

-- With a clock callback and a valid time, set at or before now, and where the 64-bit clock does
-- not wrap during the wait, the wall clock stands at second 0 once the wait has passed.
ms_to_next_minute_aligned :
    (e : Engine) (now : ℕ)
    → e.clock ≡ true
    → e.wall.valid ≡ true
    → e.wall.base_secs < 2 ^ 32
    → e.wall.anchor_us ≤ now
    → now + ms_to_next_minute e now * 1000 < 2 ^ 64
    → (t : TimeOfDay) × (wall_now e (now + ms_to_next_minute e now * 1000) ≡ some t)
      × (t.second ≡ 0)
unfolding wall_now ms_to_next_minute
ms_to_next_minute_aligned e now c v hb ha hn =
    let later : ℕ = now + ms_to_next_minute e now * 1000 in
    let secs : ℕ = (e.wall.base_secs + (later - e.wall.anchor_us) / 1000000) % 86400 in
    (
      record { hour = secs / 3600; minute = secs / 60 % 60; second = secs % 60 },
      ground arith,
      ground arith,
    )
