-- ===== src/Engine/Clock.antt =====
-- engine.c, the wall clock: a time of day advanced by a monotonic microsecond clock.
-- Each operation takes the clock's reading `now` at its call.
pub mod Bounds
pub mod Alignment
use bramka_setup.Base.{
  ℕ, ◌+◌, ◌-◌, ◌*◌, ◌/◌, ◌%◌, true, false, not, ◌||◌, Option, none, some, if◌then◌else◌, u8, u32,
  u64, sub_u64,
}
use bramka_setup.Engine.State.{Engine}

pub record TimeOfDay : Type 0 where
  pub hour : ℕ
  pub minute : ℕ
  pub second : ℕ

-- `wall_now`; none for the return value false
unfoldable pub wall_now : Engine → ℕ → Option TimeOfDay
wall_now e now =
    if not e.wall.valid || not e.clock
    then none
    else some
        (record { hour = u8 (secs / 3600); minute = u8 (secs / 60 % 60); second = u8 (secs % 60) })
  where
    elapsed_s : ℕ
    elapsed_s = sub_u64 now e.wall.anchor_us / 1000000

    secs : ℕ
    secs = u32 (u64 (e.wall.base_secs + elapsed_s) % 86400)

-- `engine_set_time`
unfoldable pub set_time : Engine → ℕ → ℕ → ℕ → ℕ → Engine
set_time e now hour minute second = record e {
  wall = record {
    base_secs = u32 (hour * 3600 + minute * 60 + second);
    anchor_us = if e.clock then now else 0;
    valid = true;
  };
}

-- `engine_clear_time`
unfoldable pub clear_time : Engine → Engine
clear_time e = record e { wall = record e.wall { valid = false } }

-- `engine_ms_to_next_minute`
unfoldable pub ms_to_next_minute : Engine → ℕ → ℕ
ms_to_next_minute e now =
    if not e.wall.valid || not e.clock then 60000 else u32 (60000 - wall_ms % 60000)
  where
    wall_ms : ℕ
    wall_ms = u64 (e.wall.base_secs * 1000 + sub_u64 now e.wall.anchor_us / 1000)

abbrev pub wall_tick_bias_s : ℕ
wall_tick_bias_s = 4

abbrev pub round_tick : TimeOfDay → ℕ × ℕ
round_tick t =
    let total = u32 (t.hour * 3600 + t.minute * 60 + t.second + wall_tick_bias_s) % 86400 in
    (u8 (total / 3600), u8 (total / 60 % 60))

-- `wall_now_rounded`: hour and minute of the tick
unfoldable pub wall_now_rounded : Engine → ℕ → Option (ℕ × ℕ)
wall_now_rounded e now = elim (wall_now e now) [ none ↦ none | some t ↦ some (round_tick t) ]
