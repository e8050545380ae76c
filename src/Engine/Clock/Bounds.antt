-- ===== src/Engine/Clock/Bounds.antt =====
-- What the wall clock of engine.c reads: ranges, the advance since the last sync, rounding.
use bramka_setup.Base.{
  ℕ, ◌+◌, ◌-◌, ◌*◌, ◌/◌, ◌%◌, ◌^◌, ◌≤◌, ◌<◌, ◌≡◌, refl, true, none, some, arith, if◌then◌else◌, leb,
}
use bramka_setup.Engine.State.{Engine}
use bramka_setup.Engine.Clock.{TimeOfDay, wall_now, set_time, clear_time, round_tick}

abbrev pub seconds_of : TimeOfDay → ℕ
seconds_of t = t.hour * 3600 + t.minute * 60 + t.second

pub record IsTimeOfDay (t : TimeOfDay) : Type 0 where
  pub hour_lt : t.hour < 24
  pub minute_lt : t.minute < 60
  pub second_lt : t.second < 60

-- Whatever `wall_now` returns is a time of day: hour below 24, minute and second below 60.
pub wall_now-IsTimeOfDay :
    (e : Engine) (now : ℕ) {t : TimeOfDay} → wall_now e now ≡ some t → IsTimeOfDay t
unfolding wall_now
wall_now-IsTimeOfDay e now h = ground arith

-- With a clock callback, after a sync with one-byte values, and until the 64-bit microsecond clock
-- wraps, the wall clock reads the synced time advanced by the whole seconds passed on the
-- monotonic clock, modulo a day.
wall_now-set_time :
    (e : Engine) (now0 now hour minute second : ℕ)
    → e.clock ≡ true
    → hour < 256
    → minute < 256
    → second < 256
    → now0 ≤ now
    → now < 2 ^ 64
    → (t : TimeOfDay) × (wall_now (set_time e now0 hour minute second) now ≡ some t)
      × (seconds_of t ≡ (hour * 3600 + minute * 60 + second + (now - now0) / 1000000) % 86400)
unfolding wall_now set_time
wall_now-set_time e now0 now hour minute second c hh hm hs le lt =
    let secs = (hour * 3600 + minute * 60 + second + (now - now0) / 1000000) % 86400 in
    (
      record { hour = secs / 3600; minute = secs / 60 % 60; second = secs % 60 },
      ground arith,
      omega arith,
    )

-- A cleared time reads as no time.
pub wall_now-clear_time : (e : Engine) (now : ℕ) → wall_now (clear_time e) now ≡ none
unfolding wall_now clear_time
wall_now-clear_time e now = refl

-- The tick minute of a valid time of day is the minute itself up to second 55, and the next one
-- (modulo a day) from second 56 on.
pub round_tick_lem :
    (t : TimeOfDay)
    → IsTimeOfDay t
    → let (h, m) = round_tick t in
      h * 60 + m ≡ (t.hour * 60 + t.minute + (if leb 56 t.second then 1 else 0)) % 1440
round_tick_lem t v = ground arith
