-- ===== src/Tests/Converter.antt =====
-- The converter's theorem on a concrete device.
use bramka_setup.Base.{
  leb, not, none, ◌&&◌, ap, ℕ, ◌+◌, ◌/◌, ◌%◌, ◌≡◌, refl, arith, Bool, true, false, Option, some, [],
  ◌∷◌, Bytes, byte, replicate, if◌then◌else◌, ◌==◌,
}
use bramka_setup.Control.Adc.{Device, Adc, read_temperature}
use bramka_setup.Control.Adc.Channels.{IsConverter, signed, values_from, read_temperature_lem}

-- the codes around the change of sign
abbrev code : ℕ → ℕ
code c = (0x7ffffe + c) % 0x1000000

-- The selected channel, whether SYNC has stopped the conversions, whether WAKEUP has started them
-- on that channel, the microseconds since then, and the channel that RDATA has fetched.
record Chip : Type 0 where
  mux : ℕ
  stopped : Bool
  anew : Bool
  since : ℕ
  fetched : Option ℕ

abbrev answer : Option ℕ → Bytes
answer none = replicate 3 0
answer (some c) = code c / 65536 ∷ (code c / 256) % 256 ∷ code c % 256 ∷ []

-- A conversion takes three microseconds; RDATA before its end fetches nothing.
abbrev transfer : Bytes → Chip → Option Bytes × Chip
transfer out d =
    if byte out 0 == 0x51
    then (some (replicate 3 0), record d { mux = byte out 2 / 16; anew = false })
    else if byte out 0 == 1
    then (
      some (0 ∷ []),
      record d { fetched = if leb 3 d.since && d.anew then some d.mux else none },
    )
    else if byte out 0 == 0xfc
    then (some (0 ∷ []), record d { stopped = true })
    else if byte out 0 == 0
    then (some (0 ∷ []), record d { stopped = false; anew = d.stopped; since = 0 })
    else (some (answer d.fetched), d)

abbrev chip : Device Chip
chip = record {
  transfer = transfer;
  ready = λ d. not d.stopped && leb 3 d.since;
  wait = λ n d. record d { since = d.since + n };
  reset = λ d. d;
}

chip-IsConverter : IsConverter Chip chip code 4
chip-IsConverter = record {
  mux = λ d. d.mux;
  stopped = λ d. d.stopped;
  anew = λ d. d.anew;
  fetched = λ d. d.fetched;
  ready_soon = λ d st. (3, omega arith, ground (arith, st));
  wait_keeps = λ n d. (refl, refl, refl, refl);
  selects = λ c d h. omega arith;
  stops = λ d. (refl, refl);
  restarts = λ d st. (refl, refl, st);
  fetches = λ d r st n. (ground (arith, r, n), st);
  answers = λ c d f. (ap (λ o. some (answer o)) f, refl);
}

abbrev start : Adc Chip
start = record {
  device = record { mux = 5; stopped = false; anew = false; since = 1; fetched = none };
  tx = replicate 6 0;
  rx = replicate 6 0;
}

read_temperature_lem_example :
    (s' : Adc Chip) × (read_temperature chip (λ i v. i + v) 4 start
      ≡ some (values_from (λ i. i + signed (code i)) 0 8, s'))
unfolding chip-IsConverter
read_temperature_lem_example =
    read_temperature_lem chip code 4 chip-IsConverter (λ i v. i + v) 4 start (omega arith)
      (omega arith) (λ i h. omega arith) refl
