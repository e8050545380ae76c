-- ===== src/Tests/Gauges.antt =====
-- The theorems about the gauge and the converter of the battery, on concrete ones.
use bramka_setup.Base.{
  ◌≢◌, ◌-◌, ℕ, ◌⊎◌, zero, suc, ◌≤◌, ◌+◌, ◌*◌, ◌/◌, ◌%◌, ◌<◌, ◌≡◌, refl, ap, ap₂, ◌∙◌, arith, Bool,
  true, false, ◌&&◌, Option, some, none, [], ◌∷◌, Bytes, byte, if◌then◌else◌, ◌==◌,
}
use bramka_setup.Sensor.Mcp3421.{is_ready, raw_of, mcp3421_read_batt_mv}
use bramka_setup.Sensor.Mcp3421.Average.{IsCell, sum_from, mcp3421_read_batt_mv_lem}
use bramka_setup.Sensor.Gauge.{I2c, sensors_commission, design_cap_mah}
use bramka_setup.Sensor.Gauge.Manual.{View, Keeps, IsGauge}
use bramka_setup.Sensor.Gauge.Commissioning.{commission_lem}

record Chip : Type 0 where
  cap : ℕ
  op : ℕ
  sealed : Bool
  mac : Bytes
  sum : ℕ

-- SEAL, and the second key after the first
abbrev opens : Bool → Bytes → Bytes → Bool
opens false old (x ∷ y ∷ []) = x == 0x20 && y == 0
opens false old new = false
opens true (a ∷ b ∷ []) (x ∷ y ∷ []) =
    if a == 4 && b == 0x14 && x == 0x36 && y == 0x72 then false else true
opens true old new = true

-- MACDataLen
abbrev store : ℕ → ℕ → Bool → Bytes → ℕ → ℕ → Chip
store cap op false (a ∷ b ∷ x ∷ []) sum n = record {
  cap = cap;
  op = if a == 0xb1 && b == 0x41 && n == 5 && (a + b + x + sum) % 256 == 255 then x else op;
  sealed = false;
  mac = a ∷ b ∷ x ∷ [];
  sum = sum;
}
store cap op false (a ∷ b ∷ x ∷ y ∷ []) sum n = record {
  cap =
      if a == 0xfe && b == 0x41 && n == 6 && (a + b + x + y + sum) % 256 == 255
      then x * 256 + y
      else cap;
  op = op;
  sealed = false;
  mac = a ∷ b ∷ x ∷ y ∷ [];
  sum = sum;
}
store cap op s m sum n = record { cap = cap; op = op; sealed = s; mac = m; sum = sum }

abbrev answer : ℕ → Bytes → Chip → Option Bytes × Chip
answer reg data_ d =
    if reg == 0x3c
    then (some (d.cap % 256 ∷ d.cap / 256 ∷ []), d)
    else if reg == 0x3e
    then (
      some [],
      record {
        cap = d.cap;
        op = d.op;
        sealed = opens d.sealed d.mac data_;
        mac = data_;
        sum = d.sum;
      },
    )
    else if reg == 0x40
    then (some (d.op ∷ []), d)
    else if reg == 0x60
    then (
      some [],
      record { cap = d.cap; op = d.op; sealed = d.sealed; mac = d.mac; sum = byte data_ 0 },
    )
    else if reg == 0x61
    then (some [], store d.cap d.op d.sealed d.mac d.sum (byte data_ 0))
    else (some (0 ∷ (if d.sealed then 96 else 0) ∷ []), d)

abbrev transfer : ℕ → Bytes → ℕ → Chip → Option Bytes × Chip
transfer addr [] n d = (none, d)
transfer addr (reg ∷ data_) n d = answer reg data_ d

abbrev bus : I2c Chip
bus = record { transfer = transfer; sleep = λ n d. d }

abbrev seen : View Chip
seen = record {
  cap = λ d. d.cap;
  op = λ d. d.op;
  sealed = λ d. d.sealed;
  mac = λ d. d.mac;
  sum = λ d. d.sum;
}

same : (d : Chip) → Keeps Chip seen d d
same d = record { cap = refl; op = refl; unsealed = λ u. u }

status : (s : Bool) → let hi : ℕ = if s then 96 else 0 in (hi < 128) × (s ≡ true → hi / 32 ≡ 3)
status true = (omega arith, λ e. refl)
status false = (omega arith, λ e. absurd (ground arith))

keyed : (s : Bool) → opens s (4 ∷ 0x14 ∷ []) (0x36 ∷ 0x72 ∷ []) ≡ false
keyed true = refl
keyed false = refl

open_stays :
    (s : Bool) (old : Bytes) (lo : ℕ) (data_ : Bytes)
    → s ≡ false
    → opens s old (lo ∷ 0x41 ∷ data_) ≡ false
open_stays true old lo data_ e = absurd (ground arith)
open_stays false old lo [] e = ground arith
open_stays false old lo (x ∷ xs) e = refl

key_stays :
    (s : Bool) (old : Bytes) (x y : ℕ) → x ≢ 0x20 → s ≡ false → opens s old (x ∷ y ∷ []) ≡ false
key_stays true old x y k e = absurd (ground arith)
key_stays false old x y k e = ground (arith, k)

bus-IsGauge : IsGauge Chip bus seen
bus-IsGauge = record {
  cap_read = λ d. refl;
  cap_keeps = λ d. same d;
  status_read = λ d. (
    0,
    (if d.sealed then 96 else 0),
    refl,
    omega arith,
    (status d.sealed).0,
    (status d.sealed).1,
  );
  status_keeps = λ d. same d;
  sleep_keeps = λ n d. (same d, refl);
  mac_taken = λ blk d. refl;
  flash_keeps =
      λ lo data_ d. record { cap = refl; op = refl; unsealed = open_stays d.sealed d.mac lo data_ };
  key1_keeps = λ d. record {
    cap = refl;
    op = refl;
    unsealed = key_stays d.sealed d.mac 4 0x14 (λ e. omega (arith, e));
  };
  key2_keeps = λ d. record {
    cap = refl;
    op = refl;
    unsealed = key_stays d.sealed d.mac 0x36 0x72 (λ e. omega (arith, e));
  };
  mac_heard = λ blk d. refl;
  keys = λ d e. ap (λ m. opens d.sealed m (0x36 ∷ 0x72 ∷ [])) e ∙ keyed d.sealed;
  op_read = λ d e. refl;
  op_keeps = λ d. same d;
  sum_taken = λ c d. refl;
  sum_keeps = λ c d. record { cap = refl; op = refl; unsealed = λ u. u };
  sum_heard = λ c d. (refl, refl);
  len_taken = λ n d. refl;
  stores_op = λ x d u m c.
      let r = ap₂ (λ s b. store d.cap d.op s b d.sum 5) u m in
      (ap (λ z. z.op) r ∙ ground (arith, c), ap (λ z. z.cap) r, ap (λ z. z.sealed) r);
  stores_cap = λ hi lo d u m c.
      let r = ap₂ (λ s b. store d.cap d.op s b d.sum 6) u m in
      (ap (λ z. z.cap) r ∙ ground (arith, c), ap (λ z. z.op) r, ap (λ z. z.sealed) r);
}

-- a sealed gauge in another mode
abbrev fresh : Chip
fresh = record { cap = 2200; op = 0x8d; sealed = true; mac = []; sum = 0 }

commission_lem_example :
    let r = sensors_commission bus fresh in
    (r.0 ≡ true) × (r.1.cap ≡ design_cap_mah) × (r.1.op ≡ 0x8c)
commission_lem_example = commission_lem bus seen bus-IsGauge fresh

-- the converter of the battery: the conversions started, and the time that the last one still takes
abbrev result : ℕ → Bytes
result n = 0xff ∷ 0xff ∷ n % 256 ∷ 0x0c ∷ []

abbrev poll : ℕ → ℕ → Option Bytes × (ℕ × ℕ)
poll k zero = (some (result k), (k, 0))
poll k (suc l) = (some (0 ∷ 0 ∷ 0 ∷ 0x8c ∷ []), (k, suc l))

abbrev cell_transfer : ℕ → Bytes → ℕ → ℕ × ℕ → Option Bytes × (ℕ × ℕ)
cell_transfer addr [] n d = poll d.0 d.1
cell_transfer addr (b ∷ bs) n d = (some [], (suc d.0, 267))

abbrev cell : I2c (ℕ × ℕ)
cell = record { transfer = cell_transfer; sleep = λ n d. (d.0, d.1 - n) }

cell_working :
    (k l : ℕ)
    → 0 < l
    → (rd : Bytes) × (d' : ℕ × ℕ) × (poll k l ≡ (some rd, d'))
      × (is_ready rd ≡ false)
      × (d'.0 ≡ k)
      × (d'.1 ≡ l)
cell_working k zero p = absurd (omega arith)
cell_working k (suc l) p = (0 ∷ 0 ∷ 0 ∷ 0x8c ∷ [], (k, suc l), refl, refl, refl, refl)

cell_done : (k l : ℕ) → l ≡ 0 → (d' : ℕ × ℕ) × (poll k l ≡ (some (result k), d')) × (d'.0 ≡ k)
cell_done k zero z = ((k, 0), refl, refl)
cell_done k (suc l) z = absurd (omega arith)

cell-IsCell : IsCell (ℕ × ℕ) cell result 267
cell-IsCell = record {
  started = λ d. d.0;
  left = λ d. d.1;
  starts = λ d. ([], (suc d.0, 267), refl, refl, omega arith);
  sleeps = λ n d. (refl, refl);
  working = λ d p. cell_working d.0 d.1 p;
  done = λ d z. cell_done d.0 d.1 z;
  ready = λ n. refl;
}

abbrev samples : ℕ
samples = 4

mcp3421_read_batt_mv_lem_example :
    (n : ℕ) × (d' : ℕ × ℕ) × (1 ≤ n)
    × (n ≤ 16)
    × ((n ≡ samples) ⊎ (samples ≡ 0) ⊎ (16 < samples))
    × (mcp3421_read_batt_mv cell (λ r. r) (λ s k. s / k) true samples (7, 1)
        ≡ (some (sum_from (λ i. raw_of (result i)) 7 n 0 / n), d'))
    × (d'.0 ≡ 7 + n)
unfolding cell-IsCell
mcp3421_read_batt_mv_lem_example =
    mcp3421_read_batt_mv_lem cell result 267 cell-IsCell (λ r. r) (λ s k. s / k) samples (7, 1)
      (omega arith)
