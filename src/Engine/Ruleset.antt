-- ===== src/Engine/Ruleset.antt =====
-- engine.c, CRC32 and the double-buffered ruleset upload.
pub mod Atomic
pub mod Upload
use bramka_setup.Base.{
  ℕ, zero, suc, ◌+◌, ◌-◌, ◌/◌, ◌^◌, bit_xor, bit_and, Bool, true, false, not, ◌||◌, none, [], ◌∷◌,
  ◌++◌, if◌then◌else◌, ◌==◌, ltb, leb, Bytes, u16, u32, u8,
}
use bramka_setup.Shared.Automation.{AutomationRule, max_rules}
use bramka_setup.Engine.State.{Engine, update}

-- one of the eight rounds: the mask is -(crc & 1), as a uint32_t
unfoldable pub crc32_round : ℕ → ℕ
crc32_round crc = bit_xor (crc / 2) (bit_and 0xedb8_8320 (u32 (2 ^ 32 - bit_and crc 1)))

unfoldable pub crc32_rounds : ℕ → ℕ → ℕ
unfolding crc32_round
crc32_rounds zero crc = crc
crc32_rounds (suc b) crc = crc32_rounds b (crc32_round crc)

unfoldable pub crc32_loop : ℕ → Bytes → ℕ
unfolding crc32_rounds
crc32_loop crc [] = crc
crc32_loop crc (x ∷ xs) = crc32_loop (crc32_rounds 8 (bit_xor crc x)) xs

unfoldable pub crc32_calc : Bytes → ℕ
unfolding crc32_loop
crc32_calc xs = u32 (bit_xor (crc32_loop 0xffff_ffff xs) 0xffff_ffff)

-- `n` consecutive rules from index `i` on, as the bytes of the array
unfoldable pub rules_bytes : (ℕ → AutomationRule) → ℕ → ℕ → Bytes
rules_bytes rules i zero = []
rules_bytes rules i (suc n) = rules i ++ rules_bytes rules (suc i) n

-- `engine_rules_begin`
unfoldable pub rules_begin : Engine → ℕ → Engine × Bool
rules_begin e count = if ltb max_rules count then (e, false) else (
  record e {
    shadow = u8 (bit_xor e.active 1);
    shadow_expected = count;
    shadow_filled = 0;
    building = true;
  },
  true,
)

-- `engine_rules_item`; the rule pointer is never NULL in the caller
unfoldable pub rules_item : Engine → ℕ → AutomationRule → Engine × Bool
rules_item e index rule =
    if not e.building then (e, false) else if leb e.shadow_expected index then (e, false) else (
      record e {
        rules = update e.rules e.shadow (update (e.rules e.shadow) index rule);
        shadow_filled = u16 (e.shadow_filled + 1);
      },
      true,
    )

-- `engine_rules_commit`
unfoldable pub rules_commit : Engine → ℕ → ℕ → Engine × Bool
rules_commit e expected crc =
    let e' = record e { building = false } in
    if not e.building
    then (e, false)
    else if not (expected == e.shadow_expected) || not (e.shadow_filled == expected)
    then (e', false)
    else if not (crc32_calc (rules_bytes (e.rules e.shadow) 0 expected) == crc)
    then (e', false)
    else (
      record e' {
        count = update e.count e.shadow expected;
        active = e.shadow;
        last_time_min = none;
      },
      true,
    )

-- `engine_rules_active_count`
unfoldable pub rules_active_count : Engine → ℕ
rules_active_count e = e.count e.active

-- The live ruleset, as the evaluator sees it.
abbrev pub active_rule : Engine → ℕ → AutomationRule
active_rule e i = e.rules e.active i
