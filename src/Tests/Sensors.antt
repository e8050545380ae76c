-- ===== src/Tests/Sensors.antt =====
-- The sensor node's theorems at concrete inputs.
use bramka_setup.Base.{◌≤◌, arith}
use bramka_setup.Battery.{battery_soc_pct}
use bramka_setup.Battery.Curve.{battery_soc_pct_lem}

battery_soc_pct_lem_example :
    (battery_soc_pct 3210 ≤ battery_soc_pct 3290) × (battery_soc_pct 3290 ≤ 100)
battery_soc_pct_lem_example = battery_soc_pct_lem 3210 3290 (omega arith)
