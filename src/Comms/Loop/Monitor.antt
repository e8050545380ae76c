-- ===== src/Comms/Loop/Monitor.antt =====
-- ipc_rpmsg_echo.c, monitorTask: the COMMS task's liveness counter, read every two seconds.
use bramka_setup.Base.{
  ℕ, zero, suc, ◌-◌, ◌^◌, ◌≢◌, ◌++◌, ap₂, replicate, ◌+◌, ◌≤◌, ◌<◌, ◌≡◌, refl, arith, Bool, true,
  false, List, [], ◌∷◌, if◌then◌else◌, leb, ◌==◌, u32, length,
}

-- COMMS_STALL_CHECKS
abbrev pub comms_stall_checks : ℕ
comms_stall_checks = 3

-- lastLive and stalls
pub record Monitor : Type 0 where
  pub last_live : ℕ
  pub stalls : ℕ

abbrev pub monitor_start : Monitor
monitor_start = record { last_live = 0; stalls = 0 }

-- One check, on the counter's value: whether the stall is logged.
unfoldable pub monitor_check : ℕ → Monitor → Bool × Monitor
monitor_check live m =
    let stalls = u32 (m.stalls + 1) in
    if live == m.last_live
    then (leb comms_stall_checks stalls, record { last_live = live; stalls = stalls })
    else (false, record { last_live = live; stalls = 0 })

-- the checks on these values, in order
unfoldable pub monitor_run : List ℕ → Monitor → List Bool × Monitor
monitor_run [] m = ([], m)
monitor_run (live ∷ lives) m =
    let r = monitor_check live m in let rest = monitor_run lives r.1 in (r.0 ∷ rest.0, rest.1)

still_stalled :
    (v n : ℕ) (m : Monitor)
    → m.last_live ≡ v
    → 2 ≤ m.stalls
    → m.stalls + n < 2 ^ 32
    → (monitor_run (replicate n v) m).0 ≡ replicate n true
unfolding monitor_run monitor_check
still_stalled v zero m e h top = refl
still_stalled v (suc n) m e h top =
    let r = monitor_check v m in
    let log : r.0 ≡ true = ground arith in
    let same : r.1.last_live ≡ v = ground arith in
    let more : r.1.stalls ≡ m.stalls + 1 = ground arith in
    ap₂ (λ x xs. x ∷ xs) log
      (still_stalled v n r.1 same (omega (arith, more)) (omega (arith, more)))

-- Each value differs from the one before it, the first from `last`.
abbrev pub Moves : ℕ → List ℕ → Type 0
Moves last [] = Unit
Moves last (v ∷ vs) = (v ≢ last) × Moves v vs

-- While the COMMS task's counter differs from check to check, the monitor logs nothing; and when
-- it then freezes at a new value for 3 + n checks (n below 2^32 - 3), the first three of them log
-- nothing and each of the n others logs the stall, whatever the monitor's state at the start.
monitor_lem :
    (vs : List ℕ) (v n : ℕ) (m : Monitor)
    → Moves m.last_live (vs ++ v ∷ [])
    → n < 2 ^ 32 - 3
    → (monitor_run (vs ++ replicate (3 + n) v) m).0
      ≡ replicate (length vs + 3) false ++ replicate n true
unfolding monitor_run monitor_check
monitor_lem [] v n m (ne, _) top =
    let m1 : Monitor = record { last_live = v; stalls = 2 } in
    ground (arith, still_stalled v n m1 refl (omega arith) (omega arith))
monitor_lem (x ∷ vs) v n m (ne, mv) top =
    let m1 : Monitor = record { last_live = x; stalls = 0 } in
    ground (arith, monitor_lem vs v n m1 mv top)
