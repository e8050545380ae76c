-- ===== src/Sensor/Radio/Wait.antt =====
-- The wait for a JOIN_ACCEPT ends.
use bramka_setup.Base.{
  ℕ, zero, suc, ◌+◌, ◌-◌, ◌/◌, ◌^◌, ◌≤◌, ◌<◌, ◌≡◌, refl, arith, ap, sym, ◌∙◌, true, false, Option,
  none, some, List, Bytes, ◌⊎◌, Option-cases, inl, inr, u32, ltb,
}
use bramka_setup.Sensor.Radio.{Accepted, first_accept, wait_from, wait_join_accept, window_ms}

-- What n windows give, from the k-th on: how many are listened to, and the first accept in them.
unfoldable pub scan : Bytes → (ℕ → List Bytes) → ℕ → ℕ → ℕ × Option Accepted
scan fid heard k zero = (k, none)
scan fid heard k (suc n) =
    let rest = scan fid heard (suc k) n in
    elim (first_accept fid (heard k)) [ none ↦ rest | some a ↦ (suc k, some a) ]

module _ (fid : Bytes) (heard : ℕ → List Bytes) (k n : ℕ) where
  scan-none :
      first_accept fid (heard k) ≡ none → scan fid heard k (suc n) ≡ scan fid heard (suc k) n
  unfolding scan
  scan-none h = ap (λ o. elim o [ none ↦ scan fid heard (suc k) n | some a ↦ (suc k, some a) ]) h

  scan-some :
      (a : Accepted)
      → first_accept fid (heard k) ≡ some a
      → scan fid heard k (suc n) ≡ (suc k, some a)
  unfolding scan
  scan-some a h = ap (λ o. elim o [ none ↦ scan fid heard (suc k) n | some a ↦ (suc k, some a) ]) h

-- the windows that fit a timeout
abbrev pub windows : ℕ → ℕ
windows timeout = (timeout + 499) / window_ms

wait_from-scan :
    (fid : Bytes) (heard : ℕ → List Bytes) (timeout fuel k elapsed n : ℕ)
    → timeout + window_ms ≤ 2 ^ 32
    → n ≡ (timeout + 499 - elapsed) / window_ms
    → n < fuel
    → wait_from fid heard timeout fuel k elapsed ≡ some (scan fid heard k n)
unfolding wait_from scan
wait_from-scan fid heard timeout zero k elapsed n bound e lt = absurd (omega arith)
wait_from-scan fid heard timeout (suc fuel) k elapsed zero bound e lt =
    let late : ltb elapsed timeout ≡ false = ground arith in simp late
wait_from-scan fid heard timeout (suc fuel) k elapsed (suc n) bound e lt =
    let early : ltb elapsed timeout ≡ true = ground arith in
    let ih =
      wait_from-scan fid heard timeout fuel (suc k) (u32 (elapsed + window_ms)) n bound
        (omega arith) (omega arith) in
    elim (Option-cases (first_accept fid (heard k))) [
      | inl no_one ↦ simp (early, no_one) (ih ∙ ap some (sym (scan-none fid heard k n no_one)))
      | inr (a, it) ↦ simp (early, it) (ap some (sym (scan-some fid heard k n a it)))
    ]

-- For a timeout of at most 2^32 - 500 ms and fuel above the number of windows of 500 ms that fit
-- it (rounded up), the wait for a JOIN_ACCEPT returns: it listens to these windows up to the first
-- one with an accept for this chip, and gives that accept, or none when there is none in them.
pub wait_returns :
    (fid : Bytes) (heard : ℕ → List Bytes) (timeout fuel : ℕ)
    → timeout + window_ms ≤ 2 ^ 32
    → windows timeout < fuel
    → wait_join_accept fid heard timeout fuel ≡ some (scan fid heard 0 (windows timeout))
unfolding wait_join_accept
wait_returns fid heard timeout fuel bound lt =
    wait_from-scan fid heard timeout fuel 0 0 (windows timeout) bound (omega arith) lt

-- An accept that the scan gives was heard in one of the windows.
pub scan-cases :
    (fid : Bytes) (heard : ℕ → List Bytes) (k n : ℕ)
    → ((w : ℕ) × (scan fid heard k n ≡ (w, none)))
      ⊎ ((w : ℕ) × (a : Accepted) × (i : ℕ) × (scan fid heard k n ≡ (w, some a))
          × (first_accept fid (heard i) ≡ some a))
unfolding scan
scan-cases fid heard k zero = inl (k, refl)
scan-cases fid heard k (suc n) = elim (Option-cases (first_accept fid (heard k))) [
  | inl no_one ↦ elim (scan-cases fid heard (suc k) n) [
    | inl (w, e) ↦ inl (w, scan-none fid heard k n no_one ∙ e)
    | inr (w, a, i, e, h) ↦ inr (w, a, i, scan-none fid heard k n no_one ∙ e, h)
  ]
  | inr (a, it) ↦ inr (suc k, a, k, scan-some fid heard k n a it, it)
]
