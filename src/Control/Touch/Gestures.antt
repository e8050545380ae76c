-- ===== src/Control/Touch/Gestures.antt =====
-- What a touch of n polls does.
use bramka_setup.Base.{
  ℕ, zero, suc, ◌+◌, ◌≤◌, ◌<◌, ◌≡◌, ◌^◌, refl, arith, ap₂, ◌∙◌, Bool, List, [], ◌∷◌, ◌++◌,
  replicate, if◌then◌else◌, leb, ltb,
}
use bramka_setup.Control.Touch.{
  Act, send_join, relay_toggle, Pad, debounce, touch_start, hold, release, poll_pad,
}
use bramka_setup.Control.Touch.Polls.{
  poll_all, pad, held_pad, fires, poll_all-step, poll_all-held, poll_all-leaving, poll-end,
  poll_all-then,
}

-- what a touch of n polls calls in all
abbrev pub gesture : ℕ → List Act
gesture n = if ltb n 5 then [] else if ltb n 200 then relay_toggle ∷ [] else send_join ∷ []

short_touch :
    (n stable held : ℕ) (armed : Bool)
    → n < 4
    → poll_all (replicate (suc n) 1 ++ replicate 5 0) (pad 0 0 0 stable held armed)
      ≡ ([], pad 0 0 0 80 held armed)
unfolding poll_all poll_pad debounce touch_start hold release
short_touch zero stable held armed h = refl
short_touch (suc zero) stable held armed h = refl
short_touch (suc (suc zero)) stable held armed h = refl
short_touch (suc (suc (suc zero))) stable held armed h = refl
short_touch (suc (suc (suc (suc n)))) stable held armed h = absurd (omega arith)

-- the five polls after which the debounce takes the pad for touched
poll_all-touched :
    (stable held : ℕ) (armed : Bool)
    → poll_all (replicate 5 1) (pad 0 0 0 stable held armed) ≡ ([], held_pad 1 80 1)
unfolding poll_all poll_pad debounce touch_start hold release
poll_all-touched stable held armed = refl

poll_all-nil : (p : Pad) → poll_all [] p ≡ ([], p)
unfolding poll_all
poll_all-nil p = refl

poll_all-end :
    (k : ℕ)
    → 5 ≤ k
    → poll_all (0 ∷ []) (held_pad 0 60 k)
      ≡ ((if ltb k 200 then relay_toggle ∷ [] else []) ++ [], pad 0 0 0 80 0 (leb 200 k))
poll_all-end k h = poll_all-step 0 [] _ _ _ _ [] (poll-end k h) (poll_all-nil _)

long_touch :
    (m stable held : ℕ) (armed : Bool)
    → 5 + m < 2 ^ 27
    → let n = suc (suc (suc (suc (suc m)))) in
      poll_all (replicate n 1 ++ replicate 5 0) (pad 0 0 0 stable held armed)
      ≡ (gesture n, pad 0 0 0 80 0 (leb 200 n))
long_touch m stable held armed b =
    let held_on = poll_all-held m 1 80 (omega arith) in
    let leaving = poll_all-leaving (1 + m) held_on.0 (omega arith) in
    let off =
      poll_all-then (replicate 4 0) (0 ∷ []) _ _ _ _ _ leaving
        (poll_all-end (1 + m + 4) (omega arith)) in
    let on = poll_all-then (replicate m 1) (replicate 5 0) _ _ _ _ _ held_on.1 off in
    poll_all-then (replicate 5 1) (replicate m 1 ++ replicate 5 0) _ _ _ _ _
      (poll_all-touched stable held armed) on
    ∙ ap₂ (λ t n. (t, pad 0 0 0 80 0 (leb 200 n))) (all_acts m) (omega arith)
  where
    all_acts :
        (m : ℕ)
        → fires 1 m
            ++ (fires (1 + m) 4 ++ ((if ltb (1 + m + 4) 200 then relay_toggle ∷ [] else []) ++ []))
          ≡ gesture (suc (suc (suc (suc (suc m)))))
    all_acts m = ground arith

-- the pad when nothing touches it
abbrev pub untouched : ℕ → ℕ → Bool → Pad
untouched stable held armed = pad 0 0 0 stable held armed

-- A touch of n polls (1 to 2^27 - 1) on the debounced pad of the light switch, followed by five
-- polls untouched, calls nothing when it is shorter than 5 polls, toggles the relay once when it
-- is shorter than 200 polls (4 s), and otherwise sends one join; and leaves the pad debounced as
-- untouched.
pub touch_gesture :
    (n stable held : ℕ) (armed : Bool)
    → 1 ≤ n
    → n < 2 ^ 27
    → (h : ℕ) × (r : Bool) × (poll_all
          (replicate n 1 ++ replicate 5 0)
          (untouched stable held armed)
        ≡ (gesture n, untouched 80 h r))
touch_gesture zero stable held armed pos b = absurd (omega arith)
touch_gesture (suc zero) stable held armed pos b =
    (held, armed, short_touch 0 stable held armed (omega arith))
touch_gesture (suc (suc zero)) stable held armed pos b =
    (held, armed, short_touch 1 stable held armed (omega arith))
touch_gesture (suc (suc (suc zero))) stable held armed pos b =
    (held, armed, short_touch 2 stable held armed (omega arith))
touch_gesture (suc (suc (suc (suc zero)))) stable held armed pos b =
    (held, armed, short_touch 3 stable held armed (omega arith))
touch_gesture (suc (suc (suc (suc (suc m))))) stable held armed pos b =
    (0, leb 200 (suc (suc (suc (suc (suc m))))), long_touch m stable held armed (omega arith))
