-- ===== src/Control/Touch/Polls.antt =====
-- Sequences of polls of the touch pad, while it is held and when it is let go.
use bramka_setup.Base.{
  ℕ, zero, suc, ◌+◌, ◌*◌, ◌≤◌, ◌<◌, ◌≡◌, ◌^◌, refl, arith, ap, ap₂, sym, ◌∙◌, Bool, List, [], ◌∷◌,
  ◌++◌, replicate, if◌then◌else◌, leb, ltb, ◌==◌, append_assoc, append-nil, u32,
}
use bramka_setup.Control.Touch.{
  Act, send_join, relay_toggle, Pad, debounce, touch_start, hold, release, poll_pad,
}

-- The pad over a sequence of raw states.
unfoldable pub poll_all : List ℕ → Pad → List Act × Pad
poll_all [] p = ([], p)
poll_all (raw ∷ raws) p =
    let r = poll_pad raw p in let rest = poll_all raws r.1 in (r.0 ++ rest.0, rest.1)

-- the pad by its fields
abbrev pub pad : ℕ → ℕ → ℕ → ℕ → ℕ → Bool → Pad
pad prev raw db stable held armed = record {
  prev = prev;
  raw_prev = raw;
  db_state = db;
  stable_ms = stable;
  held_ms = held;
  pairing_armed = armed;
}

-- held for k polls
abbrev pub held_pad : ℕ → ℕ → ℕ → Pad
held_pad raw stable k = pad 1 raw 1 stable (20 * k) (leb 200 k)

-- what the (k + 1)-st poll of a touch calls, and what `m` polls from there on call
abbrev pub fire : ℕ → List Act
fire k = if k == 199 then send_join ∷ [] else []

abbrev pub fires : ℕ → ℕ → List Act
fires k m = if ltb k 200 then if ltb 199 (k + m) then send_join ∷ [] else [] else []

pub fire-fires : (k m : ℕ) → fire k ++ fires (suc k) m ≡ fires k (suc m)
fire-fires k m = ground arith

pub hold-held :
    (raw stable k : ℕ)
    → suc k < 2 ^ 27
    → hold (held_pad raw stable k) ≡ (fire k, held_pad raw stable (suc k))
unfolding hold
hold-held raw stable k b = ground arith

-- the rest of a poll after the debounce, and after the hold
abbrev pub released : List Act × Pad → List Act × Pad
released h = let r = release h.1 in (h.0 ++ r.0, record r.1 { prev = r.1.db_state })

pub released-held :
    (raw stable k : ℕ) (as_ : List Act)
    → released (as_, held_pad raw stable k) ≡ (as_, held_pad raw stable k)
unfolding release
released-held raw stable k as_ = ap (λ t. (t, held_pad raw stable k)) (append-nil as_)

pub poll-held :
    (raw raw' stable stable' k : ℕ)
    → suc k < 2 ^ 27
    → debounce raw' (held_pad raw stable k) ≡ held_pad raw' stable' k
    → poll_pad raw' (held_pad raw stable k) ≡ (fire k, held_pad raw' stable' (suc k))
unfolding poll_pad touch_start
poll-held raw raw' stable stable' k b d =
    ap (λ p. released (hold (touch_start p))) d
    ∙ ap released (hold-held raw' stable' k b)
    ∙ released-held raw' stable' (suc k) (fire k)

pub poll_all-step :
    (raw : ℕ) (raws : List ℕ) (p p' q : Pad) (as_ bs : List Act)
    → poll_pad raw p ≡ (as_, p')
    → poll_all raws p' ≡ (bs, q)
    → poll_all (raw ∷ raws) p ≡ (as_ ++ bs, q)
unfolding poll_all
poll_all-step raw raws p p' q as_ bs e rest =
    ap (λ r. (r.0 ++ (poll_all raws r.1).0, (poll_all raws r.1).1)) e
    ∙ ap (λ r. (as_ ++ r.0, r.1)) rest

-- a poll of a touch that goes on
pub debounce-held :
    (stable k : ℕ) → debounce 1 (held_pad 1 stable k) ≡ held_pad 1 (u32 (stable + 20)) k
unfolding debounce
debounce-held stable k = ground arith

pub poll_all-held :
    (m k stable : ℕ)
    → k + m < 2 ^ 27
    → (a : ℕ) × (poll_all (replicate m 1) (held_pad 1 stable k) ≡ (fires k m, held_pad 1 a (k + m)))
unfolding poll_all
poll_all-held zero k stable b = (stable, ground arith)
poll_all-held (suc m) k stable b =
    let stable' : ℕ = u32 (stable + 20) in
    let rest = poll_all-held m (suc k) stable' (omega arith) in
    let one = poll-held 1 1 stable stable' k (omega arith) (debounce-held stable k) in
    (
      rest.0,
      poll_all-step 1 (replicate m 1) (held_pad 1 stable k) (held_pad 1 stable' (suc k))
            (held_pad 1 rest.0 (suc k + m)) (fire k) (fires (suc k) m) one rest.1
          ∙ ap₂ (λ t n. (t, held_pad 1 rest.0 n)) (fire-fires k m) (omega arith),
    )

-- four polls of the released pad, which the debounce still takes for held ones
pub poll_all-leaving :
    (k stable : ℕ)
    → k + 4 < 2 ^ 27
    → poll_all (replicate 4 0) (held_pad 1 stable k) ≡ (fires k 4, held_pad 0 60 (k + 4))
unfolding poll_all debounce
poll_all-leaving k stable b =
    let a = poll-held 1 0 stable 0 k (omega arith) refl in
    let c = poll-held 0 0 0 20 (suc k) (omega arith) refl in
    let d = poll-held 0 0 20 40 (suc (suc k)) (omega arith) refl in
    let e = poll-held 0 0 40 60 (suc (suc (suc k))) (omega arith) refl in
    let four = poll_all-step 0 (replicate 3 0) _ _ _ _ _ a (
      poll_all-step 0 (replicate 2 0) _ _ _ _ _ c
        (poll_all-step 0 (replicate 1 0) _ _ _ _ _ d (poll_all-step 0 [] _ _ _ _ _ e refl))) in
    four ∙ ap₂ (λ t n. (t, held_pad 0 60 n)) (ground arith) (omega arith)

-- the poll that ends the touch
pub poll-end :
    (k : ℕ)
    → 5 ≤ k
    → poll_pad 0 (held_pad 0 60 k)
      ≡ ((if ltb k 200 then relay_toggle ∷ [] else []), pad 0 0 0 80 0 (leb 200 k))
unfolding poll_pad debounce touch_start hold release
poll-end k h = ground arith

pub poll_all-append :
    (xs ys : List ℕ) (p : Pad)
    → let r = poll_all xs p in
      poll_all (xs ++ ys) p ≡ (r.0 ++ (poll_all ys r.1).0, (poll_all ys r.1).1)
unfolding poll_all
poll_all-append [] ys p = refl
poll_all-append (x ∷ xs) ys p =
    let r = poll_pad x p in
    let ih = poll_all-append xs ys r.1 in
    ap (λ t. (r.0 ++ t.0, t.1)) ih
    ∙ ap (λ t. (t, (poll_all ys (poll_all xs r.1).1).1))
        (sym (append_assoc r.0 (poll_all xs r.1).0 (poll_all ys (poll_all xs r.1).1).0))

pub poll_all-then :
    (xs ys : List ℕ) (p p' q : Pad) (as_ bs : List Act)
    → poll_all xs p ≡ (as_, p')
    → poll_all ys p' ≡ (bs, q)
    → poll_all (xs ++ ys) p ≡ (as_ ++ bs, q)
poll_all-then xs ys p p' q as_ bs e rest =
    poll_all-append xs ys p
    ∙ ap (λ r. (r.0 ++ (poll_all ys r.1).0, (poll_all ys r.1).1)) e
    ∙ ap (λ r. (as_ ++ r.0, r.1)) rest
