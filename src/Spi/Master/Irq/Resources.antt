-- ===== src/Spi/Master/Irq/Resources.antt =====
-- What the drivers hold after the wiring, and after its end.
use bramka_setup.Base.{
  ℕ, ◌⊎◌, zero, suc, ◌+◌, ◌-◌, ◌≡◌, ◌≤◌, ◌<◌, refl, sym, subst, ap, ◌∙◌, arith, Bool, inl, inr,
  true, false, Option, none, some, List, [], ◌∷◌, ◌++◌, if◌then◌else◌, ◌==◌,
}
use bramka_setup.Spi.Master.Irq.{
  Call, Wiring, at_start, claim, wire, setup_slave_ready_irq, teardown,
}

-- What the drivers hold: the outputs routed, the trigger's edge, the bank's interrupt, and the
-- interrupt objects with their numbers.
pub record Held : Type 0 where
  pub routed : ℕ → Bool
  pub edge : Bool
  pub enabled : Bool
  pub hwi : Option ℕ

abbrev pub nothing : Held
nothing = record { routed = λ n. false; edge = false; enabled = false; hwi = none }

-- what one call changes
abbrev pub made : Call → Held → Held
made (Call.route_set n true) x = record x { routed = λ m. if m == n then true else x.routed m }
made (Call.route_set n false) x = x
made (Call.route_release n) x = record x { routed = λ m. if m == n then false else x.routed m }
made (Call.trig_type e) x = record x { edge = e }
made Call.clear_status x = x
made Call.intr_enable x = record x { enabled = true }
made Call.intr_disable x = record x { enabled = false }
made (Call.hwi_construct n true) x = record x { hwi = some n }
made (Call.hwi_construct n false) x = x
made Call.hwi_destruct x = record x { hwi = none }

unfoldable pub after : List Call → Held → Held
after [] x = x
after (c ∷ cs) x = after cs (made c x)

-- Nothing is held.
pub record IsFree (x : Held) : Type 0 where
  pub routed : (n : ℕ) → x.routed n ≡ false
  pub edge : x.edge ≡ false
  pub enabled : x.enabled ≡ false
  pub hwi : x.hwi ≡ none

-- One output is routed, and the interrupt of its number enabled.
pub record IsWired (outp : ℕ) (x : Held) : Type 0 where
  pub routed : (n : ℕ) → x.routed n ≡ (n == outp)
  pub edge : x.edge ≡ true
  pub enabled : x.enabled ≡ true
  pub hwi : x.hwi ≡ some (outp - 4 + 16)

after-++ : (cs ds : List Call) (x : Held) → after (cs ++ ds) x ≡ after ds (after cs x)
unfolding after
after-++ [] ds x = refl
after-++ (c ∷ cs) ds x = after-++ cs ds (made c x)

-- what a claim holds
abbrev claimed : Option ℕ → Held
claimed none = nothing
claimed (some outp) = record nothing { routed = λ m. if m == outp then true else false }

-- The claim holds the first output granted, if any of those tried is.
pub record IsClaim (grants : ℕ → Bool) (outp left : ℕ) (r : List Call × Option ℕ) : Type 0 where
  pub held : after r.0 nothing ≡ claimed r.1
  pub granted : (n : ℕ) → r.1 ≡ some n → (grants n ≡ true) × (outp ≤ n) × (n < outp + left)
  pub refused : r.1 ≡ none → (n : ℕ) → outp ≤ n → n < outp + left → grants n ≡ false

claim-IsClaim :
    (grants : ℕ → Bool) (outp left : ℕ) → IsClaim grants outp left (claim grants outp left)
unfolding claim after
claim-IsClaim grants outp zero = record {
  held = refl;
  granted = λ n e. absurd (ground arith);
  refused = λ e n l u. absurd (omega arith);
}
claim-IsClaim grants outp (suc left) =
    pick (grants outp) refl (claim-IsClaim grants (suc outp) left)
  where
    pick :
        (t : Bool)
        → grants outp ≡ t
        → IsClaim grants (suc outp) left (claim grants (suc outp) left)
        → IsClaim grants outp (suc left) (
            let rest = claim grants (suc outp) left in
            if t
            then (Call.route_set outp true ∷ [], some outp)
            else (Call.route_set outp false ∷ rest.0, rest.1))
    pick true g h = record {
      held = refl;
      granted = λ n e. ground (arith, g, e);
      refused = λ e n l u. absurd (ground arith);
    }
    pick false g h = record {
      held = h.held;
      granted = λ n e. let (a, b, c) = h.granted n e in (a, omega arith, omega arith);
      refused = λ e n l u. ground (arith, g, h.refused e n);
    }

-- The interrupt is active and wired; or nothing is held, and no output was granted or the
-- construction failed. At the end of the task nothing is held in either case.
pub record IsSound (grants constructs : ℕ → Bool) (r : List Call × Wiring) : Type 0 where
  pub outcome :
      ((r.1.irq_active ≡ true)
        × (n : ℕ) × (r.1.irq_outp ≡ some n)
        × (4 ≤ n)
        × (n ≤ 7)
        × IsWired n (after r.0 nothing))
      ⊎ ((r.1.irq_active ≡ false)
          × IsFree (after r.0 nothing)
          × (((n : ℕ) → 4 ≤ n → n ≤ 7 → grants n ≡ false)
              ⊎ ((n : ℕ) × (grants n ≡ true) × (constructs (n - 4 + 16) ≡ false))))
  pub ended : IsFree (after (teardown r.1).0 (after r.0 nothing))

nothing-IsFree : IsFree nothing
nothing-IsFree = record { routed = λ n. refl; edge = refl; enabled = refl; hwi = refl }

wired_calls : (n : ℕ) (t : Bool) → List Call
wired_calls n t =
    Call.trig_type true
    ∷ Call.clear_status
    ∷ Call.intr_enable
    ∷ Call.hwi_construct (n - 4 + 16) t
    ∷ []

wired_held :
    (tried : List Call) (n : ℕ) (t : Bool)
    → after tried nothing ≡ claimed (some n)
    → after (tried ++ wired_calls n t) nothing ≡ after (wired_calls n t) (claimed (some n))
wired_held tried n t h = after-++ tried (wired_calls n t) nothing ∙ ap (after (wired_calls n t)) h

unrouted : (n : ℕ) → List Call
unrouted n = Call.intr_disable ∷ Call.trig_type false ∷ Call.route_release n ∷ []

-- HwiP_construct has succeeded, and it has failed
constructed-IsSound :
    (grants constructs : ℕ → Bool) (tried : List Call) (n : ℕ)
    → IsClaim grants 4 4 (tried, some n)
    → IsSound grants constructs
        (tried ++ wired_calls n true, record { irq_active = true; irq_outp = some n })
unfolding after teardown wired_calls
constructed-IsSound grants constructs tried n h =
    let e = wired_held tried n true h.held in
    let (g, l, u) = h.granted n refl in
    record {
      outcome = inl (
        refl,
        n,
        refl,
        l,
        omega arith,
        subst (IsWired n) (sym e)
            (record { routed = λ m. ground arith; edge = refl; enabled = refl; hwi = refl }),
      );
      ended =
          subst
            (λ x. IsFree (after (teardown (record { irq_active = true; irq_outp = some n })).0 x))
            (sym e)
            (record { routed = λ m. ground arith; edge = refl; enabled = refl; hwi = refl });
    }

failed-IsSound :
    (grants constructs : ℕ → Bool) (tried : List Call) (n : ℕ)
    → constructs (n - 4 + 16) ≡ false
    → IsClaim grants 4 4 (tried, some n)
    → IsSound grants constructs ((tried ++ wired_calls n false) ++ unrouted n, at_start)
unfolding after teardown wired_calls unrouted
failed-IsSound grants constructs tried n f h =
    let e =
      after-++ (tried ++ wired_calls n false) (unrouted n) nothing
      ∙ ap (after (unrouted n)) (wired_held tried n false h.held) in
    let free : IsFree (after (unrouted n) (after (wired_calls n false) (claimed (some n)))) =
      record { routed = λ m. ground arith; edge = refl; enabled = refl; hwi = refl } in
    record {
      outcome = inr (refl, subst IsFree (sym e) free, inr (n, (h.granted n refl).0, f));
      ended = subst IsFree (sym e) free;
    }

wire-IsSound :
    (grants constructs : ℕ → Bool) (c : List Call × Option ℕ)
    → IsClaim grants 4 4 c
    → IsSound grants constructs (wire constructs c at_start)
unfolding after teardown wired_calls unrouted
wire-IsSound grants constructs (tried, none) h = record {
  outcome = inr (
    refl,
    subst IsFree (sym h.held) nothing-IsFree,
    inl (λ n l u. h.refused refl n l (omega arith)),
  );
  ended = subst IsFree (sym h.held) nothing-IsFree;
}
wire-IsSound grants constructs (tried, some n) h = pick (constructs (n - 4 + 16)) refl
  where
    pick :
        (t : Bool)
        → constructs (n - 4 + 16) ≡ t
        → IsSound grants constructs (
            if t
            then (tried ++ wired_calls n t, record { irq_active = true; irq_outp = some n })
            else ((tried ++ wired_calls n t) ++ unrouted n, at_start))
    pick true e = constructed-IsSound grants constructs tried n h
    pick false e = failed-IsSound grants constructs tried n e h

-- Whatever outputs are granted and whether the interrupt can be constructed:
-- `spi_setup_slave_ready_irq` ends with the interrupt active, and then exactly the output of
-- gIrqOutp, of 4 to 7, is routed and its interrupt is enabled and constructed; or it ends with
-- polling and holds nothing, and then no output was granted or the construction failed for one that
-- was. At the end of the SPI task nothing is held in either case.
pub setup_slave_ready_irq-IsSound :
    (grants constructs : ℕ → Bool)
    → IsSound grants constructs (setup_slave_ready_irq grants constructs at_start)
unfolding setup_slave_ready_irq
setup_slave_ready_irq-IsSound grants constructs =
    wire-IsSound grants constructs (claim grants 4 4) (claim-IsClaim grants 4 4)
