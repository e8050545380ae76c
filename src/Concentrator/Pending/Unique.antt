-- ===== src/Concentrator/Pending/Unique.antt =====
-- A chip has at most one slot of the pending-command table, so that disarming removes it.
use bramka_setup.Base.{
  ℕ, zero, suc, ◌+◌, ◌<◌, ◌≤◌, ◌≡◌, ◌≢◌, refl, sym, ap, ◌∙◌, arith, true, false, none, some, List,
  [], ◌∷◌, if◌then◌else◌, Bytes, get_or, set, length, Bool-cases, Option-cases, inl, inr,
}
use bramka_setup.Rf.{bytes_eq}
use bramka_setup.Rf.Equality.{bytes_eq_sound, bytes_eq-eq}
use bramka_setup.Concentrator.Pending.{
  Slot, Table, blank, empty, matches, is_free, find_index, find, lookup, armed, arm, disarm,
}
use bramka_setup.Concentrator.Pending.Lookup.{
  lookup-cons, lookup-set_other, matches-other, find_index_sound, find_index-lt,
}

-- the number of a chip's slots
abbrev pub slots_of : Bytes → Table → ℕ
slots_of f [] = 0
slots_of f (s ∷ t) = (if matches f s then 1 else 0) + slots_of f t

abbrev pub IsUnique : Table → Type 0
IsUnique t = (f : Bytes) → slots_of f t ≤ 1

slots_of-none : (f : Bytes) (t : Table) → find f t ≡ none → slots_of f t ≡ 0
unfolding find_index
slots_of-none f [] h = refl
slots_of-none f (s ∷ t) h = ground (arith, slots_of-none f t)

lookup-absent : (f : Bytes) (t : Table) → slots_of f t ≡ 0 → lookup f t ≡ 0
unfolding lookup find_index
lookup-absent f [] h = refl
lookup-absent f (s ∷ t) h = ground (arith, lookup-cons f s t, lookup-absent f t)

slots_of-set :
    (g : Bytes) (t : Table) (i : ℕ) (v : Slot)
    → i < length t
    → slots_of g (set t i v) + (if matches g (get_or t i blank) then 1 else 0)
      ≡ slots_of g t + (if matches g v then 1 else 0)
slots_of-set g [] i v h = absurd (omega arith)
slots_of-set g (s ∷ t) zero v h = omega arith
slots_of-set g (s ∷ t) (suc i) v h = omega (arith, slots_of-set g t i v (omega arith))

matches-same :
    (f g : Bytes) (s : Slot) (c : ℕ) → matches f s ≡ true → matches g s ≡ matches g (armed f c)
matches-same f g s c h =
    ground (arith, ap (λ x. bytes_eq x g) (bytes_eq_sound s.fid f (ground arith)))

arm-IsUnique : (f : Bytes) (c : ℕ) (t : Table) → IsUnique t → IsUnique (arm f c t)
unfolding arm
arm-IsUnique f c t u g = elim (Option-cases (find f t)) [
  | inr (i, e) ↦
      let old = find_index_sound (matches f) t i e in
      ground (
        arith,
        u g,
        slots_of-set g t i (armed f c) (find_index-lt (matches f) t i e),
        matches-same f g (get_or t i blank) c old,
      )
  | inl n ↦ elim (Option-cases (find_index is_free t)) [
    | inl full ↦ ground (arith, u g)
    | inr (i, e) ↦ elim (Bool-cases (bytes_eq f g)) [
      | inr ne ↦ ground (arith, u g, slots_of-set g t i (armed f c) (find_index-lt is_free t i e))
      | inl same ↦ ground (
        arith,
        slots_of-none g t (ap (λ x. find x t) (sym (bytes_eq_sound f g same)) ∙ n),
        slots_of-set g t i (armed f c) (find_index-lt is_free t i e),
      )
    ]
  ]
]

disarm-IsUnique : (f : Bytes) (t : Table) → IsUnique t → IsUnique (disarm f t)
unfolding disarm
disarm-IsUnique f t u g = elim (Option-cases (find f t)) [
  | inl n ↦ ground (arith, u g)
  | inr (i, e) ↦ ground (
    arith,
    u g,
    slots_of-set g t i (record (get_or t i blank) { used = false })
        (find_index-lt (matches f) t i e),
  )
]

-- the calls that change the table
pub data TableCall : Type 0 where
  arming : Bytes → ℕ → TableCall
  disarming : Bytes → TableCall

abbrev pub run_table : Table → List TableCall → Table
run_table t [] = t
run_table t (arming f c ∷ cs) = run_table (arm f c t) cs
run_table t (disarming f ∷ cs) = run_table (disarm f t) cs

run_table-IsUnique : (t : Table) (cs : List TableCall) → IsUnique t → IsUnique (run_table t cs)
run_table-IsUnique t [] u = u
run_table-IsUnique t (arming f c ∷ cs) u = run_table-IsUnique (arm f c t) cs (arm-IsUnique f c t u)
run_table-IsUnique t (disarming f ∷ cs) u =
    run_table-IsUnique (disarm f t) cs (disarm-IsUnique f t u)

empty-IsUnique : IsUnique empty
empty-IsUnique f = ground arith

lookup-set_unused :
    (f : Bytes) (t : Table) (i : ℕ)
    → find f t ≡ some i
    → slots_of f t ≤ 1
    → lookup f (set t i (record (get_or t i blank) { used = false })) ≡ 0
unfolding find_index
lookup-set_unused f [] i h u = cc
lookup-set_unused f (s ∷ t) zero h u =
    ground (arith, lookup-cons f (record s { used = false }) t, lookup-absent f t)
lookup-set_unused f (s ∷ t) (suc i) h u = ground (
  arith,
  lookup-cons f s (set t i (record (get_or t i blank) { used = false })),
  lookup-set_unused f t i,
)

lookup-unfound : (f : Bytes) (t : Table) → find f t ≡ none → lookup f t ≡ 0
lookup-unfound f t n = lookup-absent f t (slots_of-none f t n)

lookup-disarm_self : (f : Bytes) (t : Table) → IsUnique t → lookup f (disarm f t) ≡ 0
unfolding disarm
lookup-disarm_self f t u = elim (Option-cases (find f t)) [
  | inl n ↦ ground (arith, lookup-unfound f t n)
  | inr (i, e) ↦ ground (arith, lookup-set_unused f t i e (u f))
]

lookup-disarm_other : (f g : Bytes) (t : Table) → f ≢ g → lookup g (disarm f t) ≡ lookup g t
unfolding disarm
lookup-disarm_other f g t ne = elim (Option-cases (find f t)) [
  | inl n ↦ ground arith
  | inr (i, e) ↦ ground (
    arith,
    lookup-set_other g (record (get_or t i blank) { used = false }) t i
        (matches-other f g (get_or t i blank) (find_index_sound (matches f) t i e) ne) refl,
  )
]

-- Whatever was armed and disarmed since start-up, after disarming chip f the lookup of f gives no
-- command, and the lookup of every other chip gives what it gave before.
pub lookup-disarm :
    (cs : List TableCall) (f g : Bytes)
    → (let t = run_table empty cs in
        lookup g (disarm f t) ≡ (if bytes_eq f g then 0 else lookup g t))
lookup-disarm cs f g =
    let t : Table = run_table empty cs in
    elim (Bool-cases (bytes_eq f g)) [
      | inr ne ↦
          lookup-disarm_other f g t (λ e. absurd (ground (arith, bytes_eq-eq f g e))) ∙ simp ne
      | inl e ↦
          ap (λ h. lookup h (disarm f t)) (sym (bytes_eq_sound f g e))
          ∙ lookup-disarm_self f t (run_table-IsUnique empty cs empty-IsUnique)
          ∙ simp e
    ]
