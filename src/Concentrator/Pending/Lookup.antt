-- ===== src/Concentrator/Pending/Lookup.antt =====
-- The pending-command table of radio_task.c as a map from chips to commands.
use bramka_setup.Base.{
  ap, ◌&&◌, refl, ◌≢◌, sym, ◌∙◌, Bool-cases, Option-cases, inl, inr, ℕ, zero, suc, ◌<◌, ◌≡◌, refl,
  true, false, Bool, none, some, [], ◌∷◌, arith, if◌then◌else◌, Bytes, get_or, set, length,
}
use bramka_setup.Rf.{bytes_eq}
use bramka_setup.Rf.Equality.{bytes_eq_self, bytes_eq_sound, bytes_eq-eq}
use bramka_setup.Concentrator.Pending.{
  Slot, Table, blank, matches, is_free, find_index, find, lookup, armed, arm, arm_index,
}

-- `lookup` by recursion on the table
pub lookup-cons :
    (fid : Bytes) (s : Slot) (t : Table)
    → lookup fid (s ∷ t) ≡ (if matches fid s then s.cmd else lookup fid t)
unfolding lookup find_index
lookup-cons fid s t = ground arith

lookup-set_self :
    (f : Bytes) (c : ℕ) (t : Table) (i : ℕ) → find f t ≡ some i → lookup f (set t i (armed f c)) ≡ c
unfolding find_index
lookup-set_self f c [] i h = cc
lookup-set_self f c (s ∷ t) zero h = ground (arith, lookup-cons f (armed f c) t, bytes_eq_self f)
lookup-set_self f c (s ∷ t) (suc i) h =
    ground (arith, lookup-cons f s (set t i (armed f c)), lookup-set_self f c t i)

lookup-set_free :
    (f : Bytes) (c : ℕ) (t : Table) (i : ℕ)
    → find f t ≡ none
    → find_index is_free t ≡ some i
    → lookup f (set t i (armed f c)) ≡ c
unfolding find_index
lookup-set_free f c [] i n h = cc
lookup-set_free f c (s ∷ t) zero n h = ground (arith, lookup-cons f (armed f c) t, bytes_eq_self f)
lookup-set_free f c (s ∷ t) (suc i) n h =
    ground (arith, lookup-cons f s (set t i (armed f c)), lookup-set_free f c t i)

pub lookup-set_other :
    (g : Bytes) (v : Slot) (t : Table) (i : ℕ)
    → matches g (get_or t i blank) ≡ false
    → matches g v ≡ false
    → lookup g (set t i v) ≡ lookup g t
lookup-set_other g v [] i h k = refl
lookup-set_other g v (s ∷ t) zero h k = ground (arith, lookup-cons g v t, lookup-cons g s t)
lookup-set_other g v (s ∷ t) (suc i) h k =
    ground (arith, lookup-cons g s (set t i v), lookup-cons g s t, lookup-set_other g v t i h k)

pub find_index_sound :
    (p : Slot → Bool) (t : Table) (i : ℕ) → find_index p t ≡ some i → p (get_or t i blank) ≡ true
unfolding find_index
find_index_sound p [] i h = cc
find_index_sound p (s ∷ t) zero h = ground arith
find_index_sound p (s ∷ t) (suc i) h = find_index_sound p t i (ground arith)

pub find_index-lt : (p : Slot → Bool) (t : Table) (i : ℕ) → find_index p t ≡ some i → i < length t
unfolding find_index
find_index-lt p [] i h = cc
find_index-lt p (s ∷ t) zero h = omega arith
find_index-lt p (s ∷ t) (suc i) h = omega (arith, find_index-lt p t i (ground arith))

-- The index that `arm` would write, as a Boolean: there is room for the chip.
abbrev pub has_room : Bytes → Table → Bool
has_room f t = elim (arm_index f t) [ none ↦ false | some i ↦ true ]

pub matches-other : (f g : Bytes) (s : Slot) → matches f s ≡ true → f ≢ g → matches g s ≡ false
matches-other f g s m ne = elim (Bool-cases (bytes_eq s.fid g)) [
  | inr e ↦ ground arith
  | inl e ↦ absurd (ne (sym (bytes_eq_sound s.fid f (ground arith)) ∙ bytes_eq_sound s.fid g e))
]

matches-free : (g : Bytes) (s : Slot) → is_free s ≡ true → matches g s ≡ false
matches-free g s h = ground arith

armed-other : (f g : Bytes) (c : ℕ) → f ≢ g → matches g (armed f c) ≡ false
armed-other f g c ne = elim (Bool-cases (bytes_eq f g)) [
  | inr e ↦ e
  | inl e ↦ absurd (ne (bytes_eq_sound f g e))
]

and_false : (b : Bool) → (b && false) ≡ false
and_false true = refl
and_false false = refl

arm_cases :
    (f g : Bytes) (c : ℕ) (t : Table)
    → (has_room f t ≡ true → lookup f (arm f c t) ≡ c)
      × (f ≢ g → lookup g (arm f c t) ≡ lookup g t)
      × (has_room f t ≡ false → arm f c t ≡ t)
unfolding arm
arm_cases f g c t = elim (Option-cases (find f t)) [
  | inr (i, e) ↦ (
    λ r. ground (arith, lookup-set_self f c t i e),
    λ ne. ground (
      arith,
      lookup-set_other g (armed f c) t i,
      find_index_sound (matches f) t i e,
      matches-other f g (get_or t i blank),
      armed-other f g c ne,
    ),
    λ r. ground arith,
  )
  | inl n ↦ elim (Option-cases (find_index is_free t)) [
    | inr (i, e) ↦ (
      λ r. ground (arith, lookup-set_free f c t i n e),
      λ ne. ground (
        arith,
        lookup-set_other g (armed f c) t i,
        find_index_sound is_free t i e,
        matches-free g (get_or t i blank),
        armed-other f g c ne,
      ),
      λ r. ground arith,
    )
    | inl e ↦ (λ r. ground arith, λ ne. ground arith, λ r. ground arith)
  ]
]

-- After arming chip f with a command, the lookup of a chip gives this command for f itself when the
-- table has a slot for f (its own or a free one), and what it gave before for every other chip, and
-- for every chip when the table has no slot for f.
pub lookup-arm :
    (f g : Bytes) (c : ℕ) (t : Table)
    → lookup g (arm f c t) ≡ (if bytes_eq f g && has_room f t then c else lookup g t)
lookup-arm f g c t = elim (Bool-cases (has_room f t)) [
  | inr full ↦ ap (lookup g) ((arm_cases f g c t).2 full) ∙ simp (full, and_false (bytes_eq f g))
  | inl room ↦ elim (Bool-cases (bytes_eq f g)) [
    | inr ne ↦ (arm_cases f g c t).1 (λ e. absurd (ground (arith, bytes_eq-eq f g e))) ∙ simp ne
    | inl e ↦
        ap (λ h. lookup h (arm f c t)) (sym (bytes_eq_sound f g e))
        ∙ (arm_cases f g c t).0 room
        ∙ simp (e, room)
  ]
]
