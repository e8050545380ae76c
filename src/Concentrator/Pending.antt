-- ===== src/Concentrator/Pending.antt =====
-- radio_task.c, the pending-command table: the command that a chip is to get in a NACK.
-- The interrupt lock makes each operation one step.
pub mod Lookup
pub mod Unique
use bramka_setup.Base.{
  ℕ, suc, Bool, true, false, not, ◌&&◌, Option, none, some, List, [], ◌∷◌, if◌then◌else◌, Bytes,
  get_or, set, replicate,
}
use bramka_setup.Rf.{bytes_eq}

pub record Slot : Type 0 where
  pub fid : Bytes
  pub cmd : ℕ
  pub used : Bool

abbrev pub Table : Type 0
Table = List Slot

abbrev pub pending_max : ℕ
pending_max = 8

abbrev pub blank : Slot
blank = record { fid = replicate 8 0; cmd = 0; used = false }

-- `gPending` at start-up
abbrev pub empty : Table
empty = replicate pending_max blank

abbrev pub matches : Bytes → Slot → Bool
matches fid s = s.used && bytes_eq s.fid fid

abbrev pub is_free : Slot → Bool
is_free s = not s.used

-- the first index whose slot passes the test
unfoldable pub find_index : (Slot → Bool) → Table → Option ℕ
find_index p [] = none
find_index p (s ∷ t) =
    if p s then some 0 else elim (find_index p t) [ none ↦ none | some i ↦ some (suc i) ]

-- `pending_find_locked`
abbrev pub find : Bytes → Table → Option ℕ
find fid t = find_index (matches fid) t

-- `pending_lookup`: 0 for a chip with no pending command
unfoldable pub lookup : Bytes → Table → ℕ
lookup fid t = elim (find fid t) [ none ↦ 0 | some i ↦ (get_or t i blank).cmd ]

abbrev pub armed : Bytes → ℕ → Slot
armed fid cmd = record { fid = fid; cmd = cmd; used = true }

-- the index that `pending_arm` writes: the chip's slot, or else the first free one
abbrev pub arm_index : Bytes → Table → Option ℕ
arm_index fid t = elim (find fid t) [ none ↦ find_index is_free t | some i ↦ some i ]

-- `pending_arm`: a full table drops the command
unfoldable pub arm : Bytes → ℕ → Table → Table
arm fid cmd t = elim (arm_index fid t) [ none ↦ t | some i ↦ set t i (armed fid cmd) ]

-- `pending_disarm`
unfoldable pub disarm : Bytes → Table → Table
disarm fid t = elim (find fid t) [
  | none ↦ t
  | some i ↦ set t i (record (get_or t i blank) { used = false })
]
