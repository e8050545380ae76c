-- ===== src/Comms/Ring/Queue.antt =====
-- The receive ring of ipc_rpmsg_echo.c as a queue of at most three messages.
use bramka_setup.Base.{
  ◌≤◌, some, none, take, length, true, false, ℕ, zero, suc, ◌+◌, ◌-◌, ◌%◌, ◌<◌, ◌≡◌, refl, ap, ap₂,
  arith, List, [], ◌∷◌, ◌++◌, if◌then◌else◌, Bytes, ◌==◌, ◌∙◌,
}
use bramka_setup.Comms.Ring.{
  Ring, rx_ring_slots, max_msg_size, linux_msg_callback, has_message, front, advance, next_index,
}

-- Both indices are below the number of slots.
abbrev pub IsRing : Ring → Type 0
IsRing r = (r.head < rx_ring_slots) × (r.tail < rx_ring_slots)

abbrev pub used : Ring → ℕ
used r = (r.head + rx_ring_slots - r.tail) % rx_ring_slots

-- n messages from slot i on
abbrev pub messages_from : (ℕ → Bytes) → ℕ → ℕ → List Bytes
messages_from f i zero = []
messages_from f i (suc n) = f i ∷ messages_from f (next_index i) n

-- The abstract queue, oldest message first.
abbrev pub messages : Ring → List Bytes
messages r = messages_from r.slot r.tail (used r)

messages_from-write :
    (f : ℕ → Bytes) (v : Bytes) (h n i : ℕ)
    → i < 4
    → n < 4
    → h ≡ (i + n) % 4
    → messages_from (λ j. if j == h then v else f j) i n ≡ messages_from f i n
messages_from-write f v h zero i a b e = refl
messages_from-write f v h (suc n) i a b e =
    ap₂ (λ x xs. x ∷ xs) (ground arith)
      (messages_from-write f v h n (next_index i) (omega arith) (omega arith) (omega arith))

messages_from-snoc :
    (f : ℕ → Bytes) (n i : ℕ)
    → i < 4
    → messages_from f i (suc n) ≡ messages_from f i n ++ f ((i + n) % 4) ∷ []
messages_from-snoc f zero i a = ap (λ j. f j ∷ []) {x = i} {y = (i + 0) % 4} (omega arith)
messages_from-snoc f (suc n) i a =
    ap (λ xs. f i ∷ xs)
      (messages_from-snoc f n (next_index i) (omega arith)
        ∙ ap (λ j. messages_from f (next_index i) n ++ f j ∷ []) {x = (next_index i + n) % 4}
            {y = (i + suc n) % 4} (omega arith))

length-messages_from : (f : ℕ → Bytes) (n i : ℕ) → length (messages_from f i n) ≡ n
length-messages_from f zero i = refl
length-messages_from f (suc n) i = ap suc (length-messages_from f n (next_index i))

-- The ring after a callback that finds room.
abbrev pub written : Bytes → Ring → Ring
written bytes r = record r {
  slot = λ j. if j == r.head then take (max_msg_size - 1) bytes else r.slot j;
  head = next_index r.head;
}

messages-written :
    (bytes : Bytes) (r : Ring)
    → IsRing r
    → length (messages r) < 3
    → messages (written bytes r) ≡ messages r ++ take (max_msg_size - 1) bytes ∷ []
messages-written bytes r (hh, ht) room =
    let v : Bytes = take (max_msg_size - 1) bytes in
    let f : ℕ → Bytes = λ j. if j == r.head then v else r.slot j in
    let len = length-messages_from r.slot (used r) r.tail in
    ap (messages_from f r.tail) {x = used (written bytes r)} {y = suc (used r)} (omega arith)
    ∙ messages_from-snoc f (used r) r.tail ht
    ∙ ap₂ (λ xs x. xs ++ x ∷ []) {u = f ((r.tail + used r) % 4)} {v = v}
        (messages_from-write r.slot v r.head (used r) r.tail ht (omega arith) (omega arith))
        (ground (arith, at_head))
  where
    at_head : (r.tail + used r) % 4 ≡ r.head
    at_head = omega arith

-- In a ring with valid indices the receive callback appends the message's first 255 bytes to the
-- queue of messages when fewer than three wait, keeps the indices valid and leaves the message that
-- the COMMS task may be reading where it is; when three wait it drops the new message.
pub linux_msg_callback_lem :
    (bytes : Bytes) (remote : ℕ) (r : Ring)
    → IsRing r
    → (length (messages r) < 3
        → (r' : Ring) × (linux_msg_callback bytes remote r ≡ some (r', remote))
          × IsRing r'
          × (messages r' ≡ messages r ++ take (max_msg_size - 1) bytes ∷ [])
          × (has_message r ≡ true → front r' ≡ front r))
      × (3 ≤ length (messages r) → linux_msg_callback bytes remote r ≡ none)
unfolding linux_msg_callback
linux_msg_callback_lem bytes remote r (hh, ht) =
    let len = length-messages_from r.slot (used r) r.tail in
    (
      λ room. (
        written bytes r,
        ground arith,
        (omega arith, ht),
        messages-written bytes r (hh, ht) room,
        λ m. ground arith,
      ),
      λ full. ground arith,
    )

-- While a message waits in a ring with valid indices, the message the COMMS task reads is the
-- oldest of the queue, and advancing the tail removes exactly it; when the loop's test says that
-- none waits, the queue is empty.
pub advance_lem :
    (r : Ring)
    → IsRing r
    → (has_message r ≡ true → IsRing (advance r) × (messages r ≡ front r ∷ messages (advance r)))
      × (has_message r ≡ false → messages r ≡ [])
advance_lem r (hh, ht) = (
  λ m. (
    (hh, omega arith),
    ap (messages_from r.slot r.tail) {x = used r} {y = suc (used (advance r))} (ground arith),
  ),
  λ e. ap (messages_from r.slot r.tail) {x = used r} {y = 0} (ground arith),
)
