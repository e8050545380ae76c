-- ===== src/Node/Exchange.antt =====
-- The gateway's downlink frames at a node, and the node's ACK at the gateway.
use bramka_setup.Base.{
  ◌≢◌, ◌⊎◌, inl, inr, Bool-cases, ◌==◌, subst, take, true, some, byte, length-take, ◌-◌, ℕ, ◌+◌,
  ◌≤◌, ◌≡◌, arith, [], ◌∷◌, Bytes, drop, length, append_assoc, if◌then◌else◌, ap₂, ◌∙◌,
}
use bramka_setup.Shared.NodeProtocol.{
  NodeFrame, frame_factory_id, frame_msg, msg_id, msg_length, addr_gateway,
}
use bramka_setup.Concentrator.Transmit.{frame_of, any_set}
use bramka_setup.Rf.{
  is_ack, load_nul, Reception, message_of, tag_v2, sealed, checksum, bytes_eq, reply_ack,
}
use bramka_setup.Rf.Equality.{bytes_eq-eq, bytes_eq-ne}
use bramka_setup.Rf.Frames.{
  body_v2, buffer, length-sealed, buffer-last, sealed-last, buffer-checksum_ok, buffer-fid,
  buffer-message,
}
use bramka_setup.Node.{Node, Downlink, node_receive, receive_from, accept, extract}

-- A node's reception of an 'E' frame for its address is decided by the factory id.
receive_from-buffer :
    (s : Node) (src seq : ℕ) (fid m tail : Bytes) (hf : length fid ≡ 8)
    → length m ≤ 44
    → receive_from s (length m + 13) (buffer s.address src seq fid m tail hf) ≡ (
        if bytes_eq fid s.factory_id
        then Reception.received (record {
          reply = src ∷ reply_ack ∷ s.address ∷ checksum (body_v2 src fid m seq) ∷ [];
          message = message_of m;
        })
        else Reception.ignored)
unfolding receive_from accept extract
receive_from-buffer s src seq fid m tail hf hm = ground (
  arith,
  buffer-checksum_ok s.address src seq fid m tail hf,
  buffer-fid s.address src seq fid m tail hf,
  buffer-message s.address src seq fid m tail hf,
  buffer-last s.address src seq fid m tail hf,
)

node_receive-sealed :
    (s : Node) (src seq : ℕ) (fid m : Bytes)
    → length fid ≡ 8
    → length m ≤ 44
    → node_receive s (sealed s.address tag_v2 (body_v2 src fid m seq)) ≡ (
        if bytes_eq fid s.factory_id
        then Reception.received (record {
          reply = src ∷ reply_ack ∷ s.address ∷ checksum (body_v2 src fid m seq) ∷ [];
          message = message_of m;
        })
        else Reception.ignored)
node_receive-sealed s src seq fid m hf hm =
    let f : Bytes = sealed s.address tag_v2 (body_v2 src fid m seq) in
    let old : Bytes = drop (length f + 1) s.rx in
    ap₂ (receive_from s) (length-sealed s.address src seq fid m (0 ∷ old) hf)
      (append_assoc f (0 ∷ []) old)
    ∙ receive_from-buffer s src seq fid m (0 ∷ old) hf hm

-- Another address than the frame's first byte: the packet is ignored, whatever it holds.
node_receive-elsewhere :
    (s : Node) (dest tag : ℕ) (body : Bytes)
    → s.address ≢ dest
    → node_receive s (sealed dest tag body) ≡ Reception.ignored
unfolding receive_from
node_receive-elsewhere s dest tag body ne = ground (arith, ne)

-- What a node at the address `a` makes of the frame.
abbrev taken : Node → ℕ → ℕ → ℕ → Bytes → Bytes → Reception Downlink
taken s a src seq fid m =
    if bytes_eq fid s.factory_id
    then Reception.received (record {
      reply = src ∷ reply_ack ∷ a ∷ checksum (body_v2 src fid m seq) ∷ [];
      message = message_of m;
    })
    else Reception.ignored

-- A downlink reaches the chip it names and no other: for a NodeFrame of 52 bytes with a factory id
-- and a length field of at most 44, the gateway sends a frame; a node with the message's address
-- and the factory id takes exactly the message's first bytes (as many as its length field says, the
-- rest zero) and sends a reply that the gateway, whatever its receive buffer held, takes for the
-- frame's ACK; and a node with another address or another factory id ignores the frame.
pub downlink_lem :
    (seq : ℕ) (nf : NodeFrame) (s : Node)
    → length nf ≡ 52
    → msg_length (frame_msg nf) ≤ 44
    → any_set (frame_factory_id nf) ≡ true
    → (f : Bytes) × (frame_of seq nf ≡ some f)
      × (s.address ≡ msg_id (frame_msg nf)
          → frame_factory_id nf ≡ s.factory_id
          → (r : Bytes) × (node_receive s f
              ≡ Reception.received (record {
                reply = r;
                message = message_of (take (msg_length (frame_msg nf)) (frame_msg nf));
              }))
            × ((buf : Bytes)
                → is_ack addr_gateway (byte f 0) (byte f (length f - 1)) (load_nul r buf) ≡ true))
      × ((s.address ≢ msg_id (frame_msg nf)) ⊎ (frame_factory_id nf ≢ s.factory_id)
          → node_receive s f ≡ Reception.ignored)
unfolding frame_of is_ack
downlink_lem seq nf s hn hl set =
    let fid : Bytes = frame_factory_id nf in
    let m : Bytes = take (msg_length (frame_msg nf)) (frame_msg nf) in
    let to : ℕ = msg_id (frame_msg nf) in
    let f : Bytes = sealed to tag_v2 (body_v2 addr_gateway fid m seq) in
    let hf : length fid ≡ 8 = omega (arith, length-take 8 nf) in
    let hm : length m ≤ 44 =
      omega (arith, length-take (msg_length (frame_msg nf)) (frame_msg nf)) in
    let last = sealed-last to addr_gateway seq fid m hf in
    let rx = λ (e : s.address ≡ to).
      subst
        (λ a.
          node_receive s (sealed a tag_v2 (body_v2 addr_gateway fid m seq))
          ≡ taken s a addr_gateway seq fid m)
        e (node_receive-sealed s addr_gateway seq fid m hf hm) in
    (
      f,
      ground arith,
      λ e same. (
        addr_gateway ∷ reply_ack ∷ to ∷ checksum (body_v2 addr_gateway fid m seq) ∷ [],
        rx e ∙ simp (bytes_eq-eq fid s.factory_id same),
        λ buf. ground arith,
      ),
      λ o. elim o [
        | inl ne ↦ node_receive-elsewhere s to tag_v2 (body_v2 addr_gateway fid m seq) ne
        | inr other ↦ elim (Bool-cases (s.address == to)) [
          | inl y ↦ rx (ground (arith, y)) ∙ simp (bytes_eq-ne fid s.factory_id other)
          | inr n ↦
              node_receive-elsewhere s to tag_v2 (body_v2 addr_gateway fid m seq)
                (λ e. absurd (ground (arith, e, n)))
        ]
      ],
    )
