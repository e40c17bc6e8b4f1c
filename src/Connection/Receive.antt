-- ===== src/Connection/Receive.antt =====
-- The read loop of a connection on any stream of bytes.
use hyper_share.Prelude.{
  ℕ, zero, suc, ◌+◌, ◌≤◌, ◌<◌, ◌≡◌, ◌≢◌, refl, inl, inr, ◌⊎◌, length, take, drop, length-take,
  length-drop, arith, All, ap, ◌∙◌, true,
}
use hyper_share.Wire.{Bytes}
use hyper_share.Wire.Prefix.{Result-cases}
use hyper_share.Protocol.Header.{
  MessageHeader, message_header_size, deserialize, verify_checksum, is_valid,
}
use hyper_share.Connection.{
  Outcome, Turn, Message, message, closed, out_of_fuel, do_read_payload, do_read_header, read_loop,
  receive, max_payload,
}

do_read_payload_shrinks :
    (h header : MessageHeader) (stream payload rest : Bytes)
    → do_read_payload h stream ≡ message header payload rest
    → length rest ≤ length stream
unfolding do_read_payload
do_read_payload_shrinks h header stream payload rest e =
    ground (arith, length-drop h.payload_size stream)

-- What a turn leaves is at least a header shorter.
do_read_header_shrinks :
    (stream : Bytes) (header : MessageHeader) (payload rest : Bytes)
    → do_read_header stream ≡ message header payload rest
    → length rest + message_header_size ≤ length stream
unfolding do_read_header
do_read_header_shrinks stream header payload rest e =
    elim (Result-cases (deserialize (take message_header_size stream))) [
      | inl (h, q) ↦ ground (
        arith,
        q,
        length-drop message_header_size stream,
        do_read_payload_shrinks h header (drop message_header_size stream) payload rest,
      )
      | inr (x, q) ↦ ground (arith, q)
    ]

do_read_payload-ne-fuel :
    (h : MessageHeader) (stream : Bytes) → do_read_payload h stream ≢ closed out_of_fuel
unfolding do_read_payload
do_read_payload-ne-fuel h stream e = ground arith

do_read_header-ne-fuel : (stream : Bytes) → do_read_header stream ≢ closed out_of_fuel
unfolding do_read_header
do_read_header-ne-fuel stream e =
    elim (Result-cases (deserialize (take message_header_size stream))) [
      | inl (h, q) ↦ ground (arith, q, do_read_payload-ne-fuel h (drop message_header_size stream))
      | inr (x, q) ↦ ground (arith, q)
    ]

Turn-cases :
    (t : Turn)
    → ((h : MessageHeader) × (p : Bytes) × (rest : Bytes) × (t ≡ message h p rest))
      ⊎ ((o : Outcome) × (t ≡ closed o))
Turn-cases (message h p rest) = inl (h, p, rest, refl)
Turn-cases (closed o) = inr (o, refl)

read_loop-ne-fuel :
    (fuel : ℕ) (stream : Bytes)
    → length stream < fuel
    → (read_loop fuel stream).outcome ≢ out_of_fuel
unfolding read_loop
read_loop-ne-fuel zero stream h = absurd (omega arith)
read_loop-ne-fuel (suc fuel) stream h = elim (Turn-cases (do_read_header stream)) [
  | inl (header, payload, rest, e) ↦
      rw (e, read_loop)
        (read_loop-ne-fuel fuel rest
          (omega (arith, do_read_header_shrinks stream header payload rest e)))
  | inr (o, e) ↦ rw (e, read_loop) λ q. do_read_header-ne-fuel stream (e ∙ ap closed q)
]

-- The loop ends for a reason of the source on every stream: the fuel of `receive` is enough.
pub receive-ne-fuel : (stream : Bytes) → (receive stream).outcome ≢ out_of_fuel
unfolding receive
receive-ne-fuel stream = read_loop-ne-fuel (suc (length stream)) stream (omega arith)

-- What the message handler may rely on.
pub record IsSound (m : Message) : Type 0 where
  pub header_valid : is_valid m.0 ≡ true
  pub payload_sized : length m.1 ≡ m.0.payload_size
  pub payload_bounded : m.0.payload_size ≤ max_payload
  pub payload_checked : (m.0.payload_size ≡ 0) ⊎ (verify_checksum m.0 m.1 ≡ true)

do_read_payload-IsSound :
    (h header : MessageHeader) (stream payload rest : Bytes)
    → do_read_payload h stream ≡ message header payload rest
    → is_valid h ≡ true
    → IsSound (header, payload)
unfolding do_read_payload
do_read_payload-IsSound h header stream payload rest e v =
    ground (arith, length-take h.payload_size stream)

do_read_header-IsSound :
    (stream : Bytes) (header : MessageHeader) (payload rest : Bytes)
    → do_read_header stream ≡ message header payload rest
    → IsSound (header, payload)
unfolding do_read_header
do_read_header-IsSound stream header payload rest e =
    elim (Result-cases (deserialize (take message_header_size stream))) [
      | inl (h, q) ↦ ground (
        arith,
        q,
        do_read_payload-IsSound h header (drop message_header_size stream) payload rest,
      )
      | inr (x, q) ↦ ground (arith, q)
    ]

read_loop-IsSound : (fuel : ℕ) (stream : Bytes) → All IsSound (read_loop fuel stream).delivered
unfolding read_loop
read_loop-IsSound zero stream = tt
read_loop-IsSound (suc fuel) stream = elim (Turn-cases (do_read_header stream)) [
  | inl (header, payload, rest, e) ↦
      rw (e, read_loop)
        (do_read_header-IsSound stream header payload rest e, read_loop-IsSound fuel rest)
  | inr (o, e) ↦ rw (e, read_loop) tt
]

-- On any stream, every message that reaches the handler has a valid header, a payload of the size
-- that the header says and of 10 MB at most, and a payload that is empty or passes the checksum.
pub receive-IsSound : (stream : Bytes) → All IsSound (receive stream).delivered
unfolding receive
receive-IsSound stream = read_loop-IsSound (suc (length stream)) stream
