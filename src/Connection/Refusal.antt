-- ===== src/Connection/Refusal.antt =====
-- What `receiveMessage` refuses, and what `filterMessage` lets pass.
use pqblockchain.Prelude.{
  some, ◌==◌, Option-cases, ℕ, ◌+◌, ◌≤◌, ◌≡◌, ◌≢◌, ◌⊎◌, inl, inr, refl, true, false, none, List,
  ◌∷◌, ◌++◌, eq→==, ne→==_false, Bool-cases, arith,
}
use pqblockchain.Exceptions.{ok, fault, ◌>>=◌, Ensures, >>=-inverse, ok_subst}
use pqblockchain.Crypto.{Hash}
use pqblockchain.Message.{
  check_message, deserialize_message_header, MessageHeader, Message, get_header_size,
  message_magic_const,
}
use pqblockchain.Message.CheckSum.{encode_message_header, FitsMessageHeader}
use pqblockchain.Message.Payloads.{
  create_message, type_number, version, ack, block_proposal, tx_set_proposal,
}
use pqblockchain.Connection.{
  Connection, Socket, Received, Peeked, failed, closed, header_bytes, peek, accept, receive_message,
  filter_message, read_payload,
}
use pqblockchain.Connection.Delivery.{peek-encode, deserialize_exact}

-- A header whose fields are within their types stands at the start of the stream, and the look at it sees
-- all of it. If it does not have the magic number, there is no message, the connection stays open, and
-- not a byte of the stream is consumed, so that the next call finds the same header. If it has the magic
-- number and a type that is not known, the code reads through a null pointer.
pub receive_message_refused :
    (sha512 : Hash) (h : MessageHeader) (bytes pieces : List ℕ) (p : ℕ) (c : Connection)
    → FitsMessageHeader h
    → get_header_size ≤ p + 1
    → let s : Socket = record { stream = encode_message_header h ++ bytes; pieces = p ∷ pieces } in
      (h.magic_num ≢ message_magic_const
        → receive_message sha512 c s
          ≡ ok (record {
            connection = c;
            socket = record { stream = encode_message_header h ++ bytes; pieces = pieces };
            close_flag = false;
            received_message = none;
          }))
      × (h.magic_num ≡ message_magic_const
          → create_message h ≡ none
          → receive_message sha512 c s ≡ fault)
unfolding receive_message read_payload
receive_message_refused sha512 h bytes pieces p c f wide = (
  λ foreign.
      rw (receive_message, peek-encode h bytes p pieces wide, deserialize_exact h f)
        (rw (◌>>=◌, ne→==_false h.magic_num message_magic_const foreign) refl),
  λ magic unknown.
      rw (receive_message, peek-encode h bytes p pieces wide, deserialize_exact h f)
        (rw (◌>>=◌, eq→== h.magic_num message_magic_const magic, read_payload, unknown) refl),
)

abbrev pub IsProposal : Message → Type 0
IsProposal m =
    ((m.msg_hdr).message_type ≡ type_number block_proposal)
    ⊎ ((m.msg_hdr).message_type ≡ type_number tx_set_proposal)

-- Either a version message over a connection that is not confirmed yet, or any other message but an
-- acknowledgement over a confirmed one, which for a proposal is that of a peer on the unique node list.
abbrev pub IsPassed : Message → Connection → Type 0
IsPassed m c =
    (((m.msg_hdr).message_type ≡ type_number version) × (c.is_confirmed ≡ false))
    ⊎ (((m.msg_hdr).message_type ≢ type_number version)
        × ((m.msg_hdr).message_type ≢ type_number ack)
        × (c.is_confirmed ≡ true)
        × (IsProposal m → c.is_unl ≡ true))

filter_message-IsPassed :
    (m : Message) (c : Connection) → (filter_message m c).1 ≡ true → IsPassed m c
unfolding filter_message
filter_message-IsPassed m c h = ground arith

filter_message-same :
    (m : Message) (c : Connection) → (filter_message m c).1 ≡ true → (filter_message m c).0 ≡ c
unfolding filter_message
filter_message-same m c h = ground arith

-- What a call of `receiveMessage` may leave.
abbrev pub IsReceived : Connection → Received → Type 0
IsReceived c r =
    (r.received_message ≡ none)
    ⊎ ((m : Message) × (r.received_message ≡ some m) × (r.connection ≡ c) × IsPassed m c)

accept-IsReceived :
    (sha512 : Hash) (m : Message) (c : Connection) (s : Socket) → IsReceived c (accept sha512 m c s)
unfolding accept
accept-IsReceived sha512 m c s = elim (Bool-cases (check_message sha512 m)) [
  | inr wrong ↦ rw (wrong, accept) (inl refl)
  | inl right ↦ elim (Bool-cases (filter_message m c).1) [
    | inr dropped ↦ rw (right, accept) (rw dropped (inl refl))
    | inl passed ↦
        rw (right, accept)
          (rw passed
            (inr (m, refl, filter_message-same m c passed, filter_message-IsPassed m c passed)))
  ]
]

read_payload-IsReceived :
    (sha512 : Hash) (h : MessageHeader) (c : Connection) (s : Socket)
    → Ensures (IsReceived c) (read_payload sha512 h c s)
unfolding read_payload
read_payload-IsReceived sha512 h c s r e = elim (Option-cases (create_message h)) [
  | inl unknown ↦ absurd (let no : fault ≡ ok r = rw (unknown, read_payload) at e in cc)
  | inr (m, known) ↦
      ok_subst (IsReceived c) _ r (rw (known, read_payload) at e) (accept-IsReceived sha512 _ c _)
]

Peeked-cases :
    (p : Peeked)
    → (p ≡ failed) ⊎ ((p ≡ closed) ⊎ ((bytes : List ℕ) × (s : Socket) × (p ≡ header_bytes bytes s)))
Peeked-cases failed = inl refl
Peeked-cases closed = inr (inl refl)
Peeked-cases (header_bytes bytes s) = inr (inr (bytes, s, refl))

-- A call that returns a message leaves the connection as it was, and the message may pass it.
pub receive_message-IsReceived :
    (sha512 : Hash) (c : Connection) (s : Socket)
    → Ensures (IsReceived c) (receive_message sha512 c s)
unfolding receive_message
receive_message-IsReceived sha512 c s r e = elim (Peeked-cases (peek s)) [
  | inl none_there ↦ ok_subst (IsReceived c) _ r (rw (none_there, receive_message) at e) (inl refl)
  | inr (inl ended) ↦ ok_subst (IsReceived c) _ r (rw (ended, receive_message) at e) (inl refl)
  | inr (inr (bytes, s', there)) ↦
      let (h, _, later) =
        >>=-inverse (deserialize_message_header bytes) _ r (rw (there, receive_message) at e) in
      elim (Bool-cases ((h.0).magic_num == message_magic_const)) [
        | inr foreign ↦ ok_subst (IsReceived c) _ r (rw foreign at later) (inl refl)
        | inl ours ↦ read_payload-IsReceived sha512 h.0 c s' r (rw ours at later)
      ]
]
