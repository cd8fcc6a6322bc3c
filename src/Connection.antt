-- ===== src/Connection.antt =====
-- src/Network/Connection.hpp and Connection.cpp. A socket is a parameter: a stream of bytes, and how
-- many bytes each of the next calls moves at most. Such a call moves at least one byte where any is
-- there, and none where `pieces` has run out.
pub mod Framing
pub mod Delivery
pub mod Exchange
pub mod Refusal
mod Tests
use pqblockchain.Prelude.{
  ℕ, zero, suc, ◌+◌, ◌-◌, Bool, true, false, not, ◌&&◌, Option, none, some, List, [], ◌∷◌, ◌++◌,
  length, take, drop, replicate, ltb, leb, ◌==◌, if◌then◌else◌,
}
use pqblockchain.Exceptions.{Result, ok, fault, ◌>>=◌}
use pqblockchain.Crypto.{Hash}
use pqblockchain.Message.{
  MessageHeader, Message, message_magic_const, get_header_size, deserialize_message_header,
  add_fragment, check_message, set_check_sum,
}
use pqblockchain.Message.Payloads.{
  MessageType, type_number, block_proposal, tx_set_proposal, version, ack, create_message,
}

-- `class Connection`, without its socket.
pub record Connection : Type 0 where
  pub conn_id : ℕ
  pub is_confirmed : Bool
  pub is_unl : Bool

-- The constructor of `Connection`.
abbrev pub new_connection : ℕ → Bool → Connection
new_connection id is_on_unl = record { conn_id = id; is_confirmed = false; is_unl = is_on_unl }

pub record Socket : Type 0 where
  pub stream : List ℕ
  pub pieces : List ℕ

abbrev pub max_message_size : ℕ
max_message_size = 1400

abbrev pub min : ℕ → ℕ → ℕ
min a b = if leb a b then a else b

-- `sock->Recv` of `wanted` bytes at most: the bytes, or `none` for a result that is not positive.
unfoldable pub recv : ℕ → Socket → Option (List ℕ × Socket)
recv wanted s = elim s.pieces [
  | [] ↦ none
  | p ∷ pieces ↦ elim (length s.stream == 0) [
    | true ↦ none
    | false ↦
        let moved : ℕ = min wanted (p + 1) in
        some (take moved s.stream, record { stream = drop moved s.stream; pieces = pieces })
  ]
]

-- The loop of `receiveMessage`, with fuel.
unfoldable pub receive_loop : ℕ → ℕ → Message → Socket → Message × Socket
receive_loop zero received m s = (m, s)
receive_loop (suc fuel) received m s = elim (ltb received (length m.buffer)) [
  | false ↦ (m, s)
  | true ↦ elim (recv (min (length m.buffer - received) max_message_size) s) [
    | none ↦ (m, s)
    | some (fragment, s') ↦
        receive_loop fuel (received + length fragment) (add_fragment fragment m) s'
  ]
]

-- What a look at the header finds: an error, the end of the stream, or sixteen bytes, which are zeros
-- where fewer have come.
pub data Peeked : Type 0 where
  failed closed : Peeked
  header_bytes : List ℕ → Socket → Peeked

-- The call of `Recv` with `MSG_PEEK`, which leaves the stream as it is.
unfoldable pub peek : Socket → Peeked
peek s = elim s.pieces [
  | [] ↦ failed
  | p ∷ pieces ↦ elim (length s.stream == 0) [
    | true ↦ closed
    | false ↦
        header_bytes
          (take get_header_size
            (take (min get_header_size (p + 1)) s.stream ++ replicate get_header_size 0))
          (record s { pieces = pieces })
  ]
]

-- `Connection::filterMessage`: the connection afterwards, and whether the message is passed on.
unfoldable pub filter_message : Message → Connection → Connection × Bool
filter_message m c =
    let t : ℕ = (m.msg_hdr).message_type in
    if t == type_number ack
    then (record c { is_confirmed = true }, false)
    else if t == type_number version
    then (c, not c.is_confirmed)
    else if t == type_number block_proposal
    then (c, c.is_confirmed && c.is_unl)
    else if t == type_number tx_set_proposal
    then (c, c.is_confirmed && c.is_unl)
    else (c, c.is_confirmed)

-- What `receiveMessage` leaves: the connection, its socket, `closeFlag` and the message, if any.
pub record Received : Type 0 where
  pub connection : Connection
  pub socket : Socket
  pub close_flag : Bool
  pub received_message : Option Message

module _ (sha512 : Hash) where
  -- What `receiveMessage` does with a message that is complete, or as complete as it gets.
  accept : Message → Connection → Socket → Received
  accept m c s = elim (check_message sha512 m) [
    | false ↦ record { connection = c; socket = s; close_flag = false; received_message = none }
    | true ↦
        let (c', passed) = filter_message m c in
        record {
          connection = c';
          socket = s;
          close_flag = false;
          received_message = if passed then some m else none;
        }
  ]

  -- A message of an unknown type is a null pointer, through which the code reads.
  read_payload : MessageHeader → Connection → Socket → Result Received
  unfolding accept
  read_payload h c s = elim (create_message h) [
    | none ↦ fault
    | some m ↦ let (m', s') = receive_loop (length m.buffer) 0 m s in ok (accept m' c s')
  ]

  -- `Connection::receiveMessage`.
  unfoldable pub receive_message : Connection → Socket → Result Received
  unfolding read_payload accept
  receive_message c s = elim (peek s) [
    | failed ↦
        ok (record { connection = c; socket = s; close_flag = false; received_message = none })
    | closed ↦
        ok (record { connection = c; socket = s; close_flag = true; received_message = none })
    | header_bytes bytes s' ↦ do
      (h, _) ← deserialize_message_header bytes
      elim (h.magic_num == message_magic_const) [
        | false ↦
            ok (record { connection = c; socket = s'; close_flag = false; received_message = none })
        | true ↦ read_payload h c s'
      ]
  ]

-- The loop of `sendMessage`, with fuel: what is sent, with the bytes that are left and the calls.
unfoldable pub send_loop : ℕ → List ℕ → List ℕ → List ℕ → List ℕ
send_loop zero left pieces sent = sent
send_loop (suc fuel) left [] sent = sent
send_loop (suc fuel) left (p ∷ pieces) sent = elim (length left == 0) [
  | true ↦ sent
  | false ↦
      let moved : ℕ = min (min (length left) max_message_size) (p + 1) in
      send_loop fuel (drop moved left) pieces (sent ++ take moved left)
]

-- `Connection::sendMessage`: the bytes that go out.
unfoldable pub send_message : Hash → Message → List ℕ → List ℕ
unfolding send_loop
send_message sha512 m pieces =
    let sealed : Message = set_check_sum sha512 m in
    send_loop (length sealed.buffer) sealed.buffer pieces []
