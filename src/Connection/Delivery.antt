-- ===== src/Connection/Delivery.antt =====
-- From `sendMessage` on one side to `receiveMessage` on the other.
use pqblockchain.Prelude.{
  ℕ, ◌+◌, ◌≤◌, ◌<◌, ◌^◌, ◌≡◌, refl, sym, ap, ◌∙◌, false, none, some, List, [], ◌∷◌, ◌++◌,
  append_assoc, append-nil, length, replicate, length-append, length-replicate, le→leb,
  if◌then◌else◌, ne→==_false, arith,
}
use pqblockchain.Exceptions.{ok}
use pqblockchain.Crypto.{Hash}
use pqblockchain.Message.{
  MessageHeader, Message, get_header_size, new_message, message_magic_const, sum_of,
  deserialize_message_header,
}
use pqblockchain.Message.Payloads.{
  MessageType, type_number, version, ack, inv, getdata, tx, block_proposal, tx_set_proposal,
  account, block, construct_message_header, create_message,
}
use pqblockchain.Message.Fragments.{Holds, new_message-Holds, Holds-whole}
use pqblockchain.Message.CheckSum.{
  encode_message_header, FitsMessageHeader, length-encode_message_header,
  deserialize_message_header-encode, take_header, sealed, sum_of-lt, set_check_sum-encode,
  check_message-sealed,
}
use pqblockchain.Connection.{
  Connection, Socket, header_bytes, peek, filter_message, accept, read_payload, receive_message,
  receive_loop, send_message, Received,
}
use pqblockchain.Connection.Framing.{receive_loop-Holds, send_loop_all}

create_message-known :
    (type : MessageType) (size sum : ℕ)
    → let h = record (construct_message_header type size) { check_sum = sum } in
      create_message h ≡ some (new_message h)
unfolding create_message
create_message-known version size sum = refl
create_message-known ack size sum = refl
create_message-known inv size sum = refl
create_message-known getdata size sum = refl
create_message-known tx size sum = refl
create_message-known block_proposal size sum = refl
create_message-known tx_set_proposal size sum = refl
create_message-known account size sum = refl
create_message-known block size sum = refl

type_number-lt : (type : MessageType) → type_number type < 256 ^ 4
type_number-lt version = omega arith
type_number-lt ack = omega arith
type_number-lt inv = omega arith
type_number-lt getdata = omega arith
type_number-lt tx = omega arith
type_number-lt block_proposal = omega arith
type_number-lt tx_set_proposal = omega arith
type_number-lt account = omega arith
type_number-lt block = omega arith

pub peek-encode :
    (h : MessageHeader) (bytes : List ℕ) (p : ℕ) (pieces : List ℕ)
    → get_header_size ≤ p + 1
    → peek (record { stream = encode_message_header h ++ bytes; pieces = p ∷ pieces })
      ≡ header_bytes
          (encode_message_header h)
          (record { stream = encode_message_header h ++ bytes; pieces = pieces })
unfolding peek
peek-encode h bytes p pieces wide =
    rw
      (
        peek,
        ne→==_false (length (encode_message_header h ++ bytes)) 0 (λ e.
            omega (
              arith,
              length-append (encode_message_header h) bytes,
              length-encode_message_header h,
            )),
        le→leb get_header_size (p + 1) wide,
        take_header h bytes,
        take_header h (replicate get_header_size 0),
      )
      refl

pub deserialize_exact :
    (h : MessageHeader)
    → FitsMessageHeader h
    → deserialize_message_header (encode_message_header h) ≡ ok (h, [])
deserialize_exact h f =
    ap deserialize_message_header (sym (append-nil (encode_message_header h)))
    ∙ deserialize_message_header-encode h [] f

module _ (sha512 : Hash) where
  -- The message that has come, if the payload that was sent is `payload`.
  abbrev pub delivered : MessageType → List ℕ → Message
  delivered type payload =
      let h : MessageHeader =
        sealed sha512 payload (construct_message_header type (length payload)) in
      record {
        msg_hdr = h;
        buffer = encode_message_header h ++ payload;
        current_message_size = length (encode_message_header h ++ payload);
      }

  send_message-delivered :
      (type : MessageType) (payload out : List ℕ) (n : ℕ)
      → length payload + get_header_size ≤ length out
      → let h = construct_message_header type (length payload) in
        send_message sha512
          (record {
            msg_hdr = h;
            buffer = encode_message_header h ++ payload;
            current_message_size = n;
          })
          out
        ≡ (delivered type payload).buffer
  unfolding send_message
  send_message-delivered type payload out n enough =
      let h = construct_message_header type (length payload) in
      rw (set_check_sum-encode sha512 h payload n) (
        send_loop_all _ (delivered type payload).buffer out [] (omega arith) (
          omega (
            arith,
            length-append (encode_message_header (delivered type payload).msg_hdr) payload,
            length-encode_message_header (delivered type payload).msg_hdr,
          )))

  -- What `receiveMessage` leaves, if it gets the message `m` and `s` is left of the socket.
  abbrev pub accepted : Message → Connection → Socket → Received
  accepted m c s = record {
    connection = (filter_message m c).0;
    socket = s;
    close_flag = false;
    received_message = if (filter_message m c).1 then some m else none;
  }

  accept-sealed :
      (h : MessageHeader) (payload : List ℕ) (m : Message) (c : Connection) (s : Socket)
      → h.magic_num ≡ message_magic_const
      → length payload ≡ h.size
      → Holds
          (sealed sha512 payload h)
          (encode_message_header (sealed sha512 payload h) ++ payload)
          m
      → accept sha512 m c s
        ≡ accepted
            (record {
              msg_hdr = sealed sha512 payload h;
              buffer = encode_message_header (sealed sha512 payload h) ++ payload;
              current_message_size =
                  length (encode_message_header (sealed sha512 payload h) ++ payload);
            })
            c
            s
  unfolding accept
  accept-sealed h payload m c s magic size v =
      let h' = sealed sha512 payload h in
      let whole = length-append (encode_message_header h') payload in
      let header = length-encode_message_header h' in
      ap (λ w. accept sha512 w c s)
        (Holds-whole h' (encode_message_header h' ++ payload) m (omega arith) v)
      ∙ (rw (accept, check_message-sealed sha512 h payload magic) refl)

  read_payload-delivered :
      (type : MessageType) (payload rest pieces : List ℕ) (c : Connection)
      → length payload < 256 ^ 4
      → length payload + get_header_size ≤ length pieces
      → (s : Socket) × (read_payload sha512
            (delivered type payload).msg_hdr
            c
            (record { stream = (delivered type payload).buffer ++ rest; pieces = pieces })
          ≡ ok (accepted (delivered type payload) c s))
        × (s.stream ≡ rest)
  unfolding read_payload
  read_payload-delivered type payload rest pieces c small more =
      let m = delivered type payload in
      let whole = length-append (encode_message_header m.msg_hdr) payload in
      let header = length-encode_message_header m.msg_hdr in
      let start : Socket = record { stream = m.buffer ++ rest; pieces = pieces } in
      let fuel = length (new_message m.msg_hdr).buffer in
      let filled = length-replicate {A = ℕ} ((m.msg_hdr).size + get_header_size) 0 in
      let (v, stops) =
        receive_loop-Holds fuel m.msg_hdr [] m.buffer rest pieces (new_message m.msg_hdr)
          (new_message-Holds m.msg_hdr) (omega arith) (omega arith) (omega arith) in
      (
        (receive_loop fuel 0 (new_message m.msg_hdr) start).1,
        rw (read_payload, create_message-known type (length payload) (sum_of sha512 payload))
            (ap ok (
              accept-sealed (construct_message_header type (length payload)) payload _ c _ refl
                (omega arith) v)),
        stops,
      )

  -- A message that one side sends arrives on the other as it was sent. Its header has the magic number,
  -- one of the types and the size of the payload, which is below 2^32. Sender and receiver may cut the
  -- bytes into whatever pieces they like, if each is allowed as many calls as the message has bytes and
  -- the look at the header sees all of it. Then the connection takes exactly the bytes of the message,
  -- and leaves what follows them; the check sum fits; and the message is passed on, its payload
  -- unchanged, or dropped, and the connection confirmed, as `filterMessage` decides.
  pub receive_message-send_message :
      (type : MessageType) (payload rest out pieces : List ℕ) (p n : ℕ) (c : Connection)
      → length payload < 256 ^ 4
      → length payload + get_header_size ≤ length out
      → length payload + get_header_size ≤ length pieces
      → get_header_size ≤ p + 1
      → let h = construct_message_header type (length payload) in
        let m : Message = record {
          msg_hdr = h;
          buffer = encode_message_header h ++ payload;
          current_message_size = n;
        } in
        (s : Socket) × (receive_message sha512 c
            (record { stream = send_message sha512 m out ++ rest; pieces = p ∷ pieces })
          ≡ ok (accepted (delivered type payload) c s))
        × (s.stream ≡ rest)
  unfolding receive_message
  receive_message-send_message type payload rest out pieces p n c small outgoing incoming wide =
      let m = delivered type payload in
      let (s, received, left) = read_payload-delivered type payload rest pieces c small incoming in
      (
        s,
        rw
            (
              send_message-delivered type payload out n outgoing,
              append_assoc (encode_message_header m.msg_hdr) payload rest,
              receive_message,
              peek-encode m.msg_hdr (payload ++ rest) p pieces wide,
              deserialize_exact m.msg_hdr (record {
                magic_fits = omega arith;
                type_fits = type_number-lt type;
                size_fits = omega arith;
                sum_fits = sum_of-lt sha512 payload;
              }),
            )
            (rw (sym (append_assoc (encode_message_header m.msg_hdr) payload rest)) received),
        left,
      )
