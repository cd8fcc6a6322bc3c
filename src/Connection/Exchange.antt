-- ===== src/Connection/Exchange.antt =====
-- An inventory, or a request for data, from one node to another: InvMessage and GetDataMessage of
-- src/Network/Message.cpp over Connection.cpp.
use pqblockchain.Prelude.{
  ℕ, ◌+◌, ◌^◌, ◌≤◌, ◌<◌, ◌≡◌, ◌∙◌, sym, ap, List, [], ◌∷◌, ◌++◌, All, length, arith,
}
use pqblockchain.Exceptions.{ok}
use pqblockchain.Crypto.{Hash}
use pqblockchain.Message.{Message, get_header_size, new_message}
use pqblockchain.Message.Payloads.{
  MessageType, InvItem, construct_message_header, inv_payload_size, serialize_inventory,
  deserialize_inventory,
}
use pqblockchain.Message.CheckSum.{encode_message_header}
use pqblockchain.Message.Inventory.{
  FitsItem, encode_items, length-encode_items, serialize_inventory-encode,
  deserialize_inventory-encode,
}
use pqblockchain.Connection.{Connection, Socket, send_message, receive_message}
use pqblockchain.Connection.Delivery.{accepted, delivered, receive_message-send_message}

-- An inventory that one node sends is the inventory that the other one reads. The items have numbers
-- within their types and take less than 2^32 bytes, sender and receiver are allowed as many calls as the
-- message has bytes, and the look at the header sees all of it. Then it is serialized without an
-- exception, and the message `m` that is received behind the connection's filter, with the bytes after it
-- left in the stream, deserializes to exactly these items.
pub inventory-delivered :
    (sha512 : Hash) (type : MessageType) (items : List InvItem) (rest out pieces : List ℕ) (p : ℕ)
    (c : Connection)
    → All FitsItem items
    → inv_payload_size (length items) < 256 ^ 4
    → inv_payload_size (length items) + get_header_size ≤ length out
    → inv_payload_size (length items) + get_header_size ≤ length pieces
    → get_header_size ≤ p + 1
    → (sent : Message) × (m : Message) × (s : Socket) × (serialize_inventory items
          (new_message (construct_message_header type (inv_payload_size (length items))))
        ≡ ok sent)
      × (receive_message sha512 c
            (record { stream = send_message sha512 sent out ++ rest; pieces = p ∷ pieces })
          ≡ ok (accepted sha512 m c s))
      × (s.stream ≡ rest)
      × (deserialize_inventory m ≡ ok (items, []))
inventory-delivered sha512 type items rest out pieces p c fits small outgoing incoming wide =
    let size = length-encode_items items in
    let h = construct_message_header type (length (encode_items items)) in
    let m = delivered sha512 type (encode_items items) in
    let (s, received, left) =
      receive_message-send_message sha512 type (encode_items items) rest out pieces p 0 c
        (omega arith) (omega arith) (omega arith) wide in
    (
      record {
        msg_hdr = h;
        buffer = encode_message_header h ++ encode_items items;
        current_message_size = 0;
      },
      m,
      s,
      serialize_inventory-encode type items small
          ∙ ap
              (λ n. ok (record {
                msg_hdr = construct_message_header type n;
                buffer =
                    encode_message_header (construct_message_header type n) ++ encode_items items;
                current_message_size = 0;
              }))
              (sym size),
      received,
      left,
      deserialize_inventory-encode m.msg_hdr items _ fits,
    )
