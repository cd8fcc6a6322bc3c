-- ===== src/Connection/Tests.antt =====
-- Connections with concrete messages, and what the theorems say of them.
use pqblockchain.Prelude.{
  ℕ, ◌≡◌, ◌≢◌, true, false, none, List, [], ◌∷◌, ◌++◌, length, replicate, arith,
}
use pqblockchain.Exceptions.{ok, fault}
use pqblockchain.Crypto.{Hash}
use pqblockchain.Message.{MessageHeader, Message, message_magic_const, new_message}
use pqblockchain.Message.Payloads.{
  InvItem, inv, construct_message_header, inv_payload_size, serialize_inventory,
  deserialize_inventory, create_message,
}
use pqblockchain.Message.CheckSum.{encode_message_header}
use pqblockchain.Connection.{Connection, Socket, send_message, receive_message}
use pqblockchain.Connection.Delivery.{accepted, delivered, receive_message-send_message}
use pqblockchain.Connection.Exchange.{inventory-delivered}
use pqblockchain.Connection.Refusal.{receive_message_refused}

-- The length of the bytes, as a digest.
abbrev length_hash : Hash
length_hash bytes = length bytes

abbrev peer : Connection
peer = record { conn_id = 3; is_confirmed = true; is_unl = false }

abbrev three_bytes : List ℕ
three_bytes = 7 ∷ (8 ∷ (9 ∷ []))

abbrev greeting : Message
greeting = record {
  msg_hdr = construct_message_header inv 3;
  buffer = encode_message_header (construct_message_header inv 3) ++ three_bytes;
  current_message_size = 0;
}

-- Sent five bytes at a time, received two at a time.
receive_message-send_message_example :
    (s : Socket) × (receive_message length_hash peer (record {
      stream = send_message length_hash greeting (replicate 19 4) ++ (1 ∷ []);
      pieces = 15 ∷ replicate 19 1;
    })
      ≡ ok (accepted length_hash (delivered length_hash inv three_bytes) peer s))
    × (s.stream ≡ 1 ∷ [])
receive_message-send_message_example =
    receive_message-send_message length_hash inv three_bytes (1 ∷ []) (replicate 19 4)
      (replicate 19 1) 15 0 peer (omega arith) (omega arith) (omega arith) (omega arith)

abbrev one_item : List InvItem
one_item = record { request_type = 1; item_id = 77 } ∷ []

inventory-delivered_example :
    (sent : Message) × (m : Message) × (s : Socket) × (serialize_inventory one_item
        (new_message (construct_message_header inv (inv_payload_size 1)))
      ≡ ok sent)
    × (receive_message length_hash peer (record {
      stream = send_message length_hash sent (replicate 84 1399) ++ [];
      pieces = 15 ∷ replicate 84 9;
    })
        ≡ ok (accepted length_hash m peer s))
    × (s.stream ≡ [])
    × (deserialize_inventory m ≡ ok (one_item, []))
inventory-delivered_example =
    inventory-delivered length_hash inv one_item [] (replicate 84 1399) (replicate 84 9) 15 peer
      (record { request_fits = omega arith; item_fits = omega arith }, tt) (omega arith)
      (omega arith) (omega arith) (omega arith)

abbrev foreign_header : MessageHeader
foreign_header = record { magic_num = 5; message_type = 0; size = 0; check_sum = 0 }

receive_message_refused_example :
    (foreign_header.magic_num ≢ message_magic_const
      → receive_message length_hash peer (record {
        stream = encode_message_header foreign_header ++ three_bytes;
        pieces = 20 ∷ [];
      })
        ≡ ok (record {
          connection = peer;
          socket = record {
            stream = encode_message_header foreign_header ++ three_bytes;
            pieces = [];
          };
          close_flag = false;
          received_message = none;
        }))
    × (foreign_header.magic_num ≡ message_magic_const
        → create_message foreign_header ≡ none
        → receive_message length_hash peer (record {
          stream = encode_message_header foreign_header ++ three_bytes;
          pieces = 20 ∷ [];
        })
          ≡ fault)
receive_message_refused_example =
    receive_message_refused length_hash foreign_header three_bytes [] 20 peer
      (record {
        magic_fits = omega arith;
        type_fits = omega arith;
        size_fits = omega arith;
        sum_fits = omega arith;
      })
      (omega arith)
