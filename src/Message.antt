-- ===== src/Message.antt =====
-- src/Network/Message.hpp and Message.cpp: messages with a header and a check sum. The type of a
-- message is the number of its enumerator, four bytes wide.
pub mod Payloads
pub mod Fragments
pub mod CheckSum
pub mod Inventory
mod Tests
use pqblockchain.Prelude.{
  ℕ, ◌+◌, ◌-◌, Bool, true, false, not, ◌&&◌, List, [], ◌++◌, length, take, drop, replicate, ltb,
  leb, ◌==◌, if◌then◌else◌,
}
use pqblockchain.Exceptions.{Exception, Result, ok, ◌>>=◌, throw_if}
use pqblockchain.Serialize.{
  Cursor, le_bytes, le_number, blob_bytes, serialize_number, deserialize_number, contents,
}
use pqblockchain.Crypto.{Hash}

-- `MESSAGE_MAGIC_CONST`.
abbrev pub message_magic_const : ℕ
message_magic_const = 3481526581

-- `Message::message_hdr_t`.
pub record MessageHeader : Type 0 where
  pub magic_num : ℕ
  pub message_type : ℕ
  pub size : ℕ
  pub check_sum : ℕ

-- `class Message`: `buffer` is the header and the payload.
pub record Message : Type 0 where
  pub msg_hdr : MessageHeader
  pub buffer : List ℕ
  pub current_message_size : ℕ

-- `Message::getHeaderSize`.
abbrev pub get_header_size : ℕ
get_header_size = 4 + 4 + 4 + 4

-- The constructor of `Message`.
abbrev pub new_message : MessageHeader → Message
new_message h = record {
  msg_hdr = h;
  buffer = replicate (h.size + get_header_size) 0;
  current_message_size = 0;
}

-- `Message::getPayloadSize`.
abbrev pub get_payload_size : Message → ℕ
get_payload_size m = length m.buffer - get_header_size

-- `std::memcpy(data.data() + position, bytes, size)`, within the vector.
abbrev pub write_at : ℕ → List ℕ → List ℕ → List ℕ
write_at position bytes buffer =
    take position buffer ++ (bytes ++ drop (position + length bytes) buffer)

-- `Message::setRawData`.
unfoldable pub set_raw_data : List ℕ → Message → Message
set_raw_data bytes m =
    let size : ℕ = if ltb (m.msg_hdr).size (length bytes) then (m.msg_hdr).size else length bytes in
    record m { buffer = write_at get_header_size (take size bytes) m.buffer }

-- `Message::serializeMessageHeader`.
unfoldable pub serialize_message_header : MessageHeader → Cursor → Result Cursor
serialize_message_header h c = throw_if (ltb (length c.room) get_header_size) Exception.message do
  c ← serialize_number 4 h.magic_num c
  c ← serialize_number 4 h.message_type c
  c ← serialize_number 4 h.size c
  serialize_number 4 h.check_sum c

-- `Message::deserializeMessageHeader`.
unfoldable pub deserialize_message_header : List ℕ → Result (MessageHeader × List ℕ)
deserialize_message_header buffer =
    throw_if (ltb (length buffer) get_header_size) Exception.message do
      (magic, buffer) ← deserialize_number 4 buffer
      (type, buffer) ← deserialize_number 4 buffer
      (size, buffer) ← deserialize_number 4 buffer
      (sum, buffer) ← deserialize_number 4 buffer
      ok (record { magic_num = magic; message_type = type; size = size; check_sum = sum }, buffer)

-- `Message::addFragment`. A fragment that is too long is cut, and written at the start of the vector.
unfoldable pub add_fragment : List ℕ → Message → Message
add_fragment fragment m =
    if leb (m.current_message_size + length fragment) (length m.buffer)
    then record m {
      buffer = write_at m.current_message_size fragment m.buffer;
      current_message_size = m.current_message_size + length fragment;
    }
    else if not (length m.buffer == m.current_message_size)
    then record m {
      buffer = write_at 0 (take (length m.buffer - m.current_message_size) fragment) m.buffer;
      current_message_size = length m.buffer;
    }
    else m

module _ (sha512 : Hash) where
  -- The first four bytes of the digest of the payload.
  abbrev pub sum_of : List ℕ → ℕ
  sum_of payload = le_number (take 4 (blob_bytes (sha512 payload)))

  -- `Message::checkMessage`. Four bytes are equal where the numbers that they spell are.
  unfoldable pub check_message : Message → Bool
  check_message m =
      (length m.buffer == m.current_message_size)
      && ((m.msg_hdr).magic_num == message_magic_const)
      && (sum_of (drop get_header_size m.buffer) == (m.msg_hdr).check_sum)

  -- `Message::setCheckSum`.
  unfoldable pub set_check_sum : Message → Message
  set_check_sum m =
      let sum : ℕ = sum_of (drop get_header_size m.buffer) in
      record m {
        msg_hdr = record m.msg_hdr { check_sum = sum };
        buffer = write_at (get_header_size - 4) (le_bytes 4 sum) m.buffer;
      }

-- `serializeHeader` and then the payload, from the start of the vector on.
unfoldable pub serialize_with : (Cursor → Result Cursor) → Message → Result Message
unfolding serialize_message_header
serialize_with payload m = do
  c ← serialize_message_header m.msg_hdr (record { before = []; room = m.buffer })
  c ← payload c
  ok (record m { buffer = contents c })

-- A payload is read from behind the header on.
abbrev pub deserialize_with {ℓ} :
    {A : Type ℓ} → (List ℕ → Result (A × List ℕ)) → Message → Result (A × List ℕ)
deserialize_with payload m = payload (drop get_header_size m.buffer)
