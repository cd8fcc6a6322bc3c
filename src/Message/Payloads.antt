-- ===== src/Message/Payloads.antt =====
-- The kinds of message of src/Network/Message.hpp and Message.cpp, and `MessageCreator`.
use pqblockchain.Prelude.{
  ℕ, zero, suc, ◌*◌, ◌+◌, ◌/◌, ◌%◌, ◌^◌, Option, none, some, List, [], ◌∷◌, ◌||◌, ◌==◌,
  if◌then◌else◌,
}
use pqblockchain.Exceptions.{Result, ok, ◌>>=◌}
use pqblockchain.Serialize.{
  Cursor, serialize_number, deserialize_number, serialize_blob, deserialize_blob,
}
use pqblockchain.Transaction
use pqblockchain.Transaction.{Transaction}
use pqblockchain.Transaction.Set.{TransactionSet}
use pqblockchain.Block
use pqblockchain.Block.{Block, BlockBody}
use pqblockchain.Proposal.OfBlock
use pqblockchain.Proposal.OfBlock.{BlockProposal}
use pqblockchain.Proposal.OfTxSet
use pqblockchain.Proposal.OfTxSet.{TxSetProposal}
use pqblockchain.Account.Addresses.{Account, serialize_account, deserialize_account}
use pqblockchain.Message.{
  MessageHeader, Message, message_magic_const, new_message, get_payload_size, serialize_with,
  deserialize_with,
}

-- `enum class MessageType`.
pub data MessageType : Type 0 where
  version ack inv getdata tx block_proposal tx_set_proposal account block : MessageType

abbrev pub type_number : MessageType → ℕ
type_number version = 0
type_number ack = 1
type_number inv = 50
type_number getdata = 51
type_number tx = 100
type_number block_proposal = 101
type_number tx_set_proposal = 102
type_number account = 104
type_number block = 105

-- `constructMessageHeader` of each of the classes. The size is a `uint32_t`.
abbrev pub construct_message_header : MessageType → ℕ → MessageHeader
construct_message_header type message_size = record {
  magic_num = message_magic_const;
  message_type = type_number type;
  size = message_size % 2 ^ 32;
  check_sum = 0;
}

-- `VersionMessage::version_msg_t`.
pub record VersionData : Type 0 where
  pub version : ℕ
  pub node_type : ℕ
  pub peer_id : ℕ

-- `VersionMessage::getPayloadSize`.
abbrev pub version_payload_size : ℕ
version_payload_size = 4 + 4 + 64

unfoldable pub serialize_version_data : VersionData → Cursor → Result Cursor
serialize_version_data v c = do
  c ← serialize_number 4 v.version c
  c ← serialize_number 4 v.node_type c
  serialize_blob v.peer_id c

-- `VersionMessage::serialize`.
unfoldable pub serialize_version : VersionData → Message → Result Message
unfolding serialize_version_data
serialize_version v m = serialize_with (serialize_version_data v) m

-- `VersionMessage::deserialize`.
unfoldable pub deserialize_version : Message → Result (VersionData × List ℕ)
deserialize_version m =
    deserialize_with {A = VersionData}
      (λ buffer. do
        (number, buffer) ← deserialize_number 4 buffer
        (type, buffer) ← deserialize_number 4 buffer
        (peer, buffer) ← deserialize_blob buffer
        ok (record { version = number; node_type = type; peer_id = peer }, buffer))
      m

-- `AckMessage::serialize`.
unfoldable pub serialize_ack : Message → Result Message
serialize_ack m = serialize_with (λ c. ok c) m

-- `BlockMessage`.
unfoldable pub serialize_block : Block → Message → Result Message
serialize_block b m = serialize_with (Block.serialize b) m

unfoldable pub deserialize_block : TransactionSet → Message → Result (Block × List ℕ)
deserialize_block set m = deserialize_with (Block.deserialize set) m

-- `TransactionMessage`.
unfoldable pub serialize_transaction : Transaction → Message → Result Message
serialize_transaction t m = serialize_with (Transaction.serialize t) m

unfoldable pub deserialize_transaction : Message → Result (Transaction × List ℕ)
deserialize_transaction m = deserialize_with Transaction.deserialize m

-- `AccountMessage`, by the size of a public key.
unfoldable pub serialize_account_message : ℕ → Account → Message → Result Message
serialize_account_message key_size a m = serialize_with (serialize_account key_size a) m

unfoldable pub deserialize_account_message : ℕ → Account → Message → Result (Account × List ℕ)
deserialize_account_message key_size a m = deserialize_with (deserialize_account key_size a) m

-- `BlockProposalMessage`.
unfoldable pub serialize_block_proposal : BlockProposal → Message → Result Message
serialize_block_proposal p m = serialize_with (OfBlock.serialize p) m

unfoldable pub deserialize_block_proposal : Message → Result (BlockProposal × List ℕ)
deserialize_block_proposal m = deserialize_with OfBlock.deserialize m

-- `TxSetProposalMessage`.
unfoldable pub serialize_tx_set_proposal : TxSetProposal → Message → Result Message
serialize_tx_set_proposal p m = serialize_with (OfTxSet.serialize p) m

unfoldable pub deserialize_tx_set_proposal : BlockBody → Message → Result (TxSetProposal × List ℕ)
deserialize_tx_set_proposal body m = deserialize_with (OfTxSet.deserialize body) m

-- `inv_message_t`: the kind of the item (0 for a block, 1 for a transaction, 2 for an account).
pub record InvItem : Type 0 where
  pub request_type : ℕ
  pub item_id : ℕ

-- `InvMessage::getPayloadSize`, and that of `GetDataMessage`.
abbrev pub inv_payload_size : ℕ → ℕ
inv_payload_size count = (4 + 64) * count

unfoldable pub serialize_items : List InvItem → Cursor → Result Cursor
serialize_items [] c = ok c
serialize_items (i ∷ items) c = do
  c ← serialize_number 4 i.request_type c
  c ← serialize_blob i.item_id c
  serialize_items items c

unfoldable pub deserialize_items : ℕ → List ℕ → Result (List InvItem × List ℕ)
deserialize_items zero buffer = ok ([], buffer)
deserialize_items (suc n) buffer = do
  (type, buffer) ← deserialize_number 4 buffer
  (id, buffer) ← deserialize_blob buffer
  (items, buffer) ← deserialize_items n buffer
  ok (record { request_type = type; item_id = id } ∷ items, buffer)

-- `InvMessage::serialize`.
unfoldable pub serialize_inventory : List InvItem → Message → Result Message
unfolding serialize_items
serialize_inventory items m = serialize_with (serialize_items items) m

-- `InvMessage::deserialize`: as many items as fit the payload.
unfoldable pub deserialize_inventory : Message → Result (List InvItem × List ℕ)
unfolding deserialize_items
deserialize_inventory m =
    deserialize_with (deserialize_items (get_payload_size m / inv_payload_size 1)) m

-- `GetDataMessage`, which repeats the code of `InvMessage`.
unfoldable pub serialize_get_data : List InvItem → Message → Result Message
unfolding serialize_items
serialize_get_data items m = serialize_with (serialize_items items) m

unfoldable pub deserialize_get_data : Message → Result (List InvItem × List ℕ)
unfolding deserialize_items
deserialize_get_data m =
    deserialize_with (deserialize_items (get_payload_size m / inv_payload_size 1)) m

-- `MessageCreator::createMessage`: the classes differ in nothing but how they read the payload.
unfoldable pub create_message : MessageHeader → Option Message
create_message h =
    let t : ℕ = h.message_type in
    if (t == 0)
      || (t == 1)
      || (t == 100)
      || (t == 101)
      || (t == 102)
      || (t == 105)
      || (t == 104)
      || (t == 50)
      || (t == 51)
    then some (new_message h)
    else none
