-- ===== src/ConnectionManager/Requests.antt =====
-- The requests of `ConnectionManager` (src/Network/MessageManagement.hpp). A text such as the name of
-- a peer is a number: a text of n characters is 256 ^ n plus the number that its characters spell.
use pqblockchain.Prelude.{ℕ, Bool, List, [], ◌∷◌, ltb, if◌then◌else◌}
use pqblockchain.Message.{Message}

-- `enum class MessageRequestType`.
pub data RequestType : Type 0 where
  one broadcast unlcast : RequestType

-- `MessageRequest_t`.
pub record MessageRequest : Type 0 where
  pub request_type : RequestType
  pub connection_id : ℕ
  pub peer_id : ℕ
  pub message : Message

-- `ConnectionRequest_t`.
pub record ConnectionRequest : Type 0 where
  pub peer_id : ℕ
  pub set_as_unl : Bool

-- The empty text.
abbrev pub no_name : ℕ
no_name = 1

-- The place of an element in a `std::priority_queue` by the type of its message, the greatest first.
-- The order of equals is left open by the standard; here the one that was pushed first comes first.
module _ {ℓ} {A : Type ℓ} (type_of : A → ℕ) where
  unfoldable pub push : A → List A → List A
  push a [] = a ∷ []
  push a (b ∷ queue) = if ltb (type_of b) (type_of a) then a ∷ (b ∷ queue) else b ∷ push a queue

-- `MessageRequestComparator`.
abbrev pub request_priority : MessageRequest → ℕ
request_priority r = ((r.message).msg_hdr).message_type

-- `ConnectionManager::addMessageRequest`.
unfoldable pub add_message_request : MessageRequest → List MessageRequest → List MessageRequest
unfolding push
add_message_request r queue = push request_priority r queue
