-- ===== src/Message/Tests.antt =====
-- Messages put together from concrete fragments, and what the theorems say of them.
use pqblockchain.Prelude.{
  ◌+◌, ℕ, ◌-◌, ◌≤◌, ◌<◌, ◌≡◌, List, ◌++◌, length, take, drop, replicate, arith,
}
use pqblockchain.Message.{MessageHeader, Message, new_message, add_fragment}
use pqblockchain.Message.Fragments.{add_fragment_bounds}

abbrev two_byte_header : MessageHeader
two_byte_header = record { magic_num = 1; message_type = 50; size = 2; check_sum = 0 }

-- Ten of eighteen bytes have come.
abbrev part : Message
part = add_fragment (replicate 10 3) (new_message two_byte_header)

abbrev long_fragment : List ℕ
long_fragment = replicate 9 6

add_fragment_bounds_example :
    (length (add_fragment long_fragment part).buffer ≡ length part.buffer)
    × (part.current_message_size ≤ (add_fragment long_fragment part).current_message_size)
    × ((add_fragment long_fragment part).current_message_size ≤ length part.buffer)
    × (part.current_message_size ≡ length part.buffer
        → 0 < length long_fragment
        → add_fragment long_fragment part ≡ part)
    × (part.current_message_size < length part.buffer
        → length part.buffer < part.current_message_size + length long_fragment
        → let missing = length part.buffer - part.current_message_size in
          ((add_fragment long_fragment part).buffer
            ≡ take missing long_fragment ++ drop missing part.buffer)
          × ((add_fragment long_fragment part).current_message_size ≡ length part.buffer))
unfolding add_fragment
add_fragment_bounds_example = add_fragment_bounds long_fragment part (omega arith)
