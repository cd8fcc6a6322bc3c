-- ===== src/Serialize.antt =====
-- src/Common/Serialize.hpp and the copies (`std::memcpy`) beside it. A buffer that is written is
-- cut at its offset: `before` holds the bytes below the offset, `room` those from it on, so the
-- offset is `length before` and `buffer.size() - offset` is `length room`. A buffer that is read
-- is the list of its bytes from the offset on. No offset passes the buffer's end in this form: a
-- copy that would go further is a `fault`. Numbers are stored as on the little-endian machines
-- that the program targets.
mod Bytes
mod Fields
mod Within
mod Bounded
unfoldable pub use Bytes.*
unfoldable pub use Fields.*
pub use Within.*
pub use Bounded.*
