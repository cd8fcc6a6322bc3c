-- ===== src/Message/CheckSum.antt =====
-- The bytes of a message, and what its check sum ensures.
use pqblockchain.Prelude.{
  ℕ, ◌+◌, ◌-◌, ◌^◌, ◌≤◌, ◌<◌, ◌≡◌, refl, sym, ap, ◌∙◌, true, List, [], ◌∷◌, ◌++◌, append_assoc,
  append-nil, length, take, drop, All-take, length-append, length-take_le, length-drop, take-append,
  drop-append, length-replicate, replicate, eq→==, le→ltb_false, arith,
}
use pqblockchain.Exceptions.{Result, ok}
use pqblockchain.Serialize.{
  Cursor, put, advance, put-fits, put-put, put-put_then, le_bytes, blob_bytes, length-le_bytes,
  length-blob_bytes, serialize_number, deserialize_number-le_bytes, contents, le_number-lt,
  blob_bytes-IsBytes,
}
use pqblockchain.Crypto.{Hash}
use pqblockchain.Message.{
  MessageHeader, get_header_size, message_magic_const, new_message, write_at, sum_of,
  serialize_message_header, deserialize_message_header, check_message, set_check_sum,
  serialize_with,
}
use pqblockchain.Message.Fragments.{write_at-append}

unfoldable pub encode_message_header : MessageHeader → List ℕ
encode_message_header h =
    le_bytes 4 h.magic_num
    ++ (le_bytes 4 h.message_type ++ (le_bytes 4 h.size ++ le_bytes 4 h.check_sum))

-- The fields are within the ranges of their types.
pub record FitsMessageHeader (h : MessageHeader) : Type 0 where
  pub magic_fits : h.magic_num < 256 ^ 4
  pub type_fits : h.message_type < 256 ^ 4
  pub size_fits : h.size < 256 ^ 4
  pub sum_fits : h.check_sum < 256 ^ 4

pub length-encode_message_header :
    (h : MessageHeader) → length (encode_message_header h) ≡ get_header_size
unfolding encode_message_header
length-encode_message_header h = simp (length-append, length-le_bytes) refl

serialize_message_header-put :
    (h : MessageHeader) (c : Cursor)
    → get_header_size ≤ length c.room
    → serialize_message_header h c ≡ put (encode_message_header h) c
unfolding serialize_message_header serialize_number encode_message_header
serialize_message_header-put h c r =
    rw (le→ltb_false (length c.room) get_header_size r) (simp (put-put_then, put-put, append_assoc))

pub deserialize_message_header-encode :
    (h : MessageHeader) (rest : List ℕ)
    → FitsMessageHeader h
    → deserialize_message_header (encode_message_header h ++ rest) ≡ ok (h, rest)
unfolding deserialize_message_header
deserialize_message_header-encode h rest f =
    rw
      (le→ltb_false (length (encode_message_header h ++ rest)) get_header_size (
        omega
          (arith, length-append (encode_message_header h) rest, length-encode_message_header h)))
      (unfold encode_message_header in
        simp append_assoc (
          rw (
            deserialize_number-le_bytes 4 h.magic_num _ f.magic_fits,
            deserialize_number-le_bytes 4 h.message_type _ f.type_fits,
            deserialize_number-le_bytes 4 h.size _ f.size_fits,
            deserialize_number-le_bytes 4 h.check_sum _ f.sum_fits,
          )))

pub take_header :
    (h : MessageHeader) (payload : List ℕ)
    → take get_header_size (encode_message_header h ++ payload) ≡ encode_message_header h
take_header h payload =
    ap (λ n. take n (encode_message_header h ++ payload)) (sym (length-encode_message_header h))
    ∙ take-append (encode_message_header h) payload

pub drop_header :
    (h : MessageHeader) (payload : List ℕ)
    → drop get_header_size (encode_message_header h ++ payload) ≡ payload
drop_header h payload =
    ap (λ n. drop n (encode_message_header h ++ payload))
      (let e : get_header_size ≡ length (encode_message_header h) + 0 =
          omega (arith, length-encode_message_header h) in
        e)
    ∙ drop-append 0 (encode_message_header h) payload

drop_exact : (xs ys : List ℕ) → drop (length xs) (xs ++ ys) ≡ ys
drop_exact xs ys =
    ap (λ n. drop n (xs ++ ys)) (let e : length xs ≡ length xs + 0 = omega arith in e)
    ∙ drop-append 0 xs ys

-- A write over as many bytes.
write_at-middle :
    (position : ℕ) (first old new rest : List ℕ)
    → position ≡ length first
    → length new ≡ length old
    → write_at position new (first ++ (old ++ rest)) ≡ first ++ (new ++ rest)
write_at-middle position first old new rest at same = rw at (
    write_at-append first new (old ++ rest)
    ∙ (rw (same, drop_exact old rest) (append_assoc first new rest)))

-- The header without its check sum.
head_bytes : MessageHeader → List ℕ
head_bytes h = le_bytes 4 h.magic_num ++ (le_bytes 4 h.message_type ++ le_bytes 4 h.size)

encode-head_bytes :
    (h : MessageHeader) (payload : List ℕ)
    → encode_message_header h ++ payload ≡ head_bytes h ++ (le_bytes 4 h.check_sum ++ payload)
unfolding encode_message_header head_bytes
encode-head_bytes h payload = simp append_assoc refl

length-head_bytes : (h : MessageHeader) → 12 ≡ length (head_bytes h)
unfolding head_bytes
length-head_bytes h = simp (length-append, length-le_bytes) refl

write_check_sum :
    (h : MessageHeader) (payload : List ℕ) (sum : ℕ)
    → write_at (get_header_size - 4) (le_bytes 4 sum) (encode_message_header h ++ payload)
      ≡ encode_message_header (record h { check_sum = sum }) ++ payload
unfolding head_bytes
write_check_sum h payload sum =
    rw (encode-head_bytes h payload, encode-head_bytes (record h { check_sum = sum }) payload)
      (write_at-middle 12 (head_bytes h) (le_bytes 4 h.check_sum) (le_bytes 4 sum) payload
        (length-head_bytes h) (length-le_bytes 4 sum ∙ sym (length-le_bytes 4 h.check_sum)))

module _ (sha512 : Hash) where
  pub sum_of-lt : (payload : List ℕ) → sum_of sha512 payload < 256 ^ 4
  sum_of-lt payload =
      let bytes : List ℕ = take 4 (blob_bytes (sha512 payload)) in
      let short : length bytes ≡ 4 =
        length-take_le 4 (blob_bytes (sha512 payload))
          (omega (arith, length-blob_bytes (sha512 payload))) in
      rw (ap (λ n. 256 ^ n) (sym short)) (
        le_number-lt bytes (
          All-take (λ b. b < 256) 4 (blob_bytes (sha512 payload))
            (blob_bytes-IsBytes (sha512 payload))))

  -- The header of a message whose payload is `payload`, after `setCheckSum`.
  abbrev pub sealed : List ℕ → MessageHeader → MessageHeader
  sealed payload h = record h { check_sum = sum_of sha512 payload }

  pub set_check_sum-encode :
      (h : MessageHeader) (payload : List ℕ) (n : ℕ)
      → set_check_sum sha512 (record {
        msg_hdr = h;
        buffer = encode_message_header h ++ payload;
        current_message_size = n;
      })
        ≡ record {
          msg_hdr = sealed payload h;
          buffer = encode_message_header (sealed payload h) ++ payload;
          current_message_size = n;
        }
  unfolding set_check_sum
  set_check_sum-encode h payload n = rw (drop_header h payload) (
      ap (λ b. record { msg_hdr = sealed payload h; buffer = b; current_message_size = n })
        (write_check_sum h payload (sum_of sha512 payload)))

  -- A message is accepted if it is complete, its payload stands behind its header, and its check sum is
  -- that of the payload.
  pub check_message-sealed :
      (h : MessageHeader) (payload : List ℕ)
      → h.magic_num ≡ message_magic_const
      → check_message sha512 (record {
        msg_hdr = sealed payload h;
        buffer = encode_message_header (sealed payload h) ++ payload;
        current_message_size = length (encode_message_header (sealed payload h) ++ payload);
      })
        ≡ true
  unfolding check_message
  check_message-sealed h payload magic =
      rw
        (
          drop_header (sealed payload h) payload,
          eq→== (length (encode_message_header (sealed payload h) ++ payload)) _ refl,
          eq→== h.magic_num message_magic_const magic,
          eq→== (sum_of sha512 payload) _ refl,
        )
        refl

empty_list : (xs : List ℕ) → length xs ≡ 0 → xs ≡ []
empty_list [] e = refl
empty_list (x ∷ xs) e = absurd (omega arith)

-- What `serialize` of a message leaves in the vector, if the payload takes all of its room.
pub serialize_with-put :
    (payload : Cursor → Result Cursor) (bytes : List ℕ) (h : MessageHeader)
    → ((c : Cursor) → length bytes ≤ length c.room → payload c ≡ put bytes c)
    → length bytes ≡ h.size
    → serialize_with payload (new_message h)
      ≡ ok (record {
        msg_hdr = h;
        buffer = encode_message_header h ++ bytes;
        current_message_size = 0;
      })
unfolding serialize_with contents
serialize_with-put payload bytes h p e =
    let start : Cursor = record { before = []; room = replicate (h.size + get_header_size) 0 } in
    let room : length (replicate {A = ℕ} (h.size + get_header_size) 0) ≡ h.size + get_header_size =
      length-replicate {A = ℕ} (h.size + get_header_size) 0 in
    let enc = length-encode_message_header h in
    let behind = length-drop (length (encode_message_header h)) start.room in
    let next : Cursor = advance (encode_message_header h) start in
    rw
      (
        serialize_message_header-put h start (omega arith),
        put-fits (encode_message_header h) start (omega arith),
        p next (omega arith),
        put-fits bytes next (omega arith),
      )
      (ap (λ b. ok (record { msg_hdr = h; buffer = b; current_message_size = 0 }))
        (ap (λ left. (encode_message_header h ++ bytes) ++ left)
            (empty_list (drop (length bytes) next.room)
              (omega (arith, length-drop (length bytes) next.room)))
          ∙ append-nil (encode_message_header h ++ bytes)))
