-- ===== src/Message/Inventory.antt =====
-- The payloads of InvMessage, GetDataMessage and VersionMessage of src/Network/Message.cpp.
use pqblockchain.Prelude.{
  ℕ, ◌^◌, ◌≤◌, ◌<◌, ◌≡◌, refl, sym, ap, ◌∙◌, List, [], ◌∷◌, ◌++◌, append_assoc, append-nil, length,
  All, length-append, arith,
}
use pqblockchain.Exceptions.{ok}
use pqblockchain.Serialize.{
  Cursor, put, put-put_then, put-nil, put-append, le_bytes, blob_bytes, length-le_bytes,
  length-blob_bytes, serialize_number, serialize_blob, deserialize_number-le_bytes,
  deserialize_blob-blob_bytes,
}
use pqblockchain.Message.{MessageHeader, new_message}
use pqblockchain.Message.CheckSum.{
  encode_message_header, drop_header, length-encode_message_header, serialize_with-put,
}
use pqblockchain.Message.Payloads.{
  MessageType, construct_message_header, InvItem, inv_payload_size, serialize_items,
  deserialize_items, serialize_inventory, deserialize_inventory,
}

-- The fields are within the ranges of their types.
pub record FitsItem (i : InvItem) : Type 0 where
  pub request_fits : i.request_type < 256 ^ 4
  pub item_fits : i.item_id < 256 ^ 64

unfoldable pub encode_items : List InvItem → List ℕ
encode_items [] = []
encode_items (i ∷ items) = le_bytes 4 i.request_type ++ (blob_bytes i.item_id ++ encode_items items)

pub length-encode_items :
    (items : List InvItem) → length (encode_items items) ≡ inv_payload_size (length items)
unfolding encode_items
length-encode_items [] = refl
length-encode_items (i ∷ items) = omega (
  arith,
  length-encode_items items,
  length-append (le_bytes 4 i.request_type) (blob_bytes i.item_id ++ encode_items items),
  length-append (blob_bytes i.item_id) (encode_items items),
  length-le_bytes 4 i.request_type,
  length-blob_bytes i.item_id,
)

serialize_items-put :
    (items : List InvItem) (c : Cursor)
    → length (encode_items items) ≤ length c.room
    → serialize_items items c ≡ put (encode_items items) c
unfolding serialize_items encode_items serialize_number serialize_blob
serialize_items-put [] c h = sym (put-nil c)
serialize_items-put (i ∷ items) c h =
    let head = le_bytes 4 i.request_type in
    let id = blob_bytes i.item_id in
    put-put_then head id c (serialize_items items)
    ∙ put-append (head ++ id) (encode_items items) c (serialize_items items)
        (omega (
          arith,
          length-append head id,
          length-append head (id ++ encode_items items),
          length-append id (encode_items items),
        ))
        (λ d l. serialize_items-put items d l)
    ∙ ap (λ bytes. put bytes c) (append_assoc head id (encode_items items))

deserialize_items-encode :
    (items : List InvItem) (rest : List ℕ)
    → All FitsItem items
    → deserialize_items (length items) (encode_items items ++ rest) ≡ ok (items, rest)
unfolding deserialize_items encode_items
deserialize_items-encode [] rest h = refl
deserialize_items-encode (i ∷ items) rest h =
    let head = le_bytes 4 i.request_type in
    let id = blob_bytes i.item_id in
    rw (append_assoc head (id ++ encode_items items) rest) (
      rw (append_assoc id (encode_items items) rest) (
        rw
          (
            deserialize_number-le_bytes 4 i.request_type (id ++ (encode_items items ++ rest))
                (h.0).request_fits,
            deserialize_blob-blob_bytes i.item_id (encode_items items ++ rest) (h.0).item_fits,
            deserialize_items-encode items rest h.1,
          )
          refl))

-- A message whose size is that of the items: its vector is the header and the items.
pub serialize_inventory-encode :
    (type : MessageType) (items : List InvItem)
    → inv_payload_size (length items) < 256 ^ 4
    → let h = construct_message_header type (inv_payload_size (length items)) in
      serialize_inventory items (new_message h)
      ≡ ok (record {
        msg_hdr = h;
        buffer = encode_message_header h ++ encode_items items;
        current_message_size = 0;
      })
unfolding serialize_inventory
serialize_inventory-encode type items small =
    serialize_with-put (serialize_items items) (encode_items items) _
      (λ c r. serialize_items-put items c r) (omega (arith, length-encode_items items))

-- However the header reads.
pub deserialize_inventory-encode :
    (h : MessageHeader) (items : List InvItem) (n : ℕ)
    → All FitsItem items
    → deserialize_inventory (record {
      msg_hdr = h;
      buffer = encode_message_header h ++ encode_items items;
      current_message_size = n;
    })
      ≡ ok (items, [])
unfolding deserialize_inventory
deserialize_inventory-encode h items n fits = rw (drop_header h (encode_items items)) (
    ap (λ k. deserialize_items k (encode_items items))
      (omega (
        arith,
        length-append (encode_message_header h) (encode_items items),
        length-encode_message_header h,
        length-encode_items items,
      ))
    ∙ ap (deserialize_items (length items)) (sym (append-nil (encode_items items)))
    ∙ deserialize_items-encode items [] fits)
