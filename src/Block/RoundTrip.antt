-- ===== src/Block/RoundTrip.antt =====
-- What `Block::serialize` writes, `Block::deserialize` reads back.
use pqblockchain.Prelude.{
  ℕ, ◌+◌, ◌≤◌, ◌≡◌, refl, sym, ap, ◌∙◌, true, false, List, [], ◌∷◌, ◌++◌, append_assoc, append-nil,
  length, All, length-drop, length-append, arith, ne→==_false, le→ltb_false,
}
use pqblockchain.Exceptions.{ok, ◌>>=◌}
use pqblockchain.Serialize.{
  Cursor, put, advance, put-put, put-put_then, put-fits, put-nil, le_bytes, length-le_bytes,
  length-blob_bytes, serialize_number, serialize_blob, deserialize_number-le_bytes,
  deserialize_blob-blob_bytes,
}
use pqblockchain.Transaction
use pqblockchain.Transaction.{Transaction, data_size}
use pqblockchain.Transaction.Encoding.{IsEncodable}
use pqblockchain.Transaction.RoundTrip.{length-encode, deserialize-encode, serialize-put}
use pqblockchain.Transaction.Set.{TransactionSet, IsOrdered, AllAfter, AllBefore, insert-last}
use pqblockchain.Block.{
  BlockHeader, BlockBody, Block, header_size, serialize_header_fields, check_hashes,
  serialize_header, deserialize_header, set_size, body_size, serialize_all, serialize_body,
  deserialize_all, deserialize_body, get_size, serialize, deserialize,
}
use pqblockchain.Block.Encoding.{
  encode_header, encode_all, encode_body, encode, FitsHeader, HasHashes, IsBodyEncodable,
  IsBlockEncodable,
}

serialize_header_fields-put :
    (h : BlockHeader) (c : Cursor) → serialize_header_fields h c ≡ put (encode_header h) c
unfolding serialize_header_fields serialize_number serialize_blob encode_header
serialize_header_fields-put h c = simp (put-put_then, put-put, append_assoc) (put-put _ _ c)

pub length-encode_header : (h : BlockHeader) → length (encode_header h) ≡ header_size
unfolding encode_header
length-encode_header h = simp (length-append, length-le_bytes, length-blob_bytes) refl

check_hashes-put :
    (h : BlockHeader) (c : Cursor) → HasHashes h → check_hashes h c ≡ serialize_header_fields h c
unfolding check_hashes
check_hashes-put h c s = rw (
  ne→==_false h.transactions_merkle_root_hash 0 s.transactions_set,
  ne→==_false h.previous_block_hash 0 s.previous_set,
  ne→==_false h.account_balance_merkle_root_hash 0 s.accounts_set,
)

-- With the checks skipped, a header is written whatever its hashes are.
pub serialize_header-skip :
    (h : BlockHeader) (c : Cursor)
    → header_size ≤ length c.room
    → serialize_header h true c ≡ put (encode_header h) c
unfolding serialize_header
serialize_header-skip h c r =
    rw (le→ltb_false (length c.room) header_size r) (serialize_header_fields-put h c)

pub serialize_header-put :
    (h : BlockHeader) (c : Cursor)
    → HasHashes h
    → header_size ≤ length c.room
    → serialize_header h false c ≡ put (encode_header h) c
unfolding serialize_header
serialize_header-put h c s r =
    rw (le→ltb_false (length c.room) header_size r)
      (check_hashes-put h c s ∙ serialize_header_fields-put h c)

pub deserialize_header-encode_header :
    (h : BlockHeader) (rest : List ℕ)
    → FitsHeader h
    → deserialize_header (encode_header h ++ rest) ≡ ok (h, rest)
unfolding deserialize_header
deserialize_header-encode_header h rest e =
    rw
      (le→ltb_false (length (encode_header h ++ rest)) header_size
        (omega (arith, length-append (encode_header h) rest, length-encode_header h)))
      (unfold encode_header in
        simp append_assoc (
          rw (
            deserialize_number-le_bytes 4 h.version _ e.version_fits,
            deserialize_number-le_bytes 4 h.sequence _ e.sequence_fits,
            deserialize_number-le_bytes 4 h.size _ e.size_fits,
            deserialize_blob-blob_bytes h.transactions_merkle_root_hash _ e.transactions_fits,
            deserialize_blob-blob_bytes h.previous_block_hash _ e.previous_fits,
            deserialize_blob-blob_bytes h.account_balance_merkle_root_hash _ e.accounts_fits,
          )))

set_size-length :
    (ts : TransactionSet) → All IsEncodable ts → set_size ts ≡ ok (length (encode_all ts))
unfolding set_size encode_all Transaction.get_size
set_size-length [] e = refl
set_size-length (t ∷ ts) e =
    rw (ne→==_false t.signature_size 0 (e.0).size_set, set_size-length ts e.1)
      (ap ok (
        omega (
          arith,
          length-append (Transaction.Encoding.encode t) (encode_all ts),
          length-encode t (e.0).size_true,
        )))

serialize_all-put :
    (ts : TransactionSet) (c : Cursor)
    → All IsEncodable ts
    → length (encode_all ts) ≤ length c.room
    → serialize_all ts c ≡ put (encode_all ts) c
unfolding serialize_all encode_all
serialize_all-put [] c e r = sym (put-nil c)
serialize_all-put (t ∷ ts) c e r =
    rw (serialize-put t c e.0 (omega (arith, long, length-encode t (e.0).size_true))) (
      rw (put-fits (Transaction.Encoding.encode t) c (omega (arith, long))) (
        serialize_all-put ts (advance (Transaction.Encoding.encode t) c) e.1
          (omega (arith, long, length-drop (length (Transaction.Encoding.encode t)) c.room))
        ∙ sym (
            ap (λ m. m >>= put (encode_all ts))
              (put-fits (Transaction.Encoding.encode t) c (omega (arith, long))))
        ∙ put-put (Transaction.Encoding.encode t) (encode_all ts) c))
  where
    long :
        length (Transaction.Encoding.encode t ++ encode_all ts)
        ≡ length (Transaction.Encoding.encode t) + length (encode_all ts)
    long = length-append (Transaction.Encoding.encode t) (encode_all ts)

length-encode_body : (b : BlockBody) → length (encode_body b) ≡ length (encode_all b.tx_set) + 4
unfolding encode_body
length-encode_body b = omega (
  arith,
  length-append (le_bytes 4 b.transaction_count) (encode_all b.tx_set),
  length-le_bytes 4 b.transaction_count,
)

pub body_size-length :
    (b : BlockBody) → IsBodyEncodable b → body_size b ≡ ok (length (encode_body b))
unfolding body_size
body_size-length b e =
    rw (set_size-length b.tx_set e.all_encodable) (ap ok (sym (length-encode_body b)))

pub serialize_body-put :
    (b : BlockBody) (c : Cursor)
    → IsBodyEncodable b
    → length (encode_body b) ≤ length c.room
    → serialize_body b c ≡ put (encode_body b) c
unfolding serialize_body serialize_number
serialize_body-put b c e r =
    rw (body_size-length b e, le→ltb_false (length c.room) (length (encode_body b)) r)
      (rw (put-fits head c (omega (arith, short, length-encode_body b))) (
        serialize_all-put b.tx_set (advance head c) e.all_encodable
          (omega (arith, short, length-encode_body b, length-drop (length head) c.room))
        ∙ sym (
            ap (λ m. m >>= put (encode_all b.tx_set))
              (put-fits head c (omega (arith, short, length-encode_body b))))
        ∙ put-put head (encode_all b.tx_set) c
        ∙ unfold encode_body in refl))
  where
    head : List ℕ
    head = le_bytes 4 b.transaction_count

    short : length head ≡ 4
    short = length-le_bytes 4 b.transaction_count

AllBefore-append :
    (xs ys : TransactionSet) (t : Transaction)
    → AllBefore xs t
    → AllBefore ys t
    → AllBefore (xs ++ ys) t
AllBefore-append [] ys t h k = k
AllBefore-append (x ∷ xs) ys t h k = (h.0, AllBefore-append xs ys t h.1 k)

-- Every element of `xs` comes before every element of `ys`.
abbrev Precedes : TransactionSet → TransactionSet → Type 0
Precedes xs [] = Unit {0}
Precedes xs (y ∷ ys) = AllBefore xs y × Precedes xs ys

Precedes-grow :
    (xs ys : TransactionSet) (t : Transaction)
    → Precedes xs ys
    → AllAfter t ys
    → Precedes (xs ++ t ∷ []) ys
Precedes-grow xs [] t h k = tt
Precedes-grow xs (y ∷ ys) t h k =
    (AllBefore-append xs (t ∷ []) y h.0 (k.0, tt), Precedes-grow xs ys t h.1 k.1)

deserialize_all-encode_all :
    (ts set : TransactionSet) (rest : List ℕ)
    → All IsEncodable ts
    → IsOrdered ts
    → Precedes set ts
    → deserialize_all (length ts) set (encode_all ts ++ rest) ≡ ok (set ++ ts, rest)
unfolding deserialize_all encode_all
deserialize_all-encode_all [] set rest e o p = rw (append-nil set)
deserialize_all-encode_all (t ∷ ts) set rest e o p = rw (
  append_assoc (Transaction.Encoding.encode t) (encode_all ts) rest,
  deserialize-encode t (encode_all ts ++ rest) e.0,
  insert-last t set p.0,
  deserialize_all-encode_all ts (set ++ t ∷ []) rest e.1 o.1 (Precedes-grow set ts t p.1 o.0),
  append_assoc set (t ∷ []) ts,
)

Precedes-nil : (ts : TransactionSet) → Precedes [] ts
Precedes-nil [] = tt
Precedes-nil (t ∷ ts) = (tt, Precedes-nil ts)

pub deserialize_body-encode_body :
    (b : BlockBody) (rest : List ℕ)
    → IsBodyEncodable b
    → deserialize_body [] (encode_body b ++ rest) ≡ ok (b, rest)
unfolding deserialize_body
deserialize_body-encode_body b rest e =
    rw
      (le→ltb_false (length (encode_body b ++ rest)) 4
        (omega (arith, length-append (encode_body b) rest, length-encode_body b)))
      (unfold encode_body in
        simp append_assoc (
          rw (
            deserialize_number-le_bytes 4 b.transaction_count _ e.count_fits,
            ← e.count_true,
            deserialize_all-encode_all b.tx_set [] rest e.all_encodable e.ordered
                (Precedes-nil b.tx_set),
          )))

length-encode_block :
    (b : Block) → length (encode b) ≡ header_size + length (encode_body b.block_body)
unfolding encode
length-encode_block b = omega (
  arith,
  length-append (encode_header b.block_header) (encode_body b.block_body),
  length-encode_header b.block_header,
)

serialize-put_block :
    (b : Block) (c : Cursor)
    → IsBlockEncodable b
    → length (encode b) ≤ length c.room
    → serialize b c ≡ put (encode b) c
unfolding serialize
serialize-put_block b c e r =
    rw (serialize_header-put b.block_header c e.hashes (omega (arith, length-encode_block b))) (
      rw
        (put-fits head c
          (omega (arith, length-encode_block b, length-encode_header b.block_header)))
        (serialize_body-put b.block_body (advance head c) e.body (
            omega (
              arith,
              length-encode_block b,
              length-encode_header b.block_header,
              length-drop (length head) c.room,
            ))
          ∙ sym (
              ap (λ m. m >>= put (encode_body b.block_body))
                (put-fits head c
                  (omega (arith, length-encode_block b, length-encode_header b.block_header))))
          ∙ put-put head (encode_body b.block_body) c
          ∙ unfold encode in refl))
  where
    head : List ℕ
    head = encode_header b.block_header

deserialize-encode_block :
    (b : Block) (rest : List ℕ)
    → IsBlockEncodable b
    → deserialize [] (encode b ++ rest) ≡ ok (b, rest)
unfolding deserialize encode
deserialize-encode_block b rest e = simp append_assoc (
    rw (
      deserialize_header-encode_header b.block_header (encode_body b.block_body ++ rest) e.fits,
      deserialize_body-encode_body b.block_body rest e.body,
    ))

-- A block whose hashes are set, whose fields fit their types, and whose body is a set in order of
-- complete transactions with their true count: `getSize` gives the number of its bytes, in a buffer
-- with that room `serialize` succeeds and appends exactly these bytes at the offset, and
-- `deserialize` into a new object gives the block back, whatever bytes follow.
pub block-deserialize-serialize :
    (b : Block)
    → IsBlockEncodable b
    → (bytes : List ℕ) × (get_size b ≡ ok (length bytes))
      × ((c : Cursor) → length bytes ≤ length c.room → serialize b c ≡ ok (advance bytes c))
      × ((rest : List ℕ) → deserialize [] (bytes ++ rest) ≡ ok (b, rest))
unfolding get_size
block-deserialize-serialize b e = (
  encode b,
  rw (body_size-length b.block_body e.body) (ap ok (sym (length-encode_block b))),
  λ c r. serialize-put_block b c e r ∙ put-fits (encode b) c r,
  λ rest. deserialize-encode_block b rest e,
)
