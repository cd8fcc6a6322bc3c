-- ===== src/Proposal/OfTxSet/RoundTrip.antt =====
-- What `TxSetProposal::serialize` writes, `TxSetProposal::deserialize` reads back.
use pqblockchain.Prelude.{
  ℕ, ◌+◌, ◌^◌, ◌<◌, ◌≤◌, ◌≡◌, ◌≢◌, refl, sym, ap, ◌∙◌, List, ◌++◌, append_assoc, length,
  length-append, take-length, arith, ne→==_false, le→leb, le→ltb_false,
}
use pqblockchain.Exceptions.{ok, fault}
use pqblockchain.Serialize.{
  Cursor, put, advance, put-put_then, put-fits, put-append, le_bytes, blob_bytes, length-le_bytes,
  length-blob_bytes, serialize_number, serialize_blob, get-append, get_short, deserialize_number,
  deserialize_number-le_bytes, deserialize_blob-blob_bytes,
}
use pqblockchain.Transaction.{put_prefix}
use pqblockchain.Block.{BlockBody, null_body, serialize_body}
use pqblockchain.Block.Encoding.{encode_body, IsBodyEncodable}
use pqblockchain.Block.RoundTrip.{
  body_size-length, serialize_body-put, deserialize_body-encode_body,
}
use pqblockchain.Proposal.OfTxSet.{
  TxSetProposal, prefix_size, get_size, serialize, deserialize_prefix, deserialize,
  deserialize_except_tx_set,
}

unfoldable encode_prefix : TxSetProposal → List ℕ
encode_prefix p =
    le_bytes 4 p.type_of_proposal
    ++ (le_bytes 4 p.seq
        ++ (le_bytes 8 p.time
            ++ (blob_bytes p.issuer
                ++ (blob_bytes p.tx_set_id
                    ++ (blob_bytes p.previous_block_id
                        ++ (le_bytes 4 p.signature_size ++ p.signature))))))

unfoldable encode : TxSetProposal → List ℕ
encode p = encode_prefix p ++ encode_body p.tx_set_body

-- The fields are within the ranges of their types, the signature is there and has its size, and
-- the body is a set in order of complete transactions with their true count.
pub record IsEncodable (p : TxSetProposal) : Type 0 where
  pub type_fits : p.type_of_proposal < 256 ^ 4
  pub seq_fits : p.seq < 256 ^ 4
  pub time_fits : p.time < 256 ^ 8
  pub issuer_fits : p.issuer < 256 ^ 64
  pub id_fits : p.tx_set_id < 256 ^ 64
  pub previous_fits : p.previous_block_id < 256 ^ 64
  pub size_fits : p.signature_size < 256 ^ 4
  pub size_set : p.signature_size ≢ 0
  pub size_true : length p.signature ≡ p.signature_size
  pub body : IsBodyEncodable p.tx_set_body

length-encode_prefix :
    (p : TxSetProposal)
    → length p.signature ≡ p.signature_size
    → length (encode_prefix p) ≡ prefix_size + p.signature_size
unfolding encode_prefix
length-encode_prefix p h = simp (length-append, length-le_bytes, length-blob_bytes, h) (omega arith)

length-encode_proposal :
    (p : TxSetProposal)
    → length p.signature ≡ p.signature_size
    → length (encode p) ≡ prefix_size + p.signature_size + length (encode_body p.tx_set_body)
unfolding encode
length-encode_proposal p h =
    omega
      (arith, length-append (encode_prefix p) (encode_body p.tx_set_body), length-encode_prefix p h)

get_size-length : (p : TxSetProposal) → IsEncodable p → get_size p ≡ ok (length (encode p))
unfolding get_size
get_size-length p e =
    rw (ne→==_false p.signature_size 0 e.size_set, body_size-length p.tx_set_body e.body)
      (ap ok (sym (length-encode_proposal p e.size_true)))

serialize-put_proposal :
    (p : TxSetProposal) (c : Cursor)
    → IsEncodable p
    → length (encode p) ≤ length c.room
    → serialize p c ≡ put (encode p) c
unfolding serialize encode_prefix serialize_number serialize_blob put_prefix
serialize-put_proposal p c e r =
    rw (get_size-length p e, le→ltb_false (length c.room) (length (encode p)) r, ← e.size_true)
      (simp
        (le→leb (length p.signature) (length p.signature) (omega arith), take-length, put-put_then)
        (put-append _ (encode_body p.tx_set_body) c (serialize_body p.tx_set_body)
            (simp (length-append, length-le_bytes, length-blob_bytes)
              (omega (arith, length-encode_proposal p e.size_true, e.size_true)))
            (λ d l. serialize_body-put p.tx_set_body d e.body l)
          ∙ ap (λ w. put w c) (unfold encode in simp append_assoc)))

deserialize_prefix-encode_prefix :
    (body : BlockBody) (p : TxSetProposal) (rest : List ℕ)
    → IsEncodable p
    → deserialize_prefix body (encode_prefix p ++ rest) ≡ ok (record p { tx_set_body = body }, rest)
unfolding deserialize_prefix
deserialize_prefix-encode_prefix body p rest e =
    rw
      (le→ltb_false (length (encode_prefix p ++ rest)) prefix_size
        (omega (arith, length-append (encode_prefix p) rest, length-encode_prefix p e.size_true)))
      (unfold encode_prefix in
        simp append_assoc (
          rw (
            deserialize_number-le_bytes 4 p.type_of_proposal _ e.type_fits,
            deserialize_number-le_bytes 4 p.seq _ e.seq_fits,
            deserialize_number-le_bytes 8 p.time _ e.time_fits,
            deserialize_blob-blob_bytes p.issuer _ e.issuer_fits,
            deserialize_blob-blob_bytes p.tx_set_id _ e.id_fits,
            deserialize_blob-blob_bytes p.previous_block_id _ e.previous_fits,
            deserialize_number-le_bytes 4 p.signature_size _ e.size_fits,
            le→ltb_false (length (p.signature ++ rest)) p.signature_size
                (omega (arith, e.size_true, length-append p.signature rest)),
            get-append p.signature_size p.signature _ e.size_true,
          )))

deserialize-encode_proposal :
    (p : TxSetProposal) (rest : List ℕ)
    → IsEncodable p
    → deserialize null_body (encode p ++ rest) ≡ ok (p, rest)
unfolding deserialize encode
deserialize-encode_proposal p rest e = rw (
  append_assoc (encode_prefix p) (encode_body p.tx_set_body) rest,
  deserialize_prefix-encode_prefix null_body p (encode_body p.tx_set_body ++ rest) e,
  deserialize_body-encode_body p.tx_set_body rest e.body,
)

-- A proposal of a transaction set that is signed, whose fields fit their types, and whose body is
-- a set in order of complete transactions with their true count: `getSize` gives the number of its
-- bytes, in a buffer with that room `serialize` succeeds and appends exactly these bytes at the
-- offset, and `deserialize` into a new object gives the proposal back, whatever bytes follow.
pub tx_set_proposal-deserialize-serialize :
    (p : TxSetProposal)
    → IsEncodable p
    → (bytes : List ℕ) × (get_size p ≡ ok (length bytes))
      × ((c : Cursor) → length bytes ≤ length c.room → serialize p c ≡ ok (advance bytes c))
      × ((rest : List ℕ) → deserialize null_body (bytes ++ rest) ≡ ok (p, rest))
tx_set_proposal-deserialize-serialize p e = (
  encode p,
  get_size-length p e,
  λ c r. serialize-put_proposal p c e r ∙ put-fits (encode p) c r,
  λ rest. deserialize-encode_proposal p rest e,
)

-- `deserializeExceptTxSet` reads past the end of the buffer where a signed proposal is cut behind its
-- signature, so that fewer than the four bytes of the count follow. No exception is thrown.
pub deserialize_except_tx_set_short :
    (p : TxSetProposal) (rest : List ℕ)
    → IsEncodable p
    → length rest < 4
    → (bytes : List ℕ) × (length bytes ≡ prefix_size + p.signature_size)
      × (deserialize_except_tx_set null_body (bytes ++ rest) ≡ fault)
unfolding deserialize_except_tx_set deserialize_number
deserialize_except_tx_set_short p rest e h = (
  encode_prefix p,
  length-encode_prefix p e.size_true,
  rw (deserialize_prefix-encode_prefix null_body p rest e, get_short 4 rest h) refl,
)
