-- ===== src/Proposal/OfBlock/RoundTrip.antt =====
-- What `BlockProposal::serialize` writes, `BlockProposal::deserialize` reads back.
use pqblockchain.Prelude.{
  ℕ, ◌+◌, ◌^◌, ◌<◌, ◌≤◌, ◌≡◌, ◌≢◌, sym, ap, ◌∙◌, true, List, ◌++◌, append_assoc, length,
  length-append, take-length, arith, ne→==_false, le→leb, le→ltb_false,
}
use pqblockchain.Exceptions.{ok}
use pqblockchain.Serialize.{
  Cursor, put, advance, put-put_then, put-fits, put-append, le_bytes, blob_bytes, length-le_bytes,
  length-blob_bytes, serialize_number, serialize_blob, get-append, deserialize_number-le_bytes,
  deserialize_blob-blob_bytes,
}
use pqblockchain.Transaction.{put_prefix}
use pqblockchain.Block.{header_size, serialize_header}
use pqblockchain.Block.Encoding.{encode_header, FitsHeader}
use pqblockchain.Block.RoundTrip.{
  length-encode_header, serialize_header-skip, deserialize_header-encode_header,
}
use pqblockchain.Proposal.OfBlock.{BlockProposal, get_size, serialize, deserialize}

unfoldable encode : BlockProposal → List ℕ
encode p =
    le_bytes 4 p.type_of_proposal
    ++ (blob_bytes p.issuer
        ++ (blob_bytes p.block_id
            ++ (le_bytes 4 p.signature_size
                ++ (p.signature ++ encode_header p.proposed_block_header))))

-- The fields are within the ranges of their types, and the signature is there and has its size.
pub record IsEncodable (p : BlockProposal) : Type 0 where
  pub type_fits : p.type_of_proposal < 256 ^ 4
  pub issuer_fits : p.issuer < 256 ^ 64
  pub id_fits : p.block_id < 256 ^ 64
  pub size_fits : p.signature_size < 256 ^ 4
  pub size_set : p.signature_size ≢ 0
  pub size_true : length p.signature ≡ p.signature_size
  pub header_fits : FitsHeader p.proposed_block_header

length-encode_proposal :
    (p : BlockProposal)
    → length p.signature ≡ p.signature_size
    → length (encode p) ≡ 4 + 64 + 64 + 4 + p.signature_size + header_size
unfolding encode
length-encode_proposal p h =
    simp (length-append, length-le_bytes, length-blob_bytes, length-encode_header, h) (omega arith)

serialize-put_proposal :
    (p : BlockProposal) (c : Cursor)
    → IsEncodable p
    → 4 + 64 + 64 + 4 + p.signature_size + header_size ≤ length c.room
    → serialize p c ≡ put (encode p) c
unfolding serialize get_size encode serialize_number serialize_blob put_prefix
serialize-put_proposal p c e r =
    rw
      (
        ne→==_false p.signature_size 0 e.size_set,
        le→ltb_false (length c.room) (4 + 64 + 64 + 4 + p.signature_size + header_size) r,
        ← e.size_true,
      )
      (simp
        (le→leb (length p.signature) (length p.signature) (omega arith), take-length, put-put_then)
        (put-append _ (encode_header p.proposed_block_header) c
            (serialize_header p.proposed_block_header true)
            (simp (length-append, length-le_bytes, length-blob_bytes, length-encode_header)
              (let t = e.size_true in omega arith))
            (λ d l.
              serialize_header-skip p.proposed_block_header d
                (omega (arith, length-encode_header p.proposed_block_header)))
          ∙ ap (λ w. put w c) (simp append_assoc)))

deserialize-encode_proposal :
    (p : BlockProposal) (rest : List ℕ)
    → IsEncodable p
    → deserialize (encode p ++ rest) ≡ ok (p, rest)
unfolding deserialize
deserialize-encode_proposal p rest e =
    rw
      (le→ltb_false (length (encode p ++ rest)) (4 + 64 + 64 + 4)
        (omega (arith, length-append (encode p) rest, length-encode_proposal p e.size_true)))
      (unfold encode in
        simp append_assoc (
          rw (
            deserialize_number-le_bytes 4 p.type_of_proposal _ e.type_fits,
            deserialize_blob-blob_bytes p.issuer _ e.issuer_fits,
            deserialize_blob-blob_bytes p.block_id _ e.id_fits,
            deserialize_number-le_bytes 4 p.signature_size _ e.size_fits,
            le→ltb_false (length (p.signature ++ (encode_header p.proposed_block_header ++ rest)))
                p.signature_size
                (omega (
                  arith,
                  e.size_true,
                  length-append p.signature (encode_header p.proposed_block_header ++ rest),
                )),
            get-append p.signature_size p.signature _ e.size_true,
            deserialize_header-encode_header p.proposed_block_header rest e.header_fits,
          )))

-- A block proposal that is signed and whose fields fit their types, with any hashes in its header:
-- `getSize` gives the number of its bytes, in a buffer with that room `serialize` succeeds and
-- appends exactly these bytes at the offset, and `deserialize` gives the proposal back, whatever
-- bytes follow.
pub block_proposal-deserialize-serialize :
    (p : BlockProposal)
    → IsEncodable p
    → (bytes : List ℕ) × (get_size p ≡ ok (length bytes))
      × ((c : Cursor) → length bytes ≤ length c.room → serialize p c ≡ ok (advance bytes c))
      × ((rest : List ℕ) → deserialize (bytes ++ rest) ≡ ok (p, rest))
unfolding get_size
block_proposal-deserialize-serialize p e =
    let long = length-encode_proposal p e.size_true in
    (
      encode p,
      rw (ne→==_false p.signature_size 0 e.size_set) (ap ok (sym long)),
      λ c r. serialize-put_proposal p c e (omega arith) ∙ put-fits (encode p) c r,
      λ rest. deserialize-encode_proposal p rest e,
    )
