-- ===== src/Storage/RoundTrip.antt =====
-- A stored block is read back: src/Storage/BlocksStorage.cpp.
use pqblockchain.Prelude.{
  ℕ, zero, suc, ◌≡◌, ◌≢◌, ◌≤◌, refl, sym, ap, subst, ◌∙◌, true, none, some, List, [], ◌++◌, length,
  drop, replicate, Option-cases, inl, inr, append-nil, length-replicate, eq→==, ne→==_false, arith,
}
use pqblockchain.Exceptions.{Result, ok, ◌>>=◌, >>=-assoc}
use pqblockchain.Serialize.{Cursor, fresh, contents, advance, put-fits}
use pqblockchain.Crypto.{Hash}
use pqblockchain.Block.{Block, BlockHeader, get_block_hash, header_size, serialize_header}
use pqblockchain.Block
use pqblockchain.Block.Encoding.{IsBlockEncodable, encode_header}
use pqblockchain.Block.RoundTrip.{
  block-deserialize-serialize, serialize_header-skip, length-encode_header,
}
use pqblockchain.Storage.{value, Database}
use pqblockchain.Storage.Blocks.{get_block, set_raw_block, set_block}

drop_whole : (n : ℕ) → drop {A = ℕ} n (replicate n 0) ≡ []
drop_whole zero = refl
drop_whole (suc n) = drop_whole n

-- The contents of a buffer that has been filled exactly.
contents-filled : (bytes : List ℕ) → contents (advance bytes (fresh (length bytes))) ≡ bytes
unfolding contents fresh
contents-filled bytes = ap (λ r. bytes ++ r) (drop_whole (length bytes)) ∙ append-nil bytes

-- The hash of a header is computed whatever the header holds.
-- What is written by a call that fills the buffer.
written_whole :
    (write : Cursor → Result Cursor) (bytes : List ℕ) (size : ℕ)
    → length bytes ≡ size
    → ((c : Cursor) → length bytes ≤ length c.room → write c ≡ ok (advance bytes c))
    → (write (fresh size) >>= λ c. ok (contents c)) ≡ ok bytes
unfolding fresh
written_whole write bytes size e w =
    subst (λ n. (write (fresh n) >>= λ c. ok (contents c)) ≡ ok bytes) e
      (ap (λ r. r >>= λ c. ok (contents c))
          (w (fresh (length bytes)) (omega (arith, length-replicate {A = ℕ} (length bytes) 0)))
        ∙ ap ok (contents-filled bytes))

pub get_block_hash-encode :
    (sha512 : Hash) (h : BlockHeader) → get_block_hash sha512 h ≡ ok (sha512 (encode_header h))
unfolding get_block_hash
get_block_hash-encode sha512 h =
    sym (
      >>=-assoc (serialize_header h true (fresh header_size)) (λ c. ok (contents c))
        (λ bytes. ok (sha512 bytes)))
    ∙ ap (λ r. r >>= λ bytes. ok (sha512 bytes))
        (written_whole (serialize_header h true) (encode_header h) header_size
          (length-encode_header h)
          (λ c room.
            serialize_header-skip h c (omega (arith, length-encode_header h))
            ∙ put-fits (encode_header h) c room))

module _ (d : Database) (sha512 : Hash) where
  -- A complete block whose put the database accepts: `setBlock` succeeds and stores it under its hash;
  -- `getBlock` of that hash returns the block, and that of another hash what it returned before.
  pub get_block-set_block :
      (b : Block) (db : Database.Db d)
      → IsBlockEncodable b
      → ((id : ℕ) (bytes : List ℕ) → d.put_value id bytes db ≢ none)
      → (id : ℕ) × (db' : Database.Db d) × (get_block_hash sha512 b.block_header ≡ ok id)
        × (set_block d sha512 b db ≡ ok (db', true))
        × (get_block d id db' ≡ ok (some b))
        × ((j : ℕ) → j ≢ id → get_block d j db' ≡ get_block d j db)
  unfolding set_block set_raw_block get_block
  get_block-set_block b db e accepts =
      let (bytes, size, written, read) = block-deserialize-serialize b e in
      let id : ℕ = sha512 (encode_header b.block_header) in
      elim (Option-cases (d.put_value id bytes db)) [
        | inl refused ↦ absurd (accepts id bytes refused)
        | inr (db', stored) ↦ (
          id,
          db',
          get_block_hash-encode sha512 b.block_header,
          rw (size, get_block_hash-encode sha512 b.block_header)
              (rw
                (written (fresh (length bytes))
                  (unfold fresh in omega (arith, length-replicate {A = ℕ} (length bytes) 0)))
                (rw (contents-filled bytes) (rw (stored, set_raw_block) refl))),
          let here : d.get_value db' id ≡ value bytes =
                d.get-put id id bytes db db' stored ∙ rw (eq→== id id refl) refl in
              let whole : Block.deserialize [] bytes ≡ ok (b, []) =
                subst (λ r. Block.deserialize [] r ≡ ok (b, [])) (append-nil bytes) (read []) in
              rw (here, get_block) (rw whole refl),
          λ j apart.
              let there : d.get_value db' j ≡ d.get_value db j =
                d.get-put id j bytes db db' stored
                ∙ rw (ne→==_false id j (λ same. apart (sym same))) refl in
              rw (there, get_block) refl,
        )
      ]
