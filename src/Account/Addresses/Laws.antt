-- ===== src/Account/Addresses/Laws.antt =====
-- What `serializeAccountAddress` writes, `deserializeAccountAddress` reads back, and where the latter
-- reads past the end.
use pqblockchain.Prelude.{
  ℕ, zero, suc, ◌+◌, ◌≤◌, ◌<◌, ◌≡◌, ◌≢◌, refl, sym, ap, ◌∙◌, List, [], ◌∷◌, ◌++◌, append_assoc,
  append-nil, length, take, All, length-append, arith, le→ltb_false, ne→==_false,
}
use pqblockchain.Exceptions.{ok, fault, ◌>>=◌}
use pqblockchain.Serialize.{
  Cursor, put, advance, put-put_then, put-fits, put-nil, put-append, le_bytes, length-le_bytes,
  serialize_number, deserialize_number-le_bytes,
}
use pqblockchain.Account.Addresses.{
  Addresses, max_account_addresses, account_address_size, serialize_addresses,
  serialize_account_address, read_address, deserialize_addresses, deserialize_account_address,
}

-- An address holds no zero byte.
abbrev pub IsAddress : List ℕ → Type 0
IsAddress = All (λ b. b ≢ 0)

encode_addresses : Addresses → List ℕ
encode_addresses [] = []
encode_addresses (a ∷ rest) = a ++ (le_bytes 1 0 ++ encode_addresses rest)

length-encode_addresses :
    (addresses : Addresses)
    → length (encode_addresses addresses) + 4 ≡ account_address_size addresses
unfolding encode_addresses account_address_size
length-encode_addresses [] = omega arith
length-encode_addresses (a ∷ rest) = omega (
  arith,
  length-encode_addresses rest,
  length-append a (le_bytes 1 0 ++ encode_addresses rest),
  length-append (le_bytes 1 0) (encode_addresses rest),
  length-le_bytes 1 0,
)

serialize_addresses-put :
    (addresses : Addresses) (c : Cursor)
    → length (encode_addresses addresses) ≤ length c.room
    → serialize_addresses addresses c ≡ put (encode_addresses addresses) c
unfolding serialize_addresses encode_addresses serialize_number
serialize_addresses-put [] c h = sym (put-nil c)
serialize_addresses-put (a ∷ rest) c h =
    put-put_then a (le_bytes 1 0) c (serialize_addresses rest)
    ∙ put-append (a ++ le_bytes 1 0) (encode_addresses rest) c (serialize_addresses rest)
        (omega (
          arith,
          length-append a (le_bytes 1 0),
          length-append a (le_bytes 1 0 ++ encode_addresses rest),
          length-append (le_bytes 1 0) (encode_addresses rest),
        ))
        (λ d l. serialize_addresses-put rest d l)
    ∙ ap (λ bytes. put bytes c) (append_assoc a (le_bytes 1 0) (encode_addresses rest))

read_address-append :
    (a rest : List ℕ) → IsAddress a → read_address (a ++ (le_bytes 1 0 ++ rest)) ≡ ok (a, rest)
unfolding read_address le_bytes
read_address-append [] rest h = refl
read_address-append (b ∷ a) rest h =
    rw (ne→==_false b 0 h.0, read_address) (rw (read_address-append a rest h.1) refl)

deserialize_addresses-encode :
    (addresses before : Addresses) (rest : List ℕ)
    → All IsAddress addresses
    → deserialize_addresses (length addresses) before (encode_addresses addresses ++ rest)
      ≡ ok (before ++ addresses, rest)
unfolding deserialize_addresses encode_addresses
deserialize_addresses-encode [] before rest h = rw (append-nil before) refl
deserialize_addresses-encode (a ∷ more) before rest h =
    rw (append_assoc a (le_bytes 1 0 ++ encode_addresses more) rest) (
      rw (append_assoc (le_bytes 1 0) (encode_addresses more) rest) (
        rw (read_address-append a (encode_addresses more ++ rest) h.0) (
          deserialize_addresses-encode more (before ++ a ∷ []) rest h.1
          ∙ ap (λ l. ok (l, rest)) (append_assoc before (a ∷ []) more))))

take-all : {A : Type 0} (n : ℕ) (xs : List A) → length xs ≤ n → take n xs ≡ xs
take-all zero [] h = refl
take-all zero (x ∷ xs) h = absurd (omega arith)
take-all (suc n) [] h = refl
take-all (suc n) (x ∷ xs) h = ap (◌∷◌ x) (take-all n xs (omega arith))

-- Ten addresses at most, without zero bytes, in a buffer with the room that `getAccountAddressSize` asks
-- for: serialization succeeds, appends exactly that many bytes at the offset, and deserialization into
-- a new object gives the addresses back, whatever bytes follow.
pub account_address-deserialize-serialize :
    (addresses : Addresses) (c : Cursor)
    → length addresses ≤ max_account_addresses
    → All IsAddress addresses
    → account_address_size addresses ≤ length c.room
    → (bytes : List ℕ) × (length bytes ≡ account_address_size addresses)
      × (serialize_account_address addresses c ≡ ok (advance bytes c))
      × ((rest : List ℕ) → deserialize_account_address [] (bytes ++ rest) ≡ ok (addresses, rest))
unfolding serialize_account_address deserialize_account_address serialize_number
account_address-deserialize-serialize addresses c few clean room =
    let head : List ℕ = le_bytes 4 (length addresses) in
    let tail : List ℕ = encode_addresses addresses in
    let size = length-encode_addresses addresses in
    let short : length head ≡ 4 = length-le_bytes 4 (length addresses) in
    let long : length (head ++ tail) ≡ account_address_size addresses =
      omega (arith, length-append head tail) in
    (
      head ++ tail,
      long,
      rw
          (
            le→ltb_false (length c.room) (account_address_size addresses) room,
            le→ltb_false max_account_addresses (length addresses) few,
            take-all max_account_addresses addresses few,
          )
          (put-append head tail c (serialize_addresses addresses) (omega arith)
              (λ d l. serialize_addresses-put addresses d l)
            ∙ put-fits (head ++ tail) c (omega arith)),
      λ rest.
          rw
            (
              le→ltb_false (length ((head ++ tail) ++ rest)) 4
                  (omega (arith, length-append (head ++ tail) rest)),
              append_assoc head tail rest,
              deserialize_number-le_bytes 4 (length addresses) (tail ++ rest) (omega arith),
              ◌>>=◌,
            )
            (rw (le→ltb_false max_account_addresses (length addresses) few)
              (deserialize_addresses-encode addresses [] rest clean)),
    )

read_address_endless : (buffer : List ℕ) → IsAddress buffer → read_address buffer ≡ fault
unfolding read_address
read_address_endless [] h = refl
read_address_endless (b ∷ buffer) h =
    rw (ne→==_false b 0 h.0, read_address) (rw (read_address_endless buffer h.1) refl)

-- A count of one to ten addresses that is followed by no zero byte makes `deserializeAccountAddress`
-- read past the end of the buffer, and no exception is thrown.
pub deserialize_account_address_endless :
    (n : ℕ) (before : Addresses) (buffer : List ℕ)
    → n < max_account_addresses
    → IsAddress buffer
    → deserialize_account_address before (le_bytes 4 (suc n) ++ buffer) ≡ fault
unfolding deserialize_account_address deserialize_addresses
deserialize_account_address_endless n before buffer few clean =
    rw
      (
        le→ltb_false (length (le_bytes 4 (suc n) ++ buffer)) 4
            (omega (arith, length-append (le_bytes 4 (suc n)) buffer, length-le_bytes 4 (suc n))),
        deserialize_number-le_bytes 4 (suc n) buffer (omega arith),
        ◌>>=◌,
      )
      (rw
        (
          le→ltb_false max_account_addresses (suc n) (omega arith),
          read_address_endless buffer clean,
        )
        refl)
