-- ===== src/Serialize/Fields.antt =====
-- `serializeField`, `deserializeField` and the copies of byte strings.
use mathlib.Core.List.{reverse, reverse-reverse, reverse-cons}
use pqblockchain.Prelude.{
  ℕ, zero, suc, ◌+◌, ◌^◌, ◌≤◌, ◌<◌, ◌≡◌, refl, sym, ap, ◌∙◌, inl, inr, List, [], ◌∷◌, ◌++◌,
  append_assoc, append-nil, length, drop, replicate, length-append, length-drop, leb, if◌then◌else◌,
  Bool-cases, leb→le, All-append, arith,
}
use pqblockchain.Exceptions.{Result, ok, fault, ◌>>=◌, >>=-assoc}
use pqblockchain.Serialize.Bytes.{
  le_bytes, le_number, length-le_bytes, le_number-le_bytes, IsBytes, le_bytes-IsBytes,
}

-- A buffer that is being written, cut at the offset.
pub record Cursor : Type 0 where
  pub before : List ℕ
  pub room : List ℕ

-- `std::memcpy(buffer.data() + offset, source, size); offset += size;`
unfoldable pub put : List ℕ → Cursor → Result Cursor
put bytes c =
    if leb (length bytes) (length c.room)
    then ok (record { before = c.before ++ bytes; room = drop (length bytes) c.room })
    else fault

-- A buffer of `size` zeros, with the offset at its start.
unfoldable pub fresh : ℕ → Cursor
fresh size = record { before = []; room = replicate size 0 }

-- The whole buffer.
unfoldable pub contents : Cursor → List ℕ
contents c = c.before ++ c.room

-- The cursor that a copy of `bytes` leaves behind.
abbrev pub advance : List ℕ → Cursor → Cursor
advance bytes c = record { before = c.before ++ bytes; room = drop (length bytes) c.room }

pub put-fits :
    (bytes : List ℕ) (c : Cursor)
    → length bytes ≤ length c.room
    → put bytes c ≡ ok (advance bytes c)
unfolding put
put-fits bytes c h = ground arith

drop-nil : (n : ℕ) → drop n (let none_left : List ℕ = [] in none_left) ≡ []
drop-nil zero = refl
drop-nil (suc n) = refl

drop-drop : (m n : ℕ) (xs : List ℕ) → drop m (drop n xs) ≡ drop (n + m) xs
drop-drop m zero xs = ap (λ k. drop k xs) (omega arith)
drop-drop m (suc n) [] = drop-nil m ∙ sym (drop-nil (suc n + m))
drop-drop m (suc n) (x ∷ xs) =
    drop-drop m n xs
    ∙ ap (λ k. drop k (x ∷ xs)) (let e : suc (n + m) ≡ suc n + m = omega arith in e)

pub advance-advance : (a b : List ℕ) (c : Cursor) → advance b (advance a c) ≡ advance (a ++ b) c
advance-advance a b c = λ i. record {
  before = append_assoc c.before a b i;
  room =
      (drop-drop (length b) (length a) c.room ∙ ap (λ k. drop k c.room) (sym (length-append a b)))
        i;
}

put-over : (bytes : List ℕ) (c : Cursor) → length c.room < length bytes → put bytes c ≡ fault
unfolding put
put-over bytes c h = ground arith

-- Two copies in a row are one copy.
pub put-put : (a b : List ℕ) (c : Cursor) → (put a c >>= put b) ≡ put (a ++ b) c
put-put a b c = elim (Bool-cases (leb (length a) (length c.room))) [
  | inl fits ↦ rw (put-fits a c (leb→le _ _ fits)) (both (leb→le _ _ fits))
  | inr over ↦
      rw (put-over a c (ground arith))
        (sym (put-over (a ++ b) c (let l = length-append a b in ground arith)))
]
  where
    both : length a ≤ length c.room → put b (advance a c) ≡ put (a ++ b) c
    both h = elim (Bool-cases (leb (length b) (length (drop (length a) c.room)))) [
      | inl fits ↦ rw (put-fits b (advance a c) (leb→le _ _ fits)) (
          ap ok (advance-advance a b c)
          ∙ sym (
              put-fits (a ++ b) c (
                let f = leb→le _ _ fits in
                omega (arith, length-append a b, length-drop (length a) c.room))))
      | inr over ↦ rw (put-over b (advance a c) (ground arith)) (
          sym (
            put-over (a ++ b) c (
              let f : length (drop (length a) c.room) < length b = ground arith in
              omega (arith, length-append a b, length-drop (length a) c.room))))
    ]

pub put-nil : (c : Cursor) → put [] c ≡ ok c
put-nil c =
    put-fits [] c (omega arith) ∙ λ i. ok (record { before = append-nil c.before i; room = c.room })

-- The same in front of what follows.
pub put-put_then {ℓ} :
    {A : Type ℓ} (a b : List ℕ) (c : Cursor) (k : Cursor → Result A)
    → (put a c >>= λ d. (put b d >>= k)) ≡ (put (a ++ b) c >>= k)
put-put_then a b c k = sym (>>=-assoc (put a c) (put b) k) ∙ ap (λ m. m >>= k) (put-put a b c)

-- A copy and then a step that copies `tail` wherever there is room for it are one copy.
pub put-append :
    (head tail : List ℕ) (c : Cursor) (k : Cursor → Result Cursor)
    → length head + length tail ≤ length c.room
    → ((d : Cursor) → length tail ≤ length d.room → k d ≡ put tail d)
    → (put head c >>= k) ≡ put (head ++ tail) c
put-append head tail c k r h = rw (put-fits head c (omega arith)) (
    h (advance head c) (omega (arith, length-drop (length head) c.room))
    ∙ sym (ap (λ m. m >>= put tail) (put-fits head c (omega arith)))
    ∙ put-put head tail c)

-- `std::memcpy(target, buffer.data() + offset, size); offset += size;`
unfoldable pub get : ℕ → List ℕ → Result (List ℕ × List ℕ)
get zero buffer = ok ([], buffer)
get (suc n) [] = fault
get (suc n) (b ∷ buffer) = do (bytes, rest) ← get n buffer; ok (b ∷ bytes, rest)

get-append-length : (bytes rest : List ℕ) → get (length bytes) (bytes ++ rest) ≡ ok (bytes, rest)
unfolding get
get-append-length [] rest = refl
get-append-length (b ∷ bytes) rest = rw (get-append-length bytes rest)

pub get-append :
    (n : ℕ) (bytes rest : List ℕ) → length bytes ≡ n → get n (bytes ++ rest) ≡ ok (bytes, rest)
get-append n bytes rest h = rw (← h) (get-append-length bytes rest)

pub get_short : (n : ℕ) (buffer : List ℕ) → length buffer < n → get n buffer ≡ fault
unfolding get
get_short zero buffer h = elim h [ ]
get_short (suc n) [] h = refl
get_short (suc n) (b ∷ buffer) h = rw (get_short n buffer (omega arith))

-- A read of bytes that are there succeeds and leaves the rest.
pub get_within :
    (n : ℕ) (buffer : List ℕ)
    → n ≤ length buffer
    → (bytes : List ℕ) × (rest : List ℕ) × (get n buffer ≡ ok (bytes, rest))
      × (length rest + n ≡ length buffer)
unfolding get
get_within zero buffer h = ([], buffer, refl, omega arith)
get_within (suc n) [] h = absurd (omega arith)
get_within (suc n) (b ∷ buffer) h =
    let (bytes, rest, e, l) = get_within n buffer (omega arith) in
    (b ∷ bytes, rest, rw e refl, omega arith)

-- The fields of integral type: `n` bytes, least significant first.
unfoldable pub serialize_number : ℕ → ℕ → Cursor → Result Cursor
serialize_number n v = put (le_bytes n v)

unfoldable pub deserialize_number : ℕ → List ℕ → Result (ℕ × List ℕ)
deserialize_number n buffer = do (bytes, rest) ← get n buffer; ok (le_number bytes, rest)

pub deserialize_number-le_bytes :
    (n v : ℕ) (rest : List ℕ)
    → v < 256 ^ n
    → deserialize_number n (le_bytes n v ++ rest) ≡ ok (v, rest)
unfolding deserialize_number
deserialize_number-le_bytes n v rest h =
    rw (get-append n (le_bytes n v) rest (length-le_bytes n v), le_number-le_bytes n v h)

pub deserialize_number_within :
    (n : ℕ) (buffer : List ℕ)
    → n ≤ length buffer
    → (v : ℕ) × (rest : List ℕ) × (deserialize_number n buffer ≡ ok (v, rest))
      × (length rest + n ≡ length buffer)
unfolding deserialize_number
deserialize_number_within n buffer h =
    let (bytes, rest, e, l) = get_within n buffer h in (le_number bytes, rest, rw e refl, l)

-- `byte64_t`: 64 bytes, the most significant first.
unfoldable pub blob_bytes : ℕ → List ℕ
blob_bytes v = reverse (le_bytes 64 v)

unfoldable pub serialize_blob : ℕ → Cursor → Result Cursor
serialize_blob v = put (blob_bytes v)

unfoldable pub deserialize_blob : List ℕ → Result (ℕ × List ℕ)
deserialize_blob buffer = do (bytes, rest) ← get 64 buffer; ok (le_number (reverse bytes), rest)

pub deserialize_blob_within :
    (buffer : List ℕ)
    → 64 ≤ length buffer
    → (v : ℕ) × (rest : List ℕ) × (deserialize_blob buffer ≡ ok (v, rest))
      × (length rest + 64 ≡ length buffer)
unfolding deserialize_blob
deserialize_blob_within buffer h =
    let (bytes, rest, e, l) = get_within 64 buffer h in
    (le_number (reverse bytes), rest, rw e refl, l)

length-reverse : (xs : List ℕ) → length (reverse xs) ≡ length xs
length-reverse [] = refl
length-reverse (x ∷ xs) =
    omega
      (arith, ap length (reverse-cons x xs), length-append (reverse xs) (x ∷ []), length-reverse xs)

pub length-blob_bytes : (v : ℕ) → length (blob_bytes v) ≡ 64
unfolding blob_bytes
length-blob_bytes v = length-reverse (le_bytes 64 v) ∙ length-le_bytes 64 v

pub deserialize_blob-blob_bytes :
    (v : ℕ) (rest : List ℕ) → v < 256 ^ 64 → deserialize_blob (blob_bytes v ++ rest) ≡ ok (v, rest)
unfolding deserialize_blob
deserialize_blob-blob_bytes v rest h =
    rw (get-append 64 (blob_bytes v) rest (length-blob_bytes v)) (ap (λ n. ok (n, rest)) back)
  where
    back : le_number (reverse (blob_bytes v)) ≡ v
    back = unfold blob_bytes in rw (reverse-reverse (le_bytes 64 v)) (le_number-le_bytes 64 v h)

reverse-IsBytes : (xs : List ℕ) → IsBytes xs → IsBytes (reverse xs)
reverse-IsBytes [] h = tt
reverse-IsBytes (x ∷ xs) h =
    rw (reverse-cons x xs) (All-append _ (reverse xs) (x ∷ []) (reverse-IsBytes xs h.1) (h.0, tt))

pub blob_bytes-IsBytes : (v : ℕ) → IsBytes (blob_bytes v)
unfolding blob_bytes
blob_bytes-IsBytes v = reverse-IsBytes (le_bytes 64 v) (le_bytes-IsBytes 64 v)
