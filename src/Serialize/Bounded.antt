-- ===== src/Serialize/Bounded.antt =====
-- Readings of a buffer of bytes, whose numbers are bounded by their width.
use mathlib.Core.List.{reverse}
use pqblockchain.Prelude.{
  ℕ, zero, suc, ◌^◌, ◌<◌, ◌≡◌, refl, ap, subst, Bool, true, false, List, [], ◌∷◌, length, drop,
}
use pqblockchain.Exceptions.{
  Exception, Result, ok, throw_if, ◌>>=◌, Ensures, Ensures-ok, Ensures_bind,
}
use pqblockchain.Serialize.Bytes.{le_number, IsBytes, le_number-lt}
use pqblockchain.Serialize.Fields.{get, deserialize_number, deserialize_blob}

-- What is read has the property, and what is left of the buffer consists of bytes.
abbrev pub Yields {ℓ κ} : {A : Type ℓ} → (A → Type κ) → Result (A × List ℕ) → Type (ℓ ⊔ κ)
Yields P m = Ensures (λ r. P r.0 × IsBytes r.1) m

pub Yields-ok {ℓ κ} :
    {A : Type ℓ} (P : A → Type κ) (a : A) (rest : List ℕ)
    → P a
    → IsBytes rest
    → Yields P (ok (a, rest))
Yields-ok P a rest h k = Ensures-ok (λ r. P r.0 × IsBytes r.1) (a, rest) (h, k)

pub Yields-bind {ℓ κ μ ν} :
    {A : Type ℓ} {B : Type κ} (Q : A → Type μ) (P : B → Type ν) (m : Result (A × List ℕ))
    (f : A × List ℕ → Result (B × List ℕ))
    → Yields Q m
    → ((a : A) (rest : List ℕ) → Q a → IsBytes rest → Yields P (f (a, rest)))
    → Yields P (m >>= f)
Yields-bind Q P m f first later =
    Ensures_bind (λ r. Q r.0 × IsBytes r.1) (λ r. P r.0 × IsBytes r.1) m f first
      (λ r h. later r.0 r.1 h.0 h.1)

pub Ensures-throw_if {ℓ κ} :
    {A : Type ℓ} (P : A → Type κ) (test : Bool) (e : Exception) (m : Result A)
    → Ensures P m
    → Ensures P (throw_if test e m)
Ensures-throw_if P true e m h r thrown = absurd (cc)
Ensures-throw_if P false e m h r done = h r done

pub drop-IsBytes : (n : ℕ) (bytes : List ℕ) → IsBytes bytes → IsBytes (drop n bytes)
drop-IsBytes zero bytes h = h
drop-IsBytes (suc n) [] h = tt
drop-IsBytes (suc n) (b ∷ bytes) h = drop-IsBytes n bytes h.1

-- So many bytes.
abbrev pub AreBytes : ℕ → List ℕ → Type 0
AreBytes n bytes = IsBytes bytes × (length bytes ≡ n)

pub get-IsBytes : (n : ℕ) (buffer : List ℕ) → IsBytes buffer → Yields (AreBytes n) (get n buffer)
unfolding get
get-IsBytes zero buffer h r e = Yields-ok (AreBytes 0) [] buffer (tt, refl) h r e
get-IsBytes (suc n) [] h r e = absurd (cc)
get-IsBytes (suc n) (b ∷ buffer) h r e =
    Yields-bind (AreBytes n) (AreBytes (suc n)) (get n buffer) _ (get-IsBytes n buffer h.1)
      (λ bytes rest p k. Yields-ok (AreBytes (suc n)) (b ∷ bytes) rest ((h.0, p.0), ap suc p.1) k) r
      e

pub deserialize_number-lt :
    (n : ℕ) (buffer : List ℕ)
    → IsBytes buffer
    → Yields (λ v. v < 256 ^ n) (deserialize_number n buffer)
unfolding deserialize_number
deserialize_number-lt n buffer h =
    Yields-bind (AreBytes n) _ (get n buffer) _ (get-IsBytes n buffer h) (λ bytes rest p k.
      Yields-ok _ (le_number bytes) rest
        (subst (λ m. le_number bytes < 256 ^ m) p.1 (le_number-lt bytes p.0)) k)

pub deserialize_blob-IsBytes :
    (buffer : List ℕ) → IsBytes buffer → Yields (λ v. Unit {0}) (deserialize_blob buffer)
unfolding deserialize_blob
deserialize_blob-IsBytes buffer h =
    Yields-bind (AreBytes 64) _ (get 64 buffer) _ (get-IsBytes 64 buffer h)
      (λ bytes rest p k. Yields-ok _ (le_number (reverse bytes)) rest tt k)
