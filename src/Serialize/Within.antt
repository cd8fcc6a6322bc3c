-- ===== src/Serialize/Within.antt =====
-- Readings that never pass the end of a buffer.
use pqblockchain.Prelude.{ℕ, ◌≤◌, ◌≡◌, ◌⊎◌, inl, inr, refl, Bool, true, false, List, length, arith}
use pqblockchain.Exceptions.{Exception, Result, ok, throw, ◌>>=◌, throw_if}

-- A reading of the buffer ends with an exception, or with an object and what is left of the buffer,
-- and never reads past its end.
abbrev pub Reads {ℓ} : {A : Type ℓ} → Result (A × List ℕ) → List ℕ → Type ℓ
Reads {A} r buffer =
    ((e : Exception) × (r ≡ throw e))
    ⊎ ((a : A) × (rest : List ℕ) × (r ≡ ok (a, rest)) × (length rest ≤ length buffer))

pub Reads-bind {ℓ κ} :
    {A : Type ℓ} {B : Type κ} (m : Result (A × List ℕ)) (f : A × List ℕ → Result (B × List ℕ))
    (buffer : List ℕ)
    → Reads m buffer
    → ((a : A) (rest : List ℕ) → length rest ≤ length buffer → Reads (f (a, rest)) rest)
    → Reads (m >>= f) buffer
Reads-bind m f buffer (inl (e, h)) k = inl (e, rw h refl)
Reads-bind m f buffer (inr (a, rest, h, l)) k = elim (k a rest l) [
  | inl (e, g) ↦ inl (e, rw h g)
  | inr (b, rest', g, l') ↦ inr (b, rest', rw h g, omega arith)
]

pub Reads-throw_if {ℓ} :
    {A : Type ℓ} (test : Bool) (e : Exception) (r : Result (A × List ℕ)) (buffer : List ℕ)
    → (test ≡ false → Reads r buffer)
    → Reads (throw_if test e r) buffer
Reads-throw_if true e r buffer h = inl (e, refl)
Reads-throw_if false e r buffer h = h refl

-- What is within a part of the buffer is within the buffer.
pub Reads-weaken {ℓ} :
    {A : Type ℓ} (r : Result (A × List ℕ)) (part buffer : List ℕ)
    → length part ≤ length buffer
    → Reads r part
    → Reads r buffer
Reads-weaken r part buffer h (inl x) = inl x
Reads-weaken r part buffer h (inr (a, rest, e, l)) = inr (a, rest, e, omega arith)
