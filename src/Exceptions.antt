-- ===== src/Exceptions.antt =====
-- src/Basis/PQBExceptions.hpp: what a call that does not return normally ends with.
-- `fault` is no exception of the program: it stands for a call whose behaviour C++ leaves
-- undefined, such as a copy past the end of a buffer or a read through a dangling pointer.
use pqblockchain.Prelude.{◌≡◌, refl, ap, subst, Bool, true, false}

pub data Exception : Type 0 where
  block transaction signer command_input storage wallet message proposal : Exception

pub data Result {ℓ} (A : Type ℓ) : Type ℓ where
  ok : A → Result A
  throw : Exception → Result A
  fault : Result A

infixl 5 ◌>>=◌
abbrev pub ◌>>=◌ {ℓ κ} : {A : Type ℓ} {B : Type κ} → Result A → (A → Result B) → Result B
ok a >>= f = f a
throw e >>= f = throw e
fault >>= f = fault

-- `if (test) throw e;`
abbrev pub throw_if {ℓ} : {A : Type ℓ} → Bool → Exception → Result A → Result A
throw_if true e k = throw e
throw_if false e k = k

pub >>=-ok {ℓ} : {A : Type ℓ} (m : Result A) → (m >>= λ a. ok a) ≡ m
>>=-ok (ok a) = refl
>>=-ok (throw e) = refl
>>=-ok fault = refl

pub >>=-assoc {ℓ κ μ} :
    {A : Type ℓ} {B : Type κ} {C : Type μ} (m : Result A) (f : A → Result B) (g : B → Result C)
    → (m >>= f >>= g) ≡ (m >>= λ a. (f a >>= g))
>>=-assoc (ok a) f g = refl
>>=-assoc (throw e) f g = refl
>>=-assoc fault f g = refl

-- A chain that returns does so step by step.
pub >>=-inverse {ℓ κ} :
    {A : Type ℓ} {B : Type κ} (m : Result A) (f : A → Result B) (b : B)
    → (m >>= f) ≡ ok b
    → (a : A) × (m ≡ ok a) × (f a ≡ ok b)
>>=-inverse (ok a) f b h = (a, refl, h)
>>=-inverse (throw e) f b h = absurd (let no : throw e ≡ ok b = h in cc)
>>=-inverse fault f b h = absurd (let no : fault ≡ ok b = h in cc)

value {ℓ} : {A : Type ℓ} → A → Result A → A
value a (ok b) = b
value a _ = a

-- Two calls that return the same return the same value.
pub ok_subst {ℓ κ} : {A : Type ℓ} (P : A → Type κ) (a b : A) → ok a ≡ ok b → P a → P b
unfolding value
ok_subst P a b e h = subst P (ap (value a) e) h

-- What a call returns, if it returns.
abbrev pub Ensures {ℓ κ} : {A : Type ℓ} → (A → Type κ) → Result A → Type (ℓ ⊔ κ)
Ensures {A} P m = (a : A) → m ≡ ok a → P a

pub Ensures-ok {ℓ κ} : {A : Type ℓ} (P : A → Type κ) (a : A) → P a → Ensures P (ok a)
Ensures-ok P a h b e = ok_subst P a b e h

pub Ensures_bind {ℓ κ μ ν} :
    {A : Type ℓ} {B : Type κ} (Q : A → Type μ) (P : B → Type ν) (m : Result A) (f : A → Result B)
    → Ensures Q m
    → ((a : A) → Q a → Ensures P (f a))
    → Ensures P (m >>= f)
Ensures_bind Q P m f first later b e =
    let (a, returned, last) = >>=-inverse m f b e in later a (first a returned) b last
