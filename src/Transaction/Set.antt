-- ===== src/Transaction/Set.antt =====
-- `TransactionSet` of src/Ledger/Transaction.hpp: a `std::set` ordered by `TransactionPtrOrder`,
-- as the list of its elements in that order.
use pqblockchain.Prelude.{
  ◌≢◌, if_both, ◌≡◌, refl, sym, ap, ◌∙◌, inl, inr, Bool, true, false, not, ◌&&◌, Option, none, some,
  List, [], ◌∷◌, ◌++◌, All, ltb, ◌==◌, if◌then◌else◌, Bool-cases, arith,
}
use pqblockchain.Transaction.{Transaction}

-- `TransactionPtrOrder::operator()`: by sender, then by sequence number.
abbrev pub before : Transaction → Transaction → Bool
before a b =
    if a.sender_wallet_address == b.sender_wallet_address
    then ltb a.sequence_number b.sequence_number
    else ltb a.sender_wallet_address b.sender_wallet_address

-- Neither comes before the other: a `std::set` holds one of the two at most.
abbrev pub same_key : Transaction → Transaction → Bool
same_key a b = not (before a b) && not (before b a)

abbrev pub TransactionSet : Type 0
TransactionSet = List Transaction

-- `txSet.insert(tx)`: an element with the same key stays.
unfoldable pub insert : Transaction → TransactionSet → TransactionSet
insert t [] = t ∷ []
insert t (x ∷ xs) =
    if before t x then t ∷ (x ∷ xs) else if before x t then x ∷ insert t xs else x ∷ xs

-- `txSet.find(tx)`.
unfoldable pub find : Transaction → TransactionSet → Option Transaction
find t [] = none
find t (x ∷ xs) = if same_key t x then some x else find t xs

-- `txSet.erase(tx)`.
unfoldable pub erase : Transaction → TransactionSet → TransactionSet
erase t [] = []
erase t (x ∷ xs) = if same_key t x then xs else x ∷ erase t xs

-- Strictly in order, so that no two elements have the same key.
abbrev pub AllAfter : Transaction → TransactionSet → Type 0
AllAfter t = All (λ x. before t x ≡ true)

abbrev pub IsOrdered : TransactionSet → Type 0
IsOrdered [] = Unit {0}
IsOrdered (x ∷ xs) = AllAfter x xs × IsOrdered xs

pub before_trans : (a b c : Transaction) → before a b ≡ true → before b c ≡ true → before a c ≡ true
before_trans a b c h k = ground arith

pub AllAfter-trans :
    (a b : Transaction) (xs : TransactionSet) → before a b ≡ true → AllAfter b xs → AllAfter a xs
AllAfter-trans a b [] h k = tt
AllAfter-trans a b (x ∷ xs) h k = (before_trans a b x h k.0, AllAfter-trans a b xs h k.1)

pub insert-All {κ} :
    (P : Transaction → Type κ) (t : Transaction) (xs : TransactionSet)
    → P t
    → All P xs
    → All P (insert t xs)
unfolding insert
insert-All P t [] h k = (h, tt)
insert-All P t (x ∷ xs) h k =
    if_both (All P) (before t x) (t ∷ (x ∷ xs)) _ (h, k)
      (if_both (All P) (before x t) (x ∷ insert t xs) (x ∷ xs) (k.0, insert-All P t xs h k.1) k)

-- An insertion into a set in order leaves it in order, with no two elements of the same key.
pub insert-IsOrdered :
    (t : Transaction) (xs : TransactionSet) → IsOrdered xs → IsOrdered (insert t xs)
unfolding insert
insert-IsOrdered t [] o = (tt, tt)
insert-IsOrdered t (x ∷ xs) o = elim (Bool-cases (before t x)) [
  | inl e ↦ rw e ((e, AllAfter-trans t x xs e o.0), o)
  | inr e ↦ rw e (elim (Bool-cases (before x t)) [
    | inl f ↦ rw f (insert-All (λ y. before x y ≡ true) t xs f o.0, insert-IsOrdered t xs o.1)
    | inr f ↦ rw f o
  ])
]

erase-AllAfter : (a t : Transaction) (xs : TransactionSet) → AllAfter a xs → AllAfter a (erase t xs)
unfolding erase
erase-AllAfter a t [] k = tt
erase-AllAfter a t (x ∷ xs) k = elim (Bool-cases (same_key t x)) [
  | inl e ↦ rw e k.1
  | inr e ↦ rw e (k.0, erase-AllAfter a t xs k.1)
]

-- An erasure leaves a set in order in order.
pub erase-IsOrdered :
    (t : Transaction) (xs : TransactionSet) → IsOrdered xs → IsOrdered (erase t xs)
unfolding erase
erase-IsOrdered t [] o = tt
erase-IsOrdered t (x ∷ xs) o = elim (Bool-cases (same_key t x)) [
  | inl e ↦ rw e o.1
  | inr e ↦ rw e (erase-AllAfter x t xs o.0, erase-IsOrdered t xs o.1)
]

find_after : (t : Transaction) (xs : TransactionSet) → AllAfter t xs → find t xs ≡ none
unfolding find
find_after t [] k = refl
find_after t (x ∷ xs) k =
    let differs : same_key t x ≡ false = let h = k.0 in ground arith in
    rw differs (find_after t xs k.1)

-- What a set holds after an insertion: under the key of `t` the element that was there before, and
-- `t` if there was none; under any other key what it held.
abbrev pub or_else : Option Transaction → Transaction → Transaction
or_else none t = t
or_else (some x) t = x

find_same : (a b : Transaction) (xs : TransactionSet) → same_key a b ≡ true → find a xs ≡ find b xs
unfolding find
find_same a b [] h = refl
find_same a b (x ∷ xs) h = rw (agree, find_same a b xs h)
  where
    agree : same_key a x ≡ same_key b x
    agree = ground arith

-- A set that lies wholly after the first element of another is appended to it as it stands.
abbrev pub AllBefore : TransactionSet → Transaction → Type 0
AllBefore xs t = All (λ x. before x t ≡ true) xs

pub insert-last :
    (t : Transaction) (xs : TransactionSet) → AllBefore xs t → insert t xs ≡ xs ++ t ∷ []
unfolding insert
insert-last t [] h = refl
insert-last t (x ∷ xs) h =
    let later : before t x ≡ false = let k = h.0 in ground arith in
    rw (later, h.0, insert-last t xs h.1)

-- The result of a search after an insertion, by what was there before.
abbrev inserted : Transaction → Transaction → TransactionSet → Option Transaction
inserted u t xs = if same_key u t then some (or_else (find t xs) t) else find u xs

find-insert_apart :
    (u t x : Transaction) (xs : TransactionSet)
    → before x t ≡ true
    → find u (insert t xs) ≡ inserted u t xs
    → find u (x ∷ insert t xs) ≡ inserted u t (x ∷ xs)
unfolding find
find-insert_apart u t x xs f ih =
    let g : same_key t x ≡ false = ground arith in
    rw (g, ih)
      (elim (Bool-cases (same_key u x)) [
        | inl h ↦ let k : same_key u t ≡ false = ground arith in rw (h, k) refl
        | inr h ↦ rw h refl
      ])

find-insert_present :
    (u t x : Transaction) (xs : TransactionSet)
    → same_key t x ≡ true
    → find u (x ∷ xs) ≡ inserted u t (x ∷ xs)
unfolding find
find-insert_present u t x xs g = rw g (elim (Bool-cases (same_key u t)) [
  | inl h ↦ let k : same_key u x ≡ true = ground arith in rw (h, k) refl
  | inr h ↦ rw h refl
])

insert_front :
    (t x : Transaction) (xs : TransactionSet) → before t x ≡ true → insert t (x ∷ xs) ≡ t ∷ (x ∷ xs)
unfolding insert
insert_front t x xs e = rw e

insert_later :
    (t x : Transaction) (xs : TransactionSet)
    → before t x ≡ false
    → before x t ≡ true
    → insert t (x ∷ xs) ≡ x ∷ insert t xs
unfolding insert
insert_later t x xs e f = rw (e, f)

insert_present :
    (t x : Transaction) (xs : TransactionSet)
    → before t x ≡ false
    → before x t ≡ false
    → insert t (x ∷ xs) ≡ x ∷ xs
unfolding insert
insert_present t x xs e f = rw (e, f)

find-insert_front :
    (u t x : Transaction) (xs : TransactionSet)
    → find t (x ∷ xs) ≡ none
    → find u (t ∷ (x ∷ xs)) ≡ inserted u t (x ∷ xs)
unfolding find
find-insert_front u t x xs e = elim (Bool-cases (same_key u t)) [
  | inl h ↦ rw h (ap some (ap (λ o. or_else o t) (sym e)))
  | inr h ↦ rw h refl
]

-- In a set in order, an insertion of `t` is seen under the key of `t` alone, and there the element
-- that was present before wins.
pub find-insert :
    (u t : Transaction) (xs : TransactionSet)
    → IsOrdered xs
    → find u (insert t xs) ≡ (if same_key u t then some (or_else (find t xs) t) else find u xs)
find-insert u t [] o = unfold insert find in refl
find-insert u t (x ∷ xs) o = elim (Bool-cases (before t x)) [
  | inl e ↦
      ap (find u) (insert_front t x xs e)
      ∙ find-insert_front u t x xs (find_after t (x ∷ xs) (e, AllAfter-trans t x xs e o.0))
  | inr e ↦ elim (Bool-cases (before x t)) [
    | inl f ↦
        ap (find u) (insert_later t x xs e f)
        ∙ find-insert_apart u t x xs f (find-insert u t xs o.1)
    | inr f ↦ ap (find u) (insert_present t x xs e f) ∙ find-insert_present u t x xs (ground arith)
  ]
]

-- In a set in order, an erasure removes the element with the key of `t` and no other.
pub find-erase :
    (u t : Transaction) (xs : TransactionSet)
    → IsOrdered xs
    → find u (erase t xs) ≡ (if same_key u t then none else find u xs)
unfolding erase find
find-erase u t [] o = ground arith
find-erase u t (x ∷ xs) o = elim (Bool-cases (same_key t x)) [
  | inl e ↦ rw e (elim (Bool-cases (same_key u t)) [
    | inl h ↦
        let k : same_key u x ≡ true = ground arith in
        rw h (find_same u x xs k ∙ find_after x xs o.0)
    | inr h ↦ let k : same_key u x ≡ false = ground arith in rw (h, k) refl
  ])
  | inr e ↦
      rw (e, find-erase u t xs o.1)
        (elim (Bool-cases (same_key u t)) [
          | inl h ↦ let k : same_key u x ≡ false = ground arith in rw (h, k) refl
          | inr h ↦ rw h refl
        ])
]

pub find-insert_self :
    (t : Transaction) (xs : TransactionSet) → IsOrdered xs → find t (insert t xs) ≢ none
find-insert_self t xs o e =
    let own : same_key t t ≡ true = ground arith in
    let there : some (or_else (find t xs) t) ≡ none =
      let h = sym (find-insert t t xs o) ∙ e in rw own at h in
    cc

pub find-insert_kept :
    (u t : Transaction) (xs : TransactionSet)
    → IsOrdered xs
    → find u xs ≢ none
    → find u (insert t xs) ≢ none
find-insert_kept u t xs o known e =
    let h = sym (find-insert u t xs o) ∙ e in
    elim (Bool-cases (same_key u t)) [
      | inl same ↦ absurd (let there : some (or_else (find t xs) t) ≡ none = rw same at h in cc)
      | inr apart ↦ known (rw apart at h)
    ]
