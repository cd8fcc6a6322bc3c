-- ===== src/Execution/Totals.antt =====
-- Sums over accounts, and how they change where one account changes.
use pqblockchain.Prelude.{
  ℕ, ◌+◌, ◌≡◌, ◌≢◌, ◌≤◌, refl, inl, inr, Bool, true, false, ◌||◌, List, [], ◌∷◌, ◌==◌, Bool-cases,
  ==→eq, ne→==, arith,
}

-- Whether an address is in a list of addresses.
abbrev pub contains : ℕ → List ℕ → Bool
contains k [] = false
contains k (i ∷ ids) = (i == k) || contains k ids

-- No address is listed twice.
abbrev pub IsDistinct : List ℕ → Type 0
IsDistinct [] = Unit {0}
IsDistinct (i ∷ ids) = (contains i ids ≡ false) × IsDistinct ids

abbrev pub total : (ℕ → ℕ) → List ℕ → ℕ
total f [] = 0
total f (i ∷ ids) = f i + total f ids

-- Two measures that agree on each account of the list have the same sum.
pub total-agree :
    (f g : ℕ → ℕ) (ids : List ℕ)
    → ((j : ℕ) → contains j ids ≡ true → g j ≡ f j)
    → total g ids ≡ total f ids
total-agree f g [] h = refl
total-agree f g (i ∷ ids) h = omega (
  arith,
  h i (ground arith),
  total-agree f g ids (λ j m. h j (let m' : contains j ids ≡ true = m in ground arith)),
)

total-off :
    (f g : ℕ → ℕ) (k : ℕ) (ids : List ℕ)
    → contains k ids ≡ false
    → ((j : ℕ) → j ≢ k → g j ≡ f j)
    → total g ids ≡ total f ids
total-off f g k [] m h = refl
total-off f g k (i ∷ ids) m h =
    let here : i ≢ k = ground arith in
    let there : contains k ids ≡ false = ground arith in
    omega (arith, h i here, total-off f g k ids there h)

-- A change at one account of the list changes the sum by as much.
pub total-change :
    (f g : ℕ → ℕ) (k : ℕ) (ids : List ℕ)
    → IsDistinct ids
    → contains k ids ≡ true
    → ((j : ℕ) → j ≢ k → g j ≡ f j)
    → total g ids + f k ≡ total f ids + g k
total-change f g k [] d m h = cc
total-change f g k (i ∷ ids) d m h = elim (Bool-cases (i == k)) [
  | inl e ↦
      let same : i ≡ k = ==→eq i k e in
      let off : contains k ids ≡ false = rw (← same) d.0 in
      rw same (omega (arith, total-off f g k ids off h))
  | inr e ↦
      let there : contains k ids ≡ true = ground arith in
      omega (arith, h i (ne→== i k e), total-change f g k ids d.1 there h)
]

-- No account of the list holds more than the sum.
pub le-total : (f : ℕ → ℕ) (k : ℕ) (ids : List ℕ) → contains k ids ≡ true → f k ≤ total f ids
le-total f k [] m = cc
le-total f k (i ∷ ids) m = elim (Bool-cases (i == k)) [
  | inl e ↦ rw (==→eq i k e) (omega arith)
  | inr e ↦
      let there : contains k ids ≡ true = ground arith in omega (arith, le-total f k ids there)
]
