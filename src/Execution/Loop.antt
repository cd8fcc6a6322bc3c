-- ===== src/Execution/Loop.antt =====
-- What the loop over the set keeps: the sum of all balances, and enough money in each sender's
-- account.
use pqblockchain.Prelude.{
  ℕ, ◌+◌, ◌^◌, ◌≡◌, ◌≢◌, ◌≤◌, ◌<◌, refl, sym, subst, ◌∙◌, inl, inr, true, false, Option, none, some,
  List, [], ◌∷◌, ◌==◌, All, Bool-cases, Option-cases, ==→eq, ne→==, ltb, leb, ltb-false, arith,
}
use pqblockchain.Prelude.Map.{lookup, assign, HasKeys, assign-HasKeys}
use pqblockchain.Transaction.{Transaction}
use pqblockchain.Transaction.Set.{TransactionSet, AllAfter}
use pqblockchain.Account.{AccountBalance}
use pqblockchain.Execution.{
  AccountDifference, Differences, Run, debit, credit, confirm, settle, has_duplicate,
}
use pqblockchain.Execution.Totals.{contains, IsDistinct, total, total-change, le-total}
use pqblockchain.Execution.Differences.{
  balance_of, effect, effect-debit, effect-debit_ne, effect-credit, effect-credit_ne,
}

-- Each entry is that of a known account.
abbrev pub Known : (ℕ → Option AccountBalance) → Differences → Type 0
Known get_balance = All (λ e. (e.1.id ≡ e.0) × (get_balance e.0 ≢ none))

Known-lookup :
    (get_balance : ℕ → Option AccountBalance) (k : ℕ) (d : AccountDifference) (diffs : Differences)
    → Known get_balance diffs
    → lookup k diffs ≡ some d
    → d.id ≡ k
Known-lookup get_balance k d [] h e = cc
Known-lookup get_balance k d ((j, c) ∷ diffs) h e = elim (Bool-cases (j == k)) [
  | inl s ↦
      let same : some c ≡ some d = rw s at e in
      let j_eq : j ≡ k = ==→eq j k s in ground (arith, h.0.0)
  | inr s ↦ Known-lookup get_balance k d diffs h.1 (rw s at e)
]

Known-assign :
    (get_balance : ℕ → Option AccountBalance) (k : ℕ) (d : AccountDifference) (diffs : Differences)
    → d.id ≡ k
    → get_balance k ≢ none
    → Known get_balance diffs
    → Known get_balance (assign k d diffs)
Known-assign get_balance k d [] e n h = ((e, n), tt)
Known-assign get_balance k d ((j, c) ∷ diffs) e n h = elim (Bool-cases (j == k)) [
  | inl s ↦ let j_eq : j ≡ k = ==→eq j k s in rw s ((rw j_eq e, h.0.1), h.1)
  | inr s ↦ rw s (h.0, Known-assign get_balance k d diffs e n h.1)
]

debit-Known :
    (get_balance : ℕ → Option AccountBalance) (tx : Transaction) (diffs : Differences)
    → get_balance tx.sender_wallet_address ≢ none
    → Known get_balance diffs
    → HasKeys diffs
    → Known get_balance (debit tx diffs) × HasKeys (debit tx diffs)
unfolding debit
debit-Known get_balance tx diffs n h u =
    elim (Option-cases (lookup tx.sender_wallet_address diffs)) [
      | inl e ↦
          rw (e, debit)
            (
              Known-assign get_balance tx.sender_wallet_address _ diffs refl n h,
              assign-HasKeys _ _ diffs u,
            )
      | inr (d, e) ↦
          rw (e, debit)
            (
              Known-assign get_balance tx.sender_wallet_address _ diffs
                  (Known-lookup get_balance _ d diffs h e) n h,
              assign-HasKeys _ _ diffs u,
            )
    ]

credit-Known :
    (get_balance : ℕ → Option AccountBalance) (tx : Transaction) (diffs : Differences)
    → get_balance tx.receiver_wallet_address ≢ none
    → Known get_balance diffs
    → HasKeys diffs
    → Known get_balance (credit tx diffs) × HasKeys (credit tx diffs)
unfolding credit
credit-Known get_balance tx diffs n h u =
    elim (Option-cases (lookup tx.receiver_wallet_address diffs)) [
      | inl e ↦
          rw (e, credit)
            (
              Known-assign get_balance tx.receiver_wallet_address _ diffs refl n h,
              assign-HasKeys _ _ diffs u,
            )
      | inr (d, e) ↦
          rw (e, credit)
            (
              Known-assign get_balance tx.receiver_wallet_address _ diffs
                  (Known-lookup get_balance _ d diffs h e) n h,
              assign-HasKeys _ _ diffs u,
            )
    ]

-- What the checks of a received transaction ensure: a sender that is no null address, an amount
-- that fits its type, and a receiver with an account.
pub record IsPayable (get_balance : ℕ → Option AccountBalance) (tx : Transaction) : Type 0 where
  pub sender_set : tx.sender_wallet_address ≢ 0
  pub cash_fits : tx.cash_amount < 2 ^ 32
  pub receiver_known : get_balance tx.receiver_wallet_address ≢ none

-- The accounts are those of the list, and hold less than 2^32 in all.
pub record Accounts (get_balance : ℕ → Option AccountBalance) (ids : List ℕ) : Type 0 where
  pub distinct : IsDistinct ids
  pub covers : (id : ℕ) → get_balance id ≢ none → contains id ids ≡ true
  pub supply : total (λ id. balance_of (get_balance id)) ids < 2 ^ 32

pub curr_acc-settle : (tx : Transaction) (r : Run) → (settle tx r).curr_acc ≡ r.curr_acc
unfolding settle confirm
curr_acc-settle tx r = ground arith

-- The senders of the transactions that are left come at or after the current one.
abbrev pub FromSender : ℕ → TransactionSet → Type 0
FromSender a = All (λ t. a ≤ t.sender_wallet_address)

pub FromSender-AllAfter :
    (tx : Transaction) (txs : TransactionSet)
    → AllAfter tx txs
    → FromSender tx.sender_wallet_address txs
FromSender-AllAfter tx [] h = tt
FromSender-AllAfter tx (t ∷ ts) h = (let first = h.0 in ground arith, FromSender-AllAfter tx ts h.1)

pub has_duplicate-ordered :
    (tx : Transaction) (txs : TransactionSet)
    → AllAfter tx txs
    → has_duplicate tx.sender_wallet_address tx.sequence_number txs ≡ false
unfolding has_duplicate
has_duplicate-ordered tx [] h = refl
has_duplicate-ordered tx (t ∷ ts) h = let first = h.0 in ground arith

module _ (get_balance : ℕ → Option AccountBalance) (ids : List ℕ)
    (accounts : Accounts get_balance ids) where
  abbrev pub supply_of : ℕ
  supply_of = total (λ id. balance_of (get_balance id)) ids

  -- The sum is kept; the current sender can pay `up_balance`; no sender that comes later in the
  -- order has been debited.
  pub record Inv (r : Run) : Type 0 where
    pub sum : total (effect get_balance r.acc_diffs) ids ≡ supply_of
    pub current : r.curr_acc ≢ 0 → r.up_balance ≤ effect get_balance r.acc_diffs r.curr_acc
    pub known_sender : r.curr_acc ≢ 0 → get_balance r.curr_acc ≢ none
    pub later :
        (a : ℕ) → r.curr_acc < a → balance_of (get_balance a) ≤ effect get_balance r.acc_diffs a
    pub known : Known get_balance r.acc_diffs
    pub keys : HasKeys r.acc_diffs

  -- The sum after a debit.
  total-debit :
      (tx : Transaction) (diffs : Differences)
      → total (effect get_balance diffs) ids ≡ supply_of
      → get_balance tx.sender_wallet_address ≢ none
      → tx.cash_amount < 2 ^ 32
      → tx.cash_amount ≤ effect get_balance diffs tx.sender_wallet_address
      → total (effect get_balance (debit tx diffs)) ids + tx.cash_amount ≡ supply_of
  total-debit tx diffs h n c k =
      let change =
        total-change (effect get_balance diffs) (effect get_balance (debit tx diffs))
          tx.sender_wallet_address ids accounts.distinct
          (accounts.covers tx.sender_wallet_address n)
          (λ j ne. effect-debit_ne get_balance tx diffs j (λ e. ne (sym e))) in
      omega (arith, effect-debit get_balance tx diffs c k)

  credit_fits :
      (tx : Transaction) (diffs : Differences)
      → total (effect get_balance diffs) ids + tx.cash_amount ≡ supply_of
      → get_balance tx.receiver_wallet_address ≢ none
      → effect get_balance diffs tx.receiver_wallet_address + tx.cash_amount < 2 ^ 32
  credit_fits tx diffs h n = omega (
    arith,
    accounts.supply,
    le-total (effect get_balance diffs) tx.receiver_wallet_address ids
        (accounts.covers tx.receiver_wallet_address n),
  )

  -- The sum after the credit that follows.
  total-credit :
      (tx : Transaction) (diffs : Differences)
      → total (effect get_balance diffs) ids + tx.cash_amount ≡ supply_of
      → get_balance tx.receiver_wallet_address ≢ none
      → total (effect get_balance (credit tx diffs)) ids ≡ supply_of
  total-credit tx diffs h n =
      let change =
        total-change (effect get_balance diffs) (effect get_balance (credit tx diffs))
          tx.receiver_wallet_address ids accounts.distinct
          (accounts.covers tx.receiver_wallet_address n)
          (λ j ne. effect-credit_ne get_balance tx diffs j (λ e. ne (sym e))) in
      omega (arith, effect-credit get_balance tx diffs (credit_fits tx diffs h n))

  -- A credit takes from nobody.
  le-credit :
      (tx : Transaction) (diffs : Differences) (a : ℕ)
      → total (effect get_balance diffs) ids + tx.cash_amount ≡ supply_of
      → get_balance tx.receiver_wallet_address ≢ none
      → effect get_balance diffs a ≤ effect get_balance (credit tx diffs) a
  le-credit tx diffs a h n = elim (Bool-cases (tx.receiver_wallet_address == a)) [
    | inl e ↦
        let same : tx.receiver_wallet_address ≡ a = ==→eq _ _ e in
        rw (← same) (omega (arith, effect-credit get_balance tx diffs (credit_fits tx diffs h n)))
    | inr e ↦ omega (arith, effect-credit_ne get_balance tx diffs a (ne→== _ _ e))
  ]

  confirm-Inv :
      (tx : Transaction) (r : Run)
      → IsPayable get_balance tx
      → r.curr_acc ≡ tx.sender_wallet_address
      → tx.cash_amount ≤ r.up_balance
      → Inv r
      → Inv (confirm tx r)
  unfolding confirm
  confirm-Inv tx r p same enough v = record {
    sum = total-credit tx (debit tx r.acc_diffs) debited p.receiver_known;
    current = λ _. rw same (
        omega (
          arith,
          effect-debit get_balance tx r.acc_diffs p.cash_fits pays,
          funds,
          le-credit tx (debit tx r.acc_diffs) tx.sender_wallet_address debited p.receiver_known,
        ));
    known_sender = v.known_sender;
    later = λ a lt. omega (
      arith,
      v.later a lt,
      effect-debit_ne get_balance tx r.acc_diffs a (λ e. omega arith),
      le-credit tx (debit tx r.acc_diffs) a debited p.receiver_known,
    );
    known = entries.0;
    keys = entries.1;
  }
    where
      active : r.curr_acc ≢ 0
      active e = p.sender_set (sym same ∙ e)

      sender_known : get_balance tx.sender_wallet_address ≢ none
      sender_known = subst (λ a. get_balance a ≢ none) same (v.known_sender active)

      funds : r.up_balance ≤ effect get_balance r.acc_diffs tx.sender_wallet_address
      funds = subst (λ a. r.up_balance ≤ effect get_balance r.acc_diffs a) same (v.current active)

      pays : tx.cash_amount ≤ effect get_balance r.acc_diffs tx.sender_wallet_address
      pays = omega (arith, funds)

      debited : total (effect get_balance (debit tx r.acc_diffs)) ids + tx.cash_amount ≡ supply_of
      debited = total-debit tx r.acc_diffs v.sum sender_known p.cash_fits pays

      entries :
          Known get_balance (credit tx (debit tx r.acc_diffs))
          × HasKeys (credit tx (debit tx r.acc_diffs))
      entries =
          let d = debit-Known get_balance tx r.acc_diffs sender_known v.known v.keys in
          credit-Known get_balance tx (debit tx r.acc_diffs) p.receiver_known d.0 d.1

  pub settle-Inv :
      (tx : Transaction) (r : Run)
      → IsPayable get_balance tx
      → r.curr_acc ≡ tx.sender_wallet_address
      → Inv r
      → Inv (settle tx r)
  unfolding settle
  settle-Inv tx r p same v = elim (Bool-cases (ltb r.up_balance tx.cash_amount)) [
    | inl e ↦ rw e v
    | inr e ↦ rw e (elim (Bool-cases (leb tx.sequence_number r.acc.tx_sequence)) [
      | inl f ↦ rw f v
      | inr f ↦ rw f (confirm-Inv tx r p same (ltb-false _ _ e) v)
    ])
  ]

  -- Where the sender changes, the next one in the order has not paid yet.
  pub load-Inv :
      (tx : Transaction) (r : Run) (acc : AccountBalance)
      → r.curr_acc < tx.sender_wallet_address
      → get_balance tx.sender_wallet_address ≡ some acc
      → Inv r
      → Inv (record r { acc = acc; curr_acc = tx.sender_wallet_address; up_balance = acc.balance })
  load-Inv tx r acc lt e v = record {
    sum = v.sum;
    current = λ _.
        let b : balance_of (get_balance tx.sender_wallet_address) ≡ acc.balance = rw e in
        omega (arith, v.later tx.sender_wallet_address lt);
    known_sender = λ _. rw e (λ none_eq. cc);
    later = λ a l. v.later a (omega arith);
    known = v.known;
    keys = v.keys;
  }
