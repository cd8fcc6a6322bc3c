-- ===== src/Consensus/Dispute/Laws.antt =====
-- The counters of a dispute are those of the votes that it holds; what `updateVote` decides.
use native.Mathlib.Nat.{mod-eq_of_lt, div_self, div-eq_of_lt}
use pqblockchain.Prelude.{
  ℕ, ◌+◌, ◌/◌, ◌%◌, zero, suc, ◌<◌, ◌≤◌, ◌^◌, ◌≡◌, ◌≢◌, refl, sym, ap, inl, inr, Bool, true, false,
  ◌&&◌, none, some, [], ◌∷◌, length, ◌==◌, if◌then◌else◌, arith, Bool-cases, Option-cases,
  ne→==_false,
}
use pqblockchain.Prelude.Map.{
  Map, lookup, assign, erase, HasKeys, assign-HasKeys, erase-HasKeys, lookup-assign_self,
  lookup-assign_ne, lookup-erase_self,
}
use pqblockchain.Exceptions.{ok}
use pqblockchain.Consensus.Dispute.{
  Dispute, Ratio, threshold, vote_number, differs, new_vote, set_vote, un_vote, update_vote,
}

-- How often a vote occurs.
abbrev weight : Bool → Bool → ℕ
weight true true = 1
weight false false = 1
weight _ _ = 0

abbrev pub count : Bool → Map Bool → ℕ
count vote [] = 0
count vote ((node, v) ∷ votes) = weight vote v + count vote votes

-- The votes name each peer once, and the counters are the numbers of the votes for and against.
pub record IsCounted (d : Dispute) : Type 0 where
  pub keys : HasKeys d.votes
  pub yays_counted : d.yays ≡ count true d.votes
  pub nays_counted : d.nays ≡ count false d.votes

count-assign_new :
    (vote : Bool) (k : ℕ) (v : Bool) (m : Map Bool)
    → lookup k m ≡ none
    → count vote (assign k v m) ≡ count vote m + weight vote v
count-assign_new vote k v [] h = omega arith
count-assign_new vote k v ((j, w) ∷ m) h = ground (arith, count-assign_new vote k v m)

count-assign :
    (vote : Bool) (k : ℕ) (v w : Bool) (m : Map Bool)
    → lookup k m ≡ some w
    → count vote (assign k v m) + weight vote w ≡ count vote m + weight vote v
count-assign vote k v w [] h = cc
count-assign vote k v w ((j, x) ∷ m) h = elim (Bool-cases (j == k)) [
  | inl e ↦ rw e (let same : some x ≡ some w = rw e at h in ground arith)
  | inr e ↦ rw e (
      let later : lookup k m ≡ some w = rw e at h in omega (arith, count-assign vote k v w m later))
]

count-erase :
    (vote : Bool) (k : ℕ) (w : Bool) (m : Map Bool)
    → lookup k m ≡ some w
    → count vote (erase k m) + weight vote w ≡ count vote m
count-erase vote k w [] h = cc
count-erase vote k w ((j, x) ∷ m) h = elim (Bool-cases (j == k)) [
  | inl e ↦ rw e (let same : some x ≡ some w = rw e at h in ground arith)
  | inr e ↦
      rw e
        (let later : lookup k m ≡ some w = rw e at h in omega (arith, count-erase vote k w m later))
]

pub count-length : (m : Map Bool) → count true m + count false m ≡ length m
count-length [] = refl
count-length ((j, true) ∷ m) = omega (arith, count-length m)
count-length ((j, false) ∷ m) = omega (arith, count-length m)

-- Fewer than 2^32 - 1 peers have voted, so that no counter wraps.
abbrev pub HasRoom : Dispute → Type 0
HasRoom d = length d.votes + 1 < 2 ^ 32

set_vote_first :
    (node : ℕ) (vote : Bool) (d : Dispute)
    → IsCounted d
    → HasRoom d
    → lookup node d.votes ≡ none
    → IsCounted (set_vote node vote d)
unfolding set_vote
set_vote_first node true d c r new =
    rw (new, set_vote)
      (record {
        keys = assign-HasKeys node true d.votes c.keys;
        yays_counted =
            omega (arith, count-assign_new true node true d.votes new, count-length d.votes);
        nays_counted =
            omega (arith, count-assign_new false node true d.votes new, count-length d.votes);
      })
set_vote_first node false d c r new =
    rw (new, set_vote)
      (record {
        keys = assign-HasKeys node false d.votes c.keys;
        yays_counted =
            omega (arith, count-assign_new true node false d.votes new, count-length d.votes);
        nays_counted =
            omega (arith, count-assign_new false node false d.votes new, count-length d.votes);
      })

-- The same for a peer that has voted `old` before.
set_vote_again :
    (node : ℕ) (vote old : Bool) (d : Dispute)
    → IsCounted d
    → HasRoom d
    → lookup node d.votes ≡ some old
    → IsCounted (set_vote node vote d)
unfolding set_vote
set_vote_again node true true d c r was =
    rw (was, set_vote)
      (record {
        keys = assign-HasKeys node true d.votes c.keys;
        yays_counted = omega (arith, count-assign true node true true d.votes was);
        nays_counted = omega (arith, count-assign false node true true d.votes was);
      })
set_vote_again node true false d c r was =
    rw (was, set_vote)
      (record {
        keys = assign-HasKeys node true d.votes c.keys;
        yays_counted =
            omega (arith, count-assign true node true false d.votes was, count-length d.votes);
        nays_counted =
            omega (arith, count-assign false node true false d.votes was, count-length d.votes);
      })
set_vote_again node false true d c r was =
    rw (was, set_vote)
      (record {
        keys = assign-HasKeys node false d.votes c.keys;
        yays_counted =
            omega (arith, count-assign true node false true d.votes was, count-length d.votes);
        nays_counted =
            omega (arith, count-assign false node false true d.votes was, count-length d.votes);
      })
set_vote_again node false false d c r was =
    rw (was, set_vote)
      (record {
        keys = assign-HasKeys node false d.votes c.keys;
        yays_counted = omega (arith, count-assign true node false false d.votes was);
        nays_counted = omega (arith, count-assign false node false false d.votes was);
      })

pub votes-set_vote :
    (node : ℕ) (vote : Bool) (d : Dispute) → (set_vote node vote d).votes ≡ assign node vote d.votes
unfolding set_vote
votes-set_vote node true d = ground (arith, Option-cases (lookup node d.votes))
votes-set_vote node false d = ground (arith, Option-cases (lookup node d.votes))

-- `setVote` keeps the counters true to the votes, whether the peer votes for the first time, votes
-- again or changes its vote; afterwards the peer's vote is the new one, and every other peer's is
-- what it was. (Fewer than 2^32 - 1 peers have voted.)
pub set_vote-IsCounted :
    (node : ℕ) (vote : Bool) (d : Dispute)
    → IsCounted d
    → HasRoom d
    → IsCounted (set_vote node vote d)
      × (lookup node (set_vote node vote d).votes ≡ some vote)
      × ((peer : ℕ) → node ≢ peer → lookup peer (set_vote node vote d).votes ≡ lookup peer d.votes)
set_vote-IsCounted node vote d c r = (
  elim (Option-cases (lookup node d.votes)) [
    | inl new ↦ set_vote_first node vote d c r new
    | inr (old, was) ↦ set_vote_again node vote old d c r was
  ],
  rw (votes-set_vote node vote d) (lookup-assign_self node vote d.votes),
  λ peer h. rw (votes-set_vote node vote d) (lookup-assign_ne node peer vote d.votes h),
)

un_vote_known :
    (node : ℕ) (old : Bool) (d : Dispute)
    → IsCounted d
    → HasRoom d
    → lookup node d.votes ≡ some old
    → IsCounted (un_vote node d) × (lookup node (un_vote node d).votes ≡ none)
unfolding un_vote
un_vote_known node true d c r was =
    rw (was, un_vote)
      (
        record {
          keys = erase-HasKeys node d.votes c.keys;
          yays_counted =
              omega (arith, count-erase true node true d.votes was, count-length d.votes);
          nays_counted =
              omega (arith, count-erase false node true d.votes was, count-length d.votes);
        },
        lookup-erase_self node d.votes c.keys,
      )
un_vote_known node false d c r was =
    rw (was, un_vote)
      (
        record {
          keys = erase-HasKeys node d.votes c.keys;
          yays_counted =
              omega (arith, count-erase true node false d.votes was, count-length d.votes);
          nays_counted =
              omega (arith, count-erase false node false d.votes was, count-length d.votes);
        },
        lookup-erase_self node d.votes c.keys,
      )

un_vote_unknown : (node : ℕ) (d : Dispute) → lookup node d.votes ≡ none → un_vote node d ≡ d
unfolding un_vote
un_vote_unknown node d e = rw (e, un_vote)

-- `unVote` removes the peer's vote, if it has one, and keeps the counters true to the votes left.
-- (Fewer than 2^32 - 1 peers have voted.)
pub un_vote-IsCounted :
    (node : ℕ) (d : Dispute)
    → IsCounted d
    → HasRoom d
    → IsCounted (un_vote node d) × (lookup node (un_vote node d).votes ≡ none)
un_vote-IsCounted node d c r = elim (Option-cases (lookup node d.votes)) [
  | inl unknown ↦ rw (un_vote_unknown node d unknown) (c, unknown)
  | inr (old, was) ↦ un_vote_known node old d c r was
]

-- No peer is against and we are for.
abbrev pub unopposed : Dispute → Bool
unopposed d = d.our_vote && (d.nays == 0)

threshold_range :
    (converge : Ratio)
    → (0 < (threshold converge).num) × ((threshold converge).num < (threshold converge).den)
unfolding threshold
threshold_range converge = ground arith

quotient :
    (vote : Bool) (y n : ℕ)
    → (y + vote_number vote) / (y + n + 1) ≡ (if vote && (n == 0) then 1 else 0)
quotient true y zero = rw (let e : y + 0 + 1 ≡ y + 1 = omega arith in e) (div_self (omega arith))
quotient true y (suc n) = rw (ne→==_false (suc n) 0 (λ e. omega arith)) (div-eq_of_lt (omega arith))
quotient false y n = div-eq_of_lt (omega arith)

vote_number-le : (vote : Bool) → vote_number vote ≤ 1
vote_number-le true = omega arith
vote_number-le false = omega arith

new_vote-unopposed :
    (converge : Ratio) (d : Dispute)
    → d.yays + d.nays + 1 < 2 ^ 32
    → new_vote converge d ≡ unopposed d
unfolding new_vote
new_vote-unopposed converge d r =
    rw
      (
        fits,
        mod-eq_of_lt {n = d.yays + d.nays + 1} {m = 2 ^ 32} r,
        quotient d.our_vote d.yays d.nays,
      )
      (elim (Bool-cases (unopposed d)) [
        | inl e ↦ rw e (ground (arith, threshold_range converge))
        | inr e ↦ rw e (ground (arith, threshold_range converge))
      ])
  where
    fits : (d.yays + vote_number d.our_vote) % 2 ^ 32 ≡ d.yays + vote_number d.our_vote
    fits = mod-eq_of_lt (omega (arith, vote_number-le d.our_vote))

decide_vote_lem :
    (v w : Bool) (d : Dispute)
    → w ≡ d.our_vote
    → if◌then◌else◌ {A = Dispute × Bool} (differs v w) (record d { our_vote = v }, true) (d, false)
      ≡ (record d { our_vote = v }, differs v w)
decide_vote_lem true true d h =
    ap (λ w. let r : Dispute × Bool = (record d { our_vote = w }, false) in r) (sym h)
decide_vote_lem true false d h = refl
decide_vote_lem false true d h = refl
decide_vote_lem false false d h =
    ap (λ w. let r : Dispute × Bool = (record d { our_vote = w }, false) in r) (sym h)

-- `updateVote` never throws, and what it decides does not depend on the stage of the round: our vote
-- stays "yes" exactly if it was "yes" and no peer is against, and it never turns from "no" to
-- "yes". The thresholds of 50, 65, 70 and 95 percent play no part, since the quotient that is
-- compared with them is 0 or 1. (Fewer than 2^32 - 1 votes are counted.)
pub update_vote-unopposed :
    (converge : Ratio) (d : Dispute)
    → d.yays + d.nays + 1 < 2 ^ 32
    → update_vote converge d
      ≡ ok (record d { our_vote = unopposed d }, differs (unopposed d) d.our_vote)
unfolding update_vote
update_vote-unopposed converge d r =
    rw
      (
        mod-eq_of_lt {n = d.yays + d.nays + 1} {m = 2 ^ 32} r,
        ne→==_false (d.yays + d.nays + 1) 0 (λ z. omega arith),
        new_vote-unopposed converge d r,
      )
      (ap ok (decide_vote_lem (unopposed d) d.our_vote d refl))
