-- ===== src/Connection/Framing.antt =====
-- What the loops of `sendMessage` and `receiveMessage` move.
use pqblockchain.Prelude.{
  ℕ, zero, suc, ◌+◌, ◌-◌, ◌≤◌, ◌<◌, ◌≡◌, refl, sym, ap, ◌∙◌, inl, inr, some, List, [], ◌∷◌, ◌++◌,
  append_assoc, append-nil, length, take, drop, length-append, length-take_le, length-drop,
  take-append_le, drop-append_le, take-append-drop, leb, lt→ltb, le→ltb_false, Bool-cases, leb→le,
  leb-false, ne→==_false, subst, arith,
}
use pqblockchain.Message.{MessageHeader, Message, get_header_size, add_fragment}
use pqblockchain.Message.Fragments.{Holds, add_fragment-Holds}
use pqblockchain.Connection.{Socket, max_message_size, min, recv, receive_loop, send_loop}

pub min_bounds : (a b : ℕ) → (min a b ≤ a) × (min a b ≤ b) × (0 < a → 0 < b → 0 < min a b)
min_bounds a b = elim (Bool-cases (leb a b)) [
  | inl l ↦ rw l (omega arith, leb→le _ _ l, λ p q. p)
  | inr g ↦ rw g (let l = leb-false _ _ g in (omega arith, omega arith, λ p q. q))
]

-- How many bytes one call moves, if `left` are to be moved and the call moves `p + 1` at most.
abbrev pub moved : ℕ → ℕ → ℕ
moved left p = min (min left max_message_size) (p + 1)

pub moved_bounds : (left p : ℕ) → (moved left p ≤ left) × (0 < left → 0 < moved left p)
moved_bounds left p =
    let (outer, _, positive) = min_bounds (min left max_message_size) (p + 1) in
    let (inner, _, more) = min_bounds left max_message_size in
    (omega arith, λ l. positive (more l (omega arith)) (omega arith))

recv_moves :
    (b : ℕ) (bytes rest : List ℕ) (p : ℕ) (pieces : List ℕ)
    → let k = moved (length (b ∷ bytes)) p in
      recv
        (min (length (b ∷ bytes)) max_message_size)
        (record { stream = (b ∷ bytes) ++ rest; pieces = p ∷ pieces })
      ≡ some (take k (b ∷ bytes), record { stream = drop k (b ∷ bytes) ++ rest; pieces = pieces })
unfolding recv
recv_moves b bytes rest p pieces =
    let k = moved (length (b ∷ bytes)) p in
    let fits = (moved_bounds (length (b ∷ bytes)) p).0 in
    rw (recv, ne→==_false (length ((b ∷ bytes) ++ rest)) 0 (λ e. omega arith))
      λ i. some (
        take-append_le k (b ∷ bytes) rest fits i,
        record { stream = drop-append_le k (b ∷ bytes) rest fits i; pieces = pieces },
      )

receive_loop_end :
    (fuel received : ℕ) (m : Message) (s : Socket)
    → length m.buffer ≤ received
    → receive_loop fuel received m s ≡ (m, s)
unfolding receive_loop
receive_loop_end zero received m s h = refl
receive_loop_end (suc fuel) received m s h =
    rw (receive_loop, le→ltb_false received (length m.buffer) h)

receive_step :
    (fuel : ℕ) (h : MessageHeader) (got rest : List ℕ) (b : ℕ) (bytes : List ℕ) (p : ℕ)
    (pieces : List ℕ) (m : Message)
    → Holds h got m
    → length got + length (b ∷ bytes) ≡ h.size + get_header_size
    → let k = moved (length (b ∷ bytes)) p in
      receive_loop
        (suc fuel)
        (length got)
        m
        (record { stream = (b ∷ bytes) ++ rest; pieces = p ∷ pieces })
      ≡ receive_loop fuel
          (length (got ++ take k (b ∷ bytes)))
          (add_fragment (take k (b ∷ bytes)) m)
          (record { stream = drop k (b ∷ bytes) ++ rest; pieces = pieces })
unfolding receive_loop
receive_step fuel h got rest b bytes p pieces m v e =
    let size = v.size_kept in
    let missing : length m.buffer - length got ≡ length (b ∷ bytes) = omega arith in
    rw
      (
        receive_loop,
        lt→ltb (length got) (length m.buffer) (omega arith),
        missing,
        recv_moves b bytes rest p pieces,
        length-append got (take (moved (length (b ∷ bytes)) p) (b ∷ bytes)),
      )
      refl

-- The loop takes the missing bytes of a message from the stream, however they are cut, and no others.
pub receive_loop-Holds :
    (fuel : ℕ) (h : MessageHeader) (got missing rest pieces : List ℕ) (m : Message)
    → Holds h got m
    → length got + length missing ≡ h.size + get_header_size
    → length missing ≤ fuel
    → length missing ≤ length pieces
    → let left =
        receive_loop fuel (length got) m (record { stream = missing ++ rest; pieces = pieces }) in
      Holds h (got ++ missing) left.0 × ((left.1).stream ≡ rest)
receive_loop-Holds fuel h got [] rest pieces m v e enough more =
    let size = v.size_kept in
    rw
      (
        receive_loop_end fuel (length got) m (record { stream = rest; pieces = pieces })
            (omega arith),
        append-nil got,
      )
      (v, refl)
receive_loop-Holds zero h got (b ∷ bytes) rest pieces m v e enough more = absurd (omega arith)
receive_loop-Holds (suc fuel) h got (b ∷ bytes) rest [] m v e enough more = absurd (omega arith)
receive_loop-Holds (suc fuel) h got (b ∷ bytes) rest (p ∷ pieces) m v e enough more =
    let k = moved (length (b ∷ bytes)) p in
    let (fits, positive) = moved_bounds (length (b ∷ bytes)) p in
    let some_moved = positive (omega arith) in
    let long = length-take_le k (b ∷ bytes) fits in
    let short = length-drop k (b ∷ bytes) in
    let next =
      receive_loop-Holds fuel h (got ++ take k (b ∷ bytes)) (drop k (b ∷ bytes)) rest pieces
        (add_fragment (take k (b ∷ bytes)) m)
        (add_fragment-Holds h got (take k (b ∷ bytes)) m (omega arith) v)
        (omega (arith, length-append got (take k (b ∷ bytes)))) (omega arith) (omega arith) in
    rw (receive_step fuel h got rest b bytes p pieces m v e) (
      subst
          (λ xs.
            Holds h xs
              (receive_loop fuel (length (got ++ take k (b ∷ bytes)))
                (add_fragment (take k (b ∷ bytes)) m)
                (record { stream = drop k (b ∷ bytes) ++ rest; pieces = pieces })).0)
          (append_assoc got (take k (b ∷ bytes)) (drop k (b ∷ bytes))
            ∙ ap (λ xs. got ++ xs) (take-append-drop k (b ∷ bytes)))
          next.0,
      next.1,
    )

-- The loop sends everything, in pieces of at most 1400 bytes.
pub send_loop_all :
    (fuel : ℕ) (left pieces sent : List ℕ)
    → length left ≤ fuel
    → length left ≤ length pieces
    → send_loop fuel left pieces sent ≡ sent ++ left
unfolding send_loop
send_loop_all zero [] pieces sent enough more = sym (append-nil sent)
send_loop_all zero (b ∷ left) pieces sent enough more = absurd (omega arith)
send_loop_all (suc fuel) [] [] sent enough more = sym (append-nil sent)
send_loop_all (suc fuel) (b ∷ left) [] sent enough more = absurd (omega arith)
send_loop_all (suc fuel) [] (p ∷ pieces) sent enough more = sym (append-nil sent)
send_loop_all (suc fuel) (b ∷ left) (p ∷ pieces) sent enough more =
    let k = moved (length (b ∷ left)) p in
    let (fits, positive) = moved_bounds (length (b ∷ left)) p in
    let some_moved = positive (omega arith) in
    let short = length-drop k (b ∷ left) in
    rw (send_loop, ne→==_false (length (b ∷ left)) 0 (λ e. omega arith))
      (send_loop_all fuel (drop k (b ∷ left)) pieces (sent ++ take k (b ∷ left)) (omega arith)
          (omega arith)
        ∙ append_assoc sent (take k (b ∷ left)) (drop k (b ∷ left))
        ∙ ap (λ xs. sent ++ xs) (take-append-drop k (b ∷ left)))
