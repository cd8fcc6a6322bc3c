-- ===== src/Merkle/Level.antt =====
-- One level of the tree: the loop that writes in place does what a plain recursion over pairs does.
use pqblockchain.Prelude.{
  ℕ, zero, suc, ◌+◌, ◌*◌, ◌/◌, ◌%◌, ◌≡◌, refl, sym, ap, ap₂, ◌∙◌, inl, inr, List, [], ◌∷◌, ◌++◌,
  append_assoc, append-nil, length, length-append, take, take-append, get_or, set, get_or-append,
  set-append, Bool-cases, ==→eq, ne→==, ◌≢◌, ◌==◌, arith,
}
use pqblockchain.Crypto.{Hash, hash_pair}
use pqblockchain.Merkle.{back, pad, hash_pairs, hash_level}

module _ (sha512 : Hash) where
  -- The parents of the nodes of a level; the last node of an odd level is paired with itself.
  unfoldable pub parents : List ℕ → List ℕ
  parents [] = []
  parents (a ∷ []) = hash_pair sha512 a a ∷ []
  parents (a ∷ (b ∷ r)) = hash_pair sha512 a b ∷ parents r

  pub length-parents : (hashes : List ℕ) → length (parents hashes) ≡ (length hashes + 1) / 2
  unfolding parents
  length-parents [] = refl
  length-parents (a ∷ []) = refl
  length-parents (a ∷ (b ∷ r)) = omega (arith, length-parents r)

  -- What lies behind the part that is written: a node less at the front, the pair at the back.
  shift :
      (junk : List ℕ) (a b : ℕ) (rest : List ℕ)
      → (x : ℕ) × (junk' : List ℕ) × (junk ++ a ∷ (b ∷ rest) ≡ x ∷ (junk' ++ rest))
        × (length junk' ≡ length junk + 1)
  shift [] a b rest = (a, b ∷ [], refl, refl)
  shift (q ∷ qs) a b rest = (
    q,
    qs ++ a ∷ (b ∷ []),
    ap (◌∷◌ q) (sym (append_assoc qs (a ∷ (b ∷ [])) rest)),
    omega (arith, length-append qs (a ∷ (b ∷ []))),
  )

  -- The two reads of a round find the next pair, and its write puts the parent behind those that
  -- are done.
  get_first :
      (done junk rest : List ℕ) (a b : ℕ)
      → length junk ≡ length done
      → get_or (done ++ (junk ++ a ∷ (b ∷ rest))) (2 * length done) 0 ≡ a
  get_first done junk rest a b h =
      ap₂ (λ l i. get_or l i 0) (sym (append_assoc done junk (a ∷ (b ∷ rest))))
        (let e : 2 * length done ≡ length (done ++ junk) = omega (arith, length-append done junk) in
          e)
      ∙ get_or-append (done ++ junk) (b ∷ rest) a 0

  get_second :
      (done junk rest : List ℕ) (a b : ℕ)
      → length junk ≡ length done
      → get_or (done ++ (junk ++ a ∷ (b ∷ rest))) (2 * length done + 1) 0 ≡ b
  get_second done junk rest a b h =
      ap₂ (λ l i. get_or l i 0) split
        (let e : 2 * length done + 1 ≡ length (done ++ (junk ++ a ∷ [])) =
            omega (arith, length-append done (junk ++ a ∷ []), length-append junk (a ∷ [])) in
          e)
      ∙ get_or-append (done ++ (junk ++ a ∷ [])) rest b 0
    where
      split : done ++ (junk ++ a ∷ (b ∷ rest)) ≡ (done ++ (junk ++ a ∷ [])) ++ b ∷ rest
      split = simp append_assoc

  write_parent :
      (done junk' rest : List ℕ) (x v : ℕ) (behind : List ℕ)
      → behind ≡ x ∷ (junk' ++ rest)
      → set (done ++ behind) (length done) v ≡ (done ++ v ∷ []) ++ (junk' ++ rest)
  write_parent done junk' rest x v behind e =
      ap (λ l. set (done ++ l) (length done) v) e
      ∙ set-append done (junk' ++ rest) x v
      ∙ sym (append_assoc done (v ∷ []) (junk' ++ rest))

  hash_pairs-parents :
      (n : ℕ) (done junk rest : List ℕ)
      → length junk ≡ length done
      → length rest ≡ n + n
      → (tail : List ℕ) × (hash_pairs sha512 n (length done) (done ++ (junk ++ rest))
          ≡ (done ++ parents rest) ++ tail)
  unfolding hash_pairs parents
  hash_pairs-parents zero done junk [] h k = (junk, simp append-nil)
  hash_pairs-parents zero done junk (a ∷ r) h k = absurd (omega arith)
  hash_pairs-parents (suc n) done junk [] h k = absurd (omega arith)
  hash_pairs-parents (suc n) done junk (a ∷ []) h k = absurd (omega arith)
  hash_pairs-parents (suc n) done junk (a ∷ (b ∷ rest)) h k =
      let (x, junk', e, l) = shift junk a b rest in
      let parent : ℕ = hash_pair sha512 a b in
      let (tail, ih) =
        hash_pairs-parents n (done ++ parent ∷ []) junk' rest
          (omega (arith, length-append done (parent ∷ []))) (omega arith) in
      (
        tail,
        rw (get_first done junk rest a b h, get_second done junk rest a b h)
            (ap₂ (hash_pairs sha512 n)
                (let p : length done + 1 ≡ length (done ++ parent ∷ []) =
                    omega (arith, length-append done (parent ∷ [])) in
                  p)
                (write_parent done junk' rest x parent (junk ++ a ∷ (b ∷ rest)) e)
              ∙ ih
              ∙ ap (λ l. l ++ tail) (append_assoc done (parent ∷ []) (parents rest))),
      )

-- Padding looks at the end of the list only.
pad_skip : (a b : ℕ) (r : List ℕ) → pad (a ∷ (b ∷ r)) ≡ a ∷ (b ∷ pad r)
unfolding pad
pad_skip a b [] = refl
pad_skip a b (c ∷ r) =
    let parity : suc (suc (suc (length r))) % 2 ≡ suc (length r) % 2 = omega arith in
    rw parity
      (elim (Bool-cases (suc (length r) % 2 == 1)) [ inl e ↦ rw e refl | inr e ↦ rw e refl ])

length-pad :
    (hashes : List ℕ) → length (pad hashes) ≡ (length hashes + 1) / 2 + (length hashes + 1) / 2
unfolding pad
length-pad hashes = elim (Bool-cases (length hashes % 2 == 1)) [
  | inl e ↦ rw e (omega (arith, length-append hashes (back hashes ∷ []), ==→eq _ _ e))
  | inr e ↦ rw e (let odd : length hashes % 2 ≢ 1 = ne→== _ _ e in omega arith)
]

module _ (sha512 : Hash) where
  parents-pad : (hashes : List ℕ) → parents sha512 (pad hashes) ≡ parents sha512 hashes
  unfolding parents pad
  parents-pad [] = refl
  parents-pad (a ∷ []) = refl
  parents-pad (a ∷ (b ∷ r)) =
      ap (parents sha512) (pad_skip a b r) ∙ ap (◌∷◌ (hash_pair sha512 a b)) (parents-pad r)

  take-parents :
      (n : ℕ) (hashes tail : List ℕ)
      → length hashes ≡ n + n
      → take n (parents sha512 hashes ++ tail) ≡ parents sha512 hashes
  take-parents n hashes tail h =
      ap (λ k. take k (parents sha512 hashes ++ tail))
        (let e : n ≡ length (parents sha512 hashes) = omega (arith, length-parents sha512 hashes) in
          e)
      ∙ take-append (parents sha512 hashes) tail

  -- A round of the loop, which overwrites the vector from its front while it reads ahead and then cuts
  -- it, leaves the hashes of the pairs of the level, the last hash paired with itself where their
  -- number is odd.
  pub hash_level-parents : (hashes : List ℕ) → hash_level sha512 hashes ≡ parents sha512 hashes
  unfolding hash_level
  hash_level-parents hashes =
      let n : ℕ = (length hashes + 1) / 2 in
      let (tail, e) = hash_pairs-parents sha512 n [] [] (pad hashes) refl (length-pad hashes) in
      rw (let half : length (pad hashes) / 2 ≡ n = omega (arith, length-pad hashes) in half)
        (ap (take n) e ∙ take-parents n (pad hashes) tail (length-pad hashes) ∙ parents-pad hashes)
