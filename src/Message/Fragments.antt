-- ===== src/Message/Fragments.antt =====
-- A message that is put together from fragments.
use pqblockchain.Prelude.{
  ℕ, ◌+◌, ◌-◌, ◌≤◌, ◌<◌, ◌≡◌, refl, sym, ap, ◌∙◌, inl, inr, false, List, [], ◌++◌, append_assoc,
  length, take, drop, length-append, length-drop, length-take_le, length-replicate, take-append,
  drop-append, take_short, leb, ◌==◌, Bool-cases, leb→le, leb-false, le→leb, ne→==, ne→==_false,
  arith,
}
use pqblockchain.Message.{
  MessageHeader, Message, get_header_size, new_message, write_at, add_fragment,
}

pub length-write_at :
    (position : ℕ) (bytes buffer : List ℕ)
    → position + length bytes ≤ length buffer
    → length (write_at position bytes buffer) ≡ length buffer
length-write_at position bytes buffer h = omega (
  arith,
  length-append (take position buffer) (bytes ++ drop (position + length bytes) buffer),
  length-append bytes (drop (position + length bytes) buffer),
  length-take_le position buffer (omega arith),
  length-drop (position + length bytes) buffer,
)

-- A write right behind what is there.
pub write_at-append :
    (got bytes blank : List ℕ)
    → write_at (length got) bytes (got ++ blank) ≡ (got ++ bytes) ++ drop (length bytes) blank
write_at-append got bytes blank =
    rw (take-append got blank, drop-append (length bytes) got blank)
      (sym (append_assoc got bytes (drop (length bytes) blank)))

-- The bytes that have come are at the start of the vector, and it has the size of the message.
pub record Holds (h : MessageHeader) (got : List ℕ) (m : Message) : Type 0 where
  pub header_kept : m.msg_hdr ≡ h
  pub counted : m.current_message_size ≡ length got
  pub size_kept : length m.buffer ≡ h.size + get_header_size
  pub starts : take (length got) m.buffer ≡ got

pub new_message-Holds : (h : MessageHeader) → Holds h [] (new_message h)
new_message-Holds h = record {
  header_kept = refl;
  counted = refl;
  size_kept = length-replicate (h.size + get_header_size) 0;
  starts = refl;
}

add_fragment_fits :
    (fragment : List ℕ) (m : Message)
    → m.current_message_size + length fragment ≤ length m.buffer
    → add_fragment fragment m ≡ record m {
      buffer = write_at m.current_message_size fragment m.buffer;
      current_message_size = m.current_message_size + length fragment;
    }
unfolding add_fragment
add_fragment_fits fragment m h = rw (le→leb _ _ h)

take-write_at :
    (position : ℕ) (bytes buffer got : List ℕ)
    → length got ≡ position
    → position + length bytes ≤ length buffer
    → take position buffer ≡ got
    → take (length (got ++ bytes)) (write_at position bytes buffer) ≡ got ++ bytes
take-write_at position bytes buffer got l h e = rw e (
    rw (sym (append_assoc got bytes (drop (position + length bytes) buffer)))
      (take-append (got ++ bytes) (drop (position + length bytes) buffer)))

pub add_fragment-Holds :
    (h : MessageHeader) (got fragment : List ℕ) (m : Message)
    → length got + length fragment ≤ h.size + get_header_size
    → Holds h got m
    → Holds h (got ++ fragment) (add_fragment fragment m)
add_fragment-Holds h got fragment m room v =
    let same = v.counted in
    let size = v.size_kept in
    let fits : m.current_message_size + length fragment ≤ length m.buffer = omega arith in
    rw (add_fragment_fits fragment m fits) (record {
      header_kept = v.header_kept;
      counted = omega (arith, length-append got fragment);
      size_kept = length-write_at m.current_message_size fragment m.buffer fits ∙ size;
      starts =
          take-write_at m.current_message_size fragment m.buffer got (sym same) fits
            (ap (λ n. take n m.buffer) same ∙ v.starts);
    })

take-whole : (n : ℕ) (xs ys : List ℕ) → n ≡ length xs → take n xs ≡ ys → xs ≡ ys
take-whole n xs ys e t = sym (take_short n xs (omega arith)) ∙ t

-- All bytes have come: the vector is what has come.
pub Holds-complete :
    (h : MessageHeader) (got : List ℕ) (m : Message)
    → length got ≡ h.size + get_header_size
    → Holds h got m
    → (m.buffer ≡ got) × (length m.buffer ≡ m.current_message_size)
Holds-complete h got m full v =
    let same = v.counted in
    let size = v.size_kept in
    (take-whole (length got) m.buffer got (omega arith) v.starts, omega arith)

pub Holds-whole :
    (h : MessageHeader) (got : List ℕ) (m : Message)
    → length got ≡ h.size + get_header_size
    → Holds h got m
    → m ≡ record { msg_hdr = h; buffer = got; current_message_size = length got }
Holds-whole h got m full v = λ i. record {
  msg_hdr = v.header_kept i;
  buffer = (Holds-complete h got m full v).0 i;
  current_message_size = v.counted i;
}

add_fragment_room :
    (fragment : List ℕ) (m : Message)
    → m.current_message_size ≤ length m.buffer
    → (length (add_fragment fragment m).buffer ≡ length m.buffer)
      × (m.current_message_size ≤ (add_fragment fragment m).current_message_size)
      × ((add_fragment fragment m).current_message_size ≤ length m.buffer)
      × (m.current_message_size ≡ length m.buffer
          → 0 < length fragment
          → add_fragment fragment m ≡ m)
unfolding add_fragment
add_fragment_room fragment m h =
    elim (Bool-cases (leb (m.current_message_size + length fragment) (length m.buffer))) [
      | inl fits ↦ rw fits (
        length-write_at m.current_message_size fragment m.buffer (leb→le _ _ fits),
        omega arith,
        leb→le _ _ fits,
        λ full some_bytes. absurd (let l = leb→le _ _ fits in omega arith),
      )
      | inr long ↦
          let over = leb-false _ _ long in
          elim (Bool-cases (length m.buffer == m.current_message_size)) [
            | inl full ↦ rw (long, full) (refl, omega arith, h, λ _ _. refl)
            | inr partial ↦
                rw (long, partial)
                  (
                    length-write_at 0 (take (length m.buffer - m.current_message_size) fragment)
                        m.buffer
                        (omega (
                          arith,
                          length-take_le (length m.buffer - m.current_message_size) fragment
                              (omega arith),
                        )),
                    h,
                    omega arith,
                    λ full _. absurd (ne→== _ _ partial (sym full)),
                  )
          ]
    ]

add_fragment_overrun :
    (fragment : List ℕ) (m : Message)
    → m.current_message_size < length m.buffer
    → length m.buffer < m.current_message_size + length fragment
    → let missing = length m.buffer - m.current_message_size in
      ((add_fragment fragment m).buffer ≡ take missing fragment ++ drop missing m.buffer)
      × ((add_fragment fragment m).current_message_size ≡ length m.buffer)
unfolding add_fragment
add_fragment_overrun fragment m some_left over =
    let long : leb (m.current_message_size + length fragment) (length m.buffer) ≡ false =
      ground arith in
    let open_end : (length m.buffer == m.current_message_size) ≡ false =
      ne→==_false _ _ (λ e. omega arith) in
    rw (long, open_end)
      (
        ap (λ n. take (length m.buffer - m.current_message_size) fragment ++ drop n m.buffer)
            (omega (
              arith,
              length-take_le (length m.buffer - m.current_message_size) fragment (omega arith),
            )),
        refl,
      )

-- `addFragment` never writes past the vector, whatever the fragment: the vector keeps its size, and no
-- more bytes are counted than it has. A message that is complete stays as it is. But a fragment that is
-- longer than what is missing, where some but not all bytes have come, destroys the message: it
-- overwrites the vector from its start, in place of what has come, the end of the vector stays as it was,
-- and the message counts as complete.
pub add_fragment_bounds :
    (fragment : List ℕ) (m : Message)
    → m.current_message_size ≤ length m.buffer
    → (length (add_fragment fragment m).buffer ≡ length m.buffer)
      × (m.current_message_size ≤ (add_fragment fragment m).current_message_size)
      × ((add_fragment fragment m).current_message_size ≤ length m.buffer)
      × (m.current_message_size ≡ length m.buffer
          → 0 < length fragment
          → add_fragment fragment m ≡ m)
      × (m.current_message_size < length m.buffer
          → length m.buffer < m.current_message_size + length fragment
          → let missing = length m.buffer - m.current_message_size in
            ((add_fragment fragment m).buffer ≡ take missing fragment ++ drop missing m.buffer)
            × ((add_fragment fragment m).current_message_size ≡ length m.buffer))
add_fragment_bounds fragment m h =
    let (kept, grown, within, whole) = add_fragment_room fragment m h in
    (kept, grown, within, whole, add_fragment_overrun fragment m)
