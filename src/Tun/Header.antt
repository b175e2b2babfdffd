-- ===== src/Tun/Header.antt =====
-- The header of a packet is put on by Write and taken off by Read.
use wireguard_go.Base.{
  ℕ, ◌+◌, ◌-◌, ◌/◌, ◌<◌, ◌≤◌, ◌≡◌, ◌≢◌, ◌⊎◌, refl, sym, ap, ap₂, ◌∙◌, false, none, some, List, [],
  ◌∷◌, ◌++◌, length, take, drop, slice, get_or, ◌==◌, if◌then◌else◌, arith, length-append,
  length-take, length-drop, append_assoc, drop-append_le, take-append_of, drop-append_of,
  le→ltb-false, Bool-cases, ==→eq, ==-false→ne, inl, inr,
}
use wireguard_go.Tun.{put_header, write, do_read, place}

-- The protocol of a packet as its header names it.
abbrev protocol : List ℕ → List ℕ
protocol packet = if get_or packet 0 0 / 16 == 6 then 0 ∷ 0 ∷ 134 ∷ 221 ∷ [] else 0 ∷ 0 ∷ 8 ∷ 0 ∷ []

put_header_reserved :
    (reserved packet : List ℕ)
    → length reserved ≡ 4
    → put_header (reserved ++ packet) ≡ protocol packet ++ packet
unfolding put_header
put_header_reserved (a ∷ b ∷ c ∷ d ∷ []) packet h =
    elim (Bool-cases (get_or packet 0 0 / 16 == 6)) [
      | inl six ↦ simp six refl
      | inr other ↦ simp other refl
    ]
put_header_reserved [] packet h = absurd (omega (arith, h))
put_header_reserved (a ∷ []) packet h = absurd (omega (arith, h))
put_header_reserved (a ∷ b ∷ []) packet h = absurd (omega (arith, h))
put_header_reserved (a ∷ b ∷ c ∷ []) packet h = absurd (omega (arith, h))
put_header_reserved (a ∷ b ∷ c ∷ d ∷ e ∷ es) packet h = absurd (omega (arith, h))

length-protocol : (packet : List ℕ) → length (protocol packet) ≡ 4
length-protocol packet = elim (Bool-cases (get_or packet 0 0 / 16 == 6)) [
  | inl six ↦ simp six refl
  | inr other ↦ simp other refl
]

write_packet :
    (before packet : List ℕ) (offset : ℕ)
    → length before ≡ offset
    → 4 ≤ offset
    → 0 < length packet
    → write false (before ++ packet) offset ≡ some (protocol packet ++ packet)
unfolding write
write_packet before packet offset at room some_ =
    let reserved = drop (offset - 4) before in
    let four : length reserved ≡ 4 = omega (arith, length-drop (offset - 4) before, at, room) in
    let split = drop-append_le (offset - 4) before packet (omega (arith, at)) in
    let long : 5 ≤ length (drop (offset - 4) (before ++ packet)) =
      omega (arith, ap length split, length-append reserved packet, four, some_) in
    ap₂
      (λ a b.
        if a
        then none
        else if b
        then none
        else some (put_header (drop (offset - 4) (before ++ packet))))
      (le→ltb-false offset 4 room) (le→ltb-false _ 5 long)
    ∙ ap (λ l. some (put_header l)) split
    ∙ ap some (put_header_reserved reserved packet four)

-- What stands in a buffer where the bytes of a file were placed.
placed_packet :
    (head packet buff : List ℕ) (offset : ℕ)
    → length head ≡ 4
    → 4 ≤ offset
    → offset + length packet ≤ length buff
    → slice offset (offset + length packet) (place (offset - 4) (head ++ packet) buff) ≡ packet
placed_packet head packet buff offset four room fits =
    let at = offset - 4 in
    let rest = drop (at + length (head ++ packet)) buff in
    let front = take at buff in
    let before = front ++ head in
    let here : length before ≡ offset =
      omega (arith, length-append front head, length-take at buff, four, room, fits) in
    let shape : front ++ (head ++ packet) ++ rest ≡ before ++ (packet ++ rest) =
      append_assoc front (head ++ packet) rest
      ∙ ap (λ l. front ++ l) (append_assoc head packet rest)
      ∙ sym (append_assoc front head (packet ++ rest)) in
    ap (slice offset (offset + length packet)) shape
    ∙ ap (take (offset + length packet - offset))
        (drop-append_of offset before (packet ++ rest) here)
    ∙ ap (λ n. take n (packet ++ rest)) (omega arith)
    ∙ take-append_of (length packet) packet rest refl

-- The packet behind a header without flags, whose protocol is IPv6 (0x86dd) if the packet's
-- version is 6, and IPv4 (0x0800) if it is not.
abbrev pub HasHeader : List ℕ → List ℕ → Type 0
HasHeader packet sent =
    ((get_or packet 0 0 / 16 ≡ 6) × (sent ≡ 0x00 ∷ 0x00 ∷ 0x86 ∷ 0xdd ∷ packet))
    ⊎ ((get_or packet 0 0 / 16 ≢ 6) × (sent ≡ 0x00 ∷ 0x00 ∷ 0x08 ∷ 0x00 ∷ packet))

protocol-HasHeader : (packet : List ℕ) → HasHeader packet (protocol packet ++ packet)
protocol-HasHeader packet = elim (Bool-cases (get_or packet 0 0 / 16 == 6)) [
  | inl six ↦ inl (==→eq (get_or packet 0 0 / 16) 6 six, simp six refl)
  | inr other ↦ inr (==-false→ne (get_or packet 0 0 / 16) 6 other, simp other refl)
]

-- A packet that is written at an offset with room for the header, and then read at one, comes back:
-- the file gets the packet behind a header of two bytes 0 and the protocol 0x86dd if the packet's
-- version is 6, and else 0x0800; Read gives the packet's length and has it in the buffer from the
-- offset on, if it fits there.
pub do_read-write :
    (before packet buff : List ℕ) (offset : ℕ)
    → length before ≡ offset
    → 4 ≤ offset
    → 0 < length packet
    → offset + length packet ≤ length buff
    → (sent : List ℕ) × (write false (before ++ packet) offset ≡ some sent)
      × HasHeader packet sent
      × ((do_read none false (record { bytes = sent; error = none }) buff offset).n ≡ length packet)
      × (slice offset
            (offset + length packet)
            (do_read none false (record { bytes = sent; error = none }) buff offset).buff
          ≡ packet)
unfolding do_read
do_read-write before packet buff offset at room some_ fits =
    let four = length-protocol packet in
    (
      protocol packet ++ packet,
      write_packet before packet offset at room some_,
      protocol-HasHeader packet,
      omega (arith, length-append (protocol packet) packet, four),
      placed_packet (protocol packet) packet buff offset four room fits,
    )
