-- ===== src/Tun/Sets.antt =====
-- tun_linux.go: sets of descriptors for select, and waiting for a packet or the end.
use wireguard_go.Base.{
  ℕ, ◌*◌, ◌/◌, ◌%◌, ◌^◌, ◌<◌, ◌≡◌, refl, sym, ap, ◌∙◌, inl, inr, Bool, true, false, not, ◌||◌,
  Option, none, some, List, length, get_or, set, ltb, ◌==◌, if◌then◌else◌, bit_or, bit_and, arith,
  Bool-cases, ==→eq, ==-false→ne, get_or-set_self, get_or-set_ne, ne→==-false, zero, suc,
}
use wireguard_go.Base.Bits.{bit, bit-lt-two, bit-bit_or_power}
use wireguard_go.Base.Bits.Mask.{bit_and-power, power_pos}

-- unix.FdSet: 16 words of 64 bits.
pub record FdSet : Type 0 where
  pub bits : List ℕ

abbrev pub word_bits : ℕ
word_bits = 64

-- For a descriptor of which there is a bit; others are a panic.
unfoldable pub insert : ℕ → FdSet → FdSet
insert i s =
    let at = i / word_bits in
    record { bits = set s.bits at (bit_or (get_or s.bits at 0) (2 ^ (i % word_bits))) }

unfoldable pub check : ℕ → FdSet → Bool
check i s = not (bit_and (get_or s.bits (i / word_bits) 0) (2 ^ (i % word_bits)) == 0)

unfoldable pub max_fd : ℕ → ℕ → ℕ
max_fd a b = if ltb b a then a else b

-- What select answers, for the bound and the set it is given: the descriptors that are ready.
unfoldable pub ready_read : (ℕ → FdSet → Option FdSet) → FdSet → ℕ → ℕ → Bool
unfolding insert check max_fd
ready_read select empty read_fd close_fd =
    elim (select (suc (max_fd read_fd close_fd)) (insert close_fd (insert read_fd empty))) [
      | none ↦ false
      | some ready ↦ if check close_fd ready then false else check read_fd ready
    ]

-- A set is the bits of its words.
check-bit :
    (i : ℕ) (s : FdSet) → check i s ≡ (bit (get_or s.bits (i / word_bits) 0) (i % word_bits) == 1)
unfolding check
check-bit i s =
    let b = bit (get_or s.bits (i / word_bits) 0) (i % word_bits) in
    ap (λ n. not (n == 0)) (bit_and-power (get_or s.bits (i / word_bits) 0) (i % word_bits))
    ∙ weighed b (2 ^ (i % word_bits)) (bit-lt-two (get_or s.bits (i / word_bits) 0) (i % word_bits))
        (power_pos (i % word_bits))
  where
    weighed : (b p : ℕ) → b < 2 → 0 < p → not (b * p == 0) ≡ (b == 1)
    weighed zero p h pos = let none_ : 0 * p ≡ 0 = omega arith in ap (λ n. not (n == 0)) none_
    weighed (suc zero) p h pos = ground arith
    weighed (suc (suc b)) p h pos = absurd (omega arith)

same_test : (i j : ℕ) → i / 64 ≡ j / 64 → (j % 64 == i % 64) ≡ (i == j)
same_test i j same = ground arith

one_or : (c : Bool) (b : ℕ) → ((if c then 1 else b) == 1) ≡ (c || b == 1)
one_or true b = refl
one_or false b = refl

-- The bit of `j` after that of `i` is set, in the same word and in another.
same_word :
    (i j w : ℕ)
    → i / 64 ≡ j / 64
    → (bit (bit_or w (2 ^ (i % 64))) (j % 64) == 1) ≡ ((i == j) || bit w (j % 64) == 1)
same_word i j w same =
    ap (λ n. n == 1) (bit-bit_or_power w (i % 64) (j % 64))
    ∙ one_or (j % 64 == i % 64) (bit w (j % 64))
    ∙ ap (λ c. c || bit w (j % 64) == 1) (same_test i j same)

-- The words of bits are a set of descriptors: setting that of `i`, if there is a bit for it, makes
-- exactly `i` a member.
pub check-insert :
    (i j : ℕ) (s : FdSet)
    → i / word_bits < length s.bits
    → check j (insert i s) ≡ ((i == j) || check j s)
unfolding insert
check-insert i j s fits = elim (Bool-cases (i / 64 == j / 64)) [
  | inl one ↦
      let same = ==→eq (i / 64) (j / 64) one in
      let w = get_or s.bits (i / 64) 0 in
      check-bit j (insert i s)
      ∙ ap (λ l. bit l (j % 64) == 1)
          (ap (λ n. get_or (set s.bits (i / 64) (bit_or w (2 ^ (i % 64)))) n 0) (sym same)
            ∙ get_or-set_self s.bits (i / 64) (bit_or w (2 ^ (i % 64))) 0 fits)
      ∙ same_word i j w same
      ∙ ap (λ n. (i == j) || bit (get_or s.bits n 0) (j % 64) == 1) same
      ∙ ap (λ b. (i == j) || b) (sym (check-bit j s))
  | inr two ↦
      let other = ==-false→ne (i / 64) (j / 64) two in
      let w = get_or s.bits (i / 64) 0 in
      check-bit j (insert i s)
      ∙ ap (λ l. bit l (j % 64) == 1)
          (get_or-set_ne s.bits (i / 64) (j / 64) (bit_or w (2 ^ (i % 64))) 0 other)
      ∙ sym (check-bit j s)
      ∙ ap (λ c. c || check j s) (sym (ne→==-false i j (λ e. other (ap (λ n. n / 64) e))))
]
