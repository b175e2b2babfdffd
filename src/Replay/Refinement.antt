-- ===== src/Replay/Refinement.antt =====
-- validate_counter of replay.go against its specification: the ring of words holds the accepted
-- counters of the last 256 words.
use wireguard_go.Base.{
  ℕ, ◌+◌, ◌-◌, ◌*◌, ◌/◌, ◌%◌, ◌^◌, ◌≤◌, ◌<◌, ◌≡◌, refl, sym, ap, ◌∙◌, ◌≢◌, ◌⊎◌, inl, inr, Bool,
  true, false, List, ◌∷◌, arith, ltb, leb, ◌==◌, if◌then◌else◌, get_or, set, length, length-set,
  get_or-replicate, get_or-set_self, get_or-set_ne, Bool-cases, ==→eq, ==-false→ne, leb→le, le→leb,
  le→ltb-false, min, bit_or,
}
use wireguard_go.Base.Bits.{
  bit, bit-bit_or_power, bit_or_power_self, bit_of_bit_or_power_self, bit-zero_word,
}
use wireguard_go.Constants.{reject_after_messages}
use wireguard_go.Replay.{
  ReplayFilter, zero_filter, init, move_window, check_and_set, validate_counter, clear_words,
}
use wireguard_go.Replay.Spec.{Window, member, fresh, accept}
use wireguard_go.Replay.Words.{length-clear_words, clear_words_kept, clear_words_cleared}

abbrev pub is_seen : ℕ → List ℕ → ℕ
is_seen c seen = if member c seen then 1 else 0

pub record Refines (f : ReplayFilter) (w : Window) : Type 0 where
  pub counter_highest : f.counter ≡ w.highest
  pub words : length f.backtrack ≡ 256
  pub bits :
      (i b : ℕ)
      → b < 64
      → i ≤ f.counter / 64
      → f.counter / 64 < i + 256
      → bit (get_or f.backtrack (i % 256) 0) b ≡ is_seen (i * 64 + b) w.seen
  pub seen_le : (c : ℕ) → member c w.seen ≡ true → c ≤ w.highest

-- A key pair's filter after `Init` stands for the fresh window.
pub init-Refines : Refines (init zero_filter) fresh
unfolding init
init-Refines = record {
  counter_highest = refl;
  words = refl;
  bits = λ i b h p q. ap (λ x. bit x b) (get_or-replicate 256 (i % 256) 0) ∙ bit-zero_word b;
  seen_le = λ c h. cc;
}

above_unseen :
    {f : ReplayFilter} {w : Window} → Refines f w → (c : ℕ) → f.counter < c → is_seen c w.seen ≡ 0
above_unseen {f} {w} r c h = elim (Bool-cases (member c w.seen)) [
  | inl e ↦ absurd (omega (arith, r.seen_le c e, r.counter_highest))
  | inr e ↦ rw e
]

-- A word that the move keeps: its place differs from those of all the new words.
move_window_kept :
    (cur n i : ℕ) (ws : List ℕ)
    → i ≤ cur
    → cur + n < i + 256
    → get_or (clear_words n cur 1 ws) (i % 256) 0 ≡ get_or ws (i % 256) 0
move_window_kept cur n i ws p q = clear_words_kept n cur 1 ws (i % 256) (λ k lo hi e. omega arith)

-- A word that is new: it has been cleared, under its last name in the ring.
move_window_cleared :
    (cur n i : ℕ) (ws : List ℕ)
    → length ws ≡ 256
    → cur < i
    → (i ≤ cur + n) ⊎ (256 ≤ n)
    → get_or (clear_words n cur 1 ws) (i % 256) 0 ≡ 0
move_window_cleared cur n i ws len p q =
    ap (λ j. get_or (clear_words n cur 1 ws) j 0) place
    ∙ clear_words_cleared n cur 1 ws ((i - cur - 1) % 256 + 1) len (omega arith) (omega arith)
  where
    place : i % 256 ≡ (cur + ((i - cur - 1) % 256 + 1)) % 256
    place = omega arith

module _ (f : ReplayFilter) (w : Window) (c : ℕ) (r : Refines f w) (h : f.counter < c) where
  move_window_bits :
      (i b : ℕ)
      → b < 64
      → i ≤ c / 64
      → c / 64 < i + 256
      → bit (get_or (move_window f c).backtrack (i % 256) 0) b ≡ is_seen (i * 64 + b) w.seen
  unfolding move_window
  move_window_bits i b hb p q = elim (Bool-cases (leb i (f.counter / 64))) [
    | inl old ↦
        ap (λ x. bit x b)
          (move_window_kept (f.counter / 64) (min (c / 64 - f.counter / 64) 256) i f.backtrack
            (leb→le _ _ old) (omega (arith, leb→le _ _ old)))
        ∙ r.bits i b hb (leb→le _ _ old) (omega (arith, leb→le _ _ old))
    | inr new ↦
        ap (λ x. bit x b)
          (move_window_cleared (f.counter / 64) (min (c / 64 - f.counter / 64) 256) i f.backtrack
            r.words (ground arith) (omega arith))
        ∙ bit-zero_word b
        ∙ sym (above_unseen r (i * 64 + b) (ground arith))
  ]

  -- After the window has moved, the new words are empty and the old ones stand.
  move_window-Refines : Refines (move_window f c) (record w { highest = c })
  unfolding move_window
  move_window-Refines = record {
    counter_highest = refl;
    words =
        length-clear_words (min (c / 64 - f.counter / 64) 256) (f.counter / 64) 1 f.backtrack
        ∙ r.words;
    bits = move_window_bits;
    seen_le = λ x e. omega (arith, r.seen_le x e, r.counter_highest);
  }

module _ (f : ReplayFilter) (w : Window) (c : ℕ) (r : Refines f w) (lo : c ≤ f.counter)
    (near : f.counter ≤ c + 1984) where
  abbrev old_word : ℕ
  old_word = get_or f.backtrack (c / 64 % 256) 0

  old_bit : bit old_word (c % 64) ≡ is_seen c w.seen
  old_bit =
      r.bits (c / 64) (c % 64) (omega arith) (omega arith) (omega arith)
      ∙ ap (λ x. is_seen x w.seen) (omega arith)

  -- Setting the bit adds the counter to what the words hold.
  new_bits :
      (i b : ℕ)
      → b < 64
      → i ≤ f.counter / 64
      → f.counter / 64 < i + 256
      → bit (get_or (set f.backtrack (c / 64 % 256) (bit_or old_word (2 ^ (c % 64)))) (i % 256) 0) b
        ≡ is_seen (i * 64 + b) (c ∷ w.seen)
  new_bits i b hb p q = elim (Bool-cases (i == c / 64)) [
    | inl here ↦
        ap (λ x. bit x b) (at_word (==→eq _ _ here))
        ∙ bit-bit_or_power old_word (c % 64) b
        ∙ here_bit (==→eq _ _ here)
    | inr away ↦
        ap (λ x. bit x b)
          (get_or-set_ne f.backtrack (c / 64 % 256) (i % 256) _ 0
            (λ e. ==-false→ne i (c / 64) away (omega arith)))
        ∙ r.bits i b hb p q
        ∙ away_bit (==-false→ne _ _ away)
  ]
    where
      at_word :
          i ≡ c / 64
          → get_or (set f.backtrack (c / 64 % 256) (bit_or old_word (2 ^ (c % 64)))) (i % 256) 0
            ≡ bit_or old_word (2 ^ (c % 64))
      at_word e = rw e (get_or-set_self f.backtrack (c / 64 % 256) _ 0 (omega (arith, r.words)))

      here_bit :
          i ≡ c / 64
          → (if b == c % 64 then 1 else bit old_word b) ≡ is_seen (i * 64 + b) (c ∷ w.seen)
      here_bit e =
          ground
            (arith, r.bits i b hb p q, ap (λ (j : ℕ). bit (get_or f.backtrack (j % 256) 0) b) e)

      away_bit : i ≢ c / 64 → is_seen (i * 64 + b) w.seen ≡ is_seen (i * 64 + b) (c ∷ w.seen)
      away_bit ne = ground arith

  -- The filter reports whether the counter is new, and remembers it.
  check_and_set_new :
      member c w.seen ≡ false
      → ((check_and_set f c).1 ≡ true)
        × Refines (check_and_set f c).0 (record w { seen = c ∷ w.seen })
  unfolding check_and_set
  check_and_set_new e = (
    ground (arith, old_bit, bit_of_bit_or_power_self old_word (c % 64)),
    record {
      counter_highest = r.counter_highest;
      words = length-set f.backtrack _ _ ∙ r.words;
      bits = new_bits;
      seen_le = λ x m. ground (arith, r.seen_le x, r.counter_highest);
    },
  )

  check_and_set_seen :
      member c w.seen ≡ true → ((check_and_set f c).1 ≡ false) × Refines (check_and_set f c).0 w
  unfolding check_and_set
  check_and_set_seen e = (
    ground (arith, old_bit, bit_or_power_self old_word (c % 64)),
    record {
      counter_highest = r.counter_highest;
      words = length-set f.backtrack _ _ ∙ r.words;
      bits = λ i b hb p q. new_bits i b hb p q ∙ ground arith;
      seen_le = r.seen_le;
    },
  )

-- One answer of the filter and one of the specification.
abbrev Agrees : ReplayFilter × Bool → Window × Bool → Type 0
Agrees a b = (a.1 ≡ b.1) × Refines a.0 b.0

too_high :
    (f : ReplayFilter) (w : Window) (c : ℕ)
    → Refines f w
    → reject_after_messages ≤ c
    → Agrees (validate_counter f c) (accept w c)
unfolding validate_counter
too_high f w c r h = rw (le→leb _ _ h) (rw (le→ltb-false _ _ h) (refl, r))

too_old :
    (f : ReplayFilter) (w : Window) (c : ℕ)
    → Refines f w
    → c < reject_after_messages
    → c + 1984 < f.counter
    → Agrees (validate_counter f c) (accept w c)
too_old f w c r h old = rw (real, spec) (refl, r)
  where
    real : validate_counter f c ≡ (f, false)
    real = unfold validate_counter in ground arith

    spec : accept w c ≡ (w, false)
    spec = ground (arith, r.counter_highest)

ahead :
    (f : ReplayFilter) (w : Window) (c : ℕ)
    → Refines f w
    → c < reject_after_messages
    → f.counter < c
    → Agrees (validate_counter f c) (accept w c)
ahead f w c r h above =
    rw (real, spec)
      (check_and_set_new (move_window f c) (record w { highest = c }) c
        (move_window-Refines f w c r above) (unfold move_window in omega arith)
        (unfold move_window in omega arith) unseen)
  where
    real : validate_counter f c ≡ check_and_set (move_window f c) c
    real = unfold validate_counter in ground arith

    spec : accept w c ≡ (record { highest = c; seen = c ∷ w.seen }, true)
    spec = ground (arith, r.counter_highest)

    unseen : member c w.seen ≡ false
    unseen = ground (arith, above_unseen r c above)

inside :
    (f : ReplayFilter) (w : Window) (c : ℕ)
    → Refines f w
    → c < reject_after_messages
    → c ≤ f.counter
    → f.counter ≤ c + 1984
    → Agrees (validate_counter f c) (accept w c)
inside f w c r h lo near = rw real (elim (Bool-cases (member c w.seen)) [
  | inl e ↦ rw (old e) (check_and_set_seen f w c r lo near e)
  | inr e ↦ rw (new e) (check_and_set_new f w c r lo near e)
])
  where
    real : validate_counter f c ≡ check_and_set f c
    real = unfold validate_counter in ground arith

    old : member c w.seen ≡ true → accept w c ≡ (w, false)
    old e = ground (arith, r.counter_highest)

    new : member c w.seen ≡ false → accept w c ≡ (record w { seen = c ∷ w.seen }, true)
    new e = ground (arith, r.counter_highest)

-- On every counter a filter and the window that it stands for give the same answer, and the filter
-- stands for the window afterwards.
pub validate_counter-Refines :
    (f : ReplayFilter) (w : Window) (c : ℕ)
    → Refines f w
    → ((validate_counter f c).1 ≡ (accept w c).1) × Refines (validate_counter f c).0 (accept w c).0
validate_counter-Refines f w c r = elim (Bool-cases (leb reject_after_messages c)) [
  | inl high ↦ too_high f w c r (leb→le _ _ high)
  | inr low ↦ elim (Bool-cases (ltb f.counter c)) [
    | inl above ↦ ahead f w c r (ground arith) (ground arith)
    | inr behind ↦ elim (Bool-cases (ltb 1984 (f.counter - c))) [
      | inl old ↦ too_old f w c r (ground arith) (ground arith)
      | inr near ↦ inside f w c r (ground arith) (ground arith) (ground arith)
    ]
  ]
]
