-- ===== src/Packet/Padding.antt =====
-- What the padding of RoutineEncryption adds.
use wireguard_go.Base.{
  ℕ, zero, suc, ◌+◌, ◌-◌, ◌%◌, ◌≤◌, ◌<◌, ◌≡◌, refl, sym, ap, ◌∙◌, ◌⊎◌, inl, inr, List, [], ◌∷◌,
  ◌++◌, length, replicate, ltb, length-append, append_assoc, length-replicate, ltb→lt, ltb-false→le,
  Bool-cases, arith,
}
use wireguard_go.Packet.{pad_rounds, pad}

append-nil : (xs : List ℕ) → xs ++ [] ≡ xs
append-nil [] = refl
append-nil (x ∷ xs) = ap (λ t. x ∷ t) (append-nil xs)

-- Padding only adds zero bytes: as many as the rounds, or up to the MTU.
pad_rounds_zeros :
    (n mtu : ℕ) (packet : List ℕ)
    → (k : ℕ) × (pad_rounds n mtu packet ≡ packet ++ replicate k 0)
      × (k ≤ n)
      × ((k ≡ n) ⊎ (mtu ≤ length packet + k))
      × ((k ≡ 0) ⊎ (length packet + k ≤ mtu))
unfolding pad_rounds
pad_rounds_zeros zero mtu packet = (0, sym (append-nil packet), omega arith, inl refl, inl refl)
pad_rounds_zeros (suc n) mtu packet =
    let (k, e, le, stop, fits) = pad_rounds_zeros n mtu (packet ++ 0 ∷ []) in
    elim (Bool-cases (ltb (length packet) mtu)) [
      | inl room ↦
          let len = length-append packet (0 ∷ []) in
          (
            suc k,
            simp room (e ∙ append_assoc packet (0 ∷ []) (replicate k 0)),
            omega arith,
            ground (arith, len, stop),
            inr (ground (arith, len, fits, ltb→lt _ _ room)),
          )
      | inr full ↦ (
        0,
        simp full (sym (append-nil packet)),
        omega arith,
        inr (ground (arith, ltb-false→le _ _ full)),
        inl refl,
      )
    ]

-- Padding only appends zero bytes, whatever the MTU.
pub pad-append : (mtu : ℕ) (packet : List ℕ) → (k : ℕ) × (pad mtu packet ≡ packet ++ replicate k 0)
unfolding pad
pad-append mtu packet = elim (Bool-cases (ltb 0 (length packet % 16))) [
  | inr whole ↦ (0, simp whole (sym (append-nil packet)))
  | inl odd ↦
      let (k, e, le, stop, fits) = pad_rounds_zeros (16 - length packet % 16) mtu packet in
      (k, simp odd e)
]

-- Padding appends fewer than 16 zero bytes to a packet that fits the MTU: up to a multiple of 16,
-- or up to the MTU, which the result does not exceed.
pub pad_zeros :
    (mtu : ℕ) (packet : List ℕ)
    → length packet ≤ mtu
    → (k : ℕ) × (pad mtu packet ≡ packet ++ replicate k 0)
      × (k < 16)
      × (length (pad mtu packet) ≤ mtu)
      × ((length (pad mtu packet) % 16 ≡ 0) ⊎ (length (pad mtu packet) ≡ mtu))
unfolding pad
pad_zeros mtu packet h = elim (Bool-cases (ltb 0 (length packet % 16))) [
  | inr whole ↦ (
    0,
    simp whole (sym (append-nil packet)),
    omega arith,
    simp whole h,
    inl (simp whole (ground (arith, whole))),
  )
  | inl odd ↦
      let (k, e, le, stop, fits) = pad_rounds_zeros (16 - length packet % 16) mtu packet in
      let len : length (packet ++ replicate k 0) ≡ length packet + k =
        omega (arith, length-append packet (replicate k 0), length-replicate {A = ℕ} k 0) in
      let some_over = ltb→lt _ _ odd in
      let size : length packet + k ≤ mtu = elim fits [
        | inl none_added ↦ omega arith
        | inr h' ↦ h'
      ] in
      (
        k,
        simp odd e,
        omega arith,
        simp (odd, e) (omega arith),
        elim stop [
          | inl all_rounds ↦ inl (simp (odd, e) (omega arith))
          | inr full ↦ inr (simp (odd, e) (omega arith))
        ],
      )
]
