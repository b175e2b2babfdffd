-- ===== src/Cookie/Macs.antt =====
-- AddMacs of cookie.go against CheckMAC1 and CheckMAC2.
use wireguard_go.Base.{
  ℕ, ◌-◌, ◌+◌, ◌≤◌, ◌≡◌, refl, sym, ◌∙◌, ap, inl, inr, true, false, some, List, ◌++◌, length, take,
  drop, slice, take_append, drop_append, length-take, length-drop, length-append, append_assoc,
  bytes_eq_refl, le→ltb-false, Bool-cases, arith,
}
use wireguard_go.Base.Clock.{exceeds, sub_time}
use wireguard_go.Constants.{cookie_refresh_time}
use wireguard_go.Crypto.{Crypto}
use wireguard_go.Cookie.{CookieChecker, CookieGenerator, mac_size, check_mac1, check_mac2, add_macs}

-- New128 of blake2s gives 16 bytes.
abbrev pub IsMacSized : Crypto → Type 0
IsMacSized c = (key text : List ℕ) → length (c.blake2s_mac key text) ≡ mac_size

-- A message that ends in two MACs.
module _ (body m1 m2 : List ℕ) (l1 : length m1 ≡ mac_size) (l2 : length m2 ≡ mac_size) where
  pub length_macs : length (body ++ m1 ++ m2) ≡ length body + 32
  length_macs = omega (arith, length-append (body ++ m1) m2, length-append body m1)

  mac2_at : length (body ++ m1 ++ m2) - mac_size ≡ length (body ++ m1)
  mac2_at = omega (arith, length_macs, length-append body m1)

  mac1_at : length (body ++ m1 ++ m2) - mac_size - mac_size ≡ length body
  mac1_at = omega (arith, length_macs)

  pub take_body : take (length (body ++ m1 ++ m2) - mac_size - mac_size) (body ++ m1 ++ m2) ≡ body
  take_body =
      ap (λ n. take n (body ++ m1 ++ m2)) mac1_at
      ∙ ap (take (length body)) (append_assoc body m1 m2)
      ∙ take_append body (m1 ++ m2)

  pub take_to_mac2 : take (length (body ++ m1 ++ m2) - mac_size) (body ++ m1 ++ m2) ≡ body ++ m1
  take_to_mac2 = ap (λ n. take n (body ++ m1 ++ m2)) mac2_at ∙ take_append (body ++ m1) m2

  pub drop_to_mac2 : drop (length (body ++ m1 ++ m2) - mac_size) (body ++ m1 ++ m2) ≡ m2
  drop_to_mac2 = ap (λ n. drop n (body ++ m1 ++ m2)) mac2_at ∙ drop_append (body ++ m1) m2

  pub slice_mac1 :
      slice
        (length (body ++ m1 ++ m2) - mac_size - mac_size)
        (length (body ++ m1 ++ m2) - mac_size)
        (body ++ m1 ++ m2)
      ≡ m1
  slice_mac1 =
      let n : length (body ++ m1 ++ m2)
            - mac_size
            - (length (body ++ m1 ++ m2) - mac_size - mac_size)
          ≡ length m1 =
        omega (arith, length_macs) in
      ap (λ k. take k (drop (length (body ++ m1 ++ m2) - mac_size - mac_size) (body ++ m1 ++ m2))) n
      ∙ ap (λ k. take (length m1) (drop k (body ++ m1 ++ m2))) mac1_at
      ∙ ap (λ t. take (length m1) (drop (length body) t)) (append_assoc body m1 m2)
      ∙ ap (take (length m1)) (drop_append body (m1 ++ m2))
      ∙ take_append m1 m2

-- The part of a message before its MACs, and the first MAC of it.
abbrev pub body_of : List ℕ → List ℕ
body_of msg = take (length msg - mac_size - mac_size) msg

abbrev pub mac1_of : Crypto → CookieGenerator → List ℕ → List ℕ
mac1_of c st msg = c.blake2s_mac st.mac1_key (body_of msg)

-- What AddMacs makes of a message: the second MAC is the old bytes once the cookie is too old.
pub add_macs-parts :
    (c : Crypto) (st : CookieGenerator) (msg : List ℕ) (now : ℕ)
    → IsMacSized c
    → 32 ≤ length msg
    → (m2 : List ℕ) × (length m2 ≡ mac_size)
      × (add_macs c st msg now
          ≡ some (
            body_of msg ++ mac1_of c st msg ++ m2,
            record st { last_mac1 = mac1_of c st msg; has_last_mac1 = true },
          ))
      × (exceeds (sub_time now st.cookie_set) cookie_refresh_time ≡ false
          → m2 ≡ c.blake2s_mac st.cookie (body_of msg ++ mac1_of c st msg))
unfolding add_macs
add_macs-parts c st msg now sized long =
    let enough = le→ltb-false (length msg) 32 long in
    elim (Bool-cases (exceeds (sub_time now st.cookie_set) cookie_refresh_time)) [
      | inl old ↦ (
        drop (length msg - mac_size) msg,
        omega (arith, length-drop (length msg - mac_size) msg),
        simp (enough, old) refl,
        λ fresh. absurd cc,
      )
      | inr fresh ↦ (
        c.blake2s_mac st.cookie (body_of msg ++ mac1_of c st msg),
        sized _ _,
        simp (enough, fresh) refl,
        λ again. refl,
      )
    ]

-- The MACs that a peer adds to a message of at least 32 bytes leave its length alone, and CheckMAC1
-- accepts the first with the same key, whether or not there is a cookie. The generator keeps that
-- MAC. New128 gives 16 bytes.
pub check_mac1-add_macs :
    (c : Crypto) (st : CookieGenerator) (checker : CookieChecker) (msg : List ℕ) (now : ℕ)
    → IsMacSized c
    → 32 ≤ length msg
    → st.mac1_key ≡ checker.mac1_key
    → (msg' : List ℕ) × (st' : CookieGenerator) × (add_macs c st msg now ≡ some (msg', st'))
      × (length msg' ≡ length msg)
      × (check_mac1 c checker msg' ≡ some true)
      × (st'.last_mac1 ≡ slice (length msg' - mac_size - mac_size) (length msg' - mac_size) msg')
      × (st'.has_last_mac1 ≡ true)
unfolding check_mac1
check_mac1-add_macs c st checker msg now sized long key =
    let (m2, l2, made, tail) = add_macs-parts c st msg now sized long in
    let body = body_of msg in
    let m1 = mac1_of c st msg in
    let l1 : length m1 ≡ mac_size = sized _ _ in
    let len = length_macs body m1 m2 l1 l2 in
    let enough = le→ltb-false (length (body ++ m1 ++ m2)) 32 (omega (arith, len)) in
    (
      body ++ m1 ++ m2,
      record st { last_mac1 = m1; has_last_mac1 = true },
      made,
      omega (arith, len, length-take (length msg - mac_size - mac_size) msg),
      simp
          (
            take_body body m1 m2 l1 l2,
            slice_mac1 body m1 m2 l1 l2,
            enough,
            sym key,
            bytes_eq_refl m1,
          )
          refl,
      sym (slice_mac1 body m1 m2 l1 l2),
      refl,
    )

-- A peer that holds the cookie of a device for its address adds a second MAC to a message of at
-- least 32 bytes, which CheckMAC2 accepts for that address while neither the cookie nor the secret
-- behind it is older than CookieRefreshTime. New128 gives 16 bytes.
pub check_mac2-add_macs :
    (c : Crypto) (st : CookieGenerator) (checker : CookieChecker) (msg src : List ℕ) (now later : ℕ)
    → IsMacSized c
    → 32 ≤ length msg
    → st.cookie ≡ c.blake2s_mac checker.secret src
    → exceeds (sub_time now st.cookie_set) cookie_refresh_time ≡ false
    → exceeds (sub_time later checker.secret_set) cookie_refresh_time ≡ false
    → (msg' : List ℕ) × (st' : CookieGenerator) × (add_macs c st msg now ≡ some (msg', st'))
      × (check_mac2 c checker msg' src later ≡ some true)
unfolding check_mac2
check_mac2-add_macs c st checker msg src now later sized long cookie fresh fresh' =
    let (m2, l2, made, tail) = add_macs-parts c st msg now sized long in
    let body = body_of msg in
    let m1 = mac1_of c st msg in
    let l1 : length m1 ≡ mac_size = sized _ _ in
    let len = length_macs body m1 m2 l1 l2 in
    let enough = le→ltb-false (length (body ++ m1 ++ m2)) 16 (omega (arith, len)) in
    let mac2 : c.blake2s_mac (c.blake2s_mac checker.secret src) (body ++ m1) ≡ m2 =
      ap (λ k. c.blake2s_mac k (body ++ m1)) (sym cookie) ∙ sym (tail fresh) in
    (
      body ++ m1 ++ m2,
      record st { last_mac1 = m1; has_last_mac1 = true },
      made,
      simp
          (
            fresh',
            enough,
            take_to_mac2 body m1 m2 l1 l2,
            drop_to_mac2 body m1 m2 l1 l2,
            mac2,
            bytes_eq_refl m2,
          )
          refl,
    )
