-- ===== src/Crypto.antt =====
-- noise-helpers.go, and the primitives of golang.org/x/crypto and crypto/* that the program calls, as
-- parameters. Clearing a local buffer (setZero on a local) leaves no trace in the model.
use wireguard_go.Base.{
  ℕ, Bool, true, ◌&&◌, Option, some, List, [], ◌∷◌, ◌++◌, ◌≡◌, ◌==◌, bit_and, bit_or, get_or, set,
}

-- blake2s: New256(nil) over all that is written. hmac: hmac.New with blake2s, key and data.
-- blake2s_mac: New128(key), key and data. The AEADs take key, nonce, text, additional data.
pub record Crypto : Type 0 where
  pub blake2s : List ℕ → List ℕ
  pub blake2s_mac : List ℕ → List ℕ → List ℕ
  pub hmac : List ℕ → List ℕ → List ℕ
  pub scalar_base_mult : List ℕ → List ℕ
  pub scalar_mult : List ℕ → List ℕ → List ℕ
  pub aead_seal : List ℕ → List ℕ → List ℕ → List ℕ → List ℕ
  pub aead_open : List ℕ → List ℕ → List ℕ → List ℕ → Option (List ℕ)
  pub xaead_seal : List ℕ → List ℕ → List ℕ → List ℕ → List ℕ
  pub xaead_open : List ℕ → List ℕ → List ℕ → List ℕ → Option (List ℕ)

-- What the protocol relies on: what was sealed opens under the same key, nonce and data, and the two
-- sides of a Diffie-Hellman exchange get the same secret.
pub record IsSound (c : Crypto) : Type 0 where
  pub opens :
      (key nonce text ad : List ℕ)
      → c.aead_open key nonce (c.aead_seal key nonce text ad) ad ≡ some text
  pub xopens :
      (key nonce text ad : List ℕ)
      → c.xaead_open key nonce (c.xaead_seal key nonce text ad) ad ≡ some text
  pub shares :
      (a b : List ℕ)
      → c.scalar_mult a (c.scalar_base_mult b) ≡ c.scalar_mult b (c.scalar_base_mult a)

unfoldable pub is_zero : List ℕ → Bool
is_zero [] = true
is_zero (b ∷ bs) = b == 0 && is_zero bs

-- The clamping of newPrivateKey, on the 32 bytes that rand.Read gives.
unfoldable pub clamp : List ℕ → List ℕ
clamp sk =
    let sk = set sk 0 (bit_and (get_or sk 0 0) 248) in
    let sk = set sk 31 (bit_and (get_or sk 31 0) 127) in set sk 31 (bit_or (get_or sk 31 0) 64)

module _ (c : Crypto) where
  unfoldable pub hmac1 : List ℕ → List ℕ → List ℕ
  hmac1 key in0 = c.hmac key in0

  unfoldable pub hmac2 : List ℕ → List ℕ → List ℕ → List ℕ
  hmac2 key in0 in1 = c.hmac key (in0 ++ in1)

  unfoldable pub kdf1 : List ℕ → List ℕ → List ℕ
  unfolding hmac1
  kdf1 key input = let t0 = hmac1 key input in hmac1 t0 (1 ∷ [])

  unfoldable pub kdf2 : List ℕ → List ℕ → List ℕ × List ℕ
  unfolding hmac1 hmac2
  kdf2 key input =
      let prk = hmac1 key input in
      let t0 = hmac1 prk (1 ∷ []) in let t1 = hmac2 prk t0 (2 ∷ []) in (t0, t1)

  unfoldable pub kdf3 : List ℕ → List ℕ → List ℕ × List ℕ × List ℕ
  unfolding hmac1 hmac2
  kdf3 key input =
      let prk = hmac1 key input in
      let t0 = hmac1 prk (1 ∷ []) in
      let t1 = hmac2 prk t0 (2 ∷ []) in let t2 = hmac2 prk t1 (3 ∷ []) in (t0, t1, t2)

  -- A clamped key and whether the random source failed.
  unfoldable pub new_private_key : List ℕ × Bool → List ℕ × Bool
  unfolding clamp
  new_private_key (bytes, failed) = (clamp bytes, failed)

  unfoldable pub public_key : List ℕ → List ℕ
  public_key sk = c.scalar_base_mult sk

  unfoldable pub shared_secret : List ℕ → List ℕ → List ℕ
  shared_secret sk pk = c.scalar_mult sk pk
