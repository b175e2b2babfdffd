-- ===== src/Cookie/Reply.antt =====
-- CreateReply and ConsumeReply of cookie.go.
use wireguard_go.Base.{
  ℕ, ◌-◌, ◌≤◌, ◌≡◌, refl, ◌⊎◌, inl, inr, true, false, List, length, slice, le→ltb-false, Bool-cases,
}
use wireguard_go.Base.Clock.{exceeds, sub_time}
use wireguard_go.Constants.{cookie_refresh_time}
use wireguard_go.Crypto.{Crypto, IsSound}
use wireguard_go.Cookie.{
  MessageCookieReply, CookieChecker, CookieGenerator, replied, mac_size, message_cookie_reply_type,
  encrypt_cookie, create_reply, consume_reply,
}

-- What the checker's encryption opens to.
encrypt_cookie-consume_reply :
    (c : Crypto) (st : CookieGenerator) (checker : CookieChecker) (msg src nonce : List ℕ)
    (recv later : ℕ)
    → IsSound c
    → 32 ≤ length msg
    → st.encryption_key ≡ checker.encryption_key
    → st.has_last_mac1 ≡ true
    → st.last_mac1 ≡ slice (length msg - mac_size - mac_size) (length msg - mac_size) msg
    → (reply : MessageCookieReply) × (encrypt_cookie c checker msg recv src (nonce, false)
        ≡ (checker, replied reply))
      × (reply.receiver ≡ recv)
      × (consume_reply c st reply later
          ≡ (record st { cookie_set = later; cookie = c.blake2s_mac checker.secret src }, true))
unfolding encrypt_cookie consume_reply
encrypt_cookie-consume_reply c st checker msg src nonce recv later sound long key has last =
    let mac1 = slice (length msg - mac_size - mac_size) (length msg - mac_size) msg in
    let cookie = c.blake2s_mac checker.secret src in
    let reply : MessageCookieReply = record {
      type = message_cookie_reply_type;
      receiver = recv;
      nonce = nonce;
      cookie = c.xaead_seal checker.encryption_key nonce cookie mac1;
    } in
    (
      reply,
      simp (le→ltb-false (length msg) 32 long) refl,
      refl,
      simp (has, key, last, sound.xopens) refl,
    )

-- A reply that a device creates to a message of a peer opens for the peer that keeps the message's
-- first MAC: the peer then holds the cookie that the device derives from its secret and the
-- message's source, and the secret is not older than CookieRefreshTime, or set in this call. The
-- random source does not fail, and the AEAD opens what it sealed.
pub create_reply-consume_reply :
    (c : Crypto) (st : CookieGenerator) (checker : CookieChecker) (msg src secret nonce : List ℕ)
    (recv now set_at later : ℕ)
    → IsSound c
    → 32 ≤ length msg
    → st.encryption_key ≡ checker.encryption_key
    → st.has_last_mac1 ≡ true
    → st.last_mac1 ≡ slice (length msg - mac_size - mac_size) (length msg - mac_size) msg
    → (checker' : CookieChecker) × (reply : MessageCookieReply) × (create_reply c checker msg recv
          src
          (secret, false)
          (nonce, false)
          now
          set_at
        ≡ (checker', replied reply))
      × (reply.receiver ≡ recv)
      × (consume_reply c st reply later
          ≡ (record st { cookie_set = later; cookie = c.blake2s_mac checker'.secret src }, true))
      × ((checker'.secret_set ≡ set_at)
          ⊎ (exceeds (sub_time now checker'.secret_set) cookie_refresh_time ≡ false))
unfolding create_reply
create_reply-consume_reply c st checker msg src secret nonce recv now set_at later sound long key
      has last =
    elim (Bool-cases (exceeds (sub_time now checker.secret_set) cookie_refresh_time)) [
      | inl old ↦
          let new = record checker { secret = secret; secret_set = set_at } in
          let (reply, made, to, opened) =
            encrypt_cookie-consume_reply c st new msg src nonce recv later sound long key has
              last in
          (new, reply, simp (old, made) refl, to, opened, inl refl)
      | inr fresh ↦
          let (reply, made, to, opened) =
            encrypt_cookie-consume_reply c st checker msg src nonce recv later sound long key has
              last in
          (checker, reply, simp (fresh, made) refl, to, opened, inr fresh)
    ]
