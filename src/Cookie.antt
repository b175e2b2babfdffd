-- ===== src/Cookie.antt =====
-- cookie.go: the two MACs of handshake messages and the cookies for a device under load. Each
-- operation runs under its mutex; the halves of CreateReply are taken together. A message too short
-- for its MACs is a panic of the slice expressions, `none`. The last argument `now` is the clock.
pub mod Macs
pub mod Reply
use wireguard_go.Base.{
  ℕ, ◌-◌, ◌+◌, Bool, true, false, Option, none, some, List, [], ◌++◌, length, take, drop, slice,
  replicate, ltb, bytes_eq, if◌then◌else◌,
}
use wireguard_go.Base.Clock.{exceeds, sub_time}
use wireguard_go.Base.Text.{codes}
use wireguard_go.Constants.{cookie_refresh_time}
use wireguard_go.Crypto.{Crypto}

-- blake2s.Size128
abbrev pub mac_size : ℕ
mac_size = 16

abbrev pub message_cookie_reply_type : ℕ
message_cookie_reply_type = 3

pub record MessageCookieReply : Type 0 where
  pub type : ℕ
  pub receiver : ℕ
  pub nonce : List ℕ
  pub cookie : List ℕ

pub record CookieChecker : Type 0 where
  pub mac1_key : List ℕ
  pub secret : List ℕ
  pub secret_set : ℕ
  pub encryption_key : List ℕ

pub record CookieGenerator : Type 0 where
  pub mac1_key : List ℕ
  pub cookie : List ℕ
  pub cookie_set : ℕ
  pub has_last_mac1 : Bool
  pub last_mac1 : List ℕ
  pub encryption_key : List ℕ

-- The result of CreateReply beside the checker it leaves.
pub data Replied : Type 0 where
  replied : MessageCookieReply → Replied
  no_randomness : Replied
  panic : Replied

module _ (c : Crypto) where
  unfoldable pub mac1_key_of : List ℕ → List ℕ
  mac1_key_of pk = c.blake2s (codes "mac1----" ++ pk)

  unfoldable pub cookie_key_of : List ℕ → List ℕ
  cookie_key_of pk = c.blake2s (codes "cookie--" ++ pk)

  unfoldable pub init_checker : CookieChecker → List ℕ → CookieChecker
  unfolding mac1_key_of cookie_key_of
  init_checker st pk = record st {
    mac1_key = mac1_key_of pk;
    encryption_key = cookie_key_of pk;
    secret_set = 0;
  }

  unfoldable pub check_mac1 : CookieChecker → List ℕ → Option Bool
  check_mac1 st msg =
      let smac2 = length msg - mac_size in
      let smac1 = smac2 - mac_size in
      let mac1 = c.blake2s_mac st.mac1_key (take smac1 msg) in
      if ltb (length msg) (mac_size + mac_size)
      then none
      else some (bytes_eq mac1 (slice smac1 smac2 msg))

  unfoldable pub check_mac2 : CookieChecker → List ℕ → List ℕ → ℕ → Option Bool
  check_mac2 st msg src now =
      let cookie = c.blake2s_mac st.secret src in
      let smac2 = length msg - mac_size in
      let mac2 = c.blake2s_mac cookie (take smac2 msg) in
      if exceeds (sub_time now st.secret_set) cookie_refresh_time
      then some false
      else if ltb (length msg) mac_size
      then none
      else some (bytes_eq mac2 (drop smac2 msg))

  -- The part of CreateReply after the secret is fresh, with what rand.Read leaves in the nonce.
  unfoldable pub encrypt_cookie :
      CookieChecker → List ℕ → ℕ → List ℕ → List ℕ × Bool → CookieChecker × Replied
  encrypt_cookie st msg recv src (nonce, failed) =
      let cookie = c.blake2s_mac st.secret src in
      let smac2 = length msg - mac_size in
      let smac1 = smac2 - mac_size in
      let sealed = c.xaead_seal st.encryption_key nonce cookie (slice smac1 smac2 msg) in
      if failed
      then (st, no_randomness)
      else if ltb (length msg) (mac_size + mac_size)
      then (st, panic)
      else (
        st,
        replied (record {
          type = message_cookie_reply_type;
          receiver = recv;
          nonce = nonce;
          cookie = sealed;
        }),
      )

  -- `rand` is what rand.Read leaves in the secret, and whether it failed; `later` is the clock when
  -- the secret is set.
  unfoldable pub create_reply :
      CookieChecker
      → List ℕ
      → ℕ
      → List ℕ
      → List ℕ × Bool
      → List ℕ × Bool
      → ℕ
      → ℕ
      → CookieChecker × Replied
  unfolding encrypt_cookie
  create_reply st msg recv src (secret, failed) rand' now later =
      if exceeds (sub_time now st.secret_set) cookie_refresh_time
      then (if failed
          then (record st { secret = secret }, no_randomness)
          else encrypt_cookie (record st { secret = secret; secret_set = later }) msg recv src
              rand')
      else encrypt_cookie st msg recv src rand'

  unfoldable pub init_generator : CookieGenerator → List ℕ → CookieGenerator
  unfolding mac1_key_of cookie_key_of
  init_generator st pk = record st {
    mac1_key = mac1_key_of pk;
    encryption_key = cookie_key_of pk;
    cookie_set = 0;
  }

  unfoldable pub consume_reply : CookieGenerator → MessageCookieReply → ℕ → CookieGenerator × Bool
  consume_reply st msg now =
      if st.has_last_mac1
      then (elim (c.xaead_open st.encryption_key msg.nonce msg.cookie st.last_mac1) [
        | none ↦ (st, false)
        | some cookie ↦ (record st { cookie_set = now; cookie = cookie }, true)
      ])
      else (st, false)

  -- The message with its MACs, and the generator.
  unfoldable pub add_macs : CookieGenerator → List ℕ → ℕ → Option (List ℕ × CookieGenerator)
  add_macs st msg now =
      let smac2 = length msg - mac_size in
      let smac1 = smac2 - mac_size in
      let body = take smac1 msg in
      let mac1 = c.blake2s_mac st.mac1_key body in
      let st' = record st { last_mac1 = mac1; has_last_mac1 = true } in
      let mac2 = c.blake2s_mac st.cookie (body ++ mac1) in
      if ltb (length msg) (mac_size + mac_size)
      then none
      else if exceeds (sub_time now st.cookie_set) cookie_refresh_time
      then some (body ++ mac1 ++ drop smac2 msg, st')
      else some (body ++ mac1 ++ mac2, st')
