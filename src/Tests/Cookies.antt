-- ===== src/Tests/Cookies.antt =====
-- A message, its MACs and a cookie, by a toy cryptography.
use wireguard_go.Base.{ℕ, ◌≡◌, ◌⊎◌, refl, true, false, some, List, [], ◌∷◌, replicate, arith}
use wireguard_go.Base.Clock.{exceeds, sub_time}
use wireguard_go.Constants.{cookie_refresh_time}
use wireguard_go.Cookie.{
  CookieChecker, CookieGenerator, MessageCookieReply, replied, add_macs, check_mac2, create_reply,
  consume_reply,
}
use wireguard_go.Cookie.Macs.{IsMacSized, check_mac2-add_macs}
use wireguard_go.Cookie.Reply.{create_reply-consume_reply}
use wireguard_go.Tests.Handshakes.{toy, toy-IsSound}

toy_sized : IsMacSized toy
toy_sized key text = refl

abbrev checker : CookieChecker
checker = record { mac1_key = 1 ∷ []; secret = 2 ∷ []; secret_set = 1_000; encryption_key = 3 ∷ [] }

abbrev source : List ℕ
source = 192 ∷ 0 ∷ 2 ∷ 1 ∷ []

abbrev message : List ℕ
message = replicate 40 7

abbrev generator : CookieGenerator
generator = record {
  mac1_key = 1 ∷ [];
  cookie = toy.blake2s_mac checker.secret source;
  cookie_set = 2_000;
  has_last_mac1 = true;
  last_mac1 = replicate 16 7;
  encryption_key = 3 ∷ [];
}

check_mac2-add_macs_example :
    (msg' : List ℕ) × (st' : CookieGenerator) × (add_macs toy generator message 3_000
      ≡ some (msg', st'))
    × (check_mac2 toy checker msg' source 4_000 ≡ some true)
check_mac2-add_macs_example =
    check_mac2-add_macs toy generator checker message source 3_000 4_000 toy_sized (omega arith)
      refl refl refl

create_reply-consume_reply_example :
    (checker' : CookieChecker) × (reply : MessageCookieReply) × (create_reply toy checker message 8
        source
        (5 ∷ [], false)
        (6 ∷ [], false)
        3_000
        3_100
      ≡ (checker', replied reply))
    × (reply.receiver ≡ 8)
    × (consume_reply toy generator reply 3_200 ≡ (
      record generator { cookie_set = 3_200; cookie = toy.blake2s_mac checker'.secret source },
      true,
    ))
    × ((checker'.secret_set ≡ 3_100)
        ⊎ (exceeds (sub_time 3_000 checker'.secret_set) cookie_refresh_time ≡ false))
create_reply-consume_reply_example =
    create_reply-consume_reply toy generator checker message source (5 ∷ []) (6 ∷ []) 8 3_000 3_100
      3_200 toy-IsSound (omega arith) refl refl refl
