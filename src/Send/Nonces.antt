-- ===== src/Send/Nonces.antt =====
-- The nonces that RoutineNonce gives to packets, over any run of the peers' goroutines.
use wireguard_go.Base.{
  ℕ, ◌+◌, ◌≤◌, ◌<◌, ◌%◌, ◌^◌, ◌≡◌, refl, sym, ap, ◌∙◌, inl, inr, Bool, true, false, Option, none,
  some, List, [], ◌∷◌, Bool-cases, ltb, leb, ltb→lt, ==_refl, ◌==◌, arith, subst, if◌then◌else◌,
  ◌&&◌,
}
use wireguard_go.Base.Do.{bind-some}
use wireguard_go.Constants.{reject_after_messages}
use wireguard_go.Crypto.{Crypto}
use wireguard_go.Keypair.{Heap, store}
use wireguard_go.Queue.{add_to_encryption_queue, add_to_outbound_queue}
use wireguard_go.Traffic.{Traffic, peer_of}
use wireguard_go.Send.{
  Draws, usable, usable_keypair, next_nonce, add_work, take_nonce, fill, populate, passed, outcome,
  use_keypair, wait_for_keypair,
}

outcome-passed : (o : Option Traffic) (w : Traffic) → outcome passed o ≡ passed w → o ≡ some w
unfolding outcome
outcome-passed none w h = cc
outcome-passed (some v) w h = cc

abbrev from_some : Traffic → Option Traffic → Traffic
from_some w none = w
from_some w (some v) = v

add_work_keeps :
    (number element : ℕ) (w w' : Traffic)
    → add_work number element w ≡ some w'
    → (w'.device.heap ≡ w.device.heap) × (w'.outbound ≡ w.outbound)
unfolding add_work
add_work_keeps number element w w' h =
    let ((encryption, flags), added, h1) =
      bind-some (add_to_encryption_queue w.encryption_queue element w.outbound_flags) _ w' h in
    let ((queue, flags'), added', h2) =
      bind-some (add_to_outbound_queue (peer_of w number).outbound_queue element flags) _ w' h1 in
    (ap (λ o. (from_some w o).device.heap) (sym h2), ap (λ o. (from_some w o).outbound) (sym h2))

if_else {ℓ} :
    {A : Type ℓ} {b : Bool} {y z : A} (x : A) → b ≡ false → (if b then x else y) ≡ z → y ≡ z
if_else {y = y} x e h = ap (λ c. if c then x else y) (sym e) ∙ h

if_some : (b : Bool) (k key : ℕ) → (if b then some k else none) ≡ some key → (b ≡ true) × (k ≡ key)
if_some true k key h = (refl, cc)
if_some false k key h = absurd cc

both_true : (a b : Bool) → (a && b) ≡ true → a ≡ true
both_true true b h = refl
both_true false b h = h

usable_below :
    (heap : Heap) (current : Option ℕ) (now key : ℕ)
    → usable heap current now ≡ some key
    → (heap key).send_nonce < reject_after_messages
unfolding usable
usable_below heap none now key h = absurd cc
usable_below heap (some k) now key h =
    let (both, same) = if_some _ k key h in
    let below = both_true (ltb (heap k).send_nonce reject_after_messages) _ both in
    subst (λ x. (heap x).send_nonce < reject_after_messages) same
      (ltb→lt (heap k).send_nonce reject_after_messages below)

-- What "populate work element" does under the nonce of a usable key pair.
populate_issues :
    (number element key : ℕ) (w w' : Traffic)
    → (w.device.heap key).send_nonce < reject_after_messages
    → populate number element key w ≡ some w'
    → ((w'.outbound element).nonce ≡ (w.device.heap key).send_nonce)
      × ((w'.outbound element).key_pair ≡ some key)
      × ((k : ℕ)
          → (w'.device.heap k).send_nonce ≡ (
              if k == key
              then (w.device.heap key).send_nonce + 1
              else (w.device.heap k).send_nonce))
unfolding populate take_nonce fill next_nonce store
populate_issues number element key w w' below h =
    let n = (w.device.heap key).send_nonce in
    let taken = (take_nonce number key w).1 in
    let early : leb reject_after_messages n ≡ false = ground arith in
    let (heap, out) =
      add_work_keeps number element (fill number element key n taken) w'
        (if_else (some taken) early h) in
    let wraps : (n + 1) % 2 ^ 64 ≡ n + 1 = ground arith in
    (
      ap (λ o. (o element).nonce) out ∙ simp (==_refl element) refl,
      ap (λ o. (o element).key_pair) out ∙ simp (==_refl element) refl,
      λ k. ap (λ t. (t k).send_nonce) heap ∙ elim (Bool-cases (k == key)) [
        | inl same ↦ simp (same, wraps) refl
        | inr other ↦ simp other refl
      ],
    )

-- The nonces that have been given out, with their key pairs, the latest first.
abbrev pub Issued : Type 0
Issued = List (ℕ × ℕ)

-- A run: a nonce worker passes an element on, and the others do anything that does not lower the
-- counter of a key pair.
pub data Run (c : Crypto) : Issued → Traffic → Type 0 where
  start : (w : Traffic) → Run c [] w
  others :
      (log : Issued) (w w' : Traffic)
      → Run c log w
      → ((key : ℕ) → (w.device.heap key).send_nonce ≤ (w'.device.heap key).send_nonce)
      → Run c log w'
  pass :
      (log : Issued) (number element key : ℕ) (draws : Draws) (ok : Bool) (w w' : Traffic)
      → Run c log w
      → usable_keypair w number draws.now ≡ some key
      → wait_for_keypair c number element draws ok w ≡ passed w'
      → Run c ((key, (w'.outbound element).nonce) ∷ log) w'

-- All nonces of the list under the key pair are below the bound.
abbrev pub AllBelow : ℕ → ℕ → Issued → Type 0
AllBelow key bound [] = Unit {0}
AllBelow key bound ((k, n) ∷ log) = (k ≡ key → n < bound) × AllBelow key bound log

-- Under its key pair each nonce is above all that were given out before, and below the limit.
abbrev pub Increases : Issued → Type 0
Increases [] = Unit {0}
Increases ((key, nonce) ∷ log) =
    AllBelow key nonce log × (nonce < reject_after_messages) × Increases log

AllBelow-le : (key m n : ℕ) (log : Issued) → m ≤ n → AllBelow key m log → AllBelow key n log
AllBelow-le key m n [] le h = tt
AllBelow-le key m n ((k, x) ∷ log) le (h, t) =
    (λ e. let lt = h e in omega arith, AllBelow-le key m n log le t)

AllBelow-same : (key m n : ℕ) (log : Issued) → m ≡ n → AllBelow key m log → AllBelow key n log
AllBelow-same key m n log e h = subst (λ x. AllBelow key x log) e h

wait_for_keypair_issues :
    (c : Crypto) (number element key : ℕ) (draws : Draws) (ok : Bool) (w w' : Traffic)
    → usable_keypair w number draws.now ≡ some key
    → wait_for_keypair c number element draws ok w ≡ passed w'
    → populate number element key w ≡ some w'
unfolding wait_for_keypair use_keypair
wait_for_keypair_issues c number element key draws ok w w' usable_ h =
    outcome-passed (populate number element key w) w'
      (ap (λ k. use_keypair c k number element draws ok w) (sym usable_) ∙ h)

==_of : (a b : ℕ) → a ≡ b → (b == a) ≡ true
==_of a b e = ground arith

counts_up : (k key n a b : ℕ) → (k ≡ key → a ≡ n) → b ≡ (if k == key then n + 1 else a) → a ≤ b
counts_up k key n a b h e = ground arith

run-Increases :
    (c : Crypto) (log : Issued) (w : Traffic)
    → Run c log w
    → Increases log × ((key : ℕ) → AllBelow key (w.device.heap key).send_nonce log)
unfolding usable_keypair
run-Increases c _ _ (start w) = (tt, λ key. tt)
run-Increases c _ _ (others log w w' run grows) =
    let (inc, below) = run-Increases c log w run in
    (
      inc,
      λ key.
          AllBelow-le key (w.device.heap key).send_nonce (w'.device.heap key).send_nonce log
            (grows key) (below key),
    )
run-Increases c _ _ (pass log number element key draws ok w w' run usable_ passed_) =
    let (inc, below) = run-Increases c log w run in
    let limit =
      usable_below w.device.heap (peer_of w number).keypairs.current draws.now key usable_ in
    let (nonce, key_, counts) =
      populate_issues number element key w w' limit
        (wait_for_keypair_issues c number element key draws ok w w' usable_ passed_) in
    let n = (w.device.heap key).send_nonce in
    (
      (
        AllBelow-same key n (w'.outbound element).nonce log (sym nonce) (below key),
        ground arith,
        inc,
      ),
      λ k. (
        λ e. let counted = counts k in let same = ==_of key k e in ground arith,
        AllBelow-le k (w.device.heap k).send_nonce (w'.device.heap k).send_nonce log
            (counts_up k key n (w.device.heap k).send_nonce (w'.device.heap k).send_nonce
              (λ e. ap (λ x. (w.device.heap x).send_nonce) e) (counts k))
            (below k),
      ),
    )

-- In every run, the nonces that RoutineNonce gives to packets under one key pair strictly increase,
-- so that none is given out twice, and all are below RejectAfterMessages. The other goroutines are
-- taken not to lower the counter of a key pair.
pub nonces-Increases : (c : Crypto) (log : Issued) (w : Traffic) → Run c log w → Increases log
nonces-Increases c log w run = (run-Increases c log w run).0
