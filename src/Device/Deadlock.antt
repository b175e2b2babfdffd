-- ===== src/Device/Deadlock.antt =====
-- SetPrivateKey, where a peer has the public key of the new private key.
use wireguard_go.Base.{
  ℕ, ◌≤◌, ◌<◌, ◌≡◌, refl, true, false, none, some, List, [], ◌∷◌, ◌==◌, Bool-cases, inl, inr, ◌⊎◌,
  subst, sym, arith,
}
use wireguard_go.Keys.{equals}
use wireguard_go.Crypto.{Crypto, public_key}
use wireguard_go.Device.{Device, Peer}
use wireguard_go.Device.Peers.{stop, unsafe_remove_peer}
use wireguard_go.Device.Configure.{
  ReadLocks, no_locks, rlock, rlock_each, lock, stop_holding, remove_holding, remove_matching,
  set_private_key,
}

-- One of the peers has the key and is running.
abbrev pub HasRunning : List ℕ → List (List ℕ × ℕ) → (ℕ → Peer) → Type 0
HasRunning pk [] peers = ⊥
HasRunning pk ((key, number) ∷ entries) peers =
    (((peers number).is_running ≡ true) × (equals (peers number).handshake.remote_static pk ≡ true))
    ⊎ HasRunning pk entries peers

-- The goroutine reads the handshake of every peer of the list.
abbrev AllHeld : List (List ℕ × ℕ) → ReadLocks → Type 0
AllHeld [] held = Unit {0}
AllHeld ((key, number) ∷ entries) held = (0 < held number) × AllHeld entries held

rlock-le : (number n : ℕ) (held : ReadLocks) → held n ≤ rlock number held n
unfolding rlock
rlock-le number n held = ground arith

rlock_pos : (number : ℕ) (held : ReadLocks) → 0 < rlock number held number
unfolding rlock
rlock_pos number held = ground arith

rlock_each-le :
    (entries : List (List ℕ × ℕ)) (n : ℕ) (held : ReadLocks) → held n ≤ rlock_each entries held n
unfolding rlock_each
rlock_each-le [] n held = omega arith
rlock_each-le ((key, number) ∷ entries) n held =
    omega (arith, rlock-le number n held, rlock_each-le entries n (rlock number held))

rlock_each-AllHeld :
    (entries : List (List ℕ × ℕ)) (held : ReadLocks) → AllHeld entries (rlock_each entries held)
unfolding rlock_each
rlock_each-AllHeld [] held = tt
rlock_each-AllHeld ((key, number) ∷ entries) held = (
  omega (arith, rlock_pos number held, rlock_each-le entries number (rlock number held)),
  rlock_each-AllHeld entries (rlock number held),
)

rests-peers :
    (number : ℕ) (key : List ℕ) (d : Device)
    → (d.peers number).is_running ≡ false
    → (unsafe_remove_peer number key d).peers ≡ d.peers
unfolding unsafe_remove_peer stop
rests-peers number key d rests = simp rests refl

lock_blocks : (held : ReadLocks) (number : ℕ) → 0 < held number → lock held number ≡ none
unfolding lock
lock_blocks held number h = let read : (held number == 0) ≡ false = ground arith in simp read refl

remove_holding_runs :
    (held : ReadLocks) (number : ℕ) (key : List ℕ) (d : Device)
    → 0 < held number
    → (d.peers number).is_running ≡ true
    → remove_holding held number key d ≡ none
unfolding remove_holding stop_holding
remove_holding_runs held number key d read runs = simp (runs, lock_blocks held number read) refl

remove_holding_rests :
    (held : ReadLocks) (number : ℕ) (key : List ℕ) (d : Device)
    → (d.peers number).is_running ≡ false
    → remove_holding held number key d ≡ some (unsafe_remove_peer number key d)
unfolding remove_holding stop_holding unsafe_remove_peer stop
remove_holding_rests held number key d rests = simp rests refl

-- A goroutine without read locks is never held up: this is the unsafeRemovePeer of the other callers.
remove_holding-no_locks :
    (number : ℕ) (key : List ℕ) (d : Device)
    → remove_holding no_locks number key d ≡ some (unsafe_remove_peer number key d)
unfolding remove_holding stop_holding lock unsafe_remove_peer stop
remove_holding-no_locks number key d = elim (Bool-cases (d.peers number).is_running) [
  | inl runs ↦ simp runs refl
  | inr rests ↦ simp rests refl
]

remove_matching_blocks :
    (held : ReadLocks) (pk : List ℕ) (entries : List (List ℕ × ℕ)) (d : Device)
    → AllHeld entries held
    → HasRunning pk entries d.peers
    → remove_matching held pk entries d ≡ none
unfolding remove_matching
remove_matching_blocks held pk [] d all h = absurd h
remove_matching_blocks held pk ((key, number) ∷ entries) d (read, all) (inl (runs, has)) =
    simp (has, remove_holding_runs held number key d read runs) refl
remove_matching_blocks held pk ((key, number) ∷ entries) d (read, all) (inr h) =
    elim (Bool-cases (equals (d.peers number).handshake.remote_static pk)) [
      | inr other ↦ simp other (remove_matching_blocks held pk entries d all h)
      | inl has ↦ elim (Bool-cases (d.peers number).is_running) [
        | inl runs ↦ simp (has, remove_holding_runs held number key d read runs) refl
        | inr rests ↦
            let h' = subst (HasRunning pk entries) (sym (rests-peers number key d rests)) h in
            simp (has, remove_holding_rests held number key d rests)
              (remove_matching_blocks held pk entries (unsafe_remove_peer number key d) all h')
      ]
    ]

-- SetPrivateKey blocks for ever if a running peer has the public key of the new private key: it then
-- stops that peer, which takes the write lock of the peer's handshake, while it holds the read lock.
pub set_private_key_blocks :
    (c : Crypto) (sk : List ℕ) (d : Device)
    → HasRunning (public_key c sk) d.key_map d.peers
    → set_private_key c sk d ≡ none
unfolding set_private_key
set_private_key_blocks c sk d h =
    simp
      (remove_matching_blocks (rlock_each d.key_map no_locks) (public_key c sk) d.key_map d
        (rlock_each-AllHeld d.key_map no_locks) h)
      refl
