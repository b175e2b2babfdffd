-- ===== src/Sockets/Descriptors.antt =====
-- conn_linux.go keeps no descriptor that it does not return.
pub mod Binds
use wireguard_go.Base.{
  ℕ, ◌≡◌, refl, ap, subst, ◌∙◌, true, false, ◌||◌, Option, none, some, List, ◌∷◌, ◌==◌,
  if◌then◌else◌, Bool, ==_refl, arith,
}
use wireguard_go.System.{
  System, Action, Result, ok, err, IsSystem, Opens, contains, remove, after, ◌>>◌,
}
use wireguard_go.Sockets.{
  sol_socket, so_reuseaddr, ipproto_ip, ip_pktinfo, ipproto_ipv6, ipv6_recvpktinfo, ipv6_v6only,
  NativeBind, Created, with_netlink_sock, closing, or_close, closed_on_error,
  create_netlink_route_socket, set_options4, set_options6, create4, create6, with_sock4, with_sock6,
  create_bind, close_unblock, close,
}

remove_first : (fd : ℕ) (xs : List ℕ) → remove fd (fd ∷ xs) ≡ xs
unfolding remove
remove_first fd xs = ap (λ b. if b then xs else fd ∷ remove fd xs) (==_refl fd)

or-false_left : (a b : Bool) → (a || b) ≡ false → a ≡ false
or-false_left false b h = refl
or-false_left true b h = h

-- A descriptor that is not in a table is not its first one.
fresh-ne : (other fd : ℕ) (xs : List ℕ) → contains (other ∷ xs) fd ≡ false → (fd == other) ≡ false
unfolding contains
fresh-ne other fd xs h =
    let ne = or-false_left (other == fd) (contains xs fd) h in ground (arith, ne)

-- The second of two descriptors, which is another one than the first.
remove_second :
    (fd other : ℕ) (xs : List ℕ) → (other == fd) ≡ false → remove fd (other ∷ fd ∷ xs) ≡ other ∷ xs
unfolding remove
remove_second fd other xs ne =
    ap (λ b. if b then fd ∷ xs else other ∷ remove fd (fd ∷ xs)) ne
    ∙ ap (λ t. other ∷ t) (remove_first fd xs)

module _ {K : Type 0} {s : System K} (sound : IsSystem s) where
  -- A call that leaves the table is followed by another that does.
  then_keeps :
      {A B : Type 0} (before : List ℕ) (first : Result A × K) (next : A → Action K B)
      → s.opened first.1 ≡ before
      → ((a : A) (k : K) → s.opened k ≡ before → s.opened (next a k).1 ≡ before)
      → s.opened (after first next).1 ≡ before
  then_keeps before (ok a, k) next h keeps = keeps a k h
  then_keeps before (err e, k) next h keeps = h

  -- A call that leaves the table, and then an action that does.
  Keeps : Action K (Unit {0}) → Type 0
  Keeps m = (k : K) → s.opened (m k).1 ≡ s.opened k

  Keeps-then : (m n : Action K (Unit {0})) → Keeps m → Keeps n → Keeps (m >> n)
  unfolding Keeps
  Keeps-then m n keeps_m keeps_n k =
      then_keeps (s.opened k) (m k) (λ u. n) (keeps_m k) (λ u k1 h1. keeps_n k1 ∙ h1)

  option-Keeps : (fd level option value : ℕ) → Keeps (s.setsockopt_int fd level option value)
  unfolding Keeps
  option-Keeps fd level option value = sound.setsockopt_keeps fd level option value

  bind_port-Keeps : (fd port : ℕ) → Keeps (s.bind_port fd port)
  unfolding Keeps
  bind_port-Keeps fd port = sound.bind_port_keeps fd port

  option_then :
      (fd level option value : ℕ) (n : Action K (Unit {0}))
      → Keeps n
      → Keeps (s.setsockopt_int fd level option value >> n)
  option_then fd level option value n = Keeps-then _ n (option-Keeps fd level option value)

  set_options4-Keeps : (fd port : ℕ) → Keeps (set_options4 s fd port)
  unfolding set_options4
  set_options4-Keeps fd port =
      option_then fd sol_socket so_reuseaddr 1
        (s.setsockopt_int fd ipproto_ip ip_pktinfo 1 >> s.bind_port fd port)
        (option_then fd ipproto_ip ip_pktinfo 1 (s.bind_port fd port) (bind_port-Keeps fd port))

  set_options6-Keeps : (fd port : ℕ) → Keeps (set_options6 s fd port)
  unfolding set_options6
  set_options6-Keeps fd port =
      let last = s.setsockopt_int fd ipproto_ipv6 ipv6_v6only 1 >> s.bind_port fd port in
      option_then fd sol_socket so_reuseaddr 1
        (s.setsockopt_int fd ipproto_ipv6 ipv6_recvpktinfo 1 >> last)
        (option_then fd ipproto_ipv6 ipv6_recvpktinfo 1 last (
          option_then fd ipproto_ipv6 ipv6_v6only 1 (s.bind_port fd port)
            (bind_port-Keeps fd port)))

  -- A socket whose options are set is open, and else the table is as before.
  unfoldable Opened : List ℕ → ℕ → Result (Unit {0}) × K → Type 0
  Opened before fd (ok u, k) = s.opened k ≡ fd ∷ before
  Opened before fd (err e, k) = s.opened k ≡ before

  pub closing_opened :
      (fd : ℕ) (before : List ℕ) (k : K)
      → s.opened k ≡ fd ∷ before
      → s.opened (closing s fd k) ≡ before
  unfolding closing
  closing_opened fd before k h = sound.close_closes fd k ∙ ap (remove fd) h ∙ remove_first fd before

  closed_on_error-Opened :
      (before : List ℕ) (fd : ℕ) (r : Result (Unit {0}) × K)
      → s.opened r.1 ≡ fd ∷ before
      → Opened before fd (closed_on_error s fd r)
  unfolding Opened closed_on_error
  closed_on_error-Opened before fd (ok u, k) h = h
  closed_on_error-Opened before fd (err e, k) h = closing_opened fd before k h

  -- The outcome of a function that opens a socket and gives it with a port.
  unfoldable OpensOn : ℕ → List ℕ → Result (ℕ × ℕ) × K → Type 0
  OpensOn port before (ok (fd, port'), k) =
      (s.opened k ≡ fd ∷ before) × (contains before fd ≡ false) × (port' ≡ port)
  OpensOn port before (err e, k) = s.opened k ≡ before

  -- The options of a socket that was opened, and the result.
  setup-OpensOn :
      (port fd : ℕ) (before : List ℕ) (set : Result (Unit {0}) × K)
      → contains before fd ≡ false
      → s.opened set.1 ≡ fd ∷ before
      → OpensOn port before (after (closed_on_error s fd set) λ u k. (ok (fd, port), k))
  unfolding OpensOn closed_on_error
  setup-OpensOn port fd before (ok u, k) fresh h = (h, fresh, refl)
  setup-OpensOn port fd before (err e, k) fresh h = closing_opened fd before k h

  create-OpensOn :
      (port : ℕ) (k : K) (setup : ℕ → Action K (Unit {0})) (socket : Result ℕ × K)
      → ((fd : ℕ) → Keeps (setup fd))
      → Opens (s.opened k) (s.opened socket.1) socket.0
      → OpensOn port (s.opened k) (
          after socket
            λ fd k'. after (closed_on_error s fd (setup fd k')) λ u k''. (ok (fd, port), k''))
  unfolding OpensOn Opens Keeps
  create-OpensOn port k setup (ok fd, k') keeps (opened_, fresh) =
      setup-OpensOn port fd (s.opened k) (setup fd k') fresh (keeps fd k' ∙ opened_)
  create-OpensOn port k setup (err e, k') keeps h = h

  create4-OpensOn : (port : ℕ) (k : K) → OpensOn port (s.opened k) (create4 s port k)
  unfolding create4 or_close
  create4-OpensOn port k =
      create-OpensOn port k (λ fd. set_options4 s fd port) _ (λ fd. set_options4-Keeps fd port)
        (sound.socket_opens _ _ _ k)

  create6-OpensOn : (port : ℕ) (k : K) → OpensOn port (s.opened k) (create6 s port k)
  unfolding create6 or_close
  create6-OpensOn port k =
      create-OpensOn port k (λ fd. set_options6 s fd port) _ (λ fd. set_options6-Keeps fd port)
        (sound.socket_opens _ _ _ k)

  -- The same for the netlink socket, which has no port.
  unfoldable OpensOne : List ℕ → Result ℕ × K → Type 0
  OpensOne before (ok fd, k) = (s.opened k ≡ fd ∷ before) × (contains before fd ≡ false)
  OpensOne before (err e, k) = s.opened k ≡ before

  setup-OpensOne :
      (fd : ℕ) (before : List ℕ) (set : Result (Unit {0}) × K)
      → contains before fd ≡ false
      → s.opened set.1 ≡ fd ∷ before
      → OpensOne before (after (closed_on_error s fd set) λ u k. (ok fd, k))
  unfolding OpensOne closed_on_error
  setup-OpensOne fd before (ok u, k) fresh h = (h, fresh)
  setup-OpensOne fd before (err e, k) fresh h = closing_opened fd before k h

  netlink-OpensOne :
      (k : K) (socket : Result ℕ × K)
      → Opens (s.opened k) (s.opened socket.1) socket.0
      → OpensOne (s.opened k) (
          after socket
            λ fd k'. after (closed_on_error s fd (s.bind_netlink fd 64 k')) λ u k''. (ok fd, k''))
  unfolding OpensOne Opens
  netlink-OpensOne k (ok fd, k') (opened_, fresh) =
      setup-OpensOne fd (s.opened k) (s.bind_netlink fd 64 k') fresh
        (sound.bind_netlink_keeps fd 64 k' ∙ opened_)
  netlink-OpensOne k (err e, k') h = h

  create_netlink-OpensOne : (k : K) → OpensOne (s.opened k) (create_netlink_route_socket s k)
  unfolding create_netlink_route_socket or_close
  create_netlink-OpensOne k = netlink-OpensOne k _ (sound.socket_opens _ _ _ k)
