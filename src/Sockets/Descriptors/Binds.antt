-- ===== src/Sockets/Descriptors/Binds.antt =====
-- The sockets of a bind, from CreateBind to Close.
use wireguard_go.Base.{ℕ, ◌≡◌, ap, subst, ◌∙◌, true, false, Option, none, some, List, ◌∷◌, ◌==◌}
use wireguard_go.System.{System, Result, ok, err, IsSystem, contains, remove, after}
use wireguard_go.Sockets.{
  NativeBind, Created, with_netlink_sock, closing, create_netlink_route_socket, create4, create6,
  with_sock4, with_sock6, create_bind, close_unblock, close,
}
use wireguard_go.Sockets.Descriptors.{
  remove_first, remove_second, fresh-ne, OpensOn, OpensOne, create4-OpensOn, create6-OpensOn,
  create_netlink-OpensOne, closing_opened,
}

-- By the bind and the error: the port and the table of descriptors.
unfoldable pub Leaves : ℕ → List ℕ → Option NativeBind → Option ℕ → ℕ → List ℕ → Type 0
Leaves port before bind (some e) port' after = after ≡ before
Leaves port before none none port' after = false ≡ true
Leaves port before (some b) none port' after =
    (port' ≡ port)
    × (contains (b.sock6 ∷ b.netlink_sock ∷ before) b.sock4 ≡ false)
    × (contains (b.netlink_sock ∷ before) b.sock6 ≡ false)
    × (after ≡ b.sock4 ∷ b.sock6 ∷ b.netlink_sock ∷ before)

module _ {K : Type 0} {s : System K} (sound : IsSystem s) where
  abbrev LeavesBy : ℕ → List ℕ → Created × K → Type 0
  LeavesBy port before (c, k) = Leaves port before c.bind c.error c.port (s.opened k)

  with_sock4-LeavesBy :
      (port netlink_sock sock6 : ℕ) (before : List ℕ) (r : Result (ℕ × ℕ) × K)
      → contains (netlink_sock ∷ before) sock6 ≡ false
      → OpensOn sound port (sock6 ∷ netlink_sock ∷ before) r
      → LeavesBy port before (with_sock4 s netlink_sock sock6 r)
  unfolding Leaves with_sock4 OpensOn closing
  with_sock4-LeavesBy port nl sock6 before (ok (sock4, port'), k) fresh6 (opened_, fresh4, same) =
      (same, fresh4, fresh6, opened_)
  with_sock4-LeavesBy port nl sock6 before (err e, k) fresh6 h =
      let first =
        sound.close_closes nl k
        ∙ ap (remove nl) h
        ∙ remove_second nl sock6 before (fresh-ne nl sock6 before fresh6) in
      closing_opened sound sock6 before _ first

  with_sock6-LeavesBy :
      (port netlink_sock : ℕ) (before : List ℕ) (r : Result (ℕ × ℕ) × K)
      → OpensOn sound port (netlink_sock ∷ before) r
      → LeavesBy port before (with_sock6 s netlink_sock r)
  unfolding Leaves with_sock6 OpensOn
  with_sock6-LeavesBy port nl before (ok (sock6, port'), k) (opened_, fresh, same) =
      with_sock4-LeavesBy port nl sock6 before (create4 s port' k) fresh (
        subst (λ p. OpensOn sound p (sock6 ∷ nl ∷ before) (create4 s port' k)) same
          (subst (λ l. OpensOn sound port' l (create4 s port' k)) opened_
            (create4-OpensOn sound port' k)))
  with_sock6-LeavesBy port nl before (err e, k) h = closing_opened sound nl before k h

  with_netlink_sock-LeavesBy :
      (port : ℕ) (before : List ℕ) (r : Result ℕ × K)
      → OpensOne sound before r
      → LeavesBy port before (with_netlink_sock s port r)
  unfolding Leaves with_netlink_sock OpensOne
  with_netlink_sock-LeavesBy port before (ok nl, k) (opened_, fresh) =
      with_sock6-LeavesBy port nl before (create6 s port k) (
        subst (λ l. OpensOn sound port l (create6 s port k)) opened_ (create6-OpensOn sound port k))
  with_netlink_sock-LeavesBy port before (err e, k) h = h

  -- CreateBind gives a bind or an error. After an error the table of descriptors is as before, whatever
  -- call failed; a bind has three more descriptors, different ones, and the port is the one asked for.
  pub create_bind-Leaves :
      (port : ℕ) (k : K)
      → Leaves port
          (s.opened k)
          (create_bind s port k).0.bind
          (create_bind s port k).0.error
          (create_bind s port k).0.port
          (s.opened (create_bind s port k).1)
  unfolding create_bind
  create_bind-Leaves port k =
      with_netlink_sock-LeavesBy port (s.opened k) (create_netlink_route_socket s k)
        (create_netlink-OpensOne sound k)

  close_unblock_closes :
      (fd : ℕ) (k : K) → s.opened (close_unblock s fd k).1 ≡ remove fd (s.opened k)
  unfolding close_unblock
  close_unblock_closes fd k = sound.close_closes fd _ ∙ ap (remove fd) (sound.shutdown_keeps fd k)

  close_closes :
      (b : NativeBind) (before : List ℕ) (k : K)
      → (b.sock4 == b.sock6) ≡ false
      → s.opened k ≡ b.sock4 ∷ b.sock6 ∷ b.netlink_sock ∷ before
      → s.opened (close s b k).1 ≡ before
  unfolding close
  close_closes b before k ne h =
      let k1 = (close_unblock s b.sock6 k).1 in
      let k2 = (close_unblock s b.sock4 k1).1 in
      let h1 =
        close_unblock_closes b.sock6 k
        ∙ ap (remove b.sock6) h
        ∙ remove_second b.sock6 b.sock4 (b.netlink_sock ∷ before) ne in
      let h2 =
        close_unblock_closes b.sock4 k1
        ∙ ap (remove b.sock4) h1
        ∙ remove_first b.sock4 (b.netlink_sock ∷ before) in
      close_unblock_closes b.netlink_sock k2
      ∙ ap (remove b.netlink_sock) h2
      ∙ remove_first b.netlink_sock before

  Leaves-bind :
      (port : ℕ) (k : K) (b : NativeBind)
      → (create_bind s port k).0.bind ≡ some b
      → (create_bind s port k).0.error ≡ none
      → Leaves port
          (s.opened k)
          (some b)
          none
          (create_bind s port k).0.port
          (s.opened (create_bind s port k).1)
  Leaves-bind port k b is_bind no_error =
      subst
        (λ o.
          Leaves port (s.opened k) o none (create_bind s port k).0.port
            (s.opened (create_bind s port k).1))
        is_bind
        (subst
          (λ o.
            Leaves port (s.opened k) (create_bind s port k).0.bind o (create_bind s port k).0.port
              (s.opened (create_bind s port k).1))
          no_error (create_bind-Leaves port k))

  -- Closing a bind that CreateBind gave without an error closes the descriptors that CreateBind opened,
  -- and no other, whatever the calls that close them answer.
  pub close-create_bind :
      (port : ℕ) (k : K) (b : NativeBind)
      → (create_bind s port k).0.bind ≡ some b
      → (create_bind s port k).0.error ≡ none
      → s.opened (close s b (create_bind s port k).1).1 ≡ s.opened k
  unfolding Leaves
  close-create_bind port k b is_bind no_error =
      let (same, fresh4, fresh6, opened_) = Leaves-bind port k b is_bind no_error in
      close_closes b (s.opened k) _ (fresh-ne b.sock6 b.sock4 _ fresh4) opened_
