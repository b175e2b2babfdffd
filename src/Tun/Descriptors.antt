-- ===== src/Tun/Descriptors.antt =====
-- The calls of tun_linux.go about an interface close the socket that they make.
use wireguard_go.Base.{ℕ, ◌≡◌, refl, ◌∙◌, List}
use wireguard_go.System.{System, IsSystem, Action, Result, ok, err, after, Opens}
use wireguard_go.Sockets.{closing}
use wireguard_go.Sockets.Descriptors.{closing_opened}
use wireguard_go.Tun.Calls.{Request, get_dummy_sock, on_socket, get_if_index, set_mtu, mtu}

module _ {K : Type 0} {s : System K} (sound : IsSystem s)
    (ioctl : Request → ℕ → List ℕ → Action K (List ℕ))
    (ioctl_keeps : (req : Request) (fd : ℕ) (ifr : List ℕ) (k : K)
      → s.opened (ioctl req fd ifr k).1 ≡ s.opened k) where
  opened_and_closed :
      (req : Request) (ifr before : List ℕ) (socket : Result ℕ × K)
      → Opens before (s.opened socket.1) socket.0
      → s.opened
          (after {B = List ℕ} socket
            λ fd k'. ((ioctl req fd ifr k').0, closing s fd (ioctl req fd ifr k').1)).1
        ≡ before
  unfolding Opens
  opened_and_closed req ifr before (ok fd, k) (opened_, fresh) =
      closing_opened sound fd before (ioctl req fd ifr k).1 (ioctl_keeps req fd ifr k ∙ opened_)
  opened_and_closed req ifr before (err e, k) h = h

  on_socket_keeps :
      (req : Request) (ifr : List ℕ) (k : K) → s.opened (on_socket s ioctl req ifr k).1 ≡ s.opened k
  unfolding on_socket get_dummy_sock
  on_socket_keeps req ifr k = opened_and_closed req ifr (s.opened k) _ (sound.socket_opens _ _ _ k)

  -- A function of the answer.
  answer_keeps :
      {A B : Type 0} (first : Result A × K) (f : A → B)
      → s.opened (after {B = B} first λ a k'. (ok (f a), k')).1 ≡ s.opened first.1
  answer_keeps (ok a, k) f = refl
  answer_keeps (err e, k) f = refl

  -- Asking for the index of an interface, setting its MTU and asking for it leave the table of
  -- descriptors as it was, whatever call fails, if ioctl does.
  pub interface_calls_keep :
      (name : List ℕ) (n : ℕ) (k : K)
      → (s.opened (get_if_index s ioctl name k).1 ≡ s.opened k)
        × (s.opened (set_mtu s ioctl name n k).1 ≡ s.opened k)
        × (s.opened (mtu s ioctl name k).1 ≡ s.opened k)
  unfolding get_if_index set_mtu mtu
  interface_calls_keep name n k = (
    answer_keeps _ _ ∙ on_socket_keeps _ _ k,
    answer_keeps _ _ ∙ on_socket_keeps _ _ k,
    answer_keeps _ _ ∙ on_socket_keeps _ _ k,
  )
