-- ===== src/Tests/Kernel.antt =====
-- A kernel of a table of descriptors and a number of calls that are answered before the others fail.
use wireguard_go.Base.{
  ℕ, zero, suc, ◌+◌, ◌<◌, ◌≡◌, refl, false, some, List, [], ◌∷◌, arith, ne→==-false,
}
use wireguard_go.System.{Result, ok, err, System, IsSystem, Opens, contains, remove}
use wireguard_go.Sockets.{NativeBind, create_bind, close}
use wireguard_go.Sockets.Descriptors.Binds.{Leaves, create_bind-Leaves, close-create_bind}

abbrev Kernel : Type 0
Kernel = List ℕ × ℕ

abbrev sum : List ℕ → ℕ
sum [] = 0
sum (x ∷ xs) = x + sum xs

abbrev address_in_use : ℕ
address_in_use = 98

-- A call that leaves the table.
abbrev answer : Kernel → Result (Unit {0}) × Kernel
answer (fds, zero) = (err address_in_use, (fds, zero))
answer (fds, suc n) = (ok tt, (fds, n))

abbrev open_socket : Kernel → Result ℕ × Kernel
open_socket (fds, zero) = (err address_in_use, (fds, zero))
open_socket (fds, suc n) = (ok (suc (sum fds)), (suc (sum fds) ∷ fds, n))

abbrev pub kernel : System Kernel
kernel = record {
  opened = λ k. k.0;
  socket = λ domain kind protocol k. open_socket k;
  setsockopt_int = λ fd level option value k. answer k;
  bind_port = λ fd port k. answer k;
  bind_netlink = λ fd groups k. answer k;
  shutdown_read = λ fd k. answer k;
  close = λ fd k. (ok tt, (remove fd k.0, k.1));
}

contains-large : (fds : List ℕ) (fd : ℕ) → sum fds < fd → contains fds fd ≡ false
unfolding contains
contains-large [] fd h = refl
contains-large (x ∷ xs) fd h =
    simp (ne→==-false x fd (omega arith), contains-large xs fd (omega arith)) refl

open_socket-Opens : (k : Kernel) → Opens k.0 (open_socket k).1.0 (open_socket k).0
unfolding Opens
open_socket-Opens (fds, zero) = refl
open_socket-Opens (fds, suc n) = (refl, contains-large fds (suc (sum fds)) (omega arith))

answer_keeps : (k : Kernel) → (answer k).1.0 ≡ k.0
answer_keeps (fds, zero) = refl
answer_keeps (fds, suc n) = refl

pub kernel-IsSystem : IsSystem kernel
kernel-IsSystem = record {
  socket_opens = λ domain kind protocol k. open_socket-Opens k;
  setsockopt_keeps = λ fd level option value k. answer_keeps k;
  bind_port_keeps = λ fd port k. answer_keeps k;
  bind_netlink_keeps = λ fd groups k. answer_keeps k;
  shutdown_keeps = λ fd k. answer_keeps k;
  close_closes = λ fd k. refl;
}

-- Descriptors 0, 1 and 2 are open; the last bind of the sockets fails.
abbrev in_use : Kernel
in_use = (0 ∷ 1 ∷ 2 ∷ [], 9)

abbrev ready : Kernel
ready = (0 ∷ 1 ∷ 2 ∷ [], 100)

abbrev pub made : NativeBind
made = record { sock4 = 16; sock6 = 8; netlink_sock = 4; last_mark = 0 }

-- A port that the kernel picks is not given back: the answer is 0, after two sockets that are bound
-- each to a port of its own.
port_zero : (create_bind kernel 0 ready).0.port ≡ 0
unfolding create_bind
port_zero = refl

create_bind-Leaves_example :
    Leaves 51820
      (0 ∷ 1 ∷ 2 ∷ [])
      (create_bind kernel 51820 in_use).0.bind
      (some address_in_use)
      (create_bind kernel 51820 in_use).0.port
      (create_bind kernel 51820 in_use).1.0
unfolding create_bind
create_bind-Leaves_example = create_bind-Leaves kernel-IsSystem 51820 in_use

close-create_bind_example :
    (close kernel made (create_bind kernel 51820 ready).1).1.0 ≡ 0 ∷ 1 ∷ 2 ∷ []
unfolding create_bind
close-create_bind_example = close-create_bind kernel-IsSystem 51820 ready made refl refl
