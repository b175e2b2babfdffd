-- ===== src/System.antt =====
-- The system calls on file descriptors that the sockets and the interfaces of Linux are made with, as
-- a parameter: a call takes the state of the kernel to a result and a state.
use wireguard_go.Base.{ℕ, ◌≡◌, refl, Bool, false, ◌||◌, List, [], ◌∷◌, ◌==◌, if◌then◌else◌}

-- A value, or the number of an error.
pub data Result (A : Type 0) : Type 0 where
  ok : A → Result A
  err : ℕ → Result A

abbrev pub einval : ℕ
einval = 22

-- The actions of a program on the kernel's state `K`.
abbrev pub Action : Type 0 → Type 0 → Type 0
Action K A = K → Result A × K

module _ {K : Type 0} where
  -- What comes after a call that has returned.
  abbrev pub after : {A B : Type 0} → Result A × K → (A → Action K B) → Result B × K
  after (ok a, k) f = f a k
  after (err e, k) f = (err e, k)

  infixl 5 ◌>>=◌ ◌>>◌
  abbrev pub ◌>>=◌ : {A B : Type 0} → Action K A → (A → Action K B) → Action K B
  ◌>>=◌ m f k = after (m k) f

  abbrev pub ◌>>◌ : {A B : Type 0} → Action K A → Action K B → Action K B
  m >> n = m >>= λ _. n

  -- What holds of an action's outcome holds by cases on its first call.
  pub after-cases :
      {A B : Type 0} (P : Result B × K → Type 0) (first : Result A × K) (f : A → Action K B)
      → ((a : A) (k : K) → first ≡ (ok a, k) → P (f a k))
      → ((e : ℕ) (k : K) → first ≡ (err e, k) → P (err e, k))
      → P (after first f)
  after-cases P (ok a, k) f good bad = good a k refl
  after-cases P (err e, k) f good bad = bad e k refl

  abbrev pub pure : {A : Type 0} → A → Action K A
  pure a k = (ok a, k)

-- unix.Socket, unix.SetsockoptInt, unix.Bind to a port and to netlink groups, unix.Shutdown for
-- reading and unix.Close. `opened` is the table of the descriptors that are open.
pub record System (K : Type 0) : Type 0 where
  pub opened : K → List ℕ
  pub socket : ℕ → ℕ → ℕ → Action K ℕ
  pub setsockopt_int : ℕ → ℕ → ℕ → ℕ → Action K (Unit {0})
  pub bind_port : ℕ → ℕ → Action K (Unit {0})
  pub bind_netlink : ℕ → ℕ → Action K (Unit {0})
  pub shutdown_read : ℕ → Action K (Unit {0})
  pub close : ℕ → Action K (Unit {0})

unfoldable pub contains : List ℕ → ℕ → Bool
contains [] fd = false
contains (x ∷ xs) fd = (x == fd) || contains xs fd

unfoldable pub remove : ℕ → List ℕ → List ℕ
remove fd [] = []
remove fd (x ∷ xs) = if x == fd then xs else x ∷ remove fd xs

-- The table after a call of socket(2), which gives the number of no open descriptor.
unfoldable pub Opens : List ℕ → List ℕ → Result ℕ → Type 0
unfolding contains
Opens before after (ok fd) = (after ≡ fd ∷ before) × (contains before fd ≡ false)
Opens before after (err e) = after ≡ before

-- What the manual pages say of the descriptors: socket makes one, close releases the one it is given,
-- on an error too, and the other calls leave the table.
pub record IsSystem {K : Type 0} (s : System K) : Type 0 where
  pub socket_opens :
      (domain kind protocol : ℕ) (k : K)
      → Opens
          (s.opened k)
          (s.opened (s.socket domain kind protocol k).1)
          (s.socket domain kind protocol k).0
  pub setsockopt_keeps :
      (fd level option value : ℕ) (k : K)
      → s.opened (s.setsockopt_int fd level option value k).1 ≡ s.opened k
  pub bind_port_keeps : (fd port : ℕ) (k : K) → s.opened (s.bind_port fd port k).1 ≡ s.opened k
  pub bind_netlink_keeps :
      (fd groups : ℕ) (k : K) → s.opened (s.bind_netlink fd groups k).1 ≡ s.opened k
  pub shutdown_keeps : (fd : ℕ) (k : K) → s.opened (s.shutdown_read fd k).1 ≡ s.opened k
  pub close_closes : (fd : ℕ) (k : K) → s.opened (s.close fd k).1 ≡ remove fd (s.opened k)
