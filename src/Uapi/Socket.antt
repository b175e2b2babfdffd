-- ===== src/Uapi/Socket.antt =====
-- uapi_linux.go: making the configuration socket, and accepting connections. The calls of packages os
-- and net on the socket's path are parameters, on the system's state.
use wireguard_go.Base.{
  ℕ, ◌≡◌, ap, ◌∙◌, Bool, true, false, Option, none, some, List, [], ◌∷◌, if◌then◌else◌,
}
use wireguard_go.System.{Action, Result, ok, err, ◌>>=◌, ◌>>◌}

-- MkdirAll of the directory, ResolveUnixAddr, ListenUnix, Dial, Remove, and the listener's File.
pub record Paths (K : Type 0) : Type 0 where
  pub mkdir_all : Action K (Unit {0})
  pub is_exist : ℕ → Bool
  pub resolve_unix_addr : Action K (Unit {0})
  pub listen_unix : Action K ℕ
  pub dial : Action K ℕ
  pub remove : Action K (Unit {0})
  pub file : ℕ → Action K ℕ

-- "unix socket in use" has no number, and is one here.
abbrev pub socket_in_use : ℕ
socket_in_use = 1_001

module _ {K : Type 0} (p : Paths K) where
  -- "cleanup & attempt again", unless a connection is made: then the socket is in use.
  unfoldable pub after_dial : Result ℕ × K → Result ℕ × K
  after_dial (ok conn, k) = (err socket_in_use, k)
  after_dial (err e, k) = (p.remove >> p.listen_unix) k

  -- "check if socket already active", after an attempt that failed.
  unfoldable pub after_listen : Result ℕ × K → Result ℕ × K
  unfolding after_dial
  after_listen (ok listener, k) = (ok listener, k)
  after_listen (err e, k) = after_dial (p.dial k)

  unfoldable pub listen : Action K ℕ
  unfolding after_listen
  listen k = after_listen (p.listen_unix k)

  unfoldable pub unless_exists : Result (Unit {0}) × K → Result (Unit {0}) × K
  unless_exists (ok u, k) = (ok u, k)
  unless_exists (err e, k) = if p.is_exist e then (ok tt, k) else (err e, k)

  unfoldable pub uapi_open : Action K ℕ
  unfolding listen unless_exists
  uapi_open = do
    λ k. unless_exists (p.mkdir_all k)
    p.resolve_unix_addr
    listener ← listen
    p.file listener

  -- A socket at which somebody answers is not removed: opening it ends with an error, in the state in
  -- which the connection attempt has left the system.
  pub listen_in_use :
      (k k1 k2 : K) (e conn : ℕ)
      → p.listen_unix k ≡ (err e, k1)
      → p.dial k1 ≡ (ok conn, k2)
      → listen k ≡ (err socket_in_use, k2)
  unfolding listen
  listen_in_use k k1 k2 e conn refused answered_ = ap after_listen refused ∙ ap after_dial answered_

-- The channels of a listener, of size 1 each.
pub record UapiListener : Type 0 where
  pub conn_new : List ℕ
  pub conn_err : List ℕ

-- Accept takes what is there, and the select either of two. `none`: it waits.
unfoldable pub accept : Bool → UapiListener → Option (Result ℕ × UapiListener)
accept prefers_conn l = choose prefers_conn l.conn_new l.conn_err
  where
    choose : Bool → List ℕ → List ℕ → Option (Result ℕ × UapiListener)
    choose b [] [] = none
    choose b (c ∷ cs) [] = some (ok c, record { conn_new = cs; conn_err = [] })
    choose b [] (e ∷ es) = some (err e, record { conn_new = []; conn_err = es })
    choose true (c ∷ cs) (e ∷ es) = some (ok c, record { conn_new = cs; conn_err = e ∷ es })
    choose false (c ∷ cs) (e ∷ es) = some (err e, record { conn_new = c ∷ cs; conn_err = es })
