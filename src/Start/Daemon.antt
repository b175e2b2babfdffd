-- ===== src/Start/Daemon.antt =====
-- The process in the background goes on where the first one stopped, and starts no other.
use wireguard_go.Base.{
  ℕ, ◌≡◌, refl, ap, ap₂, ◌∙◌, Bool, true, false, ◌||◌, Option, none, some, List, [], ◌∷◌, ◌++◌,
  if◌then◌else◌, bytes_eq,
}
use wireguard_go.Base.Text.{codes}
use wireguard_go.Uapi.Fields.{parse_uint, parse_digits, in_range}
use wireguard_go.Start.{
  Environment, getenv, env_wg_tun_fd, env_wg_uapi_fd, env_wg_process_foreground, level_of,
  log_level, Source, supplied, of_number, source_of, Config, parse_arguments, with_environment,
  configure, daemon_environment,
}

-- A name that is not in the environment.
unfoldable pub lacks : Environment → List ℕ → Bool
lacks [] name = true
lacks ((key, value) ∷ env) name = if bytes_eq key name then false else lacks env name

by_key :
    (b : Bool) (value got rest : List ℕ) (absent : Bool)
    → (absent ≡ true → got ≡ rest)
    → (if b then false else absent) ≡ true
    → (if b then value else got) ≡ rest
by_key true value got rest absent ih h = absurd cc
by_key false value got rest absent ih h = ih h

getenv-append_lacks :
    (env more : Environment) (name : List ℕ)
    → lacks env name ≡ true
    → getenv (env ++ more) name ≡ getenv more name
unfolding getenv lacks
getenv-append_lacks [] more name h = refl
getenv-append_lacks ((key, value) ∷ env) more name h =
    by_key (bytes_eq key name) value (getenv (env ++ more) name) (getenv more name) (lacks env name)
      (getenv-append_lacks env more name) h

-- A name that is not added keeps its value.
getenv-append_other :
    (env more : Environment) (name : List ℕ)
    → getenv more name ≡ []
    → getenv (env ++ more) name ≡ getenv env name
unfolding getenv
getenv-append_other [] more name h = h
getenv-append_other ((key, value) ∷ env) more name h =
    ap (λ v. if bytes_eq key name then value else v) (getenv-append_other env more name h)

abbrev added : Environment
added =
    (env_wg_tun_fd, codes "3")
    ∷ (env_wg_uapi_fd, codes "4")
    ∷ (env_wg_process_foreground, codes "1")
    ∷ []

daemon_level : (env : Environment) → log_level (daemon_environment env) ≡ log_level env
unfolding log_level daemon_environment getenv
daemon_level env = ap level_of (getenv-append_other env added (codes "LOG_LEVEL") refl)

source_three : (fd : List ℕ) → fd ≡ codes "3" → source_of fd ≡ supplied 3
unfolding source_of of_number parse_uint parse_digits in_range
source_three fd h = ap source_of h

source_four : (fd : List ℕ) → fd ≡ codes "4" → source_of fd ≡ supplied 4
unfolding source_of of_number parse_uint parse_digits in_range
source_four fd h = ap source_of h

or-true_right : (a b : Bool) → b ≡ true → (a || b) ≡ true
or-true_right false b h = h
or-true_right true b h = refl

-- What a configuration is made of.
config_of : Bool → List ℕ → ℕ → Source → Source → Config
config_of foreground name level tun uapi = record {
  foreground = foreground;
  name = name;
  level = level;
  tun = tun;
  uapi = uapi;
}

by_arguments :
    (env : Environment) (c : Config) (arguments : Option (Bool × List ℕ))
    → getenv (daemon_environment env) env_wg_tun_fd ≡ codes "3"
    → getenv (daemon_environment env) env_wg_uapi_fd ≡ codes "4"
    → getenv (daemon_environment env) env_wg_process_foreground ≡ codes "1"
    → with_environment env arguments ≡ some c
    → with_environment (daemon_environment env) arguments
      ≡ some (record c { foreground = true; tun = supplied 3; uapi = supplied 4 })
unfolding with_environment config_of
by_arguments env c none three four one h = absurd cc
by_arguments env c (some (foreground, name)) three four one h =
    let name_ : name ≡ c.name = ap (λ o. elim o [ none ↦ name | some d ↦ Config.name d ]) h in
    let level_ : log_level env ≡ c.level =
      ap (λ o. elim o [ none ↦ log_level env | some d ↦ Config.level d ]) h in
    let forever = or-true_right foreground _ (ap (λ v. bytes_eq v (codes "1")) one) in
    ap₂
      (λ f n. some (
        config_of f n (log_level (daemon_environment env))
          (source_of (getenv (daemon_environment env) env_wg_tun_fd))
          (source_of (getenv (daemon_environment env) env_wg_uapi_fd))))
      forever name_
    ∙ ap₂ (λ t u. some (config_of true c.name (log_level (daemon_environment env)) t u))
        (source_three _ three) (source_four _ four)
    ∙ ap (λ l. some (config_of true c.name l (supplied 3) (supplied 4))) (daemon_level env ∙ level_)

-- If the environment does not have the program's three names, a process that is to go on in the
-- background starts one that has the same interface name and log level, takes the device and the
-- socket from descriptors 3 and 4, and stays in the foreground.
pub configure-daemon_environment :
    (args : List (List ℕ)) (env : Environment) (c : Config)
    → lacks env env_wg_tun_fd ≡ true
    → lacks env env_wg_uapi_fd ≡ true
    → lacks env env_wg_process_foreground ≡ true
    → configure args env ≡ some c
    → configure args (daemon_environment env)
      ≡ some (record c { foreground = true; tun = supplied 3; uapi = supplied 4 })
unfolding configure daemon_environment getenv
configure-daemon_environment args env c no_tun no_uapi no_foreground h =
    by_arguments env c (parse_arguments args) (getenv-append_lacks env added env_wg_tun_fd no_tun)
      (getenv-append_lacks env added env_wg_uapi_fd no_uapi)
      (getenv-append_lacks env added env_wg_process_foreground no_foreground) h
