-- ===== src/Start.antt =====
-- main.go and logger.go: what the arguments and the environment ask for, and the process that goes on
-- in the background. The warning, the opening of what is asked for, and the signals are left out.
pub mod Daemon
use wireguard_go.Base.{
  ℕ, Bool, true, false, not, ◌||◌, Option, none, some, List, [], ◌∷◌, ◌++◌, length, leb, ◌==◌,
  if◌then◌else◌, bytes_eq,
}
use wireguard_go.Base.Text.{codes}
use wireguard_go.Uapi.Fields.{parse_uint}

abbrev pub log_level_error : ℕ
log_level_error = 0

abbrev pub log_level_info : ℕ
log_level_info = 1

abbrev pub log_level_debug : ℕ
log_level_debug = 2

-- Which of the three loggers write to the output; the others discard.
pub record Logger : Type 0 where
  pub debug : Bool
  pub info : Bool
  pub error : Bool

unfoldable pub new_logger : ℕ → Logger
new_logger level =
    if leb log_level_debug level
    then record { debug = true; info = true; error = true }
    else if leb log_level_info level
    then record { debug = false; info = true; error = true }
    else record { debug = false; info = false; error = true }

-- The foreground flag of the arguments and the interface's name. `none`: the usage is printed.
unfoldable pub parse_arguments : List (List ℕ) → Option (Bool × List ℕ)
parse_arguments (program ∷ name ∷ []) =
    if bytes_eq name (codes "-f") || bytes_eq name (codes "--foreground")
    then none
    else some (false, name)
parse_arguments (program ∷ flag ∷ name ∷ []) =
    if bytes_eq flag (codes "-f") || bytes_eq flag (codes "--foreground")
    then some (true, name)
    else none
parse_arguments [] = none
parse_arguments (program ∷ []) = none
parse_arguments (program ∷ a ∷ b ∷ c ∷ more) = none

abbrev pub Environment : Type 0
Environment = List (List ℕ × List ℕ)

-- os.Getenv, the first value of a name or the empty text.
unfoldable pub getenv : Environment → List ℕ → List ℕ
getenv [] name = []
getenv ((key, value) ∷ env) name = if bytes_eq key name then value else getenv env name

abbrev pub env_wg_tun_fd : List ℕ
env_wg_tun_fd = codes "WG_TUN_FD"

abbrev pub env_wg_uapi_fd : List ℕ
env_wg_uapi_fd = codes "WG_UAPI_FD"

abbrev pub env_wg_process_foreground : List ℕ
env_wg_process_foreground = codes "WG_PROCESS_FOREGROUND"

-- "get log level (default: info)"
unfoldable pub level_of : List ℕ → ℕ
level_of level =
    if bytes_eq level (codes "debug")
    then log_level_debug
    else if bytes_eq level (codes "info")
    then log_level_info
    else if bytes_eq level (codes "error")
    then log_level_error
    else log_level_info

unfoldable pub log_level : Environment → ℕ
unfolding getenv level_of
log_level env = level_of (getenv env (codes "LOG_LEVEL"))

-- Where a device or a socket comes from: opened by the interface's name, or a descriptor that was
-- supplied; or the text is no number of 32 bits.
pub data Source : Type 0 where
  opened : Source
  supplied : ℕ → Source
  refused : Source

unfoldable pub of_number : Option ℕ → Source
of_number none = refused
of_number (some fd) = supplied fd

unfoldable pub source_of : List ℕ → Source
unfolding of_number parse_uint
source_of fd = if length fd == 0 then opened else of_number (parse_uint 32 fd)

pub record Config : Type 0 where
  pub foreground : Bool
  pub name : List ℕ
  pub level : ℕ
  pub tun : Source
  pub uapi : Source

unfoldable pub with_environment : Environment → Option (Bool × List ℕ) → Option Config
unfolding getenv log_level source_of
with_environment env none = none
with_environment env (some (foreground, name)) = some (record {
  foreground = foreground || bytes_eq (getenv env env_wg_process_foreground) (codes "1");
  name = name;
  level = log_level env;
  tun = source_of (getenv env env_wg_tun_fd);
  uapi = source_of (getenv env env_wg_uapi_fd);
})

unfoldable pub configure : List (List ℕ) → Environment → Option Config
unfolding parse_arguments with_environment
configure args env = with_environment env (parse_arguments args)

-- "daemonize the process": the environment of the process that is started with the same arguments,
-- and the device and the socket as its descriptors 3 and 4.
unfoldable pub daemon_environment : Environment → Environment
daemon_environment env =
    env
    ++ (env_wg_tun_fd, codes "3")
      ∷ (env_wg_uapi_fd, codes "4")
      ∷ (env_wg_process_foreground, codes "1")
      ∷ []
