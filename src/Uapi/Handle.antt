-- ===== src/Uapi/Handle.antt =====
-- ipcHandle of uapi.go: one request on a configuration socket and its answer; the error codes of
-- uapi_linux.go.
use wireguard_go.Base.{ℕ, Option, none, some, List, [], ◌∷◌, ◌++◌, if◌then◌else◌, bytes_eq}
use wireguard_go.Base.Text.{codes}
use wireguard_go.Crypto.{Crypto}
use wireguard_go.Device.Bind.{BindResults}
use wireguard_go.Traffic.{Traffic}
use wireguard_go.Uapi.{
  IpcError, protocol, invalid, port_in_use, Parsers, Outcome, continues, fails, stuck,
  set_operation, initial,
}
use wireguard_go.Uapi.Get.{Printers, decimal, get_operation}

abbrev ipc_error_protocol : ℕ
ipc_error_protocol = 71

abbrev ipc_error_invalid : ℕ
ipc_error_invalid = 22

abbrev ipc_error_port_in_use : ℕ
ipc_error_port_in_use = 98

-- The negative of the code.
unfoldable pub error_code : IpcError → ℕ
error_code protocol = ipc_error_protocol
error_code invalid = ipc_error_invalid
error_code port_in_use = ipc_error_port_in_use

-- The last lines of an answer: the status and an empty line.
unfoldable pub status_lines : Option IpcError → List (List ℕ)
unfolding error_code
status_lines none = codes "errno=0" ∷ [] ∷ []
status_lines (some error) = (codes "errno=-" ++ decimal (error_code error)) ∷ [] ∷ []

-- What a request comes to: an answer, and the traffic if it has been configured to the end; or
-- nothing is answered; or the set operation does not return.
pub data Handled : Type 0 where
  answered : List (List ℕ) → Option Traffic → Handled
  closed : Handled
  hangs : Handled

unfoldable pub finish_set : Outcome → Handled
unfolding status_lines
finish_set (continues s) = answered (status_lines none) (some s.traffic)
finish_set (fails error) = answered (status_lines (some error)) none
finish_set stuck = hangs

-- `op` is the first line, without its end; `none`: reading it fails. `lines` are those that
-- follow, with what the system answers about the bind.
unfoldable pub ipc_handle :
    Crypto
    → Parsers
    → Printers
    → ℕ
    → Option (List ℕ)
    → List (BindResults × List ℕ)
    → ℕ
    → Traffic
    → Handled
unfolding finish_set set_operation get_operation status_lines
ipc_handle c parsers printers now none lines fresh w = closed
ipc_handle c parsers printers now (some op) lines fresh w =
    if bytes_eq op (codes "set=1")
    then finish_set (set_operation c parsers now lines (initial w fresh))
    else if bytes_eq op (codes "get=1")
    then answered (get_operation printers w.device ++ status_lines none) (some w)
    else closed
