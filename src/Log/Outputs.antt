-- ===== src/Log/Outputs.antt =====
-- src/gnb_log.c: the outputs of a line by its type, descriptor by descriptor.
use gnb_udp_over_tcp.Prelude.{
  ℕ, zero, suc, ◌≡◌, refl, Option, none, some, List, [], ◌∷◌, ◌++◌, map, ◌==◌, false, arith,
}
use gnb_udp_over_tcp.Log.{
  LogCtx, LogFds, LogType, log_std, log_debug, log_error, log_other, Output, write_to, send_to,
  if_open, log_console_output, log_file_output, send_both,
}

-- The descriptors that a line of each type is written to: those of the console, and of the files.
abbrev pub console_fds : LogType → List (Option ℕ)
console_fds log_std = some 1 ∷ []
console_fds log_debug = some 1 ∷ []
console_fds log_error = some 2 ∷ []
console_fds log_other = []

abbrev pub file_fds : LogFds → LogType → List (Option ℕ)
file_fds fds log_std = fds.std_fd ∷ []
file_fds fds log_debug = fds.debug_fd ∷ []
file_fds fds log_error = fds.error_fd ∷ []
file_fds fds log_other = []

abbrev pub writes : List (Option ℕ) → List ℕ → List Output
writes fds text = map (λ fd. write_to fd text) fds

-- A descriptor that is -1 or 0 is not sent to.
abbrev pub sends : Option ℕ → List ℕ → ℕ → List ℕ → List Output
sends none addr port bytes = []
sends (some zero) addr port bytes = []
sends (some (suc fd)) addr port bytes = send_to (suc fd) addr port bytes ∷ []

pub console-writes :
    (type : LogType) (text : List ℕ) → log_console_output type text ≡ writes (console_fds type) text
unfolding log_console_output
console-writes log_std text = refl
console-writes log_debug text = refl
console-writes log_error text = refl
console-writes log_other text = refl

pub file-writes :
    (log : LogCtx) (type : LogType) (text : List ℕ)
    → log_file_output log type text ≡ writes (file_fds log.fds type) text
unfolding log_file_output
file-writes log log_std text = refl
file-writes log log_debug text = refl
file-writes log log_error text = refl
file-writes log log_other text = refl

if_open-sends :
    (fd : Option ℕ) (addr : List ℕ) (port : ℕ) (bytes : List ℕ)
    → if_open fd (λ n. send_to n addr port bytes ∷ []) ≡ sends fd addr port bytes
if_open-sends none addr port bytes = refl
if_open-sends (some zero) addr port bytes = refl
if_open-sends (some (suc fd)) addr port bytes =
    let busy : (suc fd == 0) ≡ false = ground arith in rw busy refl

pub send_both-sends :
    (log : LogCtx) (bytes : List ℕ)
    → send_both log bytes
      ≡ sends log.socket6_fd log.addr6 log.port6 bytes
        ++ sends log.socket4_fd log.addr4 log.port4 bytes
unfolding send_both
send_both-sends log bytes =
    rw
      (
        if_open-sends log.socket6_fd log.addr6 log.port6 bytes,
        if_open-sends log.socket4_fd log.addr4 log.port4 bytes,
      )
      refl
