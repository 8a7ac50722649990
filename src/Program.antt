-- ===== src/Program.antt =====
-- src/service/gnb_udp_over_tcp.c: the command line and the set-up of the log. What `getopt_long`
-- returns is a list of its results, in order; the functions that read numbers, the clock and the
-- descriptors are parameters. A text is its bytes without the NUL.
pub mod Options
pub mod Setup
pub mod Start
mod Tests
use gnb_udp_over_tcp.Prelude.{
  ℕ, zero, suc, ◌+◌, ◌-◌, ◌*◌, ◌/◌, ◌%◌, Bool, true, false, ◌&&◌, ◌||◌, Option, none, some, List,
  [], ◌∷◌, ◌++◌, ltb, ◌==◌, if◌then◌else◌, length, get_elem?, set, take, ◌>>=◌,
}
use gnb_udp_over_tcp.Network.{has_bit, with_bit}
use gnb_udp_over_tcp.Log.{
  LogCtx, LogConfig, LogFds, LogType, Output, output_stdout, output_file, output_udp, udp_type_text,
  udp_type_binary, log_ctx_create,
}

-- The values of the options; a letter stands for itself.
abbrev pub val_log_udp6 : ℕ
val_log_udp6 = 41

abbrev pub val_log_udp4 : ℕ
val_log_udp4 = 42

abbrev pub val_log_udp_type : ℕ
val_log_udp_type = 43

abbrev pub set_log_file_path : ℕ
set_log_file_path = 41

abbrev pub set_log_udp_type : ℕ
set_log_udp_type = 44

abbrev pub set_console_log_level : ℕ
set_console_log_level = 45

abbrev pub set_file_log_level : ℕ
set_file_log_level = 46

abbrev pub set_udp_log_level : ℕ
set_udp_log_level = 47

-- `long_options`.
pub data LongOption : Type 0 where
  long_udp : LongOption
  long_tcp : LongOption
  long_listen : LongOption
  long_daemon : LongOption
  long_log_file_path : LongOption
  long_log_udp6 : LongOption
  long_log_udp4 : LongOption
  long_log_udp_type : LongOption
  long_log_console_level : LongOption
  long_log_file_level : LongOption
  long_log_udp_level : LongOption
  long_verbose : LongOption
  long_help : LongOption

-- A result of `getopt_long`: `opt`, `optarg`, and `flag` after the call.
pub record Parsed : Type 0 where
  pub opt : ℕ
  pub optarg : Option (List ℕ)
  pub flag : ℕ

abbrev pub returned : ℕ → Option (List ℕ) → ℕ → Parsed
returned val optarg flag = record { opt = val; optarg = optarg; flag = flag }

-- What `getopt_long` documents for the table: the value, or 0 with the value in `flag`.
unfoldable pub long_option : LongOption → Option (List ℕ) → (flag : ℕ) → Parsed
long_option long_udp arg flag = returned b'u' none flag
long_option long_tcp arg flag = returned b't' none flag
long_option long_listen arg flag = returned b'l' arg flag
long_option long_daemon arg flag = returned b'd' none flag
long_option long_log_file_path arg flag = returned set_log_file_path arg flag
long_option long_log_udp6 arg flag = returned 0 arg val_log_udp6
long_option long_log_udp4 arg flag = returned 0 arg val_log_udp4
long_option long_log_udp_type arg flag = returned val_log_udp_type arg flag
long_option long_log_console_level arg flag = returned set_console_log_level arg flag
long_option long_log_file_level arg flag = returned set_file_log_level arg flag
long_option long_log_udp_level arg flag = returned set_udp_log_level arg flag
long_option long_verbose arg flag = returned b'V' none flag
long_option long_help arg flag = returned b'h' none flag

-- The variables of `main`; `log_udp_type` is not set before the loop.
pub record Opts : Type 0 where
  pub listen_port : ℕ
  pub daemon : Bool
  pub udp_opt : Bool
  pub tcp_opt : Bool
  pub verbose_opt : Bool
  pub log_path : Option (List ℕ)
  pub log_udp_sockaddress4 : List ℕ
  pub log_udp_type : Option ℕ
  pub log_console_level : ℕ
  pub log_file_level : ℕ
  pub log_udp_level : ℕ

abbrev pub start_opts : Opts
start_opts = record {
  listen_port = 0;
  daemon = false;
  udp_opt = false;
  tcp_opt = false;
  verbose_opt = false;
  log_path = none;
  log_udp_sockaddress4 = [];
  log_udp_type = none;
  log_console_level = 1;
  log_file_level = 1;
  log_udp_level = 1;
}

-- The service that `main` starts.
pub data Side : Type 0 where
  udp_side : Side
  tcp_side : Side

-- `usage` prints the usage and exits.
pub data Started : Type 0 where
  usage : Started
  started :
      Side
      → (listen_port : ℕ) → (address : List ℕ) → (port : ℕ) → Opts
      → LogCtx
      → List Output
      → Started

abbrev pub default_sockaddress : List ℕ
default_sockaddress =
    b'1' ∷ b'2' ∷ b'7' ∷ b'.' ∷ b'0' ∷ b'.' ∷ b'0' ∷ b'.' ∷ b'1' ∷ b':' ∷ b'6' ∷ b'0' ∷ b'0' ∷ b'0'
    ∷ []

-- The second one, on `flag`.
unfoldable pub option_flag : Parsed → Opts → Opts
option_flag p o =
    if p.opt == 0
    then if p.flag == val_log_udp4
      then record o {
        log_udp_sockaddress4 =
            take 22 (elim p.optarg [ none ↦ default_sockaddress | some arg ↦ arg ]);
      }
      else o
    else o

-- An option that needs an argument and has none is a fault.
abbrev pub with_arg : Parsed → (List ℕ → Opts) → Option Opts
with_arg p f = p.optarg >>= λ arg. some (f arg)

module _ (strtol strtoul : List ℕ → ℕ) (is_binary : List ℕ → Bool) where
  -- The first `switch`.
  unfoldable pub option_value : Parsed → Opts → Option Opts
  option_value p o =
      if p.opt == b'l'
      then with_arg p (λ arg. record o { listen_port = strtol arg % 65536 })
      else if p.opt == b'd'
      then some (record o { daemon = true })
      else if p.opt == b'u'
      then some (record o { udp_opt = true })
      else if p.opt == b't'
      then some (record o { tcp_opt = true })
      else if p.opt == set_log_file_path
      then some (record o { log_path = p.optarg })
      else if p.opt == set_log_udp_type
      then with_arg p (λ arg. record o {
        log_udp_type = some (if is_binary arg then udp_type_binary else udp_type_text);
      })
      else if p.opt == set_console_log_level
      then with_arg p (λ arg. record o { log_console_level = strtoul arg % 256 })
      else if p.opt == set_file_log_level
      then with_arg p (λ arg. record o { log_file_level = strtoul arg % 256 })
      else if p.opt == set_udp_log_level
      then with_arg p (λ arg. record o { log_udp_level = strtoul arg % 256 })
      else if p.opt == b'V'
      then some (record o { verbose_opt = true })
      else some o

  -- The loop; the outer `none` is a fault, the inner one the exit for 'h'.
  unfoldable pub read_options : List Parsed → Opts → Option (Option Opts)
  unfolding option_value option_flag
  read_options [] o = some (some o)
  read_options (p ∷ ps) o =
      let rest = option_value p o >>= λ o'. read_options ps (option_flag p o') in
      if p.opt == b'h' then some none else rest
