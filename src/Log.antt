-- ===== src/Log.antt =====
-- src/gnb_log.c, gnb_log.h and gnb_log_type.h: lines of text that go to the console, to files and to
-- UDP sockets. What the code asks of the system is a list of outputs, in order; the formatted texts,
-- the clock and the descriptors that `open` gives are arguments. The descriptor -1 is `none`, and
-- `none` as a result is a copy outside of a block.
pub mod Outputs
pub mod Line
pub mod Rotate
pub mod Server
mod Tests
use gnb_udp_over_tcp.Prelude.{
  ℕ, zero, suc, ◌+◌, ◌-◌, ◌*◌, ◌/◌, ◌%◌, ◌^◌, Bool, true, false, ◌&&◌, ◌||◌, Option, none, some,
  List, [], ◌∷◌, ◌++◌, ltb, leb, ◌==◌, if◌then◌else◌, length, get_elem?, set, take, drop, replicate,
  memcpy, ◌>>=◌,
}
use gnb_udp_over_tcp.Payload.{payload16_set_data_len}
use gnb_udp_over_tcp.Network.{has_bit}
use gnb_udp_over_tcp.Address.Text.{cut_colon}

pub data LogType : Type 0 where
  log_std : LogType
  log_debug : LogType
  log_error : LogType
  log_other : LogType

-- The bits of `output_type`.
abbrev pub output_stdout : ℕ
output_stdout = 1

abbrev pub output_file : ℕ
output_file = 2

abbrev pub output_udp : ℕ
output_udp = 4

abbrev pub udp_type_text : ℕ
udp_type_text = 0

abbrev pub udp_type_binary : ℕ
udp_type_binary = 1

abbrev pub line_max : ℕ
line_max = 4096

pub record LogConfig : Type 0 where
  pub log_name : List ℕ
  pub console_level : ℕ
  pub file_level : ℕ
  pub udp_level : ℕ

-- The three files and the descriptors of one kind.
pub record LogFds : Type 0 where
  pub std_fd : Option ℕ
  pub debug_fd : Option ℕ
  pub error_fd : Option ℕ

pub record LogCtx : Type 0 where
  pub output_type : ℕ
  pub log_file_path : List ℕ
  pub log_file_name_std : List ℕ
  pub log_file_name_debug : List ℕ
  pub log_file_name_error : List ℕ
  pub fds : LogFds
  pub pre_fds : LogFds
  pub pre_mday : ℕ
  pub addr4 : List ℕ
  pub port4 : ℕ
  pub addr6 : List ℕ
  pub port6 : ℕ
  pub socket6_fd : Option ℕ
  pub socket4_fd : Option ℕ
  pub log_udp_type : ℕ
  pub log_payload_type : ℕ
  pub config_table : List LogConfig

pub data Output : Type 0 where
  write_to : Option ℕ → List ℕ → Output
  send_to : ℕ → List ℕ → ℕ → List ℕ → Output
  close_fd : ℕ → Output
  rename_file : List ℕ → List ℕ → Output

abbrev pub no_fds : LogFds
no_fds = record { std_fd = none; debug_fd = none; error_fd = none }

abbrev no_config : LogConfig
no_config = record { log_name = replicate 20 0; console_level = 0; file_level = 0; udp_level = 0 }

unfoldable pub log_ctx_create : LogCtx
log_ctx_create = record {
  output_type = 0;
  log_file_path = [];
  log_file_name_std = [];
  log_file_name_debug = [];
  log_file_name_error = [];
  fds = no_fds;
  pre_fds = no_fds;
  pre_mday = 0;
  addr4 = replicate 4 0;
  port4 = 0;
  addr6 = replicate 16 0;
  port6 = 0;
  socket6_fd = none;
  socket4_fd = none;
  log_udp_type = udp_type_text;
  log_payload_type = 0;
  config_table = replicate 128 no_config;
}

unfoldable pub log_console_output : LogType → List ℕ → List Output
log_console_output log_std text = write_to (some 1) text ∷ []
log_console_output log_debug text = write_to (some 1) text ∷ []
log_console_output log_error text = write_to (some 2) text ∷ []
log_console_output log_other text = []

unfoldable pub log_file_output : LogCtx → LogType → List ℕ → List Output
log_file_output log log_std text = write_to log.fds.std_fd text ∷ []
log_file_output log log_debug text = write_to log.fds.debug_fd text ∷ []
log_file_output log log_error text = write_to log.fds.error_fd text ∷ []
log_file_output log log_other text = []

-- `fd > 0`
abbrev pub if_open : Option ℕ → (ℕ → List Output) → List Output
if_open none f = []
if_open (some fd) f = if fd == 0 then [] else f fd

unfoldable pub send_both : LogCtx → List ℕ → List Output
send_both log bytes =
    if_open log.socket6_fd (λ fd. send_to fd log.addr6 log.port6 bytes ∷ [])
    ++ if_open log.socket4_fd (λ fd. send_to fd log.addr4 log.port4 bytes ∷ [])

unfoldable pub log_udp_output : LogCtx → List ℕ → List Output
unfolding send_both
log_udp_output log text = send_both log text

-- The head goes into the four bytes before the text.
unfoldable pub log_udp_binary_output : LogCtx → ℕ → List ℕ → ℕ → List Output
unfolding send_both
log_udp_binary_output log log_id buffer len =
    let data_size : ℕ = len % 65536 in
    let typed : List ℕ = set (set buffer 2 log.log_payload_type) 3 log_id in
    send_both log (take (data_size + 4) (payload16_set_data_len typed data_size).0)

-- `snprintf(buffer + off, line_max, ...)` of a text: at most `line_max` bytes with the NUL.
unfoldable pub snprintf : List ℕ → ℕ → List ℕ → Option (List ℕ)
snprintf buffer off text = memcpy buffer off (take (line_max - 1) text ++ 0 ∷ [])

unfoldable pub log_outputs : LogCtx → LogType → ℕ → List ℕ → ℕ → List Output
unfolding log_console_output log_file_output log_udp_output log_udp_binary_output
log_outputs log type log_id buffer len =
    let text : List ℕ = take len (drop 4 buffer) in
    (if has_bit output_stdout log.output_type then log_console_output type text else [])
    ++ (if has_bit output_file log.output_type then log_file_output log type text else [])
    ++ (if has_bit output_udp log.output_type
        then (if log.log_udp_type == udp_type_binary
            then log_udp_binary_output log log_id buffer len
            else log_udp_output log text)
        else [])

-- `buffer` is `log_string_buffer` before the call, `prefix` the time and the name, and `message` the
-- formatted arguments. The level is not used.
unfoldable pub gnb_logf :
    LogCtx → LogType → (log_id level : ℕ) → (buffer prefix message : List ℕ) → Option (List Output)
unfolding snprintf log_outputs
gnb_logf log type log_id level buffer prefix message = snprintf buffer 4 prefix >>= λ b.
    if ltb line_max (length prefix)
    then some []
    else snprintf b (4 + length prefix) message >>= λ b'.
        let len : ℕ = length prefix + length message in
        if ltb line_max len then some [] else some (log_outputs log type log_id b' len)

-- The macros GNB_LOG1 to GNB_ERROR3, by their type and level; NULL for `log` is `none`.
unfoldable pub log_macro :
    LogType
    → (level : ℕ) → Option LogCtx
    → (log_id : ℕ) → (buffer prefix message : List ℕ) → Option (List Output)
unfolding gnb_logf
log_macro type level none log_id buffer prefix message = some []
log_macro type level (some log) log_id buffer prefix message =
    if log.output_type == 0
    then some []
    else get_elem? log.config_table log_id >>= λ c.
        if leb level c.console_level || leb level c.file_level || leb level c.udp_level
        then gnb_logf log type log_id level buffer prefix message
        else some []
