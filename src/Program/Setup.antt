-- ===== src/Program/Setup.antt =====
-- src/service/gnb_udp_over_tcp.c: setup_log_ctx, and `main` behind the loop over the options.
use gnb_udp_over_tcp.Prelude.{
  ℕ, ◌%◌, Bool, Option, none, some, List, [], ◌∷◌, ◌==◌, if◌then◌else◌, length, set, take, ◌>>=◌,
}
use gnb_udp_over_tcp.Network.{with_bit}
use gnb_udp_over_tcp.Log.{
  LogCtx, LogFds, LogType, Output, output_stdout, output_file, output_udp, log_ctx_create,
}
use gnb_udp_over_tcp.Log.Rotate.{log_file_rotate}
use gnb_udp_over_tcp.Log.Server.{log_udp_open, log_udp_set_addr4_string}
use gnb_udp_over_tcp.Program.{
  Parsed, Opts, start_opts, Side, udp_side, tcp_side, Started, usage, started, read_options,
}

-- `snprintf(dest, ..., "%s/std.log", log_path)` and so on are a parameter.
unfoldable pub named_files :
    (file_name : List ℕ → LogType → List ℕ) → Option (List ℕ) → LogCtx → LogCtx
named_files file_name none log = record log { log_file_path = [] }
named_files file_name (some path) log = record log {
  log_file_path = take 4095 path;
  log_file_name_std = file_name path LogType.log_std;
  log_file_name_debug = file_name path LogType.log_debug;
  log_file_name_error = file_name path LogType.log_error;
  output_type = with_bit output_file log.output_type;
}

unfoldable pub with_config : ℕ → List ℕ → Opts → LogCtx → LogCtx
with_config log_id name o log = record log {
  config_table = set log.config_table log_id (record {
    log_name = name;
    console_level = o.log_console_level;
    file_level = o.log_file_level;
    udp_level = o.log_udp_level;
  });
}

unfoldable pub verbose_levels : Opts → Opts
verbose_levels o =
    if o.daemon
    then o
    else if o.verbose_opt
    then record o { log_console_level = 3; log_udp_level = 3 }
    else o

module _ (file_name : List ℕ → LogType → List ℕ) (archive : LogType → List ℕ) (mday : ℕ)
    (opened : LogFds) (htons : ℕ → ℕ) (loopback6 : List ℕ) (socket6 socket4 : Option ℕ)
    (inet_pton : List ℕ → Option (List ℕ)) (strtol strtoul : List ℕ → ℕ) (behind : List ℕ) where
  unfoldable pub prepared_log : Opts → LogCtx → LogCtx
  prepared_log o log = with_config 1 (b'U' ∷ b'O' ∷ b'T' ∷ []) o (
      with_config 0 (b'G' ∷ b'N' ∷ b'B' ∷ b'_' ∷ b'E' ∷ b'V' ∷ b'E' ∷ b'N' ∷ b'T' ∷ []) o (
        named_files file_name o.log_path
          (record log { output_type = if o.daemon then 0 else output_stdout })))

  -- `gnb_log_udp_set_addr4_string` with its result left aside, as in the code.
  unfoldable pub udp_server : List ℕ → LogCtx → LogCtx
  udp_server text log =
      if length text == 0
      then log
      else let named : LogCtx =
          (log_udp_set_addr4_string inet_pton htons strtoul behind log text).1 in
        record named { output_type = with_bit output_udp named.output_type }

  -- With what the calls ask of the system.
  unfoldable pub setup_log_ctx : Opts → LogCtx → LogCtx × List Output
  setup_log_ctx o log =
      let rotated = log_file_rotate archive mday opened (prepared_log o log) in
      let connected = log_udp_open htons loopback6 socket6 socket4 rotated.2 in
      (udp_server o.log_udp_sockaddress4 (record connected { log_payload_type = 69 }), rotated.1)

  -- `main` behind the loop; `args` are the arguments that are no options.
  unfoldable pub start_service : Opts → (args : List (List ℕ)) → Started
  start_service o args = if o.listen_port == 0 then usage else elim args [
    | address ∷ port ∷ [] ↦
        let v : Opts = verbose_levels o in
        let made = setup_log_ctx v log_ctx_create in
        let start = λ (side : Side).
          started side o.listen_port address (strtol port % 65536) v made.0 made.1 in
        if o.udp_opt
        then (if o.tcp_opt then usage else start udp_side)
        else if o.tcp_opt
        then start tcp_side
        else usage
    | _ ↦ usage
  ]

  unfoldable pub main :
      (is_binary : List ℕ → Bool) → List Parsed → (args : List (List ℕ)) → Option Started
  main is_binary parsed args = read_options strtol strtoul is_binary parsed start_opts >>= λ read.
      elim read [ none ↦ some usage | some o ↦ some (start_service o args) ]
