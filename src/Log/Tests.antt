-- ===== src/Log/Tests.antt =====
-- Lines of the log at concrete inputs.
use gnb_udp_over_tcp.Prelude.{
  ℕ, ◌+◌, ◌≡◌, refl, ap, true, Option, none, some, List, [], ◌∷◌, ◌++◌, ◌==◌, if◌then◌else◌,
  replicate, length-replicate, arith,
}
use gnb_udp_over_tcp.Payload.{payload16_type, payload16_data_len, payload16_data}
use gnb_udp_over_tcp.Log.{
  LogCtx, LogFds, LogType, log_std, log_error, log_debug, write_to, send_to, line_max, no_fds,
  log_console_output, send_both, gnb_logf,
}
use gnb_udp_over_tcp.Log.Line.{gnb_logf-outputs, gnb_logf-overflow}
use gnb_udp_over_tcp.Log.Server.{log_udp_set_addr4_string, set_addr4_string-parts}

-- A log that goes to the console and, as frames, to a UDP socket.
abbrev sample_log : LogCtx
sample_log = record {
  output_type = 5;
  log_file_path = [];
  log_file_name_std = b's' ∷ [];
  log_file_name_debug = b'd' ∷ [];
  log_file_name_error = b'e' ∷ [];
  fds = no_fds;
  pre_fds = no_fds;
  pre_mday = 1;
  addr4 = 127 ∷ 0 ∷ 0 ∷ 1 ∷ [];
  port4 = 9000;
  addr6 = replicate 16 0;
  port6 = 9000;
  socket6_fd = none;
  socket4_fd = some 6;
  log_udp_type = 1;
  log_payload_type = 7;
  config_table = [];
}

gnb_logf-outputs_example :
    (frame : List ℕ) × (gnb_logf sample_log log_error 3 1
        (1 ∷ 1 ∷ 1 ∷ 1 ∷ replicate line_max 1)
        (b't' ∷ [])
        (b'm' ∷ [])
      ≡ some
          (write_to (some 2) (b't' ∷ b'm' ∷ []) ∷ send_to 6 (127 ∷ 0 ∷ 0 ∷ 1 ∷ []) 9000 frame ∷ []))
    × (payload16_type frame ≡ 7)
    × (payload16_data_len frame ≡ 2)
    × (payload16_data frame ≡ b't' ∷ b'm' ∷ [])
unfolding log_console_output send_both
gnb_logf-outputs_example =
    gnb_logf-outputs sample_log log_error 3 1 1 1 1 1 (replicate line_max 1) (b't' ∷ []) (b'm' ∷ [])
      (length-replicate {A = ℕ} line_max 1) (omega arith)

gnb_logf-overflow_example :
    gnb_logf sample_log log_std 3 1 (replicate 4100 1) (b't' ∷ []) (replicate 4095 b'm') ≡ none
gnb_logf-overflow_example =
    gnb_logf-overflow sample_log log_std 3 1 (replicate 4100 1) (b't' ∷ []) (replicate 4095 b'm')
      (length-replicate {A = ℕ} 4100 1) (omega arith) (omega arith)
      (omega (arith, length-replicate {A = ℕ} 4095 b'm'))

abbrev fds_from : ℕ → LogFds
fds_from n = record { std_fd = some n; debug_fd = some (n + 1); error_fd = some (n + 2) }

abbrev file_log : LogCtx
file_log = record sample_log { output_type = 2; fds = fds_from 4 }

abbrev archive : LogType → List ℕ
archive log_std = b'1' ∷ []
archive log_debug = b'2' ∷ []
archive _ = b'3' ∷ []

-- The texts are read up to their NUL; an address is its first byte, a number that of its digits.
abbrev first_bytes : List ℕ → Option (List ℕ)
first_bytes [] = none
first_bytes (c ∷ s) = if c == 0 then none else some (c ∷ 0 ∷ 0 ∷ 1 ∷ [])

abbrev digit_count : List ℕ → ℕ
digit_count [] = 0
digit_count (c ∷ s) = if c == 0 then 0 else 1 + digit_count s

first_bytes-stops : (text rest : List ℕ) → first_bytes (text ++ 0 ∷ rest) ≡ first_bytes text
first_bytes-stops [] rest = refl
first_bytes-stops (c ∷ text) rest = refl

digit_count-stops : (text rest : List ℕ) → digit_count (text ++ 0 ∷ rest) ≡ digit_count text
digit_count-stops [] rest = refl
digit_count-stops (c ∷ text) rest =
    ap (λ n. if c == 0 then 0 else 1 + n) (digit_count-stops text rest)

set_addr4_string-parts_example :
    log_udp_set_addr4_string first_bytes
      (λ n. n)
      digit_count
      []
      sample_log
      (b'8' ∷ b':' ∷ b'5' ∷ b'3' ∷ [])
    ≡ (true, record sample_log { port4 = 2; addr4 = b'8' ∷ 0 ∷ 0 ∷ 1 ∷ [] })
set_addr4_string-parts_example =
    set_addr4_string-parts first_bytes digit_count (λ n. n) first_bytes digit_count
      first_bytes-stops digit_count-stops sample_log [] (b'8' ∷ []) (b'5' ∷ b'3' ∷ [])
      (omega arith, tt) (omega arith) (omega arith)
