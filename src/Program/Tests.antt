-- ===== src/Program/Tests.antt =====
-- Command lines.
use gnb_udp_over_tcp.Prelude.{
  ℕ, ◌%◌, ◌<◌, ◌≡◌, refl, Bool, true, false, Option, none, some, List, [], ◌∷◌,
}
use gnb_udp_over_tcp.Log.{LogType, LogCtx, Output, no_fds, udp_type_text, log_ctx_create}
use gnb_udp_over_tcp.Program.{
  long_log_udp_type, Parsed, long_option, Opts, start_opts, udp_side, started, option_value,
  option_flag, read_options,
}
use gnb_udp_over_tcp.Program.Setup.{setup_log_ctx, verbose_levels, start_service, main}
use gnb_udp_over_tcp.Program.Options.{given, last_port}
use gnb_udp_over_tcp.Program.Start.{main-started}

-- A number is a single digit.
abbrev digit : List ℕ → ℕ
digit [] = 0
digit (c ∷ s) = c

-- `-u -l 9 --log-udp-type binary`
abbrev options : List Parsed
options =
    record { opt = b'u'; optarg = none; flag = 0 }
    ∷ record { opt = b'l'; optarg = some (9 ∷ []); flag = 0 }
    ∷ record { opt = 43; optarg = some (b'b' ∷ []); flag = 0 }
    ∷ []

abbrev always : List ℕ → Bool
always text = true

abbrev file_name : List ℕ → LogType → List ℕ
file_name path type = path

abbrev archive : LogType → List ℕ
archive type = []

abbrev resolve : List ℕ → Option (List ℕ)
resolve text = none

abbrev same : ℕ → ℕ
same n = n

abbrev read_opts : Opts
read_opts = record start_opts { udp_opt = true; listen_port = 9 }

abbrev log_made : LogCtx × List Output
log_made =
    setup_log_ctx file_name archive 1 no_fds same [] none none resolve digit digit []
      (verbose_levels read_opts) log_ctx_create

udp_side-started :
    main file_name archive 1 no_fds same [] none none resolve digit digit [] always options
      ((b'h' ∷ []) ∷ (7 ∷ []) ∷ [])
    ≡ some (started udp_side 9 (b'h' ∷ []) 7 (verbose_levels read_opts) log_made.0 log_made.1)
unfolding main read_options option_value option_flag start_service
udp_side-started = refl

main-started_example :
    (given b'h' options ≡ false)
    × (given b'u' options ≡ true)
    × (given b't' options ≡ false)
    × (9 ≡ last_port digit digit always options 0)
    × (0 < 9)
    × ((text : List ℕ) × ((b'h' ∷ []) ∷ (7 ∷ []) ∷ [] ≡ (b'h' ∷ []) ∷ text ∷ [])
        × (7 ≡ digit text % 65536))
    × (log_made.0.log_udp_type ≡ udp_type_text)
main-started_example =
    main-started file_name archive 1 no_fds same [] none none resolve digit digit [] always options
      ((b'h' ∷ []) ∷ (7 ∷ []) ∷ []) udp_side 9 7 (b'h' ∷ []) (verbose_levels read_opts) log_made.0
      log_made.1 udp_side-started

-- `--log-udp-type` is another value than the `switch` tests.
udp_type-ignored :
    option_value digit digit always (long_option long_log_udp_type (some (b'b' ∷ [])) 0) start_opts
    ≡ some start_opts
unfolding option_value long_option
udp_type-ignored = refl
