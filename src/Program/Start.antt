-- ===== src/Program/Start.antt =====
-- src/service/gnb_udp_over_tcp.c: the command lines that start a service.
use gnb_udp_over_tcp.Prelude.{
  ℕ, ◌%◌, ◌<◌, ◌≡◌, refl, sym, ap, ◌∙◌, inl, inr, Bool, true, false, ◌||◌, Option, none, some, List,
  [], ◌∷◌, ◌==◌, length, arith, Bool-cases, Option-cases,
}
use gnb_udp_over_tcp.Log.{LogCtx, LogFds, LogType, Output, udp_type_text, log_ctx_create}
use gnb_udp_over_tcp.Log.Rotate.{log_file_rotate}
use gnb_udp_over_tcp.Log.Server.{log_udp_open, log_udp_set_addr4_string}
use gnb_udp_over_tcp.Program.{
  Parsed, Opts, Side, udp_side, tcp_side, Started, started, start_opts, read_options,
}
use gnb_udp_over_tcp.Program.Setup.{
  named_files, with_config, prepared_log, udp_server, setup_log_ctx, start_service, main,
}
use gnb_udp_over_tcp.Program.Options.{given, last_port, read_options-Read}

abbrev pub is_udp : Side → Bool
is_udp udp_side = true
is_udp tcp_side = false

abbrev pub is_tcp : Side → Bool
is_tcp udp_side = false
is_tcp tcp_side = true

or_false : (b : Bool) → (b || false) ≡ b
or_false true = refl
or_false false = refl

set_addr4_string-type :
    (inet_pton : List ℕ → Option (List ℕ)) (htons : ℕ → ℕ) (strtoul : List ℕ → ℕ)
    (behind text : List ℕ) (log : LogCtx)
    → (log_udp_set_addr4_string inet_pton htons strtoul behind log text).1.log_udp_type
      ≡ log.log_udp_type
unfolding log_udp_set_addr4_string
set_addr4_string-type inet_pton htons strtoul behind text log = ground arith

rotate-type :
    (archive : LogType → List ℕ) (mday : ℕ) (opened : LogFds) (log : LogCtx)
    → (log_file_rotate archive mday opened log).2.log_udp_type ≡ log.log_udp_type
unfolding log_file_rotate
rotate-type archive mday opened log = ground arith

named_files-type :
    (file_name : List ℕ → LogType → List ℕ) (path : Option (List ℕ)) (log : LogCtx)
    → (named_files file_name path log).log_udp_type ≡ log.log_udp_type
unfolding named_files
named_files-type file_name none log = refl
named_files-type file_name (some path) log = refl

module _ (file_name : List ℕ → LogType → List ℕ) (archive : LogType → List ℕ) (mday : ℕ)
    (opened : LogFds) (htons : ℕ → ℕ) (loopback6 : List ℕ) (socket6 socket4 : Option ℕ)
    (inet_pton : List ℕ → Option (List ℕ)) (strtol strtoul : List ℕ → ℕ) (behind : List ℕ) where
  abbrev pub setup : Opts → LogCtx → LogCtx × List Output
  setup =
      setup_log_ctx file_name archive mday opened htons loopback6 socket6 socket4 inet_pton strtol
        strtoul behind

  prepared-type :
      (o : Opts) (log : LogCtx)
      → (prepared_log file_name archive mday opened htons loopback6 socket6 socket4 inet_pton strtol
          strtoul behind o log).log_udp_type
        ≡ log.log_udp_type
  unfolding prepared_log with_config
  prepared-type o log = named_files-type file_name o.log_path _

  server-type :
      (text : List ℕ) (log : LogCtx)
      → (udp_server file_name archive mday opened htons loopback6 socket6 socket4 inet_pton strtol
          strtoul behind text log).log_udp_type
        ≡ log.log_udp_type
  unfolding udp_server
  server-type text log = elim (Bool-cases (length text == 0)) [
    | inl e ↦ rw e refl
    | inr e ↦ rw e (set_addr4_string-type inet_pton htons strtoul behind text log)
  ]

  setup-type : (o : Opts) (log : LogCtx) → (setup o log).0.log_udp_type ≡ log.log_udp_type
  unfolding setup_log_ctx log_udp_open
  setup-type o log =
      server-type o.log_udp_sockaddress4 _ ∙ rotate-type archive mday opened _ ∙ prepared-type o log

  abbrev start : Opts → List (List ℕ) → Started
  start =
      start_service file_name archive mday opened htons loopback6 socket6 socket4 inet_pton strtol
        strtoul behind

  start-started :
      (o v : Opts) (args : List (List ℕ)) (side : Side) (lp port : ℕ) (address : List ℕ)
      (log : LogCtx) (out : List Output)
      → start o args ≡ started side lp address port v log out
      → (lp ≡ o.listen_port)
        × (0 < lp)
        × (o.udp_opt ≡ is_udp side)
        × (o.tcp_opt ≡ is_tcp side)
        × ((text : List ℕ) × (args ≡ address ∷ text ∷ []) × (port ≡ strtol text % 65536))
        × (log ≡ (setup v log_ctx_create).0)
  unfolding start_service
  start-started o v [] side lp port address log out h = absurd (ground arith)
  start-started o v (a ∷ []) side lp port address log out h = absurd (ground arith)
  start-started o v (a ∷ b ∷ []) side lp port address log out h = (
    ground arith,
    ground arith,
    ground arith,
    ground arith,
    (b, ground arith, ground arith),
    ground arith,
  )
  start-started o v (a ∷ b ∷ c ∷ args) side lp port address log out h = absurd (ground arith)

  -- Where main starts a service: no help was asked for, -u was given exactly when it is the UDP
  -- side and -t exactly when it is the TCP side, the port to listen on is that of the last -l and
  -- not 0, the address and the port of the peer are the only two other arguments, and the log
  -- sends text whatever --log-udp-type says.
  pub main-started :
      (is_binary : List ℕ → Bool) (parsed : List Parsed) (args : List (List ℕ)) (side : Side)
      (lp port : ℕ) (address : List ℕ) (v : Opts) (log : LogCtx) (out : List Output)
      → main file_name archive mday opened htons loopback6 socket6 socket4 inet_pton strtol strtoul
          behind is_binary parsed args
        ≡ some (started side lp address port v log out)
      → (given b'h' parsed ≡ false)
        × (given b'u' parsed ≡ is_udp side)
        × (given b't' parsed ≡ is_tcp side)
        × (lp ≡ last_port strtol strtoul is_binary parsed 0)
        × (0 < lp)
        × ((text : List ℕ) × (args ≡ address ∷ text ∷ []) × (port ≡ strtol text % 65536))
        × (log.log_udp_type ≡ udp_type_text)
  unfolding main log_ctx_create
  main-started is_binary parsed args side lp port address v log out h =
      elim (Option-cases (read_options strtol strtoul is_binary parsed start_opts)) [
        | inl fault ↦ absurd (let e = rw fault at h in cc)
        | inr (none, exit) ↦ absurd (let e = rw exit at h in cc)
        | inr (some o, e) ↦
            let read = read_options-Read strtol strtoul is_binary parsed start_opts o e in
            let begun : start o args ≡ started side lp address port v log out =
              (let k = rw e at h in cc) in
            let run = start-started o v args side lp port address log out begun in
            (
              read.0,
              sym (or_false (given b'u' parsed)) ∙ sym read.1 ∙ run.2,
              sym (or_false (given b't' parsed)) ∙ sym read.2 ∙ run.3,
              run.0 ∙ read.3,
              run.1,
              run.4,
              ap (λ (l : LogCtx). l.log_udp_type) run.5 ∙ setup-type v log_ctx_create,
            )
      ]
