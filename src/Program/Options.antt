-- ===== src/Program/Options.antt =====
-- src/service/gnb_udp_over_tcp.c: which command lines start which service, and with which log.
use gnb_udp_over_tcp.Prelude.{
  ℕ, ◌%◌, ◌≡◌, refl, sym, ap, ◌∙◌, inl, inr, Bool, true, false, ◌||◌, none, some, List, [], ◌∷◌,
  ◌==◌, if◌then◌else◌, arith, Bool-cases, Option-cases,
}
use gnb_udp_over_tcp.Program.{Parsed, Opts, option_value, option_flag, read_options}

-- Whether an option is among the results of `getopt_long`.
abbrev pub given : ℕ → List Parsed → Bool
given val [] = false
given val (p ∷ ps) = p.opt == val || given val ps

module _ (strtol strtoul : List ℕ → ℕ) (is_binary : List ℕ → Bool) where
  value-udp :
      (p : Parsed) (o o' : Opts)
      → option_value strtol strtoul is_binary p o ≡ some o'
      → o'.udp_opt ≡ (p.opt == b'u' || o.udp_opt)
  unfolding option_value
  value-udp p o o' h = ground arith

  value-tcp :
      (p : Parsed) (o o' : Opts)
      → option_value strtol strtoul is_binary p o ≡ some o'
      → o'.tcp_opt ≡ (p.opt == b't' || o.tcp_opt)
  unfolding option_value
  value-tcp p o o' h = ground arith

  abbrev port_after : Parsed → ℕ → ℕ
  port_after p old =
      if p.opt == b'l' then elim p.optarg [ none ↦ old | some arg ↦ strtol arg % 65536 ] else old

  -- The port of the last `-l`.
  abbrev pub last_port : List Parsed → ℕ → ℕ
  last_port [] old = old
  last_port (p ∷ ps) old = last_port ps (port_after p old)

  value-port :
      (p : Parsed) (o o' : Opts)
      → option_value strtol strtoul is_binary p o ≡ some o'
      → o'.listen_port ≡ port_after p o.listen_port
  unfolding option_value
  value-port p o o' h = ground arith

  -- The flags of the options that were read, beside those that stood before.
  abbrev pub Read : List Parsed → Opts → Opts → Type 0
  Read ps o o' =
      (given b'h' ps ≡ false)
      × (o'.udp_opt ≡ (given b'u' ps || o.udp_opt))
      × (o'.tcp_opt ≡ (given b't' ps || o.tcp_opt))
      × (o'.listen_port ≡ last_port ps o.listen_port)

  flag-keeps :
      (p : Parsed) (o : Opts)
      → ((option_flag p o).udp_opt ≡ o.udp_opt)
        × ((option_flag p o).tcp_opt ≡ o.tcp_opt)
        × ((option_flag p o).listen_port ≡ o.listen_port)
  unfolding option_flag
  flag-keeps p o = (ground arith, ground arith, ground arith)

  or_swap : (a b c : Bool) → (a || (b || c)) ≡ ((b || a) || c)
  or_swap true true c = refl
  or_swap true false c = refl
  or_swap false true c = refl
  or_swap false false c = refl

  pub read_options-Read :
      (ps : List Parsed) (o o' : Opts)
      → read_options strtol strtoul is_binary ps o ≡ some (some o')
      → Read ps o o'
  unfolding read_options
  read_options-Read [] o o' h =
      let same : o ≡ o' = cc in
      (
        refl,
        ap (λ (x : Opts). x.udp_opt) (sym same),
        ap (λ (x : Opts). x.tcp_opt) (sym same),
        ap (λ (x : Opts). x.listen_port) (sym same),
      )
  read_options-Read (p ∷ ps) o o' h = elim (Bool-cases (p.opt == b'h')) [
    | inl help ↦ absurd (let e = rw help at h in cc)
    | inr more ↦ elim (Option-cases (option_value strtol strtoul is_binary p o)) [
      | inl fault ↦ absurd (let e = rw (more, fault) at h in cc)
      | inr (o₁, e) ↦
          let rest = read_options-Read ps (option_flag p o₁) o' (rw (more, e) at h) in
          let kept = flag-keeps p o₁ in
          (
            rw more rest.0,
            rest.1
                ∙ ap (λ b. given b'u' ps || b) (kept.0 ∙ value-udp p o o₁ e)
                ∙ or_swap (given b'u' ps) (p.opt == b'u') o.udp_opt,
            rest.2
                ∙ ap (λ b. given b't' ps || b) (kept.1 ∙ value-tcp p o o₁ e)
                ∙ or_swap (given b't' ps) (p.opt == b't') o.tcp_opt,
            rest.3 ∙ ap (last_port ps) (kept.2 ∙ value-port p o o₁ e),
          )
    ]
  ]
