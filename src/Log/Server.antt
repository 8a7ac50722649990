-- ===== src/Log/Server.antt =====
-- src/gnb_log.c: the server of the log, and gnb_log_udp_set_addr4_string on a text `ip:port`.
use gnb_udp_over_tcp.Prelude.{
  ℕ, zero, suc, ◌+◌, ◌-◌, ◌%◌, ◌^◌, ◌≤◌, ◌<◌, ◌≡◌, refl, ap, ◌∙◌, ◌≢◌, Bool, true, false, Option,
  none, some, List, [], ◌∷◌, ◌++◌, append_assoc, ltb, ◌==◌, if◌then◌else◌, length, take, drop,
  replicate, arith, length-append,
}
use gnb_udp_over_tcp.Address.Text.{cut_colon}
use gnb_udp_over_tcp.Log.{LogCtx}

-- The sockets that `socket` gives; `loopback6` is `in6addr_loopback`.
unfoldable pub log_udp_open :
    (htons : ℕ → ℕ) → (loopback6 : List ℕ) → (socket6 socket4 : Option ℕ) → LogCtx → LogCtx
log_udp_open htons loopback6 socket6 socket4 log = record log {
  socket6_fd = socket6;
  socket4_fd = socket4;
  addr6 = loopback6;
  port6 = htons 9000;
  addr4 = 127 ∷ 0 ∷ 0 ∷ 1 ∷ [];
  port4 = htons 9000;
}

module _ (inet_pton : List ℕ → Option (List ℕ)) (htons : ℕ → ℕ) where
  unfoldable pub log_udp_set_addr4 : LogCtx → List ℕ → ℕ → LogCtx
  log_udp_set_addr4 log ip port4 = record log {
    addr4 = elim (inet_pton ip) [ none ↦ log.addr4 | some b ↦ b ];
    port4 = htons port4;
  }

  unfoldable pub log_udp_set_addr6 : LogCtx → List ℕ → ℕ → LogCtx
  log_udp_set_addr6 log ip port6 = record log {
    addr6 = elim (inet_pton ip) [ none ↦ log.addr6 | some b ↦ b ];
    port6 = htons port6;
  }

  -- `16 + 1 + sizeof("65535")` bytes are copied; `behind` is the last byte of the copy and what
  -- follows it. The result is whether the function returns 0.
  unfoldable pub log_udp_set_addr4_string :
      (strtoul : List ℕ → ℕ) → (behind : List ℕ) → LogCtx → List ℕ → Bool × LogCtx
  unfolding cut_colon
  log_udp_set_addr4_string strtoul behind log text =
      if ltb 23 (length text)
      then (false, log)
      else (let (copy, p) = cut_colon (length text) (take 23 (text ++ replicate 23 0) ++ behind) in
          let ul : ℕ = strtoul (drop (p + 1) copy) in
          if ul == 2 ^ 64 - 1 then (false, log) else (
            true,
            record log {
              port4 = htons (ul % 65536);
              addr4 = elim (inet_pton copy) [ none ↦ log.addr4 | some b ↦ b ];
            },
          ))

-- No byte of the text is a ':'.
abbrev pub NoColon : List ℕ → Type 0
NoColon [] = Unit {0}
NoColon (c ∷ s) = (c ≢ 58) × NoColon s

cut_colon-first :
    (n : ℕ) (ip rest : List ℕ)
    → NoColon ip
    → length ip < n
    → cut_colon n (ip ++ 58 ∷ rest) ≡ (ip ++ 0 ∷ rest, length ip)
unfolding cut_colon
cut_colon-first zero ip rest clean h = absurd (omega arith)
cut_colon-first (suc n) [] rest clean h = refl
cut_colon-first (suc n) (c ∷ ip) rest clean h =
    let other : (c == 58) ≡ false = ground (arith, clean.0) in
    let ih = cut_colon-first n ip rest clean.1 (omega arith) in
    let more : length ip + 1 ≡ suc (length ip) = omega arith in rw (other, ih, more) refl

-- A text that does not fill the copy ends with a NUL there.
copy_ends :
    (text : List ℕ) (n m : ℕ)
    → length text < n
    → n ≤ length text + m
    → (tail : List ℕ) × (take n (text ++ replicate m 0) ≡ text ++ 0 ∷ tail)
copy_ends text zero m h fits = absurd (omega arith)
copy_ends [] (suc n) zero h fits = absurd (omega arith)
copy_ends [] (suc n) (suc m) h fits = (take n (replicate m 0), refl)
copy_ends (x ∷ text) (suc n) m h fits =
    let (tail, e) = copy_ends text n m (omega arith) (omega arith) in (tail, ap (λ l. x ∷ l) e)

drop_past : (s : List ℕ) (c : ℕ) (rest : List ℕ) → drop (length s + 1) (s ++ c ∷ rest) ≡ rest
drop_past [] c rest = refl
drop_past (x ∷ s) c rest =
    let more : suc (length s) + 1 ≡ suc (length s + 1) = omega arith in rw more (drop_past s c rest)

ltb_ge : (a b : ℕ) → b ≤ a → ltb a b ≡ false
ltb_ge a b h = ground arith

cut_copy :
    (ip port copy tail behind : List ℕ)
    → NoColon ip
    → copy ≡ (ip ++ 58 ∷ port) ++ 0 ∷ tail
    → cut_colon (length (ip ++ 58 ∷ port)) (copy ++ behind)
      ≡ (ip ++ 0 ∷ (port ++ 0 ∷ (tail ++ behind)), length ip)
cut_copy ip port copy tail behind clean copied =
    let joined : copy ++ behind ≡ ip ++ 58 ∷ (port ++ 0 ∷ (tail ++ behind)) =
      rw copied (simp (append_assoc)) in
    rw joined (
      cut_colon-first (length (ip ++ 58 ∷ port)) ip (port ++ 0 ∷ (tail ++ behind)) clean
        (omega (arith, length-append ip (58 ∷ port))))

-- For functions inet_pton and strtoul that read up to the NUL, an ip without a colon and a port
-- below 65536, whose texts have fewer than 22 bytes together: gnb_log_udp_set_addr4_string of
-- "ip:port" returns 0 and sets the port to that number and the address to what inet_pton gives for
-- the ip, or leaves the address where it gives nothing.
pub set_addr4_string-parts :
    (inet_pton : List ℕ → Option (List ℕ)) (strtoul : List ℕ → ℕ) (htons : ℕ → ℕ)
    (host : List ℕ → Option (List ℕ)) (number : List ℕ → ℕ)
    (pton_stops : (text rest : List ℕ) → inet_pton (text ++ 0 ∷ rest) ≡ host text)
    (strtoul_stops : (text rest : List ℕ) → strtoul (text ++ 0 ∷ rest) ≡ number text) (log : LogCtx)
    (behind ip port : List ℕ)
    → NoColon ip
    → length ip + length port < 22
    → number port < 65536
    → log_udp_set_addr4_string inet_pton htons strtoul behind log (ip ++ 58 ∷ port) ≡ (
      true,
      record log {
        port4 = htons (number port);
        addr4 = elim (host ip) [ none ↦ log.addr4 | some b ↦ b ];
      },
    )
unfolding log_udp_set_addr4_string
set_addr4_string-parts inet_pton strtoul htons host number pton_stops strtoul_stops log behind ip
      port clean h small =
    let total : length (ip ++ 58 ∷ port) ≡ suc (length ip + length port) =
      length-append ip (58 ∷ port) ∙ omega arith in
    let (tail, copied) =
      copy_ends (ip ++ 58 ∷ port) 23 23 (omega (arith, total)) (omega (arith, total)) in
    let behind_port : List ℕ = tail ++ behind in
    let found =
      cut_copy ip port (take 23 ((ip ++ 58 ∷ port) ++ replicate 23 0)) tail behind clean copied in
    let short = ltb_ge 23 (length (ip ++ 58 ∷ port)) (omega (arith, total)) in
    let valid : (number port == 2 ^ 64 - 1) ≡ false = ground arith in
    let reduced : number port % 65536 ≡ number port = omega arith in
    rw
      (
        short,
        found,
        drop_past ip 0 (port ++ 0 ∷ behind_port),
        strtoul_stops port behind_port,
        valid,
        pton_stops ip (port ++ 0 ∷ behind_port),
        reduced,
      )
      refl
