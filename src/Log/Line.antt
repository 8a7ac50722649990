-- ===== src/Log/Line.antt =====
-- src/gnb_log.c: what gnb_logf does with a line, by its length.
use gnb_udp_over_tcp.Prelude.{
  ℕ, zero, suc, ◌+◌, ◌-◌, ◌/◌, ◌%◌, ◌≤◌, ◌<◌, ◌≡◌, refl, sym, ap, ◌∙◌, false, none, some, List, [],
  ◌∷◌, ◌++◌, append_assoc, ltb, ◌==◌, if◌then◌else◌, length, take, drop, memcpy-append,
  memcpy-outside, length-memcpy, ntohs, Bool-cases, Option-cases, inl, inr, arith, length-append,
  length-take, take-append, length-drop,
}
use gnb_udp_over_tcp.Payload.{
  put_size, payload16_set_data_len, payload16_type, payload16_data_len, payload16_data,
}
use gnb_udp_over_tcp.Network.{has_bit}
use gnb_udp_over_tcp.Log.Outputs.{
  console_fds, file_fds, writes, sends, console-writes, file-writes, send_both-sends,
}
use gnb_udp_over_tcp.Log.{
  LogCtx, LogType, Output, line_max, output_stdout, output_file, output_udp, udp_type_binary,
  log_console_output, log_file_output, log_udp_output, log_udp_binary_output, send_both, snprintf,
  log_outputs, gnb_logf,
}

take-short {ℓ} : {A : Type ℓ} (n : ℕ) (xs : List A) → length xs ≤ n → take n xs ≡ xs
take-short zero [] h = refl
take-short zero (x ∷ xs) h = absurd (omega arith)
take-short (suc n) [] h = refl
take-short (suc n) (x ∷ xs) h = ap (λ l. x ∷ l) (take-short n xs (omega arith))

-- The buffer: four bytes for a head and 4096 for the line.
module _ (a b c d : ℕ) (rest : List ℕ) (size : length rest ≡ line_max) where
  abbrev buffer : List ℕ
  buffer = a ∷ b ∷ c ∷ d ∷ rest

  -- The text and its NUL stand behind the head.
  first_print :
      (prefix : List ℕ)
      → length prefix < line_max
      → (tail : List ℕ) × (snprintf buffer 4 prefix ≡ some (a ∷ b ∷ c ∷ d ∷ prefix ++ tail))
        × (length prefix + length tail ≡ line_max)
  unfolding snprintf
  first_print prefix h =
      let whole = take-short (line_max - 1) prefix (omega arith) in
      let longer = length-append prefix (0 ∷ []) in
      (
        0 ∷ drop (length (prefix ++ 0 ∷ [])) rest,
        rw whole (
            memcpy-append (a ∷ b ∷ c ∷ d ∷ []) rest (prefix ++ 0 ∷ []) (omega (arith, longer))
            ∙ ap (λ l. some (a ∷ b ∷ c ∷ d ∷ l)) (append_assoc prefix (0 ∷ []) _)),
        omega (arith, longer, length-drop (length (prefix ++ 0 ∷ [])) rest),
      )

second_print :
    (a b c d : ℕ) (prefix tail message : List ℕ)
    → length prefix + length tail ≡ line_max
    → length prefix + length message < line_max
    → (tail' : List ℕ) × (snprintf (a ∷ b ∷ c ∷ d ∷ prefix ++ tail) (4 + length prefix) message
        ≡ some (a ∷ b ∷ c ∷ d ∷ (prefix ++ message) ++ tail'))
unfolding snprintf
second_print a b c d prefix tail message size h =
    let whole = take-short (line_max - 1) message (omega arith) in
    let longer = length-append message (0 ∷ []) in
    let at : 4 + length prefix ≡ length (a ∷ b ∷ c ∷ d ∷ prefix) = omega arith in
    (
      0 ∷ drop (length (message ++ 0 ∷ [])) tail,
      rw (whole, at)
          (memcpy-append (a ∷ b ∷ c ∷ d ∷ prefix) tail (message ++ 0 ∷ []) (omega (arith, longer))
            ∙ ap (λ l. some (a ∷ b ∷ c ∷ d ∷ l)) (simp (append_assoc))),
    )

abbrev log_frame : LogCtx → ℕ → List ℕ → List ℕ
log_frame log log_id text =
    (length text + 4) / 256 % 256 ∷ (length text + 4) % 256 ∷ log.log_payload_type ∷ log_id ∷ text

cut_frame :
    (size type id n : ℕ) (text tail : List ℕ)
    → take (length text + 4) (size ∷ n ∷ type ∷ id ∷ text ++ tail) ≡ size ∷ n ∷ type ∷ id ∷ text
cut_frame size type id n text tail =
    let more : length text + 4 ≡ suc (suc (suc (suc (length text)))) = omega arith in
    rw more (ap (λ l. size ∷ n ∷ type ∷ id ∷ l) (take-append text tail (length text) refl))

binary-log_frame :
    (log : LogCtx) (log_id a b c d : ℕ) (text tail : List ℕ)
    → length text < line_max
    → log_udp_binary_output log log_id (a ∷ b ∷ c ∷ d ∷ text ++ tail) (length text)
      ≡ send_both log (log_frame log log_id text)
unfolding log_udp_binary_output send_both payload16_set_data_len put_size
binary-log_frame log log_id a b c d text tail h =
    let small : length text % 65536 ≡ length text = omega arith in
    rw small (ap (send_both log) (cut_frame _ _ _ _ text tail))

module _ (log : LogCtx) (type : LogType) (log_id : ℕ) where
  -- What a line of text goes to.
  abbrev expected : List ℕ → List Output
  expected text =
      (if has_bit output_stdout log.output_type then log_console_output type text else [])
      ++ (if has_bit output_file log.output_type then log_file_output log type text else [])
      ++ (if has_bit output_udp log.output_type
          then send_both log
              (if log.log_udp_type == udp_type_binary then log_frame log log_id text else text)
          else [])

  udp_part :
      (a b c d : ℕ) (text tail : List ℕ)
      → length text < line_max
      → (if log.log_udp_type == udp_type_binary
          then log_udp_binary_output log log_id (a ∷ b ∷ c ∷ d ∷ text ++ tail) (length text)
          else log_udp_output log text)
        ≡ send_both log
            (if log.log_udp_type == udp_type_binary then log_frame log log_id text else text)
  unfolding log_udp_output send_both
  udp_part a b c d text tail h = elim (Bool-cases (log.log_udp_type == udp_type_binary)) [
    | inl e ↦ rw e (binary-log_frame log log_id a b c d text tail h)
    | inr e ↦ rw e refl
  ]

  outputs-expected :
      (a b c d : ℕ) (text tail : List ℕ)
      → length text < line_max
      → log_outputs log type log_id (a ∷ b ∷ c ∷ d ∷ text ++ tail) (length text) ≡ expected text
  unfolding log_outputs
  outputs-expected a b c d text tail h =
      rw (take-append text tail (length text) refl) (rw (udp_part a b c d text tail h) refl)

ltb_ge : (a b : ℕ) → b ≤ a → ltb a b ≡ false
ltb_ge a b h = ground arith

frame_fields :
    (log : LogCtx) (log_id : ℕ) (text : List ℕ)
    → length text < line_max
    → (payload16_type (log_frame log log_id text) ≡ log.log_payload_type)
      × (payload16_data_len (log_frame log log_id text) ≡ length text)
      × (payload16_data (log_frame log log_id text) ≡ text)
unfolding payload16_type payload16_data payload16_data_len ntohs
frame_fields log log_id text h = (refl, omega arith, refl)

-- For a buffer of 4100 bytes and a line shorter than 4096, made of a prefix and a message: as the
-- output type says, gnb_logf writes the line of a standard or debug log to descriptor 1 and that
-- of an error log to descriptor 2, writes it to the file of its type, and sends it to the
-- addresses of the log for IPv6 and for IPv4 from the sockets that are open, within a frame where
-- the log is binary; the frame has the payload type of the log, and its data length and data are
-- those of the line.
pub gnb_logf-outputs :
    (log : LogCtx) (type : LogType) (log_id level a b c d : ℕ) (rest prefix message : List ℕ)
    → length rest ≡ 4096
    → length prefix + length message < 4096
    → let text = prefix ++ message in
      (frame : List ℕ) × (gnb_logf log type log_id level (a ∷ b ∷ c ∷ d ∷ rest) prefix message
        ≡ some (
            (if has_bit 1 log.output_type then writes (console_fds type) text else [])
            ++ (if has_bit 2 log.output_type then writes (file_fds log.fds type) text else [])
            ++ (if has_bit 4 log.output_type
                then (let bytes = if log.log_udp_type == 1 then frame else text in
                    sends log.socket6_fd log.addr6 log.port6 bytes
                    ++ sends log.socket4_fd log.addr4 log.port4 bytes)
                else [])))
      × (payload16_type frame ≡ log.log_payload_type)
      × (payload16_data_len frame ≡ length text)
      × (payload16_data frame ≡ text)
unfolding gnb_logf
gnb_logf-outputs log type log_id level a b c d rest prefix message size h =
    let total = length-append prefix message in
    let (tail, first, room) = first_print a b c d rest size prefix (omega arith) in
    let (tail', second) = second_print a b c d prefix tail message room h in
    let short = ltb_ge line_max (length prefix) (omega arith) in
    let fits = ltb_ge line_max (length prefix + length message) (omega arith) in
    let (kind, size, contents) =
      frame_fields log log_id (prefix ++ message) (omega (arith, total)) in
    let text = prefix ++ message in
    let bytes = if log.log_udp_type == udp_type_binary then log_frame log log_id text else text in
    (
      log_frame log log_id text,
      rw first (
          rw short (
            rw second (
              rw fits (
                rw (sym total) (
                  ap some (
                    outputs-expected log type log_id a b c d text tail' (omega (arith, total))
                    ∙ rw
                        (
                          console-writes type text,
                          file-writes log type text,
                          send_both-sends log bytes,
                        )
                        refl)))))),
      kind,
      size,
      contents,
    )

-- For a buffer of 4100 bytes, a prefix of 1 to 4096 bytes and a message with which the line has
-- 4096 bytes or more: gnb_logf writes outside of its buffer, before it tests the length of the
-- line.
pub gnb_logf-overflow :
    (log : LogCtx) (type : LogType) (log_id level : ℕ) (buffer prefix message : List ℕ)
    → length buffer ≡ 4100
    → 0 < length prefix
    → length prefix ≤ 4096
    → 4096 ≤ length prefix + length message
    → gnb_logf log type log_id level buffer prefix message ≡ none
unfolding gnb_logf snprintf
gnb_logf-overflow log type log_id level buffer prefix message size some_text fits over =
    let short = ltb_ge line_max (length prefix) fits in
    let cut = length-append (take (line_max - 1) message) (0 ∷ []) in
    let taken = length-take (line_max - 1) message in
    elim (Option-cases (snprintf buffer 4 prefix)) [
      | inl e ↦ rw e refl
      | inr (b, e) ↦
          let same = length-memcpy buffer 4 _ b e in
          let out =
            memcpy-outside b (4 + length prefix) (take (line_max - 1) message ++ 0 ∷ [])
              (omega (arith, cut)) (omega (arith, cut, taken, same)) in
          rw (e, short, out) refl
    ]
