-- ===== src/Payload/Handle.antt =====
-- `gnb_payload16_handle` as a whole: the short cut for a chunk that is one frame, the calls for the
-- successive chunks of a TCP stream, and the frames that come out.
use gnb_udp_over_tcp.Prelude.{
  ℕ, ◌+◌, ◌<◌, ◌≡◌, refl, ap, true, false, ◌&&◌, List, [], ◌∷◌, ◌++◌, ltb, ◌==◌, length,
  length-append, drop, Bool-cases, memcpy-append, ntohs, ntohs-lt, ntohs-cons, subst, sym, arith,
  length-drop, inl, inr, dec_lt, ltb-false→le,
}
use gnb_udp_over_tcp.Payload.{
  max_frame_size, head_size, Ctx, handled, error, Outcome, returned, fault, out_of_fuel,
  handle_loop, loop_fuel, payload16_handle,
}
use gnb_udp_over_tcp.Payload.Stream.{pending, admit, push, feed}
use gnb_udp_over_tcp.Payload.Held.{Holds, ReadsFrame, Agrees}
use gnb_udp_over_tcp.Payload.Feed.{feed_whole, feed-refused}
use gnb_udp_over_tcp.Payload.Loop.{handle_loop-Agrees}

module _ {ℓ} {S : Type ℓ} (cb : List ℕ → S → S) where
  abbrev pub Correct : Ctx → List ℕ → List ℕ → S → Outcome S → Type ℓ
  Correct c p bytes s o =
      Agrees c.max_payload_size (feed c.max_payload_size cb (pending p s) bytes) o

  slow-Correct :
      (c : Ctx) (p bytes : List ℕ) (s : S)
      → ReadsFrame cb
      → Holds c p
      → Correct c p bytes s (handle_loop cb (loop_fuel cb bytes) c bytes s)
  unfolding loop_fuel
  slow-Correct c [] bytes s local held =
      handle_loop-Agrees c.max_payload_size cb (loop_fuel cb bytes) local c [] bytes s refl held
        (omega arith)
  slow-Correct c (a ∷ []) bytes s local held =
      handle_loop-Agrees c.max_payload_size cb (loop_fuel cb bytes) local c (a ∷ []) bytes s refl
        held (omega arith)
  slow-Correct c (a ∷ a' ∷ p) bytes s local held =
      handle_loop-Agrees c.max_payload_size cb (loop_fuel cb bytes) local c (a ∷ a' ∷ p) bytes s
        refl held (omega arith)

  -- The short cut: an error for the size, or a whole frame.
  fast-Correct :
      (c : Ctx) (a a' : ℕ) (rest : List ℕ) (s : S)
      → ReadsFrame cb
      → Holds c []
      → 2 < length rest
      → Correct c [] (a ∷ a' ∷ rest) s (payload16_handle cb (a ∷ a' ∷ rest) c s)
  unfolding payload16_handle feed push admit
  fast-Correct c a a' rest s local held long =
      let bytes = a ∷ a' ∷ rest in
      let n = ntohs bytes in
      let max = c.max_payload_size in
      let same : ntohs (a ∷ a' ∷ []) ≡ n = sym (ntohs-cons a a' rest) in
      let small : ltb max_frame_size n ≡ false = ground (arith, ntohs-lt bytes) in
      let test : ((c.r_len == 0) && ltb head_size (length bytes)) ≡ true = ground arith in
      rw (test, small)
        (elim (Bool-cases (n == 0)) [
          | inl zeroed ↦ rw (zeroed, same, zeroed, feed-refused max cb 1 s rest) (c, refl)
          | inr nonzero ↦ rw nonzero (elim (Bool-cases (n == length bytes)) [
            | inr other ↦ rw other (slow-Correct c [] bytes s local held)
            | inl whole ↦ rw whole (elim (Bool-cases (ltb max n)) [
              | inl large ↦ rw (large, same, nonzero, large, feed-refused max cb 3 s rest) (c, refl)
              | inr fits ↦
                  let complete : length rest + 2 ≡ ntohs (a ∷ a' ∷ []) = ground arith in
                  let over : ltb n 4 ≡ false = ground arith in
                  let copied = memcpy-append [] c.payload bytes (ground arith) in
                  let c' : Ctx = record c { payload = bytes ++ drop (length bytes) c.payload } in
                  rw
                    (
                      fits,
                      copied,
                      same,
                      nonzero,
                      fits,
                      over,
                      feed_whole max cb a a' [] rest s (omega arith) (omega arith),
                    )
                    (
                      c',
                      ap (returned handled c') (
                          local bytes (drop (length bytes) c.payload) s (ground arith)
                            (omega arith)),
                      refl,
                      (
                        held.0,
                        held.1,
                        omega (
                          arith,
                          held.2,
                          length-append bytes (drop (length bytes) c.payload),
                          length-drop (length bytes) c.payload,
                          ltb-false→le _ _ fits,
                        ),
                      ),
                    )
            ])
          ])
        ])

  by_loop :
      (bytes : List ℕ) (c : Ctx) (s : S)
      → ((c.r_len == 0) && ltb head_size (length bytes)) ≡ false
      → payload16_handle cb bytes c s ≡ handle_loop cb (loop_fuel cb bytes) c bytes s
  unfolding payload16_handle
  by_loop bytes c s h = rw h

  by_loop-Correct :
      (bytes : List ℕ) (c : Ctx) (p : List ℕ) (s : S)
      → ReadsFrame cb
      → Holds c p
      → ((c.r_len == 0) && ltb head_size (length bytes)) ≡ false
      → Correct c p bytes s (payload16_handle cb bytes c s)
  by_loop-Correct bytes c p s local held h =
      subst (Correct c p bytes s) (sym (by_loop bytes c s h)) (slow-Correct c p bytes s local held)

  -- For a callback that reads only its frame and a context that holds the bytes p of a frame under
  -- way: one call of gnb_payload16_handle, on a chunk of any length, returns what the stream says,
  -- with the fuel it is given: the frames that the chunk completes go to the callback in order,
  -- the rest is kept for the next call, and a size of 0 or above the limit is the error -1 or -3.
  -- Nothing is claimed where the stream reaches a size from 1 to 3.
  pub handle-Correct :
      (c : Ctx) (p bytes : List ℕ) (s : S)
      → ReadsFrame cb
      → Holds c p
      → Correct c p bytes s (payload16_handle cb bytes c s)
  handle-Correct c [] [] s local held = by_loop-Correct [] c [] s local held (ground arith)
  handle-Correct c [] (a ∷ []) s local held =
      by_loop-Correct (a ∷ []) c [] s local held (ground arith)
  handle-Correct c [] (a ∷ a' ∷ rest) s local held = elim (dec_lt 2 (length rest)) [
    | yes long ↦ fast-Correct c a a' rest s local held long
    | no short ↦ by_loop-Correct (a ∷ a' ∷ rest) c [] s local held (ground arith)
  ]
  handle-Correct c (b ∷ []) bytes s local held =
      by_loop-Correct bytes c (b ∷ []) s local held (ground arith)
  handle-Correct c (b ∷ b' ∷ p) bytes s local held =
      by_loop-Correct bytes c (b ∷ b' ∷ p) s local held (ground arith)

  -- The calls for the chunks that `recv` delivers; after an error the connection is given up.
  unfoldable pub handle_all : List (List ℕ) → Ctx → S → Outcome S
  unfolding payload16_handle
  handle_all [] c s = returned handled c s
  handle_all (bytes ∷ chunks) c s = elim (payload16_handle cb bytes c s) [
    | returned handled c' s' ↦ handle_all chunks c' s'
    | returned (error n) c' s' ↦ returned (error n) c' s'
    | fault ↦ fault
    | out_of_fuel ↦ out_of_fuel
  ]
