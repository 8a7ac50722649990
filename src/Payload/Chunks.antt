-- ===== src/Payload/Chunks.antt =====
-- The chunks of a TCP stream, and the frames that come out of it.
use gnb_udp_over_tcp.Prelude.{
  ℕ, ◌+◌, ◌≤◌, ◌<◌, ◌≡◌, refl, ap, ◌∙◌, List, [], ◌∷◌, flatten, foldl, length, ntohs, ntohs-cons,
  subst, arith, false, ltb, ◌==◌,
}
use gnb_udp_over_tcp.Payload.{
  Ctx, handled, error, Outcome, returned, fault, out_of_fuel, payload16_handle,
}
use gnb_udp_over_tcp.Payload.Stream.{
  Stream, pending, refused, undersized, admit, push, feed, feed-append,
}
use gnb_udp_over_tcp.Payload.Held.{Holds, ReadsFrame, Agrees}
use gnb_udp_over_tcp.Payload.Feed.{feed_whole, feed-refused, feed-undersized}
use gnb_udp_over_tcp.Payload.Handle.{handle_all, handle-Correct}

-- A frame that the limit admits: its size field is its length, and covers its head.
abbrev pub IsFrame : ℕ → List ℕ → Type 0
IsFrame max q = (ntohs q ≡ length q) × (3 < length q) × (length q ≤ max)

abbrev pub AllFrames : ℕ → List (List ℕ) → Type 0
AllFrames max [] = Unit
AllFrames max (q ∷ qs) = IsFrame max q × AllFrames max qs

module _ {ℓ} {S : Type ℓ} (max : ℕ) (cb : List ℕ → S → S) where
  after_chunk : List (List ℕ) → Outcome S → Outcome S
  after_chunk chunks (returned handled c s) = handle_all cb chunks c s
  after_chunk chunks (returned (error n) c s) = returned (error n) c s
  after_chunk chunks fault = fault
  after_chunk chunks out_of_fuel = out_of_fuel

  abbrev AllAgree : List (List ℕ) → Type ℓ
  AllAgree chunks =
      (c : Ctx) (p : List ℕ) (s : S)
      → c.max_payload_size ≡ max
      → Holds c p
      → Agrees max (feed max cb (pending p s) (flatten chunks)) (handle_all cb chunks c s)

  after_chunk-Agrees :
      (st : Stream S) (o : Outcome S) (chunks : List (List ℕ))
      → AllAgree chunks
      → Agrees max st o
      → Agrees max (feed max cb st (flatten chunks)) (after_chunk chunks o)
  unfolding after_chunk
  after_chunk-Agrees (pending p s) o chunks go (c, returns, e, held) =
      rw (returns, after_chunk) (go c p s e held)
  after_chunk-Agrees (refused n s) o chunks go (c, returns) =
      rw (feed-refused max cb n s (flatten chunks), returns, after_chunk) (c, refl)
  after_chunk-Agrees undersized o chunks go h = rw (feed-undersized max cb (flatten chunks)) tt

  all_agree : (chunks : List (List ℕ)) → ReadsFrame cb → AllAgree chunks
  unfolding handle_all flatten feed after_chunk
  all_agree [] local c p s e held = (c, refl, e, held)
  all_agree (bytes ∷ chunks) local c p s e held =
      let st = feed max cb (pending p s) bytes in
      let o = payload16_handle cb bytes c s in
      let now : Agrees max st o =
        subst (λ m. Agrees m (feed m cb (pending p s) bytes) o) e
          (handle-Correct cb c p bytes s local held) in
      rw (feed-append max cb (pending p s) bytes (flatten chunks))
        (after_chunk-Agrees st o chunks (all_agree chunks local) now)

  -- For a callback that reads only its frame and a context that holds the bytes p of a frame under
  -- way: however a stream is cut into chunks, the successive calls of gnb_payload16_handle return
  -- what the stream, read byte by byte, says: the same frames in the same order went to the
  -- callback, the context holds the bytes of the frame that is not complete, and a size of 0 or
  -- above the limit ends in the error -1 or -3. Nothing is claimed where the stream reaches a size
  -- from 1 to 3.
  pub handle_all-Agrees :
      (chunks : List (List ℕ)) (c : Ctx) (p : List ℕ) (s : S)
      → ReadsFrame cb
      → c.max_payload_size ≡ max
      → Holds c p
      → Agrees max (feed max cb (pending p s) (flatten chunks)) (handle_all cb chunks c s)
  handle_all-Agrees chunks c p s local e held = all_agree chunks local c p s e held

  feed-frame :
      (q : List ℕ) (s : S) → IsFrame max q → feed max cb (pending [] s) q ≡ pending [] (cb q s)
  unfolding feed push admit
  feed-frame [] s h = absurd (omega arith)
  feed-frame (a ∷ []) s h = absurd (omega arith)
  feed-frame (a ∷ a' ∷ q) s (size, lt, le) =
      let n = ntohs (a ∷ a' ∷ []) in
      let same : n ≡ length q + 2 = omega (arith, ntohs-cons a a' q) in
      let nonzero : (n == 0) ≡ false = ground arith in
      let fits : ltb max n ≡ false = ground arith in
      let over : ltb n 4 ≡ false = ground arith in
      rw (nonzero, fits, over) (feed_whole max cb a a' [] q s (omega arith) (omega arith))

  feed-frames :
      (qs : List (List ℕ)) (s : S)
      → AllFrames max qs
      → feed max cb (pending [] s) (flatten qs) ≡ pending [] (foldl (λ s' q. cb q s') s qs)
  unfolding feed flatten
  feed-frames [] s h = refl
  feed-frames (q ∷ qs) s (h, hs) =
      feed-append max cb (pending [] s) q (flatten qs)
      ∙ ap (λ st. feed max cb st (flatten qs)) (feed-frame q s h)
      ∙ feed-frames qs (cb q s) hs

  -- For a callback that reads only its frame, a context that holds nothing, and frames within the
  -- context's limit whose size field is their length (at least 4): however their bytes are cut
  -- into chunks, the successive calls of gnb_payload16_handle return 0, each frame has gone to the
  -- callback once and in order, and the context holds nothing again.
  pub frames-arrive :
      (c : Ctx) (chunks qs : List (List ℕ)) (s : S)
      → ReadsFrame cb
      → c.max_payload_size ≡ max
      → Holds c []
      → AllFrames max qs
      → flatten chunks ≡ flatten qs
      → (c' : Ctx) × (handle_all cb chunks c s ≡ returned handled c' (foldl (λ s' q. cb q s') s qs))
        × (c'.max_payload_size ≡ max)
        × Holds c' []
  frames-arrive c chunks qs s local e held whole cut =
      subst (λ st. Agrees max st (handle_all cb chunks c s))
        (ap (feed max cb (pending [] s)) cut ∙ feed-frames qs s whole)
        (all_agree chunks local c [] s e held)
