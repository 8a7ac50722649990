-- ===== src/Payload/Part.antt =====
-- GNB_FRAME_STATUS_PART: a round that copies into the payload.
use gnb_udp_over_tcp.Prelude.{
  ℕ, ◌+◌, ◌-◌, ◌≤◌, ◌<◌, ◌≡◌, refl, ap, ◌∙◌, false, List, [], ◌∷◌, ◌++◌, some, ltb, leb, length,
  length-append, take, drop, take-append-drop, length-take, length-drop, Bool-cases, memcpy,
  memcpy-append, ntohs, ntohs-cons, leb→le, sym, arith, inl, inr,
}
use gnb_udp_over_tcp.Payload.{Ctx, part_status}
use gnb_udp_over_tcp.Payload.Stream.{pending, feed, feed-append}
use gnb_udp_over_tcp.Payload.Held.{Holds, ReadsFrame, weight, Follows}
use gnb_udp_over_tcp.Payload.Feed.{feed_under, feed_whole}

module _ {ℓ} {S : Type ℓ} (max : ℕ) (cb : List ℕ → S → S) where
  memcpy-held :
      (c : Ctx) (a a' : ℕ) (p ys : List ℕ)
      → Holds c (a ∷ a' ∷ p)
      → length p + length ys + 2 ≤ c.max_payload_size
      → (tail : List ℕ) × (memcpy c.payload c.r_len ys ≡ some ((a ∷ a' ∷ p ++ ys) ++ tail))
        × (length ((a ∷ a' ∷ p ++ ys) ++ tail) ≡ c.max_payload_size + 4)
  memcpy-held c a a' p ys (len, buf, le, lt, size, tail, block) fits =
      let q = a ∷ a' ∷ p in
      let room : length ys ≤ length tail = omega (arith, length-append q tail, ap length block) in
      (
        drop (length ys) tail,
        rw (block, len) (memcpy-append q tail ys room),
        omega (
          arith,
          length-append q tail,
          ap length block,
          length-append (q ++ ys) (drop (length ys) tail),
          length-append q ys,
          length-drop (length ys) tail,
        ),
      )

  complete :
      (a a' : ℕ) (p rest tail : List ℕ) (need : ℕ) (s : S)
      → ReadsFrame cb
      → length p + 2 < ntohs (a ∷ a' ∷ [])
      → 3 < ntohs (a ∷ a' ∷ [])
      → length p + need + 2 ≡ ntohs (a ∷ a' ∷ [])
      → need ≤ length rest
      → feed max cb (pending [] (cb ((a ∷ a' ∷ p ++ take need rest) ++ tail) s)) (drop need rest)
        ≡ feed max cb (pending (a ∷ a' ∷ p) s) rest
  complete a a' p rest tail need s local lt covers sum enough =
      let ys = take need rest in
      let q = a ∷ a' ∷ p ++ ys in
      let size : length ys ≡ need = omega (arith, length-take need rest) in
      let whole : ntohs q ≡ length q =
        omega (arith, ntohs-cons a a' (p ++ ys), length-append p ys) in
      ap (λ s'. feed max cb (pending [] s') (drop need rest))
        (local q tail s whole (omega (arith, length-append p ys)))
      ∙ ap (λ st. feed max cb st (drop need rest))
          (sym (feed_whole max cb a a' p ys s lt (omega arith)))
      ∙ sym (feed-append max cb (pending (a ∷ a' ∷ p) s) ys (drop need rest))
      ∙ ap (feed max cb (pending (a ∷ a' ∷ p) s)) (take-append-drop need rest)

  pub part-Follows :
      (c : Ctx) (a a' : ℕ) (p rest : List ℕ) (s : S)
      → ReadsFrame cb
      → c.max_payload_size ≡ max
      → Holds c (a ∷ a' ∷ p)
      → Follows max cb
          (feed max cb (pending (a ∷ a' ∷ p) s) rest)
          (weight (a ∷ a' ∷ p) rest)
          (part_status cb c rest s)
  unfolding part_status
  part-Follows c a a' p rest s local e held =
      let (len, buf, le, (lt, covers), size, tail, block) = held in
      let n = ntohs c.buffer in
      let n_lem : n ≡ ntohs (a ∷ a' ∷ []) = ap ntohs buf in
      let need = n - c.r_len in
      let size_ok : ltb c.max_payload_size n ≡ false = ground arith in
      let ahead : ltb n c.r_len ≡ false = ground arith in
      rw (size_ok, ahead)
        (elim (Bool-cases (leb need (length rest))) [
          | inl enough ↦
              let le_rest : need ≤ length rest = leb→le _ _ enough in
              let (tl, copied, size') =
                memcpy-held c a a' p (take need rest) held (omega (arith, length-take need rest)) in
              rw (enough, copied)
                (
                  [],
                  (refl, rw buf refl, size'),
                  e,
                  complete a a' p rest tl need s local lt covers (omega arith) le_rest,
                  omega (arith, length-drop need rest),
                )
          | inr short ↦
              let few : length rest < need = ground arith in
              let (tl, copied, size') = memcpy-held c a a' p rest held (omega arith) in
              rw (short, copied, feed_under max cb a a' p rest s (omega arith))
                (
                  record c { r_len = _; payload = _ },
                  refl,
                  e,
                  (
                    omega (arith, length-append p rest),
                    buf,
                    le,
                    (omega (arith, length-append p rest), covers),
                    size',
                    tl,
                    refl,
                  ),
                )
        ])
