-- ===== src/Payload/Loop.antt =====
-- The `do` loop of `gnb_payload16_handle`.
use gnb_udp_over_tcp.Prelude.{
  ℕ, zero, suc, ◌<◌, ◌≡◌, refl, true, false, List, [], ◌∷◌, ltb, leb, length, subst, arith,
}
use gnb_udp_over_tcp.Payload.{
  Ctx, handled, Outcome, returned, Turn, leave, again, head_status, part_status, turn, handle_loop,
}
use gnb_udp_over_tcp.Payload.Stream.{Stream, pending, refused, undersized, feed}
use gnb_udp_over_tcp.Payload.Held.{Holds, ReadsFrame, Agrees, weight, Sound, Follows-Sound}
use gnb_udp_over_tcp.Payload.Part.{part-Follows}
use gnb_udp_over_tcp.Payload.Head.{head-Sound}

module _ {ℓ} {S : Type ℓ} (cb : List ℕ → S → S) (c : Ctx) (rest : List ℕ) (s : S) where
  pub turn-head : leb 2 c.r_len ≡ false → turn cb c rest s ≡ head_status cb c rest s
  unfolding turn
  turn-head h = rw h

  pub turn-part : leb 2 c.r_len ≡ true → turn cb c rest s ≡ part_status cb c rest s
  unfolding turn
  turn-part h = rw h

module _ {ℓ} {S : Type ℓ} (max : ℕ) (cb : List ℕ → S → S) where
  turn-Sound :
      (c : Ctx) (p rest : List ℕ) (s : S)
      → ReadsFrame cb
      → c.max_payload_size ≡ max
      → Holds c p
      → Sound max cb (feed max cb (pending p s) rest) (weight p rest) (turn cb c rest s)
  turn-Sound c [] rest s local e held =
      rw (turn-head cb c rest s (ground arith)) (head-Sound max cb c [] rest s (omega arith) e held)
  turn-Sound c (a ∷ []) rest s local e held =
      rw (turn-head cb c rest s (ground arith))
        (head-Sound max cb c (a ∷ []) rest s (omega arith) e held)
  turn-Sound c (a ∷ a' ∷ p) rest s local e held = rw (turn-part cb c rest s (ground arith)) (
      Follows-Sound max cb (feed max cb (pending (a ∷ a' ∷ p) s) rest) _ _
        (part-Follows max cb c a a' p rest s local e held))

  -- What the loop makes of a round.
  abbrev pub Continues : ℕ → Type ℓ
  Continues fuel =
      (c : Ctx) (p rest : List ℕ) (s : S)
      → c.max_payload_size ≡ max
      → Holds c p
      → weight p rest < fuel
      → Agrees max (feed max cb (pending p s) rest) (handle_loop cb fuel c rest s)

  after_turn : ℕ → Turn S → Outcome S
  after_turn fuel (leave o) = o
  after_turn fuel (again c rest s) = elim (ltb 0 (length rest)) [
    | true ↦ handle_loop cb fuel c rest s
    | false ↦ returned handled c s
  ]

  again-Agrees :
      (fuel w : ℕ) (c : Ctx) (p rest : List ℕ) (s : S)
      → w < suc fuel
      → Continues fuel
      → c.max_payload_size ≡ max
      → Holds c p
      → weight p rest < w
      → Agrees max (feed max cb (pending p s) rest) (after_turn fuel (again c rest s))
  unfolding feed after_turn
  again-Agrees fuel w c p [] s le go e held lt = (c, refl, e, held)
  again-Agrees fuel w c p (x ∷ rest) s le go e held lt =
      let more : ltb 0 (length (x ∷ rest)) ≡ true = ground arith in
      rw (more, after_turn) (go c p (x ∷ rest) s e held (omega arith))

  after_turn-Agrees :
      (fuel w : ℕ) (st : Stream S) (t : Turn S)
      → w < suc fuel
      → Continues fuel
      → Sound max cb st w t
      → Agrees max st (after_turn fuel t)
  unfolding after_turn
  after_turn-Agrees fuel w undersized t le go h = tt
  after_turn-Agrees fuel w (pending q s') (leave o) le go h = h
  after_turn-Agrees fuel w (refused n s') (leave o) le go h = h
  after_turn-Agrees fuel w (pending q s') (again c rest s) le go (p, held, e, future, lt) =
      subst (λ st. Agrees max st (after_turn fuel (again c rest s))) future
        (again-Agrees fuel w c p rest s le go e held lt)
  after_turn-Agrees fuel w (refused n s') (again c rest s) le go (p, held, e, future, lt) =
      subst (λ st. Agrees max st (after_turn fuel (again c rest s))) future
        (again-Agrees fuel w c p rest s le go e held lt)

  pub handle_loop-Agrees : (fuel : ℕ) → ReadsFrame cb → Continues fuel
  unfolding handle_loop after_turn
  handle_loop-Agrees zero local c p rest s e held lt = absurd (omega arith)
  handle_loop-Agrees (suc fuel) local c p rest s e held lt =
      after_turn-Agrees fuel (weight p rest) (feed max cb (pending p s) rest) (turn cb c rest s) lt
        (handle_loop-Agrees fuel local) (turn-Sound c p rest s local e held)
