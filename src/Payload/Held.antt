-- ===== src/Payload/Held.antt =====
-- How a context stands for the bytes of a frame under way, and what a round or a call has to do.
use gnb_udp_over_tcp.Prelude.{ℕ, ◌+◌, ◌*◌, ◌≤◌, ◌<◌, ◌≡◌, List, [], ◌∷◌, ◌++◌, length, ntohs}
use gnb_udp_over_tcp.Payload.{Ctx, handled, error, Outcome, returned, Turn, leave, again}
use gnb_udp_over_tcp.Payload.Stream.{Stream, pending, refused, undersized, feed}

-- The context holds the bytes `p` of a frame under way.
abbrev pub Holds : Ctx → List ℕ → Type 0
Holds c [] = (c.r_len ≡ 0) × (length c.buffer ≡ 2) × (length c.payload ≡ c.max_payload_size + 4)
Holds c (a ∷ []) =
    (c.r_len ≡ 1) × (length c.payload ≡ c.max_payload_size + 4) × (j : ℕ) × (c.buffer ≡ a ∷ j ∷ [])
Holds c (a ∷ a' ∷ p) =
    (c.r_len ≡ length (a ∷ a' ∷ p))
    × (c.buffer ≡ a ∷ a' ∷ [])
    × (ntohs (a ∷ a' ∷ []) ≤ c.max_payload_size)
    × ((length p + 2 < ntohs (a ∷ a' ∷ [])) × (3 < ntohs (a ∷ a' ∷ [])))
    × (length c.payload ≡ c.max_payload_size + 4)
    × (tail : List ℕ) × (c.payload ≡ a ∷ a' ∷ p ++ tail)

-- The callback reads no more than the frame at the start of the payload block.
abbrev pub ReadsFrame {ℓ} : {S : Type ℓ} → (List ℕ → S → S) → Type ℓ
ReadsFrame {S} cb =
    (q tail : List ℕ) (s : S) → ntohs q ≡ length q → 3 < length q → cb (q ++ tail) s ≡ cb q s

module _ {ℓ} {S : Type ℓ} where
  -- What a call has to return for what the stream says.
  abbrev pub Agrees : ℕ → Stream S → Outcome S → Type ℓ
  Agrees max (pending p s) o =
      (c : Ctx) × (o ≡ returned handled c s) × (c.max_payload_size ≡ max) × Holds c p
  Agrees max (refused e s) o = (c : Ctx) × (o ≡ returned (error e) c s)
  Agrees max undersized o = Unit

-- The rounds that the rest of a chunk can take.
abbrev pub weight : List ℕ → List ℕ → ℕ
weight [] rest = 2 * length rest
weight (a ∷ []) rest = 2 * length rest
weight (a ∷ a' ∷ p) rest = 2 * length rest + 1

module _ {ℓ} {S : Type ℓ} (max : ℕ) (cb : List ℕ → S → S) where
  -- One round: it returns as the stream says, or goes on with a state that has the same future.
  abbrev pub Follows : Stream S → ℕ → Turn S → Type ℓ
  Follows st w (leave o) = Agrees max st o
  Follows st w (again c rest s) =
      (p : List ℕ) × Holds c p
      × (c.max_payload_size ≡ max)
      × (feed max cb (pending p s) rest ≡ st)
      × (weight p rest < w)

  -- Nothing is asked where the stream is undersized.
  abbrev pub Sound : Stream S → ℕ → Turn S → Type ℓ
  Sound undersized w t = Unit
  Sound (pending p s) w t = Follows (pending p s) w t
  Sound (refused e s) w t = Follows (refused e s) w t

  pub Follows-Sound : (st : Stream S) (w : ℕ) (t : Turn S) → Follows st w t → Sound st w t
  Follows-Sound (pending p s) w t h = h
  Follows-Sound (refused e s) w t h = h
  Follows-Sound undersized w t h = tt
