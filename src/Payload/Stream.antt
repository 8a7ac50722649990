-- ===== src/Payload/Stream.antt =====
-- What reassembly means, a byte at a time: the bytes of the frame that is under way, and the state
-- that the callback changes. This is an independent description of `gnb_payload16_handle`.
use gnb_udp_over_tcp.Prelude.{
  ℕ, ◌≡◌, refl, List, [], ◌∷◌, ◌++◌, ltb, ◌==◌, if◌then◌else◌, length, ntohs,
}

pub data Stream {ℓ} (S : Type ℓ) : Type ℓ where
  -- the bytes of a frame that is not complete
  pending : List ℕ → S → Stream S
  -- a size that is refused, with the number of the error
  refused : ℕ → S → Stream S
  -- a size from 1 to 3, which is smaller than what it heads
  undersized : Stream S

module _ {ℓ} {S : Type ℓ} (max : ℕ) (cb : List ℕ → S → S) where
  -- The size is known.
  unfoldable pub admit : List ℕ → S → Stream S
  admit p s =
      let n = ntohs p in
      if n == 0
      then refused 1 s
      else if ltb max n
      then refused 3 s
      else if ltb n 4
      then undersized
      else pending p s

  -- One more byte.
  unfoldable pub push : List ℕ → ℕ → S → Stream S
  unfolding admit
  push [] b s = pending (b ∷ []) s
  push (a ∷ []) b s = admit (a ∷ b ∷ []) s
  push (a ∷ a' ∷ p) b s =
      let q = a ∷ a' ∷ p ++ b ∷ [] in
      if length q == ntohs q then pending [] (cb q s) else pending q s

  unfoldable pub feed : Stream S → List ℕ → Stream S
  unfolding push
  feed st [] = st
  feed (pending p s) (b ∷ bs) = feed (push p b s) bs
  feed (refused e s) (b ∷ bs) = refused e s
  feed undersized (b ∷ bs) = undersized

  -- Where a stream is cut makes no difference.
  pub feed-append : (st : Stream S) (xs ys : List ℕ) → feed st (xs ++ ys) ≡ feed (feed st xs) ys
  unfolding feed
  feed-append st [] ys = refl
  feed-append (pending p s) (b ∷ bs) ys = feed-append (push p b s) bs ys
  feed-append (refused e s) (b ∷ bs) [] = refl
  feed-append (refused e s) (b ∷ bs) (y ∷ ys) = refl
  feed-append undersized (b ∷ bs) [] = refl
  feed-append undersized (b ∷ bs) (y ∷ ys) = refl
