-- ===== src/Payload/Feed.antt =====
-- What the stream makes of bytes that do not complete a frame, and of those that do.
use gnb_udp_over_tcp.Prelude.{
  ℕ, ◌+◌, ◌<◌, ◌≡◌, refl, ap, ◌∙◌, List, [], ◌∷◌, ◌++◌, append-nil, append_assoc, length,
  length-append, ntohs, arith,
}
use gnb_udp_over_tcp.Payload.Stream.{pending, refused, undersized, push, feed}

module _ {ℓ} {S : Type ℓ} (max : ℕ) (cb : List ℕ → S → S) where
  push-pending :
      (a a' : ℕ) (p : List ℕ) (x : ℕ) (s : S)
      → length p + 3 < ntohs (a ∷ a' ∷ [])
      → push max cb (a ∷ a' ∷ p) x s ≡ pending (a ∷ a' ∷ p ++ x ∷ []) s
  unfolding push ntohs
  push-pending a a' p x s h = ground (arith, length-append p (x ∷ []))

  push_complete :
      (a a' : ℕ) (p : List ℕ) (x : ℕ) (s : S)
      → length p + 3 ≡ ntohs (a ∷ a' ∷ [])
      → push max cb (a ∷ a' ∷ p) x s ≡ pending [] (cb (a ∷ a' ∷ p ++ x ∷ []) s)
  unfolding push ntohs
  push_complete a a' p x s h = ground (arith, length-append p (x ∷ []))

  pub feed_under :
      (a a' : ℕ) (p xs : List ℕ) (s : S)
      → length p + length xs + 2 < ntohs (a ∷ a' ∷ [])
      → feed max cb (pending (a ∷ a' ∷ p) s) xs ≡ pending (a ∷ a' ∷ p ++ xs) s
  unfolding feed
  feed_under a a' p [] s h = rw append-nil
  feed_under a a' p (x ∷ xs) s h = rw (push-pending a a' p x s (omega arith)) (
      feed_under a a' (p ++ x ∷ []) xs s (omega (arith, length-append p (x ∷ [])))
      ∙ ap (λ q. pending (a ∷ a' ∷ q) s) (append_assoc p (x ∷ []) xs))

  feed_exact :
      (a a' : ℕ) (p : List ℕ) (x : ℕ) (xs : List ℕ) (s : S)
      → length p + length (x ∷ xs) + 2 ≡ ntohs (a ∷ a' ∷ [])
      → feed max cb (pending (a ∷ a' ∷ p) s) (x ∷ xs) ≡ pending [] (cb (a ∷ a' ∷ p ++ x ∷ xs) s)
  unfolding feed
  feed_exact a a' p x [] s h = push_complete a a' p x s (omega arith)
  feed_exact a a' p x (y ∷ xs) s h =
      ap (λ st. feed max cb st (y ∷ xs)) (push-pending a a' p x s (omega arith))
      ∙ feed_exact a a' (p ++ x ∷ []) y xs s (omega (arith, length-append p (x ∷ [])))
      ∙ ap (λ q. pending [] (cb (a ∷ a' ∷ q) s)) (append_assoc p (x ∷ []) (y ∷ xs))

  pub feed_whole :
      (a a' : ℕ) (p ys : List ℕ) (s : S)
      → length p + 2 < ntohs (a ∷ a' ∷ [])
      → length p + length ys + 2 ≡ ntohs (a ∷ a' ∷ [])
      → feed max cb (pending (a ∷ a' ∷ p) s) ys ≡ pending [] (cb (a ∷ a' ∷ p ++ ys) s)
  feed_whole a a' p [] s lt h = absurd (omega arith)
  feed_whole a a' p (y ∷ ys) s lt h = feed_exact a a' p y ys s h

  pub feed-refused : (e : ℕ) (s : S) (xs : List ℕ) → feed max cb (refused e s) xs ≡ refused e s
  unfolding feed
  feed-refused e s [] = refl
  feed-refused e s (x ∷ xs) = refl

  pub feed-undersized : (xs : List ℕ) → feed max cb undersized xs ≡ undersized
  unfolding feed
  feed-undersized [] = refl
  feed-undersized (x ∷ xs) = refl
