-- ===== src/Prelude/Memory.antt =====
-- Blocks of bytes: `memcpy` into a block, and the big-endian 16-bit number at its start.
use Prim.Native.Nat.{ℕ, zero, suc, ◌+◌, ◌*◌, ◌%◌, ◌≤◌, ◌<◌}
use mathlib.Core.Path.{◌≡◌, refl, ap, sym}
use mathlib.Core.Logic.{inl, inr}
use gnb_udp_over_tcp.Prelude.Tests.{Option-cases}
use mathlib.Core.List.{List, [], ◌∷◌, ◌++◌, append-nil}
use mathlib.Core.Option
use mathlib.Core.Option.{Option, none, some}
use native.Mathlib.Omega.{arith}
use gnb_udp_over_tcp.Prelude.Lists.{length, drop}

-- `memcpy(mem + off, src, length src)`, and `none` where a byte would go outside of the block. No bytes
-- can be copied to anywhere.
unfoldable pub memcpy : List ℕ → ℕ → List ℕ → Option (List ℕ)
memcpy mem off [] = some mem
memcpy [] off (x ∷ xs) = none
memcpy (m ∷ mem) zero (x ∷ xs) = Option.map (λ r. x ∷ r) (memcpy mem zero xs)
memcpy (m ∷ mem) (suc off) (x ∷ xs) = Option.map (λ r. m ∷ r) (memcpy mem off (x ∷ xs))

-- `ntohs(*(uint16_t *)p)`; a `uint16_t` is below 65536 whatever is stored.
unfoldable pub ntohs : List ℕ → ℕ
ntohs (hi ∷ lo ∷ p) = (hi * 256 + lo) % 65536
ntohs p = 0

memcpy-start :
    (tail src : List ℕ)
    → length src ≤ length tail
    → memcpy tail 0 src ≡ some (src ++ drop (length src) tail)
unfolding memcpy
memcpy-start [] [] h = refl
memcpy-start [] (x ∷ src) h = absurd (omega arith)
memcpy-start (m ∷ tail) [] h = refl
memcpy-start (m ∷ tail) (x ∷ src) h = ground (arith, memcpy-start tail src)

-- A copy behind the bytes `p` replaces what follows them.
pub memcpy-append :
    (p tail src : List ℕ)
    → length src ≤ length tail
    → memcpy (p ++ tail) (length p) src ≡ some (p ++ src ++ drop (length src) tail)
unfolding memcpy
memcpy-append [] tail src h = memcpy-start tail src h
memcpy-append (x ∷ p) tail [] h = ap (λ l. some (l ++ tail)) (sym (append-nil (x ∷ p)))
memcpy-append (x ∷ p) tail (y ∷ src) h = ground (arith, memcpy-append p tail (y ∷ src))

pub memcpy-nil : (mem : List ℕ) (off : ℕ) → memcpy mem off [] ≡ some mem
unfolding memcpy
memcpy-nil mem off = refl

pub ntohs-lt : (p : List ℕ) → ntohs p < 65536
unfolding ntohs
ntohs-lt [] = omega arith
ntohs-lt (x ∷ []) = omega arith
ntohs-lt (x ∷ y ∷ p) = omega arith

pub ntohs-cons : (a b : ℕ) (p : List ℕ) → ntohs (a ∷ b ∷ p) ≡ ntohs (a ∷ b ∷ [])
unfolding ntohs
ntohs-cons a b p = refl

pub memcpy-outside :
    (mem : List ℕ) (off : ℕ) (src : List ℕ)
    → 0 < length src
    → length mem < off + length src
    → memcpy mem off src ≡ none
unfolding memcpy
memcpy-outside mem off [] pos h = absurd (omega arith)
memcpy-outside [] off (x ∷ xs) pos h = refl
memcpy-outside (m ∷ mem) zero (x ∷ []) pos h = absurd (omega arith)
memcpy-outside (m ∷ mem) zero (x ∷ y ∷ xs) pos h =
    rw (memcpy-outside mem zero (y ∷ xs) (omega arith) (omega arith)) refl
memcpy-outside (m ∷ mem) (suc off) (x ∷ xs) pos h =
    rw (memcpy-outside mem off (x ∷ xs) pos (omega arith)) refl

pub length-memcpy :
    (mem : List ℕ) (off : ℕ) (src m : List ℕ) → memcpy mem off src ≡ some m → length m ≡ length mem
unfolding memcpy
length-memcpy mem off [] m h = ground (arith, h)
length-memcpy [] off (x ∷ xs) m h = ground (arith, h)
length-memcpy (y ∷ mem) zero (x ∷ xs) m h = elim (Option-cases (memcpy mem zero xs)) [
  | inl gone ↦ ground (arith, h, gone)
  | inr (r, e) ↦ let n = length-memcpy mem zero xs r e in ground (arith, h, e)
]
length-memcpy (y ∷ mem) (suc off) (x ∷ xs) m h = elim (Option-cases (memcpy mem off (x ∷ xs))) [
  | inl gone ↦ ground (arith, h, gone)
  | inr (r, e) ↦ let n = length-memcpy mem off (x ∷ xs) r e in ground (arith, h, e)
]
