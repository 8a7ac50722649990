-- ===== src/Address/Order.antt =====
-- `gnb_htonll` and `gnb_ntohll` of src/gnb_address.c: the bytes of a 64-bit number in reverse.
use gnb_udp_over_tcp.Prelude.{
  ℕ, zero, suc, ◌+◌, ◌*◌, ◌/◌, ◌%◌, ◌^◌, ◌≡◌, ◌≤◌, ◌<◌, refl, ap, ◌∙◌, List, [], ◌∷◌, length, arith,
}
use gnb_udp_over_tcp.Hash32.{le_number}
use gnb_udp_over_tcp.Address.{htonll, ntohll, htonll_loop}

-- The bytes of a number as a little-endian machine stores them.
abbrev pub le_bytes : ℕ → ℕ → List ℕ
le_bytes zero val = []
le_bytes (suc n) val = val % 256 ∷ le_bytes n (val / 256)

abbrev pub reverse_onto : List ℕ → List ℕ → List ℕ
reverse_onto [] acc = acc
reverse_onto (b ∷ bs) acc = reverse_onto bs (b ∷ acc)

abbrev pub reverse : List ℕ → List ℕ
reverse bs = reverse_onto bs []

AreBytes : List ℕ → Type 0
AreBytes [] = Unit
AreBytes (b ∷ bs) = (b < 256) × AreBytes bs

-- A number of at most seven bytes has room for one more.
room : (bs : List ℕ) (n : ℕ) → AreBytes bs → length bs ≤ n → le_number bs < 256 ^ n
unfolding le_number AreBytes
room [] zero b h = omega arith
room [] (suc n) b h = let below = room [] n tt (omega arith) in omega (arith, below)
room (x ∷ bs) zero b h = absurd (omega arith)
room (x ∷ bs) (suc n) (lt, b) h = let below = room bs n b (omega arith) in omega (arith, below)

loop-reverse :
    (n : ℕ) (val : ℕ) (acc : List ℕ)
    → AreBytes acc
    → length acc + n ≤ 8
    → htonll_loop n (le_number acc) val ≡ le_number (reverse_onto (le_bytes n val) acc)
unfolding htonll_loop le_number AreBytes
loop-reverse zero val acc b h = refl
loop-reverse (suc n) val acc b h =
    let below : le_number acc < 256 ^ 7 = room acc 7 b (omega arith) in
    let step : le_number acc * 256 % 2 ^ 64 + val % 256 ≡ val % 256 + 256 * le_number acc =
      omega (arith, below) in
    ap (λ k. htonll_loop n k (val / 256)) step
    ∙ loop-reverse n (val / 256) (val % 256 ∷ acc) (omega arith, b) (omega arith)

le_bytes-number : (n val : ℕ) → AreBytes (le_bytes n val)
unfolding AreBytes
le_bytes-number zero val = tt
le_bytes-number (suc n) val = (omega arith, le_bytes-number n (val / 256))

number-le_bytes : (bs : List ℕ) → AreBytes bs → le_bytes (length bs) (le_number bs) ≡ bs
unfolding AreBytes le_number
number-le_bytes [] b = refl
number-le_bytes (x ∷ bs) (lt, b) =
    let low : (x + 256 * le_number bs) % 256 ≡ x = omega arith in
    let high : (x + 256 * le_number bs) / 256 ≡ le_number bs = omega arith in
    rw (low, high) (ap (λ l. x ∷ l) (number-le_bytes bs b))

le_number-bytes : (n val : ℕ) → val < 256 ^ n → le_number (le_bytes n val) ≡ val
unfolding le_number
le_number-bytes zero val lt = omega arith
le_number-bytes (suc n) val lt = omega (arith, le_number-bytes n (val / 256) (omega arith))

htonll-number : (val : ℕ) → htonll val ≡ le_number (reverse (le_bytes 8 val))
unfolding htonll le_number AreBytes
htonll-number val = loop-reverse 8 val [] tt (omega arith)

reverse-AreBytes : (val : ℕ) → AreBytes (reverse (le_bytes 8 val))
unfolding AreBytes
reverse-AreBytes val = (
  omega arith,
  (
    omega arith,
    (omega arith, (omega arith, (omega arith, (omega arith, (omega arith, (omega arith, tt)))))),
  ),
)

-- The eight bytes that gnb_htonll of a number takes in the memory of a little-endian machine are
-- those of the number in reverse.
pub htonll-reverse : (val : ℕ) → le_bytes 8 (htonll val) ≡ reverse (le_bytes 8 val)
htonll-reverse val =
    ap (le_bytes 8) (htonll-number val)
    ∙ number-le_bytes (reverse (le_bytes 8 val)) (reverse-AreBytes val)

-- There and back.
ntohll-htonll : (val : ℕ) → val < 2 ^ 64 → ntohll (htonll val) ≡ val
unfolding ntohll AreBytes le_number
ntohll-htonll val lt =
    loop-reverse 8 (htonll val) [] tt (omega arith)
    ∙ ap (λ bs. le_number (reverse bs)) (htonll-reverse val)
    ∙ le_number-bytes 8 val (omega (arith, lt))
