-- ===== src/Address/Search.antt =====
-- The searches of src/gnb_address.c: for an address, and for the entry that a new one may take.
use gnb_udp_over_tcp.Prelude.{
  ℕ, zero, suc, ◌+◌, ◌≡◌, ◌≢◌, ◌≤◌, ◌<◌, ◌⊎◌, refl, ap, ◌∙◌, sym, true, false, none, some, List, [],
  ◌∷◌, ◌==◌, leb, length, take, get_elem?, set, inl, inr, Bool-cases, arith,
}
use gnb_udp_over_tcp.Hash32.Chain.{same_bytes_refl}
use gnb_udp_over_tcp.Address.{
  Address, AddressList, af_inet, af_inet6, same_address, find_from, free_from,
}

-- The first `num` entries have a port, the others do not.
abbrev pub IsPacked : ℕ → List Address → Type 0
IsPacked zero [] = Unit
IsPacked zero (x ∷ xs) = (x.port ≡ 0) × IsPacked zero xs
IsPacked (suc num) [] = suc num ≡ 0
IsPacked (suc num) (x ∷ xs) = (x.port ≢ 0) × IsPacked num xs

abbrev pub IsList : AddressList → Type 0
IsList l = (length l.array ≡ l.size) × IsPacked l.num l.array

abbrev pub IsInet : Address → Type 0
IsInet a = (a.addr_type ≡ af_inet) ⊎ (a.addr_type ≡ af_inet6)

pub IsPacked-le : (num : ℕ) (xs : List Address) → IsPacked num xs → num ≤ length xs
IsPacked-le zero [] p = omega arith
IsPacked-le zero (x ∷ xs) p = omega arith
IsPacked-le (suc num) [] p = absurd (omega (arith, p))
IsPacked-le (suc num) (x ∷ xs) (_, p) = omega (arith, IsPacked-le num xs p)

-- The first `d` entries are of other addresses.
unfoldable pub Misses : Address → ℕ → List Address → Type 0
Misses a zero xs = Unit
Misses a (suc d) [] = Unit
Misses a (suc d) (x ∷ xs) = (same_address a x ≡ false) × Misses a d xs

pub self_same : (a : Address) → IsInet a → same_address a a ≡ true
self_same a (inl e) = ground (arith, e, same_bytes_refl (take 4 a.bytes))
self_same a (inr e) = ground (arith, e, same_bytes_refl (take 16 a.bytes))

pub search :
    (a : Address) (num : ℕ) (xs : List Address) (i : ℕ)
    → IsPacked num xs
    → ((d : ℕ) × (find_from a num xs i ≡ some (some (i + d))) × (d < num) × Misses a d xs)
      ⊎ ((find_from a num xs i ≡ some none) × Misses a num xs)
unfolding find_from Misses
search a zero xs i p = inr (refl, tt)
search a (suc num) [] i p = absurd (omega (arith, p))
search a (suc num) (x ∷ xs) i (_, p) = elim (Bool-cases (same_address a x)) [
  | inl hit ↦ inl (0, rw hit (ap (λ k. some (some k)) (omega arith)), omega arith, tt)
  | inr miss ↦ elim (search a num xs (i + 1) p) [
    | inl (d, e, lt, m) ↦
        inl (suc d, rw miss (e ∙ ap (λ k. some (some k)) (omega arith)), omega arith, (miss, m))
    | inr (e, m) ↦ inr (rw miss e, (miss, m))
  ]
]

-- After a write to an entry, behind entries of other addresses.
pub search-set :
    (a : Address) (d num : ℕ) (xs : List Address) (i : ℕ)
    → IsInet a
    → Misses a d xs
    → d < num
    → d < length xs
    → find_from a num (set xs d a) i ≡ some (some (i + d))
unfolding find_from Misses
search-set a d zero xs i t m lt lt' = absurd (omega arith)
search-set a d (suc num) [] i t m lt lt' = absurd (omega arith)
search-set a zero (suc num) (x ∷ xs) i t m lt lt' =
    rw (self_same a t) (ap (λ k. some (some k)) (omega arith))
search-set a (suc d) (suc num) (x ∷ xs) i t (miss, m) lt lt' = rw miss (
    search-set a d num xs (i + 1) t m (omega arith) (omega arith)
    ∙ ap (λ k. some (some k)) (omega arith))

-- An entry in use is written.
pub set-IsPacked :
    (a : Address) (d num : ℕ) (xs : List Address)
    → a.port ≢ 0
    → d < num
    → IsPacked num xs
    → IsPacked num (set xs d a) × (x : Address) × (get_elem? xs d ≡ some x) × (x.port ≢ 0)
set-IsPacked a d zero xs ne lt p = absurd (omega arith)
set-IsPacked a d (suc num) [] ne lt p = absurd (omega (arith, p))
set-IsPacked a zero (suc num) (x ∷ xs) ne lt (q, p) = ((ne, p), x, refl, q)
set-IsPacked a (suc d) (suc num) (x ∷ xs) ne lt (q, p) =
    let (p', x', at, r) = set-IsPacked a d num xs ne (omega arith) p in ((q, p'), x', at, r)

-- The first free entry is written.
pub grow-IsPacked :
    (a : Address) (num : ℕ) (xs : List Address)
    → a.port ≢ 0
    → num < length xs
    → IsPacked num xs
    → IsPacked (suc num) (set xs num a) × (x : Address) × (get_elem? xs num ≡ some x) × (x.port ≡ 0)
grow-IsPacked a zero [] ne lt p = absurd (omega arith)
grow-IsPacked a zero (x ∷ xs) ne lt (q, p) = ((ne, p), x, refl, q)
grow-IsPacked a (suc num) [] ne lt p = absurd (omega arith)
grow-IsPacked a (suc num) (x ∷ xs) ne lt (q, p) =
    let (p', x', at, r) = grow-IsPacked a num xs ne (omega arith) p in ((q, p'), x', at, r)

pub free_from-num :
    (num : ℕ) (xs : List Address) (i free min : ℕ)
    → num < length xs
    → IsPacked num xs
    → free_from (length xs) xs i free min ≡ some (i + num)
unfolding free_from
free_from-num zero [] i free min lt p = absurd (omega arith)
free_from-num zero (x ∷ xs) i free min lt (q, p) =
    let test : (x.port == 0) ≡ true = ground (arith, q) in rw test (ap some (omega arith))
free_from-num (suc num) [] i free min lt p = absurd (omega arith)
free_from-num (suc num) (x ∷ xs) i free min lt (q, p) =
    let test : (x.port == 0) ≡ false = ground (arith, q) in
    rw test (free_from-num num xs (i + 1) _ _ (omega arith) p ∙ ap some (omega arith))

-- Without a free entry: the entry is as old as any.
abbrev pub NoOlder : ℕ → List Address → Type 0
NoOlder ts [] = Unit
NoOlder ts (x ∷ xs) = (ts ≤ x.ts_sec) × NoOlder ts xs

pub free_from-oldest :
    (xs : List Address) (i free min : ℕ)
    → IsPacked (length xs) xs
    → (r : ℕ) × (free_from (length xs) xs i free min ≡ some r)
      × (ts : ℕ) × (ts ≤ min)
      × NoOlder ts xs
      × (((r ≡ free) × (ts ≡ min))
          ⊎ ((d : ℕ) × (r ≡ i + d) × (x : Address) × (get_elem? xs d ≡ some x) × (x.ts_sec ≡ ts)))
unfolding free_from
free_from-oldest [] i free min p = (free, refl, min, omega arith, tt, inl (refl, refl))
free_from-oldest (x ∷ xs) i free min (q, p) =
    let test : (x.port == 0) ≡ false = ground (arith, q) in
    elim (Bool-cases (leb x.ts_sec min)) [
      | inl older ↦
          let (r, e, ts, le, all, from) = free_from-oldest xs (i + 1) i x.ts_sec p in
          let le' : ts ≤ min = ground (arith, older, le) in
          rw (test, older)
            (
              r,
              e,
              ts,
              le',
              (le, all),
              elim from [
                | inl (same, oldest) ↦ inr (0, same ∙ omega arith, x, refl, sym oldest)
                | inr (d, same, y, at, t) ↦ inr (suc d, same ∙ omega arith, y, at, t)
              ],
            )
      | inr newer ↦
          let (r, e, ts, le, all, from) = free_from-oldest xs (i + 1) free min p in
          let le' : ts ≤ x.ts_sec = ground (arith, newer, le) in
          rw (test, newer)
            (
              r,
              e,
              ts,
              le,
              (le', all),
              elim from [
                | inl (same, oldest) ↦ inl (same, oldest)
                | inr (d, same, y, at, t) ↦ inr (suc d, same ∙ omega arith, y, at, t)
              ],
            )
    ]

pub get_elem?-lt :
    (xs : List Address) (d : ℕ) (x : Address) → get_elem? xs d ≡ some x → d < length xs
get_elem?-lt [] d x e = absurd (ground (arith, e))
get_elem?-lt (y ∷ xs) zero x e = omega arith
get_elem?-lt (y ∷ xs) (suc d) x e = omega (arith, get_elem?-lt xs d x e)
