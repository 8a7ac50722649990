-- ===== src/Lru/Pools.antt =====
-- A fixed pool of src/gnb_lru32.c: each of its blocks is free or belongs to one of the entries.
use gnb_udp_over_tcp.Prelude.{
  ℕ, ◌+◌, ◌≡◌, ◌≤◌, ◌<◌, refl, ap, ◌∙◌, subst, some, List, [], ◌∷◌, ◌++◌, ◌==◌, length,
  length-append, Bool-cases, inl, inr, arith,
}
use gnb_udp_over_tcp.FixedPool.{Pool, pop, push}
use gnb_udp_over_tcp.FixedPool.Stack.{Holds, pop-last, push-snoc}
use gnb_udp_over_tcp.Lru.Counts.{count, count-append}

abbrev pub tally : List ℕ → ℕ → ℕ
tally xs x = count (λ y. y == x) xs

-- `used` are the blocks of the entries. None is NULL, and none is in two places.
pub record Shares (pool : Pool) (max_size : ℕ) (used : List ℕ) : Type 0 where
  pub free : List ℕ
  pub holds : Holds pool free
  pub room : pool.array_len ≡ max_size
  pub total : length free + length used ≡ max_size
  pub once : (x : ℕ) → tally used x + tally free x ≤ 1
  pub no_null : tally used 0 + tally free 0 ≡ 0

snoc-cases : (xs : List ℕ) → 0 < length xs → (ys : List ℕ) × (y : ℕ) × (xs ≡ ys ++ y ∷ [])
snoc-cases [] h = absurd (omega arith)
snoc-cases (x ∷ []) h = ([], x, refl)
snoc-cases (x ∷ z ∷ xs) h =
    let (ys, y, e) = snoc-cases (z ∷ xs) (omega arith) in (x ∷ ys, y, ap (λ l. x ∷ l) e)

tally_self : (x : ℕ) (xs : List ℕ) → tally (x ∷ xs) x ≡ tally xs x + 1
tally_self x xs = ground arith

tally_head : (y : ℕ) (xs : List ℕ) (x : ℕ) → tally (y ∷ xs) x ≡ tally (y ∷ []) x + tally xs x
tally_head y xs x = ground arith

tally_snoc : (xs : List ℕ) (y x : ℕ) → tally (xs ++ y ∷ []) x ≡ tally xs x + tally (y ∷ []) x
tally_snoc xs y x = count-append (λ z. z == x) xs (y ∷ [])

pub tally_mid :
    (xs : List ℕ) (y : ℕ) (ys : List ℕ) (x : ℕ)
    → tally (xs ++ y ∷ ys) x ≡ tally (y ∷ []) x + tally (xs ++ ys) x
tally_mid xs y ys x = omega (
  arith,
  count-append (λ z. z == x) xs (y ∷ ys),
  count-append (λ z. z == x) xs ys,
  tally_head y ys x,
)

pub take-Shares :
    (pool : Pool) (max_size : ℕ) (used : List ℕ)
    → Shares pool max_size used
    → length used < max_size
    → (x : ℕ) × ((pop pool).0 ≡ some x)
      × (tally used x ≡ 0)
      × (0 < x)
      × Shares (pop pool).1 max_size (x ∷ used)
unfolding pop
take-Shares pool max_size used s lt =
    let (free', x, e) = snoc-cases s.free (omega (arith, s.total)) in
    let (out, holds) = pop-last pool free' x (subst (Holds pool) e s.holds) in
    let tally_free : (y : ℕ) → tally s.free y ≡ tally free' y + tally (x ∷ []) y =
      λ y. ap (λ l. tally l y) e ∙ tally_snoc free' x y in
    let len : length s.free ≡ length free' + 1 = ap length e ∙ length-append free' (x ∷ []) in
    let kept : (pop pool).1.array_len ≡ pool.array_len = ground arith in
    (
      x,
      out,
      omega (arith, s.once x, tally_free x, tally_self x []),
      elim (Bool-cases (x == 0)) [
        | inl null ↦ absurd (ground (arith, s.no_null, tally_free 0, null))
        | inr away ↦ ground arith
      ],
      record {
        free = free';
        holds = holds;
        room = kept ∙ s.room;
        total = omega (arith, s.total, len);
        once = λ y. omega (arith, s.once y, tally_free y, tally_head x used y);
        no_null = omega (arith, s.no_null, tally_free 0, tally_head x used 0);
      },
    )

pub give-Shares :
    (pool : Pool) (max_size : ℕ) (xs : List ℕ) (x : ℕ) (ys : List ℕ)
    → Shares pool max_size (xs ++ x ∷ ys)
    → Shares (push pool (some x)).1 max_size (xs ++ ys)
unfolding push
give-Shares pool max_size xs x ys s =
    let len : length (xs ++ x ∷ ys) ≡ length (xs ++ ys) + 1 =
      omega (arith, length-append xs (x ∷ ys), length-append xs ys) in
    let (out, holds) = push-snoc pool s.free x s.holds (omega (arith, s.room, s.total, len)) in
    let kept : (push pool (some x)).1.array_len ≡ pool.array_len = ground arith in
    record {
      free = s.free ++ x ∷ [];
      holds = holds;
      room = kept ∙ s.room;
      total = omega (arith, s.total, len, length-append s.free (x ∷ []));
      once = λ y. omega (arith, s.once y, tally_mid xs x ys y, tally_snoc s.free x y);
      no_null = omega (arith, s.no_null, tally_mid xs x ys 0, tally_snoc s.free x 0);
    }

-- The order of the entries does not matter.
pub move-Shares :
    (pool : Pool) (max_size : ℕ) (xs : List ℕ) (x : ℕ) (ys : List ℕ)
    → Shares pool max_size (xs ++ x ∷ ys)
    → Shares pool max_size (x ∷ xs ++ ys)
move-Shares pool max_size xs x ys s = record {
  free = s.free;
  holds = s.holds;
  room = s.room;
  total = omega (arith, s.total, length-append xs (x ∷ ys), length-append xs ys);
  once = λ y. omega (arith, s.once y, tally_mid xs x ys y, tally_head x (xs ++ ys) y);
  no_null = omega (arith, s.no_null, tally_mid xs x ys 0, tally_head x (xs ++ ys) 0);
}
