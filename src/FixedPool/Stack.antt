-- ===== src/FixedPool/Stack.antt =====
-- The pool as a stack of blocks: the last of the list is the next to go.
use gnb_udp_over_tcp.Prelude.{
  ℕ, zero, suc, ◌+◌, ◌-◌, ◌*◌, ◌^◌, ◌<◌, ◌≤◌, ◌≡◌, refl, ap, ◌∙◌, Option, none, some, true, false,
  List, [], ◌∷◌, ◌++◌, map, append-nil, ◌==◌, length, length-append, get_or, set, replicate, arith,
  sym,
}
use gnb_udp_over_tcp.FixedPool.{Pool, block_array, create, pop, push}

-- `pool` holds the blocks of `items`; the rest of the array is NULL.
pub record Holds (pool : Pool) (items : List ℕ) : Type 0 where
  pub num : pool.num ≡ length items
  pub free : ℕ
  pub array : pool.array ≡ map some items ++ replicate free none
  pub size : pool.array_len ≡ length items + free

unfoldable pub blocks : ℕ → ℕ → ℕ → List ℕ
blocks zero p bsize = []
blocks (suc n) p bsize = p ∷ blocks n (p + bsize) bsize

block_array-blocks : (n p bsize : ℕ) → block_array n p bsize ≡ map some (blocks n p bsize)
unfolding block_array blocks
block_array-blocks zero p bsize = refl
block_array-blocks (suc n) p bsize = ap (λ l. some p ∷ l) (block_array-blocks n (p + bsize) bsize)

-- The blocks of a fresh pool: `array_len` disjoint areas of `bsize` bytes.
pub blocks-bounds : (n p bsize i : ℕ) → i < n → get_or (blocks n p bsize) i 0 ≡ p + i * bsize
unfolding blocks
blocks-bounds zero p bsize i h = absurd (omega arith)
blocks-bounds (suc n) p bsize zero h = omega arith
blocks-bounds (suc n) p bsize (suc i) h =
    omega (arith, blocks-bounds n (p + bsize) bsize i (omega arith))

length-blocks : (n p bsize : ℕ) → length (blocks n p bsize) ≡ n
unfolding blocks
length-blocks zero p bsize = refl
length-blocks (suc n) p bsize = ap suc (length-blocks n (p + bsize) bsize)

-- A fresh pool holds all of its blocks, which follow each other at the distance of the block size.
pub create-Holds : (block n bsize : ℕ) → Holds (create block n bsize) (blocks n block bsize)
unfolding create
create-Holds block n bsize = record {
  num = sym (length-blocks n block bsize);
  free = 0;
  array = block_array-blocks n block bsize ∙ sym (append-nil _);
  size = omega (arith, length-blocks n block bsize);
}

-- Where the product of the two sizes is no number above 32 bits, the blocks of a fresh pool lie
-- within the memory that it has.
pub create-within :
    (block n bsize i : ℕ)
    → n * bsize < 2 ^ 32
    → i < n
    → let pool = create block n bsize in
      let p = get_or (blocks n block bsize) i 0 in
      (block ≤ p) × (p + bsize ≤ block + pool.block_len)
unfolding create
create-within block n bsize i small h =
    let at = blocks-bounds n block bsize i h in (omega (arith, at), grind (arith, at))

module _ (b : ℕ) (rest : List (Option ℕ)) where
  get_or-top :
      (items : List ℕ) → get_or (map some (items ++ b ∷ []) ++ rest) (length items) none ≡ some b
  get_or-top [] = refl
  get_or-top (x ∷ items) = get_or-top items

  set-top :
      (items : List ℕ)
      → set (map some (items ++ b ∷ []) ++ rest) (length items) none ≡ map some items ++ none ∷ rest
  set-top [] = refl
  set-top (x ∷ items) = ap (λ l. some x ∷ l) (set-top items)

  get_or-free : (items : List ℕ) → get_or (map some items ++ none ∷ rest) (length items) none ≡ none
  get_or-free [] = refl
  get_or-free (x ∷ items) = get_or-free items

  set-free :
      (items : List ℕ)
      → set (map some items ++ none ∷ rest) (length items) (some b)
        ≡ map some (items ++ b ∷ []) ++ rest
  set-free [] = refl
  set-free (x ∷ items) = ap (λ l. some x ∷ l) (set-free items)

-- For a pool that holds the blocks of items and b behind them: gnb_fixed_pool_pop gives b, and the
-- pool holds items.
pub pop-last :
    (pool : Pool) (items : List ℕ) (b : ℕ)
    → Holds pool (items ++ b ∷ [])
    → ((pop pool).0 ≡ some b) × Holds (pop pool).1 items
unfolding pop
pop-last pool items b h =
    let free = replicate {A = Option ℕ} h.free none in
    let top : pool.num - 1 ≡ length items = omega (arith, h.num, length-append items (b ∷ [])) in
    let some_left : (pool.num == 0) ≡ false = ground (arith, h.num, length-append items (b ∷ [])) in
    rw some_left (
      rw (h.array, top) (get_or-top b free items),
      record {
        num = top;
        free = suc h.free;
        array = rw (h.array, top) (set-top b free items);
        size = omega (arith, h.size, length-append items (b ∷ []));
      },
    )

-- For a pool that holds the blocks of items, fewer than it has room for: gnb_fixed_pool_push of a
-- block b returns the new number of blocks, and the pool holds items with b behind them.
pub push-snoc :
    (pool : Pool) (items : List ℕ) (b : ℕ)
    → Holds pool items
    → length items < pool.array_len
    → ((push pool (some b)).0 ≡ length items + 1) × Holds (push pool (some b)).1 (items ++ b ∷ [])
unfolding push
push-snoc pool items b h room = go h.free h.num h.array h.size
  where
    go :
        (free : ℕ)
        → pool.num ≡ length items
        → pool.array ≡ map some items ++ replicate free none
        → pool.array_len ≡ length items + free
        → ((push pool (some b)).0 ≡ length items + 1)
          × Holds (push pool (some b)).1 (items ++ b ∷ [])
    go zero num array size = absurd (omega arith)
    go (suc free) num array size =
        let not_full : (pool.array_len == pool.num) ≡ false = ground arith in
        let rest = replicate free none in
        let open_slot : get_or pool.array pool.num none ≡ none =
          rw (array, num) (get_or-free b rest items) in
        rw (not_full, open_slot, push)
          (
            omega arith,
            record {
              num = omega (arith, length-append items (b ∷ []));
              free = free;
              array = rw (array, num) (set-free b rest items);
              size = omega (arith, length-append items (b ∷ []));
            },
          )

-- For a pool that holds as many blocks as it has room for, gnb_fixed_pool_push returns 0 and
-- leaves the pool as it is.
pub push-full :
    (pool : Pool) (items : List ℕ) (b : Option ℕ)
    → Holds pool items
    → length items ≡ pool.array_len
    → push pool b ≡ (0, pool)
unfolding push
push-full pool items b h full =
    let no_room : (pool.array_len == pool.num) ≡ true = ground (arith, h.num) in rw no_room
