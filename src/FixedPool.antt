-- ===== src/FixedPool.antt =====
-- gnb_fixed_pool.c: a fixed number of blocks of one size, handed out and taken back as a stack.
-- A block is its address; NULL is `none`.
pub mod Stack
use gnb_udp_over_tcp.Prelude.{
  ℕ, zero, suc, ◌+◌, ◌-◌, ◌*◌, ◌%◌, ◌^◌, Option, none, some, List, [], ◌∷◌, ◌==◌, if◌then◌else◌,
  get_or, set,
}

-- `block_len` is no field: it is the number of bytes that `gnb_heap_alloc` was asked for at `block`.
pub record Pool : Type 0 where
  pub num : ℕ
  pub bsize : ℕ
  pub block : ℕ
  pub block_len : ℕ
  pub array_len : ℕ
  pub array : List (Option ℕ)

-- `for (i=0; i<array_len; i++) { array[i] = p; p += bsize; }`
unfoldable pub block_array : ℕ → ℕ → ℕ → List (Option ℕ)
block_array zero p bsize = []
block_array (suc n) p bsize = some p ∷ block_array n (p + bsize) bsize

-- `block` is the address that `gnb_heap_alloc` returns for `bsize * array_len` bytes, a product of
-- two `uint32_t`.
unfoldable pub create : ℕ → ℕ → ℕ → Pool
unfolding block_array
create block array_len bsize = record {
  num = array_len;
  bsize = bsize;
  block = block;
  block_len = (bsize * array_len) % 2 ^ 32;
  array_len = array_len;
  array = block_array array_len block bsize;
}

unfoldable pub pop : Pool → Option ℕ × Pool
pop pool = if pool.num == 0 then (none, pool) else (
  get_or pool.array (pool.num - 1) none,
  record pool { num = pool.num - 1; array = set pool.array (pool.num - 1) none },
)

-- The result is a `uint32_t`: -1 is 2 ^ 32 - 1.
unfoldable pub push : Pool → Option ℕ → ℕ × Pool
push pool block =
    if pool.array_len == pool.num then (0, pool) else elim (get_or pool.array pool.num none) [
      | some _ ↦ (2 ^ 32 - 1, pool)
      | none ↦
          (pool.num + 1, record pool { num = pool.num + 1; array = set pool.array pool.num block })
    ]
