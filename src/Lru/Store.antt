-- ===== src/Lru/Store.antt =====
-- `gnb_lru32_store` and `gnb_lru32_fixed_store` of src/gnb_lru32.c, which copy the data.
use gnb_udp_over_tcp.Prelude.{
  ℕ, Option, none, some, List, ltb, ◌==◌, if◌then◌else◌, length, take, update, ◌>>=◌,
}
use gnb_udp_over_tcp.Hash32.{Kv}
use gnb_udp_over_tcp.Lru.{Lru, lru32_get, make_room, enter, set_udata}

module _ (murmurhash_hash : List ℕ → ℕ) (after : Kv → List ℕ) where
  -- `gnb_heap_alloc` and `memcpy`; `block` is the block that the heap returns.
  unfoldable pub fill_block : Option ℕ → List ℕ → Lru → ℕ → Option Lru
  unfolding set_udata
  fill_block block data_bytes l n = block >>= λ b. some (
      set_udata murmurhash_hash after (some b) (record l { memory = update l.memory b data_bytes })
        n)

  -- The block that is given back to the heap, and the map.
  unfoldable pub lru32_store : Option ℕ → List ℕ → List ℕ → Lru → Option (Option ℕ × Lru)
  unfolding lru32_get make_room enter fill_block
  lru32_store block key data_bytes l = lru32_get murmurhash_hash key l >>= λ (found, l₁).
      elim found [
        | some n ↦ fill_block block data_bytes l₁ n >>= λ l₂. some ((l₁.nodes n).udata, l₂)
        | none ↦ make_room murmurhash_hash after l₁ >>= λ (popped, l₂).
            enter murmurhash_hash after (fill_block block data_bytes) key l₂ >>= λ l₃.
            some (popped, l₃)
      ]

  -- `memcpy(lru_node->udata, data, lru->block_size)`
  unfoldable pub copy_block : List ℕ → Lru → ℕ → Option Lru
  copy_block data_bytes l n = (l.nodes n).udata >>= λ b.
      if ltb (length data_bytes) l.block_size
      then none
      else some (record l { memory = update l.memory b (take l.block_size data_bytes) })

  unfoldable pub lru32_fixed_store : List ℕ → List ℕ → Lru → Option Lru
  unfolding lru32_get make_room enter copy_block
  lru32_fixed_store key data_bytes l =
      if l.block_size == 0
      then some l
      else lru32_get murmurhash_hash key l >>= λ (found, l₁). elim found [
        | some n ↦ copy_block data_bytes l₁ n
        | none ↦ make_room murmurhash_hash after l₁ >>= λ (popped, l₂).
            enter murmurhash_hash after (copy_block data_bytes) key l₂
      ]
