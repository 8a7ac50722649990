-- ===== src/Lru.antt =====
-- src/gnb_lru32.c: a map from keys to the caller's data that drops the entry used longest ago. It
-- joins the hash map, the doubly linked list (the last used first) and fixed pools. A pointer is
-- an address, and `none` as a result is a fault: an access through NULL or outside an object.
pub mod Store
pub mod Counts
pub mod Pools
pub mod Index
pub mod Entries
pub mod Touch
pub mod Evict
pub mod Enter
pub mod Put
pub mod Items
pub mod Refine
pub mod Pops
pub mod Runs
pub mod Sample
mod Tests
use gnb_udp_over_tcp.Prelude.{
  ℕ, ◌+◌, ◌-◌, ◌%◌, Option, none, some, List, ltb, leb, ◌==◌, if◌then◌else◌, length, take, update,
  ◌>>=◌,
}
use gnb_udp_over_tcp.DoublyLinked.{DList, node_set, add, pop_head, pop_tail, move_head}
use gnb_udp_over_tcp.DoublyLinked
use gnb_udp_over_tcp.FixedPool.{Pool}
use gnb_udp_over_tcp.FixedPool
use gnb_udp_over_tcp.Hash32.{
  Kv, HashMap, pointer, value_ptr, hash32_create, hash32_get, hash32_set, hash32_del,
}

-- `kv` is the entry that the pointer leads to: only its key is read.
pub record LruNode : Type 0 where
  pub dl_node : Option ℕ
  pub kv : Option Kv
  pub udata : Option ℕ

-- `nodes` holds the nodes by their addresses, and `memory` the blocks that `udata` points to.
pub record Lru : Type 0 where
  pub doubly_linked_list : DList
  pub lru_node_map : HashMap
  pub size : ℕ
  pub max_size : ℕ
  pub block_size : ℕ
  pub lru_node_fixed_pool : Pool
  pub dl_node_fixed_pool : Pool
  pub udata_fixed_pool : Pool
  pub nodes : ℕ → LruNode
  pub memory : ℕ → List ℕ

-- `uint32_t`
abbrev pub uint32 : ℕ → ℕ
uint32 n = n % 4294967296

-- The three blocks are what `gnb_heap_alloc` returns for the pools, `list` is the empty list, and
-- `unset` is what the field of the last pool holds when the pool is not made.
unfoldable pub lru32_create :
    (udata_block dl_block node_block max_size block_size : ℕ)
    → DList
    → (unset : Pool) → (ℕ → LruNode)
    → (ℕ → List ℕ)
    → Lru
lru32_create udata_block dl_block node_block max_size block_size list unset nodes memory = record {
  doubly_linked_list = list;
  lru_node_map = hash32_create max_size;
  size = 0;
  max_size = max_size;
  block_size = block_size;
  lru_node_fixed_pool = FixedPool.create node_block max_size 24;
  dl_node_fixed_pool = FixedPool.create dl_block max_size 24;
  udata_fixed_pool =
      if block_size == 0 then unset else FixedPool.create udata_block max_size block_size;
  nodes = nodes;
  memory = memory;
}

-- The field `udata` of the node that is popped, and the pool that it comes from.
unfoldable pub pop_udata : Lru → ℕ → Option ℕ × Pool
pop_udata l n =
    if l.block_size == 0
    then ((l.nodes n).udata, l.udata_fixed_pool)
    else FixedPool.pop l.udata_fixed_pool

-- The result is not NULL: a NULL of the first pool is written through.
unfoldable pub node_fixed_pool_pop : Lru → Option (ℕ × Lru)
unfolding pop_udata
node_fixed_pool_pop l =
    let node = FixedPool.pop l.lru_node_fixed_pool in
    let dl = FixedPool.pop l.dl_node_fixed_pool in
    node.0 >>= λ n.
    let data_block = pop_udata l n in
    some (
      n,
      record l {
        lru_node_fixed_pool = node.1;
        dl_node_fixed_pool = dl.1;
        udata_fixed_pool = data_block.1;
        nodes = update l.nodes n (record (l.nodes n) { dl_node = dl.0; udata = data_block.0 });
      },
    )

unfoldable pub push_udata : Lru → ℕ → Pool
push_udata l n =
    if l.block_size == 0
    then l.udata_fixed_pool
    else (FixedPool.push l.udata_fixed_pool (l.nodes n).udata).1

unfoldable pub node_fixed_pool_push : Lru → ℕ → Lru
unfolding push_udata
node_fixed_pool_push l n = record l {
  dl_node_fixed_pool = (FixedPool.push l.dl_node_fixed_pool (l.nodes n).dl_node).1;
  udata_fixed_pool = push_udata l n;
  lru_node_fixed_pool = (FixedPool.push l.lru_node_fixed_pool (some n)).1;
}

-- `gnb_doubly_linked_list_move_head(lru->doubly_linked_list, lru_node->dl_node)`
unfoldable pub touch_node : Lru → ℕ → Option Lru
touch_node l n = (l.nodes n).dl_node >>= λ dl.
    move_head l.doubly_linked_list dl >>= λ (r, list). some (record l { doubly_linked_list = list })

-- The node at an end of the list, if there is one.
unfoldable pub end_node : Lru → Option ℕ → Option ℕ
end_node l p = if l.size == 0 then none else p >>= λ dl. l.doubly_linked_list.node_data dl

unfoldable pub lru32_get_head : Lru → Option ℕ
unfolding end_node
lru32_get_head l = end_node l l.doubly_linked_list.head >>= λ n. (l.nodes n).udata

unfoldable pub lru32_get_tail : Lru → Option ℕ
unfolding end_node
lru32_get_tail l = end_node l l.doubly_linked_list.tail >>= λ n. (l.nodes n).udata

module _ (murmurhash_hash : List ℕ → ℕ) where
  -- The node of a key; the value 0 is NULL.
  unfoldable pub lru32_hash_get : List ℕ → Lru → Option ℕ
  lru32_hash_get key l = hash32_get murmurhash_hash key l.lru_node_map >>= λ kv.
      if value_ptr kv.value == 0 then none else some (value_ptr kv.value)

  unfoldable pub lru32_get : List ℕ → Lru → Option (Option ℕ × Lru)
  unfolding lru32_hash_get touch_node
  lru32_get key l = elim (lru32_hash_get key l) [
    | none ↦ some (none, l)
    | some n ↦ touch_node l n >>= λ l'. some (some n, l')
  ]

  unfoldable pub lru32_movetohead : List ℕ → Lru → Option Lru
  unfolding lru32_hash_get touch_node
  lru32_movetohead key l = elim (lru32_hash_get key l) [ none ↦ some l | some n ↦ touch_node l n ]

  -- The end of the functions that enter data, from `gnb_doubly_linked_list_add` on.
  unfoldable pub link_node : List ℕ → Lru → ℕ → Option Lru
  link_node key l n = do
    dl ← (l.nodes n).dl_node
    list ← add l.doubly_linked_list dl
    r ← hash32_set murmurhash_hash key (pointer n) l.lru_node_map
    let kv = hash32_get murmurhash_hash key r.1
    some (record l {
      doubly_linked_list = node_set list dl (some n);
      lru_node_map = r.1;
      nodes = update l.nodes n (record (l.nodes n) { kv = kv });
      size = uint32 (l.size + 1);
    })

  module _ (after : Kv → List ℕ) where
    -- `gnb_hash32_del` with the key that the node leads to.
    unfoldable pub forget_key : Lru → ℕ → Option Lru
    forget_key l n = (l.nodes n).kv >>= λ kv.
        some
          (record l { lru_node_map = (hash32_del murmurhash_hash after kv.key l.lru_node_map).1 })

    -- The data of the entry that goes, NULL for no entry.
    unfoldable pub lru32_pop_by_key : List ℕ → Lru → Option (Option ℕ × Lru)
    unfolding lru32_get forget_key node_fixed_pool_push
    lru32_pop_by_key key l = lru32_get key l >>= λ (found, l₁). elim found [
      | none ↦ some (none, l₁)
      | some n ↦ do
        dl ← (l₁.nodes n).dl_node
        let l₂ = record l₁ { doubly_linked_list = (DoublyLinked.pop l₁.doubly_linked_list dl).1 }
        l₃ ← forget_key l₂ n
        let l₄ = node_fixed_pool_push l₃ n
        some ((l₁.nodes n).udata, record l₄ { size = uint32 (l₄.size + 4294967295) })
    ]

    -- The rest of `gnb_lru32_pop_head` and `gnb_lru32_pop_tail`, which differ in the list's end
    -- that they take.
    unfoldable pub drop_node :
        (DList → Option (Option ℕ × DList)) → Lru → ℕ → Option (Option ℕ × Lru)
    unfolding forget_key node_fixed_pool_push
    drop_node pop_end l n = do
      l₁ ← forget_key l n
      let l₂ = node_fixed_pool_push l₁ n
      r ← pop_end l₂.doubly_linked_list
      some (
        (l.nodes n).udata,
        record l₂ { doubly_linked_list = r.1; size = uint32 (l₂.size + 4294967295) },
      )

    unfoldable pub lru32_pop_head : Lru → Option (Option ℕ × Lru)
    unfolding drop_node end_node
    lru32_pop_head l = elim (end_node l l.doubly_linked_list.head) [
      | none ↦ some (none, l)
      | some n ↦ drop_node pop_head l n
    ]

    unfoldable pub lru32_pop_tail : Lru → Option (Option ℕ × Lru)
    unfolding drop_node end_node
    lru32_pop_tail l = elim (end_node l l.doubly_linked_list.tail) [
      | none ↦ some (none, l)
      | some n ↦ drop_node pop_tail l n
    ]

    -- `if ( lru->size >= lru->max_size ) pop_udata = gnb_lru32_pop_tail(lru);`
    unfoldable pub make_room : Lru → Option (Option ℕ × Lru)
    unfolding lru32_pop_tail
    make_room l = if leb l.max_size l.size then lru32_pop_tail l else some (none, l)

    -- A node for a new key, whose data are set by `fill`.
    unfoldable pub enter : (Lru → ℕ → Option Lru) → List ℕ → Lru → Option Lru
    unfolding node_fixed_pool_pop link_node
    enter fill key l = node_fixed_pool_pop l >>= λ (n, l₁). fill l₁ n >>= λ l₂. link_node key l₂ n

    -- `lru_node->udata = data`
    unfoldable pub set_udata : Option ℕ → Lru → ℕ → Lru
    set_udata udata l n = record l {
      nodes = update l.nodes n (record (l.nodes n) { udata = udata });
    }

    -- What is pushed out, and the map. Where `data` is there already nothing is written.
    unfoldable pub lru32_put : List ℕ → Option ℕ → Lru → Option (Option ℕ × Lru)
    unfolding lru32_get make_room enter set_udata
    lru32_put key udata l = lru32_get key l >>= λ (found, l₁). elim found [
      | some n ↦ some (none, set_udata udata l₁ n)
      | none ↦ make_room l₁ >>= λ (popped, l₂).
          enter (λ l₃ n. some (set_udata udata l₃ n)) key l₂ >>= λ l₄. some (popped, l₄)
    ]
