-- ===== src/Lru/Enter.antt =====
-- A new entry of src/gnb_lru32.c: the nodes from the pools, the list and the hash map.
use gnb_udp_over_tcp.Prelude.{
  update_self, ℕ, ◌+◌, ◌≡◌, ◌<◌, refl, ap, ◌∙◌, sym, subst, Bool, false, Option, some, List, [],
  ◌∷◌, ◌==◌, length, length-map, update, arith, ◌>>=◌,
}
use gnb_udp_over_tcp.DoublyLinked.{DList, add, node_set}
use gnb_udp_over_tcp.DoublyLinked.Segment.{has}
use gnb_udp_over_tcp.DoublyLinked.Chain.{IsChain, add-cons}
use gnb_udp_over_tcp.FixedPool.{Pool}
use gnb_udp_over_tcp.FixedPool
use gnb_udp_over_tcp.Hash32.{Kv, HashMap, pointer, hash32_set, hash32_get}
use gnb_udp_over_tcp.Lru.{
  LruNode, Lru, uint32, node_fixed_pool_pop, pop_udata, link_node, enter, set_udata,
}
use gnb_udp_over_tcp.Lru.Counts.{All, count}
use gnb_udp_over_tcp.Lru.Pools.{take-Shares, tally}
use gnb_udp_over_tcp.Lru.Index.{Entry, for_key, set-IsIndex}
use gnb_udp_over_tcp.Lru.Entries.{Stored, IsLru, nodes_of, dls_of, node-Stored, data-Stored}

tally-has : (x : ℕ) (xs : List ℕ) → tally xs x ≡ 0 → has x xs ≡ false
tally-has x [] h = refl
tally-has x (y ∷ xs) h =
    let other : (y == x) ≡ false = ground (arith, h) in
    let other' : (x == y) ≡ false = ground (arith, other) in
    rw other' (tally-has x xs (ground (arith, h, other)))

node_set-IsChain :
    (list : DList) (xs : List ℕ) (y : ℕ) (d : Option ℕ)
    → IsChain list xs
    → IsChain (node_set list y d) xs
unfolding node_set
node_set-IsChain list xs y d c = record {
  head = c.head;
  tail = c.tail;
  num = c.num;
  links = c.links;
  distinct = c.distinct;
}

-- The node that `node_fixed_pool_pop` makes of `x`.
abbrev fresh : Lru → ℕ → ℕ → LruNode
fresh l x y = record (l.nodes x) { dl_node = some y; udata = (pop_udata l x).0 }

abbrev popped : Lru → ℕ → ℕ → Lru
popped l x y = record l {
  lru_node_fixed_pool = (FixedPool.pop l.lru_node_fixed_pool).1;
  dl_node_fixed_pool = (FixedPool.pop l.dl_node_fixed_pool).1;
  udata_fixed_pool = (pop_udata l x).1;
  nodes = update l.nodes x (fresh l x y);
}

pool_pop-lem :
    (l : Lru) (x y : ℕ)
    → (FixedPool.pop l.lru_node_fixed_pool).0 ≡ some x
    → (FixedPool.pop l.dl_node_fixed_pool).0 ≡ some y
    → node_fixed_pool_pop l ≡ some (x, popped l x y)
unfolding node_fixed_pool_pop pop_udata
pool_pop-lem l x y ex ey = rw (node_fixed_pool_pop, ex) (rw ey refl)

module _ (murmurhash_hash : List ℕ → ℕ) (key : List ℕ) (udata : Option ℕ) where
  -- The map with the node `x`, whose list node is `y`.
  abbrev entered : Lru → ℕ → ℕ → DList → HashMap → Option Kv → Lru
  entered l x y list m kv =
      let l₁ = popped l x y in
      let l₂ = record l₁ { nodes = update l₁.nodes x (record (l₁.nodes x) { udata = udata }) } in
      record l₂ {
        doubly_linked_list = node_set list y (some x);
        lru_node_map = m;
        nodes = update l₂.nodes x (record (l₂.nodes x) { kv = kv });
        size = uint32 (l.size + 1);
      }

  link_node-lem :
      (l : Lru) (x y : ℕ) (list : DList) (found : Bool) (m : HashMap)
      → (l.nodes x).dl_node ≡ some y
      → add l.doubly_linked_list y ≡ some list
      → hash32_set murmurhash_hash key (pointer x) l.lru_node_map ≡ some (found, m)
      → link_node murmurhash_hash key l x
        ≡ some (record l {
          doubly_linked_list = node_set list y (some x);
          lru_node_map = m;
          nodes = update l.nodes x (record (l.nodes x) { kv = hash32_get murmurhash_hash key m });
          size = uint32 (l.size + 1);
        })
  unfolding link_node
  link_node-lem l x y list found m ed el em = rw (ed, el, em) refl

  module _ (after : Kv → List ℕ) where
    abbrev fill : Lru → ℕ → Option Lru
    fill l n = some (set_udata murmurhash_hash after udata l n)

    enter-lem :
        (l : Lru) (x y : ℕ) (list : DList) (found : Bool) (m : HashMap)
        → (FixedPool.pop l.lru_node_fixed_pool).0 ≡ some x
        → (FixedPool.pop l.dl_node_fixed_pool).0 ≡ some y
        → add l.doubly_linked_list y ≡ some list
        → hash32_set murmurhash_hash key (pointer x) l.lru_node_map ≡ some (found, m)
        → enter murmurhash_hash after fill key l
          ≡ some (entered l x y list m (hash32_get murmurhash_hash key m))
    unfolding enter set_udata
    enter-lem l x y list found m ex ey el em =
        let l₁ = popped l x y in
        let l₂ = record l₁ { nodes = update l₁.nodes x (record (l₁.nodes x) { udata = udata }) } in
        let dl : (l₂.nodes x).dl_node ≡ some y =
          ap (λ (v : LruNode). v.dl_node) (update_self l₁.nodes x _)
          ∙ ap (λ (v : LruNode). v.dl_node) (update_self l.nodes x (fresh l x y)) in
        ap (λ o. o >>= λ (n, l₁). fill l₁ n >>= λ l₂. link_node murmurhash_hash key l₂ n)
          (pool_pop-lem l x y ex ey)
        ∙ link_node-lem l₂ x y list found m dl el em

    pub enter-IsLru :
        (n : ℕ) (l : Lru) (es : List Entry)
        → IsLru murmurhash_hash n l es
        → length key ≡ n
        → count (for_key key) es ≡ 0
        → length es < l.max_size
        → (x : ℕ) × (y : ℕ) × (l' : Lru) × (enter murmurhash_hash after fill key l ≡ some l')
          × IsLru murmurhash_hash n l' (record { node = x; dl = y; key = key; udata = udata } ∷ es)
          × (l'.max_size ≡ l.max_size)
    unfolding node_set
    enter-IsLru n l es s len new room =
        let (x, out, away, pos, pool) =
          take-Shares l.lru_node_fixed_pool l.max_size (nodes_of es) s.node_pool
            (omega (arith, length-map es (λ (e : Entry). e.node))) in
        let (y, out', away', pos', pool') =
          take-Shares l.dl_node_fixed_pool l.max_size (dls_of es) s.dl_pool
            (omega (arith, length-map es (λ (e : Entry). e.dl))) in
        let (list, adds, c, same) =
          add-cons l.doubly_linked_list (dls_of es) y s.chain (tally-has y (dls_of es) away') in
        let e : Entry = record { node = x; dl = y; key = key; udata = udata } in
        let (found, m, kv, sets, got, named, index) =
          set-IsIndex murmurhash_hash n l.lru_node_map e es s.index len new in
        let l' = entered l x y list m (hash32_get murmurhash_hash key m) in
        let l₁ = popped l x y in
        let nodes₂ = update l₁.nodes x (record (l₁.nodes x) { udata = udata }) in
        let v₃ : l'.nodes x ≡ record (nodes₂ x) { kv = hash32_get murmurhash_hash key m } =
          update_self nodes₂ x _ in
        let v₂ : nodes₂ x ≡ record (l₁.nodes x) { udata = udata } = update_self l₁.nodes x _ in
        let v₁ : l₁.nodes x ≡ fresh l x y = update_self l.nodes x _ in
        let s₀ = subst (λ d. All (Stored n l.nodes d) es) (sym same) s.stored in
        let s₁ = node-Stored n l.nodes list.node_data x (fresh l x y) es away s₀ in
        let s₂ =
          node-Stored n l₁.nodes list.node_data x (record (l₁.nodes x) { udata = udata }) es away
            s₁ in
        let s₃ =
          node-Stored n nodes₂ list.node_data x
            (record (nodes₂ x) { kv = hash32_get murmurhash_hash key m }) es away s₂ in
        (
          x,
          y,
          l',
          enter-lem l x y list found m out out' adds sets,
          record {
            chain = node_set-IsChain list (y ∷ dls_of es) y (some x) c;
            size = omega (arith, s.size, s.bound);
            bound = s.bound;
            stored = (
              record {
                dl_node =
                    ap (λ (v : LruNode). v.dl_node) v₃
                    ∙ ap (λ (v : LruNode). v.dl_node) v₂
                    ∙ ap (λ (v : LruNode). v.dl_node) v₁;
                kv = kv;
                points = ap (λ (v : LruNode). v.kv) v₃ ∙ got;
                key = named;
                udata = ap (λ (v : LruNode). v.udata) v₃ ∙ ap (λ (v : LruNode). v.udata) v₂;
                back = update_self list.node_data y (some x);
                len = len;
              },
              data-Stored n l'.nodes list.node_data y (some x) es away' s₃,
            );
            index = index;
            node_pool = pool;
            dl_pool = pool';
          },
          refl,
        )
