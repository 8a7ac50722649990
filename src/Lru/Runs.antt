-- ===== src/Lru/Runs.antt =====
-- Runs of the operations of src/gnb_lru32.c on a fresh map.
use gnb_udp_over_tcp.Prelude.{
  ℕ, zero, suc, ◌+◌, ◌*◌, ◌^◌, ◌≡◌, ◌≤◌, ◌<◌, refl, ap, ◌∙◌, Option, some, List, [], ◌∷◌, ◌==◌,
  length, inl, inr, Bool-cases, arith, ◌>>=◌,
}
use gnb_udp_over_tcp.DoublyLinked
use gnb_udp_over_tcp.DoublyLinked.Segment.{Links}
use gnb_udp_over_tcp.DoublyLinked.Chain.{create-IsChain}
use gnb_udp_over_tcp.FixedPool.{Pool}
use gnb_udp_over_tcp.FixedPool
use gnb_udp_over_tcp.FixedPool.Stack.{blocks, create-Holds}
use gnb_udp_over_tcp.Hash32.{Kv}
use gnb_udp_over_tcp.Hash32.Lookup.{create-IsTable, create-lookup}
use gnb_udp_over_tcp.Lru.{
  LruNode, Lru, lru32_create, lru32_get, lru32_put, lru32_pop_by_key, lru32_pop_head,
  lru32_pop_tail,
}
use gnb_udp_over_tcp.Lru.Counts.{All, remove}
use gnb_udp_over_tcp.Lru.Pools.{Shares, tally}
use gnb_udp_over_tcp.Lru.Items.{
  Item, is_key, look, touch, udata_of, first_udata, last_udata, drop_first, drop_last, put_item,
}
use gnb_udp_over_tcp.Lru.Refine.{Keeps, found_udata, item_udata, get-refines, put-refines}
use gnb_udp_over_tcp.Lru.Pops.{pop_by_key-refines, pop_head-refines, pop_tail-refines}

-- The calls of a user of the map.
pub data Call : Type 0 where
  call_get : List ℕ → Call
  call_put : List ℕ → Option ℕ → Call
  call_pop_by_key : List ℕ → Call
  call_pop_head : Call
  call_pop_tail : Call

-- Keys of `n` bytes.
abbrev pub HasKey : ℕ → Call → Type 0
HasKey n (call_get key) = Unit
HasKey n (call_put key u) = length key ≡ n
HasKey n (call_pop_by_key key) = Unit
HasKey n call_pop_head = Unit
HasKey n call_pop_tail = Unit

-- What a call gives, where NULL for a missing node is told from a node without data.
abbrev pub Answer : Type 0
Answer = Option (Option ℕ)

abbrev pub call_items : ℕ → Call → List Item → Answer × List Item
call_items max_size (call_get key) items = (item_udata (look key items), touch key items)
call_items max_size (call_put key u) items =
    let r = put_item max_size key u items in (some r.0, r.1)
call_items max_size (call_pop_by_key key) items =
    (some (udata_of (look key items)), remove (is_key key) items)
call_items max_size call_pop_head items = (some (first_udata items), drop_first items)
call_items max_size call_pop_tail items = (some (last_udata items), drop_last items)

abbrev pub run_items : ℕ → List Call → List Item → List Answer × List Item
run_items max_size [] items = ([], items)
run_items max_size (c ∷ calls) items =
    let r = call_items max_size c items in
    let rest = run_items max_size calls r.1 in (r.0 ∷ rest.0, rest.1)

module _ (murmurhash_hash : List ℕ → ℕ) (after : Kv → List ℕ) where
  unfoldable pub call : Call → Lru → Option (Answer × Lru)
  call (call_get key) l = lru32_get murmurhash_hash key l >>= λ (o, l'). some (found_udata l' o, l')
  call (call_put key u) l =
      lru32_put murmurhash_hash after key u l >>= λ (u', l'). some (some u', l')
  call (call_pop_by_key key) l =
      lru32_pop_by_key murmurhash_hash after key l >>= λ (u, l'). some (some u, l')
  call call_pop_head l = lru32_pop_head murmurhash_hash after l >>= λ (u, l'). some (some u, l')
  call call_pop_tail l = lru32_pop_tail murmurhash_hash after l >>= λ (u, l'). some (some u, l')

  unfoldable pub run : List Call → Lru → Option (List Answer × Lru)
  unfolding call
  run [] l = some ([], l)
  run (c ∷ calls) l = call c l >>= λ (a, l₁). run calls l₁ >>= λ (rest, l₂). some (a ∷ rest, l₂)

  Kept : ℕ → ℕ → Option (Answer × Lru) → Answer × List Item → Type 0
  Kept n max_size o r = (l' : Lru) × (o ≡ some (r.0, l')) × Keeps murmurhash_hash n max_size l' r.1

  wrap : Option (Option ℕ × Lru) → Option (Answer × Lru)
  wrap o = o >>= λ (u, l'). some (some u, l')

  call-refines :
      (n max_size : ℕ) (c : Call) (l : Lru) (items : List Item)
      → Keeps murmurhash_hash n max_size l items
      → HasKey n c
      → 0 < max_size
      → Kept n max_size (call c l) (call_items max_size c items)
  unfolding call Kept wrap
  call-refines n max_size (call_get key) l items k ok pos =
      let (o, l', gets, same, k') = get-refines murmurhash_hash n max_size key l items k in
      (
        l',
        ap (λ o. o >>= λ (o, l'). some (found_udata l' o, l')) gets ∙ ap (λ a. some (a, l')) same,
        k',
      )
  call-refines n max_size (call_put key u) l items k ok pos =
      let (l', puts, k') = put-refines murmurhash_hash after n max_size key u l items k ok pos in
      (l', ap wrap puts, k')
  call-refines n max_size (call_pop_by_key key) l items k ok pos =
      let (l', pops, k') = pop_by_key-refines murmurhash_hash after n max_size key l items k in
      (l', ap wrap pops, k')
  call-refines n max_size call_pop_head l items k ok pos =
      let (l', pops, k') = pop_head-refines murmurhash_hash after n max_size l items k in
      (l', ap wrap pops, k')
  call-refines n max_size call_pop_tail l items k ok pos =
      let (l', pops, k') = pop_tail-refines murmurhash_hash after n max_size l items k in
      (l', ap wrap pops, k')

  run-Keeps :
      (n max_size : ℕ) (calls : List Call) (l : Lru) (items : List Item)
      → Keeps murmurhash_hash n max_size l items
      → All (HasKey n) calls
      → 0 < max_size
      → let r = run_items max_size calls items in
        (l' : Lru) × (run calls l ≡ some (r.0, l')) × Keeps murmurhash_hash n max_size l' r.1
  unfolding run Kept
  run-Keeps n max_size [] l items k ok pos = (l, refl, k)
  run-Keeps n max_size (c ∷ calls) l items k (ok, oks) pos =
      let (l₁, calls₁, k₁) = call-refines n max_size c l items k ok pos in
      let r = call_items max_size c items in
      let (l₂, runs, k₂) = run-Keeps n max_size calls l₁ r.1 k₁ oks pos in
      (
        l₂,
        ap (λ o. o >>= λ (a, l₁). run calls l₁ >>= λ (rest, l₂). some (a ∷ rest, l₂)) calls₁
            ∙ ap (λ o. o >>= λ (rest, l₂). some (r.0 ∷ rest, l₂)) runs,
        k₂,
      )

-- The blocks of a fresh pool.
blocks-below : (n p x : ℕ) → x < p → tally (blocks n p 24) x ≡ 0
unfolding blocks
blocks-below zero p x lt = refl
blocks-below (suc n) p x lt = ground (arith, blocks-below n (p + 24) x (omega arith))

blocks-once : (n p x : ℕ) → tally (blocks n p 24) x ≤ 1
unfolding blocks
blocks-once zero p x = omega arith
blocks-once (suc n) p x = elim (Bool-cases (p == x)) [
  | inl here ↦
      let e : p ≡ x = ground (arith, here) in
      rw here (omega (arith, blocks-below n (p + 24) x (omega arith)))
  | inr away ↦ rw away (blocks-once n (p + 24) x)
]

create-Shares : (block n : ℕ) → 0 < block → Shares (FixedPool.create block n 24) n []
unfolding FixedPool.create
create-Shares block n pos =
    let h = create-Holds block n 24 in
    record {
      free = blocks n block 24;
      holds = h;
      room = refl;
      total = omega (arith, h.num);
      once = λ x. omega (arith, blocks-once n block x);
      no_null = omega (arith, blocks-below n block 0 pos);
    }

module _ (murmurhash_hash : List ℕ → ℕ) (pre nex node_data : Links) (unset : Pool)
    (nodes : ℕ → LruNode) (memory : ℕ → List ℕ) where
  pub create-Keeps :
      (n max_size block_size udata_block dl_block node_block : ℕ)
      → 0 < dl_block
      → 0 < node_block
      → max_size < 4294967296
      → Keeps murmurhash_hash n max_size
          (lru32_create udata_block dl_block node_block max_size block_size
            (DoublyLinked.create pre nex node_data)
            unset
            nodes
            memory)
          []
  unfolding lru32_create
  create-Keeps n max_size block_size udata_block dl_block node_block pos pos' lt =
      let c = create-IsChain pre nex node_data in
      (
        [],
        record {
          chain = c;
          size = refl;
          bound = lt;
          stored = tt;
          index = record {
            table = create-IsTable n max_size;
            at = create-lookup murmurhash_hash max_size;
            once = λ key. omega arith;
          };
          node_pool = create-Shares node_block max_size pos';
          dl_pool = create-Shares dl_block max_size pos;
        },
        refl,
        refl,
      )

  pub create-run :
      (after : Kv → List ℕ) (n max_size block_size udata_block dl_block node_block : ℕ)
      (calls : List Call)
      → 0 < dl_block
      → 0 < node_block
      → 0 < max_size
      → max_size * 24 < 2 ^ 32
      → max_size * block_size < 2 ^ 32
      → All (HasKey n) calls
      → let l =
          lru32_create udata_block dl_block node_block max_size block_size
            (DoublyLinked.create pre nex node_data)
            unset
            nodes
            memory in
        let r = run_items max_size calls [] in
        (l' : Lru) × (run murmurhash_hash after calls l ≡ some (r.0, l'))
        × Keeps murmurhash_hash n max_size l' r.1
  create-run after n max_size block_size udata_block dl_block node_block calls pos pos' room small
        blocks oks =
      run-Keeps murmurhash_hash after n max_size calls _ []
        (create-Keeps n max_size block_size udata_block dl_block node_block pos pos' (omega arith))
        oks room
