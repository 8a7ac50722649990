-- ===== src/Lru/Evict.antt =====
-- `gnb_lru32_pop_by_key`, `gnb_lru32_pop_head` and `gnb_lru32_pop_tail` of src/gnb_lru32.c.
use gnb_udp_over_tcp.Prelude.{
  ℕ, ◌+◌, ◌≡◌, refl, ap, ◌∙◌, sym, subst, false, Option, none, some, List, [], ◌∷◌, ◌++◌,
  append-nil, map, ◌==◌, ltb, if◌then◌else◌, length, length-map, length-append, inl, inr,
  Bool-cases, arith, ◌>>=◌,
}
use gnb_udp_over_tcp.DoublyLinked.{DList, pop_head, pop_tail, done}
use gnb_udp_over_tcp.DoublyLinked
use gnb_udp_over_tcp.DoublyLinked.Chain.{IsChain}
use gnb_udp_over_tcp.DoublyLinked.Ends.{pop_head-tail, pop_tail-init}
use gnb_udp_over_tcp.DoublyLinked.Inner.{pop-unlink}
use gnb_udp_over_tcp.DoublyLinked.Unlink.{final-append}
use gnb_udp_over_tcp.FixedPool.{Pool}
use gnb_udp_over_tcp.FixedPool
use gnb_udp_over_tcp.Hash32.{Kv, hash32_del}
use gnb_udp_over_tcp.Lru.{
  Lru, uint32, node_fixed_pool_push, push_udata, forget_key, drop_node, end_node, lru32_get,
  lru32_pop_head, lru32_pop_tail, lru32_pop_by_key, lru32_get_tail,
}
use gnb_udp_over_tcp.Lru.Counts.{All, find}
use gnb_udp_over_tcp.Lru.Pools.{Shares, give-Shares}
use gnb_udp_over_tcp.Lru.Index.{Entry, for_key, del-IsIndex}
use gnb_udp_over_tcp.Lru.Entries.{Stored, IsLru, dls_of, map_mid, map-append, All-mid}
use gnb_udp_over_tcp.Lru.Touch.{get-missing, get-touched}

module _ (murmurhash_hash : List ℕ → ℕ) (after : Kv → List ℕ) where
  -- The map when the entry is gone, with `list` as its list.
  abbrev dropped : Lru → Entry → DList → Lru
  dropped l e list = record (node_fixed_pool_push l e.node) {
    doubly_linked_list = list;
    lru_node_map = (hash32_del murmurhash_hash after e.key l.lru_node_map).1;
    size = uint32 (l.size + 4294967295);
  }

  module _ (n : ℕ) (l : Lru) (xs : List Entry) (e : Entry) (ys : List Entry)
      (x : IsLru murmurhash_hash n l (xs ++ e ∷ ys)) where
    stored_lem : Stored n l.nodes l.doubly_linked_list.node_data e
    stored_lem = (All-mid (Stored n l.nodes l.doubly_linked_list.node_data) xs e ys x.stored).0

    size_lem : uint32 (l.size + 4294967295) ≡ length (xs ++ ys)
    size_lem = omega (
      arith,
      x.size,
      x.bound,
      x.node_pool.total,
      length-append xs (e ∷ ys),
      length-append xs ys,
      length-map (xs ++ e ∷ ys) (λ (e : Entry). e.node),
    )

    chain_lem : IsChain l.doubly_linked_list (dls_of xs ++ e.dl ∷ dls_of ys)
    chain_lem = subst (IsChain l.doubly_linked_list) (map_mid (λ (e : Entry). e.dl) xs e ys) x.chain

    given :
        (pool : Pool) (f : Entry → ℕ) (block : Option ℕ)
        → block ≡ some (f e)
        → Shares pool l.max_size (map f (xs ++ e ∷ ys))
        → Shares (FixedPool.push pool block).1 l.max_size (map f (xs ++ ys))
    given pool f block at s = rw at (
        subst (Shares (FixedPool.push pool (some (f e))).1 l.max_size) (sym (map-append f xs ys)) (
          give-Shares pool l.max_size (map f xs) (f e) (map f ys)
            (subst (Shares pool l.max_size) (map_mid f xs e ys) s)))

    dropped-IsLru :
        (list : DList)
        → IsChain list (dls_of (xs ++ ys))
        → list.node_data ≡ l.doubly_linked_list.node_data
        → IsLru murmurhash_hash n (dropped l e list) (xs ++ ys)
    unfolding node_fixed_pool_push
    dropped-IsLru list c same = record {
      chain = c;
      size = size_lem;
      bound = x.bound;
      stored =
          subst (λ d. All (Stored n l.nodes d) (xs ++ ys)) (sym same)
            (All-mid (Stored n l.nodes l.doubly_linked_list.node_data) xs e ys x.stored).1;
      index = del-IsIndex murmurhash_hash after n l.lru_node_map xs e ys x.index stored_lem.len;
      node_pool =
          given l.lru_node_fixed_pool (λ (e : Entry). e.node) (some e.node) refl x.node_pool;
      dl_pool =
          given l.dl_node_fixed_pool (λ (e : Entry). e.dl) (l.nodes e.node).dl_node
            stored_lem.dl_node x.dl_pool;
    }

    forgets :
        forget_key murmurhash_hash after l e.node
        ≡ some
            (record l { lru_node_map = (hash32_del murmurhash_hash after e.key l.lru_node_map).1 })
    unfolding forget_key
    forgets = rw (stored_lem.points, stored_lem.key) refl

    drop_node-lem :
        (pop_end : DList → Option (Option ℕ × DList)) (p : Option ℕ) (list : DList)
        → pop_end l.doubly_linked_list ≡ some (p, list)
        → drop_node murmurhash_hash after pop_end l e.node ≡ some (e.udata, dropped l e list)
    unfolding drop_node node_fixed_pool_push push_udata
    drop_node-lem pop_end p list pops = rw (drop_node, forgets, pops, stored_lem.udata) refl

    end-lem : (p : Option ℕ) → p ≡ some e.dl → end_node l p ≡ some e.node
    unfolding end_node
    end-lem p at =
        let some_left : (l.size == 0) ≡ false = ground (arith, x.size, length-append xs (e ∷ ys)) in
        rw (at, some_left) stored_lem.back

  -- The first entry goes.
  pub pop_head-dropped :
      (n : ℕ) (l : Lru) (e : Entry) (ys : List Entry)
      → IsLru murmurhash_hash n l (e ∷ ys)
      → (l' : Lru) × (lru32_pop_head murmurhash_hash after l ≡ some (e.udata, l'))
        × IsLru murmurhash_hash n l' ys
        × (l'.max_size ≡ l.max_size)
  unfolding lru32_pop_head node_fixed_pool_push
  pop_head-dropped n l e ys x =
      let (list, pops, c, same) = pop_head-tail l.doubly_linked_list e.dl (dls_of ys) x.chain in
      (
        dropped l e list,
        rw (lru32_pop_head, end-lem n l [] e ys x l.doubly_linked_list.head x.chain.head)
            (drop_node-lem n l [] e ys x pop_head (some e.dl) list pops),
        dropped-IsLru n l [] e ys x list c same,
        refl,
      )

  -- The last entry goes.
  pub pop_tail-dropped :
      (n : ℕ) (l : Lru) (xs : List Entry) (e : Entry)
      → IsLru murmurhash_hash n l (xs ++ e ∷ [])
      → (l' : Lru) × (lru32_pop_tail murmurhash_hash after l ≡ some (e.udata, l'))
        × IsLru murmurhash_hash n l' xs
        × (l'.max_size ≡ l.max_size)
  unfolding lru32_pop_tail node_fixed_pool_push
  pop_tail-dropped n l xs e x =
      let chain = chain_lem n l xs e [] x in
      let (list, pops, c, same) = pop_tail-init l.doubly_linked_list (dls_of xs) e.dl chain in
      let tail = chain.tail ∙ final-append none (dls_of xs) (e.dl ∷ []) in
      let kept =
        dropped-IsLru n l xs e [] x list
          (subst (λ es. IsChain list (dls_of es)) (sym (append-nil xs)) c) same in
      (
        dropped l e list,
        rw (lru32_pop_tail, end-lem n l xs e [] x l.doubly_linked_list.tail tail)
            (drop_node-lem n l xs e [] x pop_tail (some e.dl) list pops),
        subst (IsLru murmurhash_hash n (dropped l e list)) (append-nil xs) kept,
        refl,
      )

  -- The data of the last entry.
  pub get_tail-last :
      (n : ℕ) (l : Lru) (xs : List Entry) (e : Entry)
      → IsLru murmurhash_hash n l (xs ++ e ∷ [])
      → lru32_get_tail l ≡ e.udata
  unfolding lru32_get_tail
  get_tail-last n l xs e x =
      let tail = (chain_lem n l xs e [] x).tail ∙ final-append none (dls_of xs) (e.dl ∷ []) in
      rw (lru32_get_tail, end-lem n l xs e [] x l.doubly_linked_list.tail tail)
        (stored_lem n l xs e [] x).udata

  -- An empty map.
  pub get_tail-nil : (n : ℕ) (l : Lru) → IsLru murmurhash_hash n l [] → lru32_get_tail l ≡ none
  unfolding lru32_get_tail end_node
  get_tail-nil n l x = rw x.size refl

  pub pop_head-nil :
      (n : ℕ) (l : Lru)
      → IsLru murmurhash_hash n l []
      → lru32_pop_head murmurhash_hash after l ≡ some (none, l)
  unfolding lru32_pop_head end_node
  pop_head-nil n l x = rw x.size refl

  pub pop_tail-nil :
      (n : ℕ) (l : Lru)
      → IsLru murmurhash_hash n l []
      → lru32_pop_tail murmurhash_hash after l ≡ some (none, l)
  unfolding lru32_pop_tail end_node
  pop_tail-nil n l x = rw x.size refl

  -- What `gnb_lru32_pop_by_key` does with the node that it has got.
  abbrev unlink_node : Option ℕ × Lru → Option (Option ℕ × Lru)
  unlink_node r = elim r.0 [
    | none ↦ some (none, r.1)
    | some n ↦ do
      dl ← (r.1.nodes n).dl_node
      l₁ ←
          forget_key murmurhash_hash after
            (record r.1 { doubly_linked_list = (DoublyLinked.pop r.1.doubly_linked_list dl).1 }) n
      let l₂ = node_fixed_pool_push l₁ n
      some ((r.1.nodes n).udata, record l₂ { size = uint32 (l₂.size + 4294967295) })
  ]

  pop_by_key-unlink :
      (key : List ℕ) (l : Lru) (r : Option ℕ × Lru)
      → lru32_get murmurhash_hash key l ≡ some r
      → lru32_pop_by_key murmurhash_hash after key l ≡ unlink_node r
  unfolding lru32_pop_by_key
  pop_by_key-unlink key l r e = ap (λ o. o >>= unlink_node) e

  Gone : ℕ → Lru → Entry → List Entry → Option (Option ℕ × Lru) → Type 0
  Gone n l e es r =
      (l' : Lru) × (r ≡ some (e.udata, l'))
      × IsLru murmurhash_hash n l' es
      × (l'.max_size ≡ l.max_size)

  unlink-dropped :
      (n : ℕ) (l : Lru) (xs : List Entry) (e : Entry) (ys : List Entry)
      → IsLru murmurhash_hash n l (xs ++ e ∷ ys)
      → Gone n l e (xs ++ ys) (unlink_node (some e.node, l))
  unfolding node_fixed_pool_push forget_key Gone FixedPool.push
  unlink-dropped n l xs e ys x =
      let s = stored_lem n l xs e ys x in
      let (_, c, same) =
        pop-unlink l.doubly_linked_list (dls_of xs) e.dl (dls_of ys) (chain_lem n l xs e ys x) in
      let list = (DoublyLinked.pop l.doubly_linked_list e.dl).1 in
      (
        dropped l e list,
        rw (s.dl_node, s.points, s.key, s.udata) refl,
        dropped-IsLru n l xs e ys x list
            (subst (IsChain list) (sym (map-append (λ (e : Entry). e.dl) xs ys)) c) same,
        refl,
      )

  pub pop_by_key-dropped :
      (n : ℕ) (l : Lru) (xs : List Entry) (e : Entry) (ys : List Entry)
      → IsLru murmurhash_hash n l (xs ++ e ∷ ys)
      → find (for_key e.key) (xs ++ e ∷ ys) ≡ some e
      → (l' : Lru) × (lru32_pop_by_key murmurhash_hash after e.key l ≡ some (e.udata, l'))
        × IsLru murmurhash_hash n l' (xs ++ ys)
        × (l'.max_size ≡ l.max_size)
  unfolding Gone
  pop_by_key-dropped n l xs e ys x found =
      let (l₁, gets, x₁, same) = get-touched murmurhash_hash n l xs e ys x found in
      let (l₂, pops, x₂, same₂) : Gone n l₁ e (xs ++ ys) (unlink_node (some e.node, l₁)) =
        elim (Bool-cases (ltb 2 (length (xs ++ e ∷ ys)))) [
          | inl long ↦ unlink-dropped n l₁ [] e (xs ++ ys) (
              subst (IsLru murmurhash_hash n l₁)
                (ap (λ b. if b then e ∷ xs ++ ys else xs ++ e ∷ ys) long) x₁)
          | inr short ↦ unlink-dropped n l₁ xs e ys (
              subst (IsLru murmurhash_hash n l₁)
                (ap (λ b. if b then e ∷ xs ++ ys else xs ++ e ∷ ys) short) x₁)
        ] in
      (l₂, pop_by_key-unlink e.key l (some e.node, l₁) gets ∙ pops, x₂, same₂ ∙ same)

  pub pop_by_key-missing :
      (n : ℕ) (key : List ℕ) (l : Lru) (es : List Entry)
      → IsLru murmurhash_hash n l es
      → find (for_key key) es ≡ none
      → lru32_pop_by_key murmurhash_hash after key l ≡ some (none, l)
  pop_by_key-missing n key l es x e =
      pop_by_key-unlink key l (none, l) (get-missing murmurhash_hash n key l es x e)
