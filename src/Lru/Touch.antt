-- ===== src/Lru/Touch.antt =====
-- `gnb_lru32_get` of src/gnb_lru32.c.
use gnb_udp_over_tcp.Prelude.{
  ℕ, ◌≡◌, ◌≢◌, refl, ap, ◌∙◌, sym, subst, Option, none, some, List, ◌∷◌, ◌++◌, map, ◌==◌, ltb,
  if◌then◌else◌, length, length-map, length-append, inl, inr, Bool-cases, Option-cases, arith,
  ◌>>=◌,
}
use gnb_udp_over_tcp.DoublyLinked.{DList}
use gnb_udp_over_tcp.DoublyLinked.Chain.{IsChain}
use gnb_udp_over_tcp.DoublyLinked.Move.{move_head-order, order_after_move}
use gnb_udp_over_tcp.Hash32.{hash32_get, value_ptr}
use gnb_udp_over_tcp.Hash32.Chain.{value_of}
use gnb_udp_over_tcp.Hash32.Lookup.{ptr}
use gnb_udp_over_tcp.Lru.{Lru, touch_node, lru32_hash_get, lru32_get}
use gnb_udp_over_tcp.Lru.Counts.{All, find}
use gnb_udp_over_tcp.Lru.Pools.{Shares, tally, tally_mid, move-Shares}
use gnb_udp_over_tcp.Lru.Index.{Entry, for_key, node_of, IsIndex, move-IsIndex}
use gnb_udp_over_tcp.Lru.Entries.{Stored, IsLru, nodes_of, dls_of, map_mid, map-append, All-mid}

-- The entries after a use of `e`: of one or two the order stays.
abbrev pub touched : List Entry → Entry → List Entry → List Entry
touched xs e ys = if ltb 2 (length (xs ++ e ∷ ys)) then e ∷ xs ++ ys else xs ++ e ∷ ys

dls_touched :
    (xs : List Entry) (e : Entry) (ys : List Entry)
    → order_after_move (dls_of xs) e.dl (dls_of ys) ≡ dls_of (touched xs e ys)
dls_touched xs e ys =
    let len : length (dls_of xs ++ e.dl ∷ dls_of ys) ≡ length (xs ++ e ∷ ys) = omega (
      arith,
      length-append (dls_of xs) (e.dl ∷ dls_of ys),
      length-append xs (e ∷ ys),
      length-map xs (λ (e : Entry). e.dl),
      length-map ys (λ (e : Entry). e.dl),
    ) in
    ap (λ k. if ltb 2 k then e.dl ∷ dls_of xs ++ dls_of ys else dls_of xs ++ e.dl ∷ dls_of ys) len
    ∙ elim (Bool-cases (ltb 2 (length (xs ++ e ∷ ys)))) [
      | inl long ↦ rw long (ap (λ l. e.dl ∷ l) (sym (map-append (λ (e : Entry). e.dl) xs ys)))
      | inr short ↦ rw short (sym (map_mid (λ (e : Entry). e.dl) xs e ys))
    ]

-- A property of the entries that an entry may move to the front of.
touch_lem :
    (P : List Entry → Type 0) (xs : List Entry) (e : Entry) (ys : List Entry)
    → P (xs ++ e ∷ ys)
    → P (e ∷ xs ++ ys)
    → P (touched xs e ys)
touch_lem P xs e ys stay move = elim (Bool-cases (ltb 2 (length (xs ++ e ∷ ys)))) [
  | inl long ↦ rw long move
  | inr short ↦ rw short stay
]

module _ (murmurhash_hash : List ℕ → ℕ) where
  -- Moving an entry in the list: the other structures know no order.
  touched-IsLru :
      (n : ℕ) (l : Lru) (list : DList) (xs : List Entry) (e : Entry) (ys : List Entry)
      → IsLru murmurhash_hash n l (xs ++ e ∷ ys)
      → IsChain list (dls_of (touched xs e ys))
      → list.node_data ≡ l.doubly_linked_list.node_data
      → IsLru murmurhash_hash n (record l { doubly_linked_list = list }) (touched xs e ys)
  touched-IsLru n l list xs e ys x c same = record {
    chain = c;
    size =
        touch_lem (λ es. l.size ≡ length es) xs e ys x.size
          (omega (arith, x.size, length-append xs (e ∷ ys), length-append xs ys));
    bound = x.bound;
    stored =
        let s = subst (λ d. All (Stored n l.nodes d) (xs ++ e ∷ ys)) (sym same) x.stored in
        touch_lem (All (Stored n l.nodes list.node_data)) xs e ys s
          (All-mid (Stored n l.nodes list.node_data) xs e ys s);
    index =
        touch_lem (IsIndex murmurhash_hash n l.lru_node_map) xs e ys x.index
          (move-IsIndex murmurhash_hash n l.lru_node_map xs e ys x.index);
    node_pool =
        touch_lem (λ es. Shares l.lru_node_fixed_pool l.max_size (nodes_of es)) xs e ys x.node_pool
          (moved_Shares l.lru_node_fixed_pool (λ (e : Entry). e.node) x.node_pool);
    dl_pool =
        touch_lem (λ es. Shares l.dl_node_fixed_pool l.max_size (dls_of es)) xs e ys x.dl_pool
          (moved_Shares l.dl_node_fixed_pool (λ (e : Entry). e.dl) x.dl_pool);
  }
    where
      moved_Shares :
          (pool : _) (f : Entry → ℕ)
          → Shares pool l.max_size (map f (xs ++ e ∷ ys))
          → Shares pool l.max_size (map f (e ∷ xs ++ ys))
      moved_Shares pool f s =
          subst (λ k. Shares pool l.max_size (f e ∷ k)) (sym (map-append f xs ys))
            (move-Shares pool l.max_size (map f xs) (f e) (map f ys)
              (subst (Shares pool l.max_size) (map_mid f xs e ys) s))

  -- The node that the hash map leads to, where no node is NULL.
  hash_get-lookup :
      (key : List ℕ) (l : Lru) (o : Option ℕ)
      → ptr (value_of (hash32_get murmurhash_hash key l.lru_node_map)) ≡ o
      → o ≢ some 0
      → lru32_hash_get murmurhash_hash key l ≡ o
  unfolding lru32_hash_get
  hash_get-lookup key l o e ne =
      elim (Option-cases (hash32_get murmurhash_hash key l.lru_node_map)) [
        | inl none' ↦ rw none' (ap (λ k. ptr (value_of k)) (sym none') ∙ e)
        | inr (kv, got) ↦ rw got (elim (Bool-cases (value_ptr kv.value == 0)) [
          | inl null ↦
              absurd (ne (sym e ∙ ap (λ k. ptr (value_of k)) got ∙ ap some (ground (arith, null))))
          | inr there ↦ rw there (ap (λ k. ptr (value_of k)) (sym got) ∙ e)
        ])
      ]

  node_positive :
      (n : ℕ) (l : Lru) (xs : List Entry) (e : Entry) (ys : List Entry)
      → IsLru murmurhash_hash n l (xs ++ e ∷ ys)
      → some e.node ≢ some 0
  node_positive n l xs e ys x h =
      let null : e.node ≡ 0 = ap (λ (o : Option ℕ). elim o [ none ↦ 0 | some k ↦ k ]) h in
      let at =
        ap (λ k. tally k 0) (map_mid (λ (e : Entry). e.node) xs e ys)
        ∙ tally_mid (nodes_of xs) e.node (nodes_of ys) 0 in
      ground (arith, x.node_pool.no_null, at, null)

  abbrev by_node : Lru → Option ℕ → Option (Option ℕ × Lru)
  by_node l none = some (none, l)
  by_node l (some n) = touch_node l n >>= λ l'. some (some n, l')

  get-by_node :
      (key : List ℕ) (l : Lru) (o : Option ℕ)
      → lru32_hash_get murmurhash_hash key l ≡ o
      → lru32_get murmurhash_hash key l ≡ by_node l o
  unfolding lru32_get
  get-by_node key l none e = ap (by_node l) e
  get-by_node key l (some n) e = ap (by_node l) e

  -- A key that has no entry.
  pub get-missing :
      (n : ℕ) (key : List ℕ) (l : Lru) (es : List Entry)
      → IsLru murmurhash_hash n l es
      → find (for_key key) es ≡ none
      → lru32_get murmurhash_hash key l ≡ some (none, l)
  get-missing n key l es x e =
      get-by_node key l none
        (hash_get-lookup key l none (x.index.at key ∙ ap node_of e) (λ h. ground (arith, h)))

  pub get-touched :
      (n : ℕ) (l : Lru) (xs : List Entry) (e : Entry) (ys : List Entry)
      → IsLru murmurhash_hash n l (xs ++ e ∷ ys)
      → find (for_key e.key) (xs ++ e ∷ ys) ≡ some e
      → (l' : Lru) × (lru32_get murmurhash_hash e.key l ≡ some (some e.node, l'))
        × IsLru murmurhash_hash n l' (touched xs e ys)
        × (l'.max_size ≡ l.max_size)
  unfolding touch_node
  get-touched n l xs e ys x found =
      let hit =
        hash_get-lookup e.key l (some e.node) (x.index.at e.key ∙ ap node_of found)
          (node_positive n l xs e ys x) in
      let s = (All-mid (Stored n l.nodes l.doubly_linked_list.node_data) xs e ys x.stored).0 in
      let (list, (moves, c, same)) =
        move_head-order l.doubly_linked_list (dls_of xs) e.dl (dls_of ys)
          (subst (IsChain l.doubly_linked_list) (map_mid (λ (e : Entry). e.dl) xs e ys) x.chain) in
      (
        record l { doubly_linked_list = list },
        get-by_node e.key l (some e.node) hit ∙ rw (touch_node, s.dl_node, moves) refl,
        touched-IsLru n l list xs e ys x (subst (IsChain list) (dls_touched xs e ys) c) same,
        refl,
      )
