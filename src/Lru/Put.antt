-- ===== src/Lru/Put.antt =====
-- `gnb_lru32_put` of src/gnb_lru32.c, by the entries.
use gnb_udp_over_tcp.Prelude.{
  ℕ, ◌+◌, ◌≡◌, ◌<◌, refl, ap, ◌∙◌, sym, subst, Bool, true, false, Option, none, some, List, [], ◌∷◌,
  ◌++◌, map, ◌==◌, ltb, leb, if◌then◌else◌, length, length-append, update, inl, inr, Bool-cases,
  arith, ◌>>=◌,
}
use gnb_udp_over_tcp.DoublyLinked.Chain.{IsChain}
use gnb_udp_over_tcp.Hash32.{Kv}
use gnb_udp_over_tcp.Lru.{
  LruNode, Lru, set_udata, enter, make_room, lru32_get, lru32_put, lru32_pop_tail,
}
use gnb_udp_over_tcp.Lru.Counts.{count, count-append, find, count-none}
use gnb_udp_over_tcp.Lru.Pools.{Shares, tally, tally_mid}
use gnb_udp_over_tcp.Lru.Index.{Entry, for_key, node_of}
use gnb_udp_over_tcp.Lru.Entries.{
  Stored, IsLru, nodes_of, map_mid, map-append, All-mid, All-join, node-Stored,
}
use gnb_udp_over_tcp.Lru.Touch.{touched, get-missing, get-touched}
use gnb_udp_over_tcp.Lru.Evict.{pop_tail-dropped}
use gnb_udp_over_tcp.Lru.Enter.{enter-IsLru}

abbrev pub with_udata : Option ℕ → Entry → Entry
with_udata u e = record e { udata = u }

-- What the other structures see of an entry stays.
map_same :
    (f : Entry → ℕ) (u : Option ℕ) (xs : List Entry) (e : Entry) (ys : List Entry)
    → f e ≡ f (with_udata u e)
    → map f (xs ++ e ∷ ys) ≡ map f (xs ++ with_udata u e ∷ ys)
map_same f u xs e ys same =
    map_mid f xs e ys
    ∙ ap (λ k. map f xs ++ k ∷ map f ys) same
    ∙ sym (map_mid f xs (with_udata u e) ys)

find_same :
    (u : Option ℕ) (key : List ℕ) (xs : List Entry) (e : Entry) (ys : List Entry)
    → node_of (find (for_key key) (xs ++ e ∷ ys))
      ≡ node_of (find (for_key key) (xs ++ with_udata u e ∷ ys))
find_same u key [] e ys = elim (Bool-cases (for_key key e)) [
  | inl hit ↦ rw hit refl
  | inr miss ↦ rw miss refl
]
find_same u key (x ∷ xs) e ys = elim (Bool-cases (for_key key x)) [
  | inl hit ↦ rw hit refl
  | inr miss ↦ rw miss (find_same u key xs e ys)
]

count_same :
    (u : Option ℕ) (key : List ℕ) (xs : List Entry) (e : Entry) (ys : List Entry)
    → count (for_key key) (xs ++ e ∷ ys) ≡ count (for_key key) (xs ++ with_udata u e ∷ ys)
count_same u key xs e ys =
    let one : count (for_key key) (e ∷ ys) ≡ count (for_key key) (with_udata u e ∷ ys) = refl in
    count-append (for_key key) xs (e ∷ ys)
    ∙ ap (λ k. count (for_key key) xs + k) one
    ∙ sym (count-append (for_key key) xs (with_udata u e ∷ ys))

module _ (murmurhash_hash : List ℕ → ℕ) (after : Kv → List ℕ) where
  set_udata-IsLru :
      (n : ℕ) (u : Option ℕ) (l : Lru) (xs : List Entry) (e : Entry) (ys : List Entry)
      → IsLru murmurhash_hash n l (xs ++ e ∷ ys)
      → IsLru murmurhash_hash n
          (set_udata murmurhash_hash after u l e.node)
          (xs ++ with_udata u e ∷ ys)
  unfolding set_udata
  set_udata-IsLru n u l xs e ys x =
      let P = Stored n l.nodes l.doubly_linked_list.node_data in
      let (s, rest) = All-mid P xs e ys x.stored in
      let v : LruNode = record (l.nodes e.node) { udata = u } in
      let self : (e.node == e.node) ≡ true = ground arith in
      let at : update l.nodes e.node v e.node ≡ v = rw self refl in
      let others : tally (nodes_of (xs ++ ys)) e.node ≡ 0 = omega (
        arith,
        x.node_pool.once e.node,
        ap (λ k. tally k e.node) (map_mid (λ (e : Entry). e.node) xs e ys),
        tally_mid (nodes_of xs) e.node (nodes_of ys) e.node,
        ap (λ k. tally k e.node) (map-append (λ (e : Entry). e.node) xs ys),
        alone e.node,
      ) in
      let same_nodes = map_same (λ (e : Entry). e.node) u xs e ys refl in
      let same_dls = map_same (λ (e : Entry). e.dl) u xs e ys refl in
      record {
        chain = subst (IsChain l.doubly_linked_list) same_dls x.chain;
        size =
            omega
              (arith, x.size, length-append xs (e ∷ ys), length-append xs (with_udata u e ∷ ys));
        bound = x.bound;
        stored =
            All-join (Stored n (update l.nodes e.node v) l.doubly_linked_list.node_data) xs
              (with_udata u e) ys
              (record {
                dl_node = ap (λ k. k.dl_node) at ∙ s.dl_node;
                kv = s.kv;
                points = ap (λ k. k.kv) at ∙ s.points;
                key = s.key;
                udata = ap (λ k. k.udata) at;
                back = s.back;
                len = s.len;
              })
              (node-Stored n l.nodes l.doubly_linked_list.node_data e.node v (xs ++ ys) others
                rest);
        index = record {
          table = x.index.table;
          at = λ key. x.index.at key ∙ find_same u key xs e ys;
          once = λ key. omega (arith, x.index.once key, count_same u key xs e ys);
        };
        node_pool = subst (Shares l.lru_node_fixed_pool l.max_size) same_nodes x.node_pool;
        dl_pool = subst (Shares l.dl_node_fixed_pool l.max_size) same_dls x.dl_pool;
      }
    where
      alone : (y : ℕ) → tally (y ∷ []) y ≡ 1
      alone y = ground arith

  abbrev insert : List ℕ → Option ℕ → Option ℕ × Lru → Option (Option ℕ × Lru)
  insert key u r =
      enter murmurhash_hash after (λ l n. some (set_udata murmurhash_hash after u l n)) key r.1
      >>= λ l. some (r.0, l)

  abbrev put_found : List ℕ → Option ℕ → Option ℕ × Lru → Option (Option ℕ × Lru)
  put_found key u r = elim r.0 [
    | some n ↦ some (none, set_udata murmurhash_hash after u r.1 n)
    | none ↦ make_room murmurhash_hash after r.1 >>= insert key u
  ]

  put-put_found :
      (key : List ℕ) (u : Option ℕ) (l : Lru) (r : Option ℕ × Lru)
      → lru32_get murmurhash_hash key l ≡ some r
      → lru32_put murmurhash_hash after key u l ≡ put_found key u r
  unfolding lru32_put
  put-put_found key u l r e = ap (λ o. o >>= put_found key u) e

  -- The key has an entry: its data are exchanged.
  pub put-exchanged :
      (n : ℕ) (u : Option ℕ) (l : Lru) (xs : List Entry) (e : Entry) (ys : List Entry)
      → IsLru murmurhash_hash n l (xs ++ e ∷ ys)
      → find (for_key e.key) (xs ++ e ∷ ys) ≡ some e
      → (l' : Lru) × (lru32_put murmurhash_hash after e.key u l ≡ some (none, l'))
        × IsLru murmurhash_hash n l' (touched xs (with_udata u e) ys)
        × (l'.max_size ≡ l.max_size)
  unfolding set_udata
  put-exchanged n u l xs e ys x found =
      let (l₁, gets, x₁, same) = get-touched murmurhash_hash n l xs e ys x found in
      let l₂ = set_udata murmurhash_hash after u l₁ e.node in
      let len : length (xs ++ with_udata u e ∷ ys) ≡ length (xs ++ e ∷ ys) =
        omega (arith, length-append xs (e ∷ ys), length-append xs (with_udata u e ∷ ys)) in
      (
        l₂,
        put-put_found e.key u l (some e.node, l₁) gets,
        elim (Bool-cases (ltb 2 (length (xs ++ e ∷ ys)))) [
          | inl long ↦
              subst (IsLru murmurhash_hash n l₂)
                (ap (λ b. if b then with_udata u e ∷ xs ++ ys else xs ++ with_udata u e ∷ ys)
                  (sym long ∙ ap (λ k. ltb 2 k) (sym len)))
                (set_udata-IsLru n u l₁ [] e (xs ++ ys) (
                  subst (IsLru murmurhash_hash n l₁)
                    (ap (λ b. if b then e ∷ xs ++ ys else xs ++ e ∷ ys) long) x₁))
          | inr short ↦
              subst (IsLru murmurhash_hash n l₂)
                (ap (λ b. if b then with_udata u e ∷ xs ++ ys else xs ++ with_udata u e ∷ ys)
                  (sym short ∙ ap (λ k. ltb 2 k) (sym len)))
                (set_udata-IsLru n u l₁ xs e ys (
                  subst (IsLru murmurhash_hash n l₁)
                    (ap (λ b. if b then e ∷ xs ++ ys else xs ++ e ∷ ys) short) x₁))
        ],
        same,
      )

  -- The map after an insertion, by the rest of the entries.
  abbrev pub Entered :
      ℕ → List ℕ → Option ℕ → Lru → List Entry → Option ℕ → Option (Option ℕ × Lru) → Type 0
  Entered n key u l es popped r =
      (x : ℕ) × (y : ℕ) × (l' : Lru) × (r ≡ some (popped, l'))
      × IsLru murmurhash_hash n l' (record { node = x; dl = y; key = key; udata = u } ∷ es)
      × (l'.max_size ≡ l.max_size)

  insert-Entered :
      (n : ℕ) (key : List ℕ) (u popped : Option ℕ) (l : Lru) (es : List Entry)
      → IsLru murmurhash_hash n l es
      → length key ≡ n
      → count (for_key key) es ≡ 0
      → length es < l.max_size
      → Entered n key u l es popped (insert key u (popped, l))
  insert-Entered n key u popped l es s len new room =
      let (x, y, l', enters, s', same) =
        enter-IsLru murmurhash_hash key u after n l es s len new room in
      (x, y, l', ap (λ o. o >>= λ l. some (popped, l)) enters, s', same)

  make_room-lem :
      (l : Lru) (r : Option (Option ℕ × Lru)) (full : Bool)
      → leb l.max_size l.size ≡ full
      → (if full then lru32_pop_tail murmurhash_hash after l else some (none, l)) ≡ r
      → make_room murmurhash_hash after l ≡ r
  unfolding make_room
  make_room-lem l r full e e' =
      ap (λ b. if b then lru32_pop_tail murmurhash_hash after l else some (none, l)) e ∙ e'

  -- A new key, with room for its entry.
  pub put-Entered :
      (n : ℕ) (key : List ℕ) (u : Option ℕ) (l : Lru) (es : List Entry)
      → IsLru murmurhash_hash n l es
      → length key ≡ n
      → find (for_key key) es ≡ none
      → length es < l.max_size
      → Entered n key u l es none (lru32_put murmurhash_hash after key u l)
  put-Entered n key u l es s len new room =
      let (x, y, l', inserts, s', same) =
        insert-Entered n key u none l es s len (count-none (for_key key) es new) room in
      let here = make_room-lem l (some (none, l)) false (ground (arith, s.size)) refl in
      (
        x,
        y,
        l',
        put-put_found key u l (none, l) (get-missing murmurhash_hash n key l es s new)
            ∙ ap (λ o. o >>= insert key u) here
            ∙ inserts,
        s',
        same,
      )

  -- A new key, where the last entry makes room.
  pub put-pushed_out :
      (n : ℕ) (key : List ℕ) (u : Option ℕ) (l : Lru) (xs : List Entry) (e : Entry)
      → IsLru murmurhash_hash n l (xs ++ e ∷ [])
      → length key ≡ n
      → find (for_key key) (xs ++ e ∷ []) ≡ none
      → l.max_size ≡ length (xs ++ e ∷ [])
      → Entered n key u l xs e.udata (lru32_put murmurhash_hash after key u l)
  put-pushed_out n key u l xs e s len new full =
      let (l₁, pops, s₁, same₁) = pop_tail-dropped murmurhash_hash after n l xs e s in
      let none_left : count (for_key key) xs ≡ 0 = omega (
        arith,
        count-none (for_key key) (xs ++ e ∷ []) new,
        count-append (for_key key) xs (e ∷ []),
      ) in
      let (x, y, l', inserts, s', same) =
        insert-Entered n key u e.udata l₁ xs s₁ len none_left
          (omega (arith, full, same₁, length-append xs (e ∷ []))) in
      let here = make_room-lem l (some (e.udata, l₁)) true (ground (arith, s.size, full)) pops in
      (
        x,
        y,
        l',
        put-put_found key u l (none, l) (get-missing murmurhash_hash n key l (xs ++ e ∷ []) s new)
            ∙ ap (λ o. o >>= insert key u) here
            ∙ inserts,
        s',
        same ∙ same₁,
      )
