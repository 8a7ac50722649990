-- ===== src/Lru/Refine.antt =====
-- src/gnb_lru32.c as a list of items, the last used first.
use gnb_udp_over_tcp.Prelude.{
  ℕ, ◌+◌, ◌≡◌, ◌≤◌, ◌<◌, refl, ap, ◌∙◌, sym, subst, Option, none, some, List, [], ◌∷◌, ◌++◌, ltb,
  leb, if◌then◌else◌, length, length-map, inl, inr, Bool-cases, Option-cases, arith,
}
use gnb_udp_over_tcp.Hash32.{Kv}
use gnb_udp_over_tcp.Hash32.Chain.{same_bytes_refl}
use gnb_udp_over_tcp.Lru.{Lru, lru32_get, lru32_put}
use gnb_udp_over_tcp.Lru.Counts.{All, find, count, count-append}
use gnb_udp_over_tcp.Lru.Index.{Entry, for_key}
use gnb_udp_over_tcp.Lru.Entries.{Stored, IsLru, All-mid}
use gnb_udp_over_tcp.Lru.Touch.{touched, get-missing, get-touched}
use gnb_udp_over_tcp.Lru.Put.{with_udata, put-exchanged, put-Entered, put-pushed_out}
use gnb_udp_over_tcp.Lru.Items.{
  Item, look, touch, move_up, exchange, last_udata, drop_last, put_item, put_at, item, items_of,
  by_entry, look-missing, last-lem, look-item, touch-touched, exchange-touched,
}

abbrev pub found_udata : Lru → Option ℕ → Option (Option ℕ)
found_udata l none = none
found_udata l (some x) = some (l.nodes x).udata

abbrev pub item_udata : Option Item → Option (Option ℕ)
item_udata none = none
item_udata (some i) = some i.udata

pub list_end :
    (es : List Entry) → 0 < length es → (xs : List Entry) × (e : Entry) × (es ≡ xs ++ e ∷ [])
list_end [] h = absurd (omega arith)
list_end (x ∷ []) h = ([], x, refl)
list_end (x ∷ y ∷ es) h =
    let (xs, e, at) = list_end (y ∷ es) (omega arith) in (x ∷ xs, e, ap (λ l. x ∷ l) at)

module _ (murmurhash_hash : List ℕ → ℕ) where
  -- `l` has room for `max_size` entries, with keys of `n` bytes, and holds `items`.
  abbrev pub Keeps : ℕ → ℕ → Lru → List Item → Type 0
  Keeps n max_size l items =
      (es : List Entry) × IsLru murmurhash_hash n l es
      × (items_of es ≡ items)
      × (l.max_size ≡ max_size)

  stored_touched :
      (n : ℕ) (l : Lru) (xs : List Entry) (e : Entry) (ys : List Entry)
      → IsLru murmurhash_hash n l (touched xs e ys)
      → (l.nodes e.node).udata ≡ e.udata
  stored_touched n l xs e ys s =
      let P = Stored n l.nodes l.doubly_linked_list.node_data in
      elim (Bool-cases (ltb 2 (length (xs ++ e ∷ ys)))) [
        | inl long ↦
            (subst (All P) (ap (λ b. if b then e ∷ xs ++ ys else xs ++ e ∷ ys) long)
              s.stored).0.udata
        | inr short ↦
            (All-mid P xs e ys (
              subst (All P) (ap (λ b. if b then e ∷ xs ++ ys else xs ++ e ∷ ys) short)
                s.stored)).0.udata
      ]

  Got : ℕ → ℕ → Lru → List ℕ → List Entry → Type 0
  Got n max_size l key es =
      IsLru murmurhash_hash n l es
      → (o : Option ℕ) × (l' : Lru) × (lru32_get murmurhash_hash key l ≡ some (o, l'))
        × (found_udata l' o ≡ item_udata (look key (items_of es)))
        × Keeps n max_size l' (touch key (items_of es))

  -- The node of the key, if it has one, holds its data; the item moves to the front.
  pub get-refines :
      (n max_size : ℕ) (key : List ℕ) (l : Lru) (items : List Item)
      → Keeps n max_size l items
      → (o : Option ℕ) × (l' : Lru) × (lru32_get murmurhash_hash key l ≡ some (o, l'))
        × (found_udata l' o ≡ item_udata (look key items))
        × Keeps n max_size l' (touch key items)
  unfolding Got
  get-refines n max_size key l items (es, s, are, max) =
      let P = λ (is : List Item).
        (o : Option ℕ) × (l' : Lru) × (lru32_get murmurhash_hash key l ≡ some (o, l'))
        × (found_udata l' o ≡ item_udata (look key is))
        × Keeps n max_size l' (touch key is) in
      subst P are (elim (Option-cases (find (for_key key) es)) [
        | inl missing ↦
            let none_there = look-missing key es missing in
            (
              none,
              l,
              get-missing murmurhash_hash n key l es s missing,
              ap item_udata (sym none_there),
              (es, s, ap (move_up key (items_of es)) (sym none_there), max),
            )
        | inr (e, found) ↦
            by_entry (Got n max_size l) key es e found
              (λ xs ys found' away s'.
                let (l', gets, s'', same) = get-touched murmurhash_hash n l xs e ys s' found' in
                (
                  some e.node,
                  l',
                  gets,
                  ap some (stored_touched n l' xs e ys s'')
                      ∙ ap item_udata (sym (look-item xs e ys found')),
                  (touched xs e ys, s'', touch-touched xs e ys found' away, same ∙ max),
                ))
              s
      ])

  module _ (after : Kv → List ℕ) where
    Put : ℕ → ℕ → Option ℕ → Lru → List ℕ → List Entry → Type 0
    Put n max_size u l key es =
        IsLru murmurhash_hash n l es
        → let r = put_item max_size key u (items_of es) in
          (l' : Lru) × (lru32_put murmurhash_hash after key u l ≡ some (r.0, l'))
          × Keeps n max_size l' r.1

    put_new :
        (n max_size : ℕ) (key : List ℕ) (u : Option ℕ) (l : Lru) (es : List Entry)
        → IsLru murmurhash_hash n l es
        → l.max_size ≡ max_size
        → length key ≡ n
        → 0 < max_size
        → find (for_key key) es ≡ none
        → let r = put_at max_size key u (items_of es) none in
          (l' : Lru) × (lru32_put murmurhash_hash after key u l ≡ some (r.0, l'))
          × Keeps n max_size l' r.1
    put_new n max_size key u l es s max len pos new =
        let size : length (items_of es) ≡ length es = length-map es item in
        elim (Bool-cases (leb max_size (length es))) [
          | inl full ↦
              let (xs, e, at) = list_end es (ground arith) in
              let total : length es ≤ max_size =
                omega (arith, s.node_pool.total, max, length-map es (λ (e : Entry). e.node)) in
              let (x, y, l', puts, s', same) =
                put-pushed_out murmurhash_hash after n key u l xs e
                  (subst (IsLru murmurhash_hash n l) at s) len
                  (ap (find (for_key key)) (sym at) ∙ new) (ground (arith, max, ap length at)) in
              let (last, rest) = last-lem xs e in
              rw (size, full)
                (
                  l',
                  puts
                      ∙ ap (λ k. some (k, l'))
                          (sym last ∙ ap (λ k. last_udata (items_of k)) (sym at)),
                  (
                    record { node = x; dl = y; key = key; udata = u } ∷ xs,
                    s',
                    ap (λ k. record { key = key; udata = u } ∷ k)
                        (sym rest ∙ ap (λ k. drop_last (items_of k)) (sym at)),
                    same ∙ max,
                  ),
                )
          | inr some_room ↦
              let (x, y, l', puts, s', same) =
                put-Entered murmurhash_hash after n key u l es s len new (ground (arith, max)) in
              rw (size, some_room)
                (
                  l',
                  puts,
                  (record { node = x; dl = y; key = key; udata = u } ∷ es, s', refl, same ∙ max),
                )
        ]

    -- For a map that holds the items of a list, with keys of n bytes, and has room for at least
    -- one: gnb_lru32_put of a key of n bytes returns; where the key was there its data are
    -- exchanged and it becomes the first of three or more, where it was not it becomes the first,
    -- and a full map gives back the data of the last and holds the others.
    pub put-refines :
        (n max_size : ℕ) (key : List ℕ) (u : Option ℕ) (l : Lru) (items : List Item)
        → Keeps n max_size l items
        → length key ≡ n
        → 0 < max_size
        → let r = put_item max_size key u items in
          (l' : Lru) × (lru32_put murmurhash_hash after key u l ≡ some (r.0, l'))
          × Keeps n max_size l' r.1
    unfolding Put
    put-refines n max_size key u l items (es, s, are, max) len pos =
        let P = λ (k : List ℕ) (r : Option ℕ × List Item).
          (l' : Lru) × (lru32_put murmurhash_hash after k u l ≡ some (r.0, l'))
          × Keeps n max_size l' r.1 in
        subst (λ is. P key (put_item max_size key u is)) are
          (elim (Option-cases (find (for_key key) es)) [
            | inl missing ↦
                subst (λ o. P key (put_at max_size key u (items_of es) o))
                  (sym (look-missing key es missing))
                  (put_new n max_size key u l es s max len pos missing)
            | inr (e, found) ↦
                by_entry (Put n max_size u l) key es e found
                  (λ xs ys found' away s'.
                    let (l', puts, s'', same) =
                      put-exchanged murmurhash_hash after n u l xs e ys s' found' in
                    let once = s'.index.once e.key in
                    let self : count (for_key e.key) (e ∷ ys) ≡ count (for_key e.key) ys + 1 =
                      rw (same_bytes_refl e.key) refl in
                    let behind : count (for_key e.key) ys ≡ 0 =
                      omega (arith, once, self, count-append (for_key e.key) xs (e ∷ ys)) in
                    subst (λ o. P e.key (put_at max_size e.key u (items_of (xs ++ e ∷ ys)) o))
                      (sym (look-item xs e ys found'))
                      (
                        l',
                        puts,
                        (
                          touched xs (with_udata u e) ys,
                          s'',
                          sym (
                                exchange-touched u xs e ys away behind
                                  (omega (arith, away, behind, count-append (for_key e.key) xs ys)))
                              ∙ ap (exchange e.key u) (touch-touched xs e ys found' away),
                          same ∙ max,
                        ),
                      ))
                  s
          ])
