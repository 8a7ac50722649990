-- ===== src/Lru/Pops.antt =====
-- The pops of src/gnb_lru32.c by the list of items.
use gnb_udp_over_tcp.Prelude.{
  ℕ, ◌≡◌, refl, ap, ◌∙◌, sym, subst, none, some, List, [], ◌∷◌, ◌++◌, inl, inr, Bool-cases,
  Option-cases, arith,
}
use gnb_udp_over_tcp.Hash32.{Kv}
use gnb_udp_over_tcp.Lru.{Lru, lru32_pop_by_key, lru32_pop_head, lru32_pop_tail, lru32_get_tail}
use gnb_udp_over_tcp.Lru.Counts.{find, remove}
use gnb_udp_over_tcp.Lru.Index.{Entry, for_key}
use gnb_udp_over_tcp.Lru.Entries.{IsLru}
use gnb_udp_over_tcp.Lru.Evict.{
  pop_head-dropped, pop_head-nil, pop_tail-dropped, pop_tail-nil, get_tail-last, get_tail-nil,
  pop_by_key-dropped, pop_by_key-missing,
}
use gnb_udp_over_tcp.Lru.Items.{
  Item, is_key, look, last_udata, drop_last, first_udata, drop_first, udata_of, items_of, by_entry,
  look-missing, last-lem, look-item, remove-item,
}
use gnb_udp_over_tcp.Lru.Refine.{Keeps, list_end}

module _ (murmurhash_hash : List ℕ → ℕ) (after : Kv → List ℕ) where
  PoppedKey : ℕ → ℕ → Lru → List ℕ → List Entry → Type 0
  PoppedKey n max_size l key es =
      IsLru murmurhash_hash n l es
      → (l' : Lru) × (lru32_pop_by_key murmurhash_hash after key l
          ≡ some (udata_of (look key (items_of es)), l'))
        × Keeps murmurhash_hash n max_size l' (remove (is_key key) (items_of es))

  remove-missing :
      (key : List ℕ) (items : List Item) → look key items ≡ none → remove (is_key key) items ≡ items
  remove-missing key [] e = refl
  remove-missing key (i ∷ items) e = elim (Bool-cases (is_key key i)) [
    | inl hit ↦ absurd (ground (arith, e, hit))
    | inr miss ↦ rw miss (ap (λ l. i ∷ l) (remove-missing key items (ground (arith, e, miss))))
  ]

  -- The data of the key, NULL without one, and the other items.
  pub pop_by_key-refines :
      (n max_size : ℕ) (key : List ℕ) (l : Lru) (items : List Item)
      → Keeps murmurhash_hash n max_size l items
      → (l' : Lru) × (lru32_pop_by_key murmurhash_hash after key l
          ≡ some (udata_of (look key items), l'))
        × Keeps murmurhash_hash n max_size l' (remove (is_key key) items)
  unfolding PoppedKey
  pop_by_key-refines n max_size key l items (es, s, are, max) =
      let P = λ (is : List Item).
        (l' : Lru) × (lru32_pop_by_key murmurhash_hash after key l
          ≡ some (udata_of (look key is), l'))
        × Keeps murmurhash_hash n max_size l' (remove (is_key key) is) in
      subst P are (elim (Option-cases (find (for_key key) es)) [
        | inl missing ↦
            let none_there = look-missing key es missing in
            (
              l,
              pop_by_key-missing murmurhash_hash after n key l es s missing
                  ∙ ap (λ o. some (udata_of o, l)) (sym none_there),
              (es, s, sym (remove-missing key (items_of es) none_there), max),
            )
        | inr (e, found) ↦
            by_entry (PoppedKey n max_size l) key es e found
              (λ xs ys found' away s'.
                let (l', pops, s'', same) =
                  pop_by_key-dropped murmurhash_hash after n l xs e ys s' found' in
                (
                  l',
                  pops ∙ ap (λ o. some (udata_of o, l')) (sym (look-item xs e ys found')),
                  (xs ++ ys, s'', sym (remove-item xs e ys away), same ∙ max),
                ))
              s
      ])

  pub pop_tail-refines :
      (n max_size : ℕ) (l : Lru) (items : List Item)
      → Keeps murmurhash_hash n max_size l items
      → (l' : Lru) × (lru32_pop_tail murmurhash_hash after l ≡ some (last_udata items, l'))
        × Keeps murmurhash_hash n max_size l' (drop_last items)
  pop_tail-refines n max_size l items ([], s, are, max) =
      let P = λ (is : List Item).
        (l' : Lru) × (lru32_pop_tail murmurhash_hash after l ≡ some (last_udata is, l'))
        × Keeps murmurhash_hash n max_size l' (drop_last is) in
      subst P are (l, pop_tail-nil murmurhash_hash after n l s, ([], s, refl, max))
  pop_tail-refines n max_size l items (e₁ ∷ es, s, are, max) =
      let P = λ (is : List Item).
        (l' : Lru) × (lru32_pop_tail murmurhash_hash after l ≡ some (last_udata is, l'))
        × Keeps murmurhash_hash n max_size l' (drop_last is) in
      let (xs, e, at) = list_end (e₁ ∷ es) (omega arith) in
      let (l', pops, s', same) =
        pop_tail-dropped murmurhash_hash after n l xs e (subst (IsLru murmurhash_hash n l) at s) in
      let (last, rest) = last-lem xs e in
      subst P (ap items_of (sym at) ∙ are)
        (l', pops ∙ ap (λ k. some (k, l')) (sym last), (xs, s', sym rest, same ∙ max))

  pub get_tail-refines :
      (n max_size : ℕ) (l : Lru) (items : List Item)
      → Keeps murmurhash_hash n max_size l items
      → lru32_get_tail l ≡ last_udata items
  get_tail-refines n max_size l items ([], s, are, max) =
      get_tail-nil murmurhash_hash after n l s ∙ ap last_udata are
  get_tail-refines n max_size l items (e₁ ∷ es, s, are, max) =
      let (xs, e, at) = list_end (e₁ ∷ es) (omega arith) in
      get_tail-last murmurhash_hash after n l xs e (subst (IsLru murmurhash_hash n l) at s)
      ∙ sym (last-lem xs e).0
      ∙ ap last_udata (ap items_of (sym at) ∙ are)

  pub pop_head-refines :
      (n max_size : ℕ) (l : Lru) (items : List Item)
      → Keeps murmurhash_hash n max_size l items
      → (l' : Lru) × (lru32_pop_head murmurhash_hash after l ≡ some (first_udata items, l'))
        × Keeps murmurhash_hash n max_size l' (drop_first items)
  pop_head-refines n max_size l items ([], s, are, max) =
      let P = λ (is : List Item).
        (l' : Lru) × (lru32_pop_head murmurhash_hash after l ≡ some (first_udata is, l'))
        × Keeps murmurhash_hash n max_size l' (drop_first is) in
      subst P are (l, pop_head-nil murmurhash_hash after n l s, ([], s, refl, max))
  pop_head-refines n max_size l items (e ∷ es, s, are, max) =
      let P = λ (is : List Item).
        (l' : Lru) × (lru32_pop_head murmurhash_hash after l ≡ some (first_udata is, l'))
        × Keeps murmurhash_hash n max_size l' (drop_first is) in
      let (l', pops, s', same) = pop_head-dropped murmurhash_hash after n l e es s in
      subst P are (l', pops, (es, s', refl, same ∙ max))
