-- ===== src/Alloc/Free.antt =====
-- `gnb_heap_free` takes one fragment out of the table and leaves the others reachable.
use gnb_udp_over_tcp.Prelude.{
  ℕ, ◌+◌, ◌-◌, ◌*◌, ◌%◌, ◌^◌, ◌<◌, ◌≡◌, ◌≢◌, refl, ap, false, none, some, ltb, ◌==◌, update, arith,
  ◌↔◌, Bool-cases, inl, inr,
}
use gnb_udp_over_tcp.Alloc.{
  Fragment, Heap, fragment_size, allocated, heap_alloc, heap_free, finish, move_last,
}
use gnb_udp_over_tcp.Alloc.Table.{IsValid}

module _ (h : Heap) (p : ℕ) (f : Fragment) (v : IsValid h) (live : h.memory p ≡ some f) where
  abbrev last : ℕ
  last = h.fragment_list (h.fragment_nums - 1)

  -- What the table says of its last fragment `l` and of `p`.
  record AtLast (l : Fragment) : Type 0 where
    here : h.memory last ≡ some l
    idx : l.idx ≡ h.fragment_nums - 1
    below : f.idx < h.fragment_nums
    at : h.fragment_list f.idx ≡ p

  at_last : (l : Fragment) × AtLast l
  at_last =
      let (below, at) = v.placed p f live in
      let (l, here, idx) = v.listed (h.fragment_nums - 1) (omega arith) in
      (l, record { here = here; idx = idx; below = below; at = at })

  -- The fragment of a place below the last is neither `p` nor the last one.
  listed_apart :
      (i : ℕ) (l : Fragment)
      → AtLast l
      → i < h.fragment_nums
      → (i ≢ f.idx → h.fragment_list i ≢ p) × (i ≢ l.idx → h.fragment_list i ≢ last)
  listed_apart i l a lt =
      let (g, e, at) = v.listed i lt in
      ((λ ne same. ground arith), (λ ne same. ground (arith, a.here)))

  finish-IsValid : (l : Fragment) → AtLast l → f.idx ≡ l.idx → IsValid (finish p h)
  unfolding finish
  finish-IsValid l a same = record {
    bounded = omega (arith, v.bounded);
    listed = λ i lt.
        let (g, e, at) = v.listed i (omega arith) in
        let apart = (listed_apart i l a (omega arith)).0 (omega (arith, a.idx)) in
        (g, ground arith, at);
    placed = λ q g e.
        let other : (q == p) ≡ false = ground arith in
        let e' : h.memory q ≡ some g = ground arith in
        let (lt, at) = v.placed q g e' in
        let ne : g.idx ≢ f.idx = λ i. ground (arith, ap h.fragment_list i, a.at) in
        (omega (arith, a.idx), at);
  }

  moved-IsValid :
      (l : Fragment) → AtLast l → f.idx ≢ l.idx → IsValid (finish p (move_last p f last l h))
  unfolding finish move_last
  moved-IsValid l a other =
      let last_ne : last ≢ p =
        (listed_apart (h.fragment_nums - 1) l a (omega arith)).0 (omega (arith, a.idx)) in
      record {
        bounded = omega (arith, v.bounded);
        listed = λ i lt. elim (Bool-cases (i == f.idx)) [
          | inl moved ↦ (record l { idx = f.idx }, rw moved (ground arith), ground arith)
          | inr kept ↦
              let (g, e, at) = v.listed i (omega arith) in
              let (ne, ne') = listed_apart i l a (omega arith) in
              let apart = ne (ground arith) in
              let apart' = ne' (omega (arith, a.idx)) in (g, rw kept (ground arith), at)
        ];
        placed = λ q g e. elim (Bool-cases (q == last)) [
          | inl moved ↦
              let same : g.idx ≡ f.idx = ground arith in
              let reach : update h.fragment_list f.idx last g.idx ≡ last = ground arith in
              (omega (arith, a.idx, a.below), ground arith)
          | inr kept ↦
              let other : (q == p) ≡ false = ground arith in
              let e' : h.memory q ≡ some g = ground arith in
              let (lt, at) = v.placed q g e' in
              let ne : g.idx ≢ f.idx = λ i. ground (arith, ap h.fragment_list i, a.at) in
              let ne' : g.idx ≢ h.fragment_nums - 1 = λ i. ground (arith, ap h.fragment_list i) in
              (omega (arith, a.idx), ground arith)
        ];
      }

  abbrev pub Freed : Heap → Type 0
  Freed h' =
      IsValid h'
      × (h'.fragment_nums + 1 ≡ h.fragment_nums)
      × (h'.memory p ≡ none)
      × ((q : ℕ) → q ≢ p → (h'.memory q ≡ none) ↔ (h.memory q ≡ none))

  finish-Freed : (l : Fragment) → AtLast l → f.idx ≡ l.idx → Freed (finish p h)
  unfolding finish
  finish-Freed l a same =
      (finish-IsValid l a same, omega (arith, a.below), ground arith, λ q ne. ground arith)

  moved-Freed :
      (l : Fragment) → AtLast l → f.idx ≢ l.idx → Freed (finish p (move_last p f last l h))
  unfolding finish move_last
  moved-Freed l a other = (
    moved-IsValid l a other,
    omega (arith, a.below),
    ground arith,
    λ q ne. ground (arith, a.here),
  )

  -- For a valid table and an address p that holds a fragment f of it: gnb_heap_free returns, the
  -- table is valid again and has one entry less, p is free, and any other address holds a fragment
  -- exactly if it did before.
  pub free-IsValid : (h' : Heap) × (heap_free (some p) h ≡ some h') × Freed h'
  unfolding heap_free
  free-IsValid =
      let (l, a) = at_last in
      let busy : (h.fragment_nums == 0) ≡ false = ground (arith, a.below) in
      let in_range : ltb (h.max_fragment - 1) f.idx ≡ false = ground (arith, a.below, v.bounded) in
      let in_range' : ltb (h.max_fragment - 1) l.idx ≡ false =
        ground (arith, a.below, a.idx, v.bounded) in
      elim (Bool-cases (l.idx == f.idx)) [
        | inl same ↦ (finish p h, ground (arith, a.here), finish-Freed l a (ground arith))
        | inr other ↦ (
          finish p (move_last p f last l h),
          ground (arith, a.here),
          moved-Freed l a (ground arith),
        )
      ]

-- For a valid table with room, an address p that holds no fragment, and a size from 1 to 2^30 - 1:
-- after gnb_heap_alloc gave p and gnb_heap_free took it back, the table has as many entries as
-- before, but alloc_byte still counts the size.
pub alloc-free-bytes :
    (h : Heap) (p junk size : ℕ)
    → IsValid h
    → h.memory p ≡ none
    → 0 < size
    → size < 1024 * 1024 * 1024
    → h.fragment_nums < h.max_fragment
    → (h₁ h₂ : Heap) × (heap_alloc (some (p, junk)) size h ≡ allocated (some p) h₁)
      × (heap_free (some p) h₁ ≡ some h₂)
      × (h₂.fragment_nums ≡ h.fragment_nums)
      × (h₂.alloc_byte ≡ (h.alloc_byte + size) % 2 ^ 32)
unfolding heap_alloc heap_free finish
alloc-free-bytes h p junk size v unused pos small room =
    let h₁ : Heap = record h {
      fragment_list = update h.fragment_list h.fragment_nums p;
      fragment_nums = h.fragment_nums + 1;
      alloc_byte = (h.alloc_byte + size) % 2 ^ 32;
      ralloc_byte = (h.ralloc_byte + fragment_size + size) % 2 ^ 32;
      memory = update h.memory p (some (record { size = junk; idx = h.fragment_nums }));
    } in
    let top : update h.fragment_list h.fragment_nums p (h.fragment_nums + 1 - 1) ≡ p =
      ground arith in
    let mem : update h.memory p (some (record { size = junk; idx = h.fragment_nums })) p
        ≡ some (record { size = junk; idx = h.fragment_nums }) =
      ground arith in
    (h₁, finish p h₁, ground arith, ground (arith, top, mem), omega arith, refl)
