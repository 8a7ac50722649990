-- ===== src/Alloc/Table.antt =====
-- The table and the fragments agree, and stay so.
use gnb_udp_over_tcp.Prelude.{
  ℕ, ◌+◌, ◌*◌, ◌%◌, ◌^◌, ◌≤◌, ◌<◌, ◌≡◌, ◌≢◌, refl, ap, ◌∙◌, sym, none, some, ◌==◌, update, arith,
  Bool-cases, inl, inr,
}
use gnb_udp_over_tcp.Alloc.{fragment_size, Fragment, Heap, allocated, heap_alloc}

-- The fragments in memory are those of the table, each at the place that it names.
pub record IsValid (h : Heap) : Type 0 where
  pub bounded : h.fragment_nums ≤ h.max_fragment
  pub listed :
      (i : ℕ)
      → i < h.fragment_nums
      → (f : Fragment) × (h.memory (h.fragment_list i) ≡ some f) × (f.idx ≡ i)
  pub placed :
      (p : ℕ) (f : Fragment)
      → h.memory p ≡ some f
      → (f.idx < h.fragment_nums) × (h.fragment_list f.idx ≡ p)

-- The heap with the fragment `f` at `p` as a new last entry of the table.
module _ (h : Heap) (p : ℕ) (f : Fragment) (v : IsValid h) (unused : h.memory p ≡ none) where
  abbrev IsExtended : Heap → Type 0
  IsExtended h' =
      (h'.max_fragment ≡ h.max_fragment)
      × (h'.fragment_nums ≡ h.fragment_nums + 1)
      × (h'.fragment_list ≡ update h.fragment_list h.fragment_nums p)
      × (h'.memory ≡ update h.memory p (some f))

  extended-IsValid :
      (h' : Heap)
      → f.idx ≡ h.fragment_nums
      → h.fragment_nums < h.max_fragment
      → IsExtended h'
      → IsValid h'
  extended-IsValid h' last room (max, nums, list, mem) = record {
    bounded = omega arith;
    listed = λ i lt.
        rw (list, mem)
          (elim (Bool-cases (i == h.fragment_nums)) [
            | inl new ↦ (f, rw new (ground arith), ground arith)
            | inr old ↦ let (g, e, at) = v.listed i (ground arith) in (g, rw old (ground arith), at)
          ]);
    placed = λ q g e.
        let at : update h.memory p (some f) q ≡ some g = ap (λ m. m q) (sym mem) ∙ e in
        let there = ap (λ l. l g.idx) list in
        elim (Bool-cases (q == p)) [
          | inl new ↦ let same : f ≡ g = ground arith in (ground arith, there ∙ ground arith)
          | inr old ↦
              let (lt, was) = v.placed q g (ground arith) in (omega arith, there ∙ ground arith)
        ];
  }

-- For a valid table with room and an address p from malloc that holds no fragment, with a size
-- from 1 to 2^30 - 1: gnb_heap_alloc gives p, the table is valid again and has one entry more, p
-- holds a fragment, and the other addresses hold what they held.
pub alloc-IsValid :
    (h : Heap) (p junk size : ℕ)
    → IsValid h
    → h.memory p ≡ none
    → 0 < size
    → size < 1024 * 1024 * 1024
    → h.fragment_nums < h.max_fragment
    → (h' : Heap) × (heap_alloc (some (p, junk)) size h ≡ allocated (some p) h')
      × IsValid h'
      × (h'.fragment_nums ≡ h.fragment_nums + 1)
      × (h'.memory p ≢ none)
      × ((q : ℕ) → q ≢ p → h'.memory q ≡ h.memory q)
unfolding heap_alloc
alloc-IsValid h p junk size v unused pos small room =
    let f : Fragment = record { size = junk; idx = h.fragment_nums } in
    let h' : Heap = record h {
      fragment_list = update h.fragment_list h.fragment_nums p;
      fragment_nums = h.fragment_nums + 1;
      alloc_byte = (h.alloc_byte + size) % 2 ^ 32;
      ralloc_byte = (h.ralloc_byte + fragment_size + size) % 2 ^ 32;
      memory = update h.memory p (some f);
    } in
    (
      h',
      ground arith,
      extended-IsValid h p f v unused h' refl room (refl, refl, refl, refl),
      refl,
      ground arith,
      λ q ne. ground arith,
    )
