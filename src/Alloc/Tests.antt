-- ===== src/Alloc/Tests.antt =====
-- The heap at concrete fragments.
use gnb_udp_over_tcp.Prelude.{
  ℕ, zero, suc, ◌+◌, ◌<◌, ◌≡◌, ◌≢◌, refl, none, some, ◌==◌, if◌then◌else◌, arith, ◌%◌, ◌^◌,
}
use gnb_udp_over_tcp.Alloc.{Fragment, Heap, allocated, heap_alloc, heap_free}
use gnb_udp_over_tcp.Alloc.Table.{IsValid, alloc-IsValid}
use gnb_udp_over_tcp.Alloc.Free.{Freed, free-IsValid, alloc-free-bytes}

-- Two fragments of a table of four, at the addresses 100 and 101.
abbrev two : Heap
two = record {
  max_fragment = 4;
  fragment_nums = 2;
  alloc_byte = 16;
  ralloc_byte = 32;
  fragment_list = λ i. i + 100;
  memory = λ p.
      if p == 100
      then some (record { size = 8; idx = 0 })
      else if p == 101
      then some (record { size = 8; idx = 1 })
      else none;
}

two-listed :
    (i : ℕ) → i < 2 → (f : Fragment) × (two.memory (two.fragment_list i) ≡ some f) × (f.idx ≡ i)
two-listed zero lt = (record { size = 8; idx = 0 }, refl, refl)
two-listed (suc zero) lt = (record { size = 8; idx = 1 }, refl, refl)
two-listed (suc (suc j)) lt = absurd (omega arith)

two-IsValid : IsValid two
two-IsValid = record { bounded = omega arith; listed = two-listed; placed = λ p f e. ground arith }

alloc-IsValid_example :
    (h' : Heap) × (heap_alloc (some (200, 5)) 24 two ≡ allocated (some 200) h')
    × IsValid h'
    × (h'.fragment_nums ≡ 3)
    × (h'.memory 200 ≢ none)
    × ((q : ℕ) → q ≢ 200 → h'.memory q ≡ two.memory q)
alloc-IsValid_example =
    alloc-IsValid two 200 5 24 two-IsValid refl (omega arith) (omega arith) (omega arith)

free-IsValid_example :
    (h' : Heap) × (heap_free (some 100) two ≡ some h')
    × Freed two 100 (record { size = 8; idx = 0 }) two-IsValid refl h'
free-IsValid_example = free-IsValid two 100 (record { size = 8; idx = 0 }) two-IsValid refl

alloc-free-bytes_example :
    (h₁ h₂ : Heap) × (heap_alloc (some (200, 5)) 24 two ≡ allocated (some 200) h₁)
    × (heap_free (some 200) h₁ ≡ some h₂)
    × (h₂.fragment_nums ≡ 2)
    × (h₂.alloc_byte ≡ (two.alloc_byte + 24) % 2 ^ 32)
alloc-free-bytes_example =
    alloc-free-bytes two 200 5 24 two-IsValid refl (omega arith) (omega arith) (omega arith)
