-- ===== src/Alloc.antt =====
-- gnb_alloc.c: a table of the fragments that are in use, each of which knows its place in the table.
-- A fragment is its address, and what `malloc` returns is an argument. The size field of a fragment
-- keeps what `malloc` left there, since `gnb_heap_alloc` never writes it.
pub mod Table
pub mod Free
mod Tests
use gnb_udp_over_tcp.Prelude.{
  ℕ, zero, suc, ◌+◌, ◌-◌, ◌*◌, ◌%◌, ◌^◌, Bool, true, false, ◌&&◌, Option, none, some, ltb, ◌==◌,
  if◌then◌else◌, update,
}

pub record Fragment : Type 0 where
  pub size : ℕ
  pub idx : ℕ

-- `memory` has what the addresses of the fragments hold.
pub record Heap : Type 0 where
  pub max_fragment : ℕ
  pub fragment_nums : ℕ
  pub alloc_byte : ℕ
  pub ralloc_byte : ℕ
  pub fragment_list : ℕ → ℕ
  pub memory : ℕ → Option Fragment

abbrev pub fragment_size : ℕ
fragment_size = 8

-- `heap_junk` is what the table holds after `malloc`; `none` is a failed `malloc`.
unfoldable pub heap_create : Bool → (ℕ → ℕ) → (ℕ → Option Fragment) → ℕ → Option Heap
heap_create false heap_junk memory max_fragment = none
heap_create true heap_junk memory max_fragment = some (record {
  max_fragment = max_fragment;
  fragment_nums = 0;
  alloc_byte = 0;
  ralloc_byte = 0;
  fragment_list = heap_junk;
  memory = memory;
})

pub data Alloc : Type 0 where
  allocated : Option ℕ → Heap → Alloc
  -- `exit(0)`: the heap is full
  exited : Alloc

-- `malloc` gives an address with what it holds, or NULL.
unfoldable pub heap_alloc : Option (ℕ × ℕ) → ℕ → Heap → Alloc
heap_alloc malloc size h =
    if size == 0
    then allocated none h
    else if h.max_fragment == h.fragment_nums
    then exited
    else if ltb (1024 * 1024 * 1024 - 1) size
    then allocated none h
    else elim malloc [
      | none ↦ allocated none h
      | some (p, junk) ↦ allocated (some p) (record h {
        fragment_list = update h.fragment_list h.fragment_nums p;
        fragment_nums = h.fragment_nums + 1;
        alloc_byte = (h.alloc_byte + size) % 2 ^ 32;
        ralloc_byte = (h.ralloc_byte + fragment_size + size) % 2 ^ 32;
        memory = update h.memory p (some (record { size = junk; idx = h.fragment_nums }));
      })
    ]

-- `finish:` of `gnb_heap_free`
unfoldable pub finish : ℕ → Heap → Heap
finish p h = record h { fragment_nums = h.fragment_nums - 1; memory = update h.memory p none }

-- The last fragment of the table moves to the place of the one that goes.
unfoldable pub move_last : ℕ → Fragment → ℕ → Fragment → Heap → Heap
move_last p fragment last last_fragment h = record h {
  alloc_byte = (h.alloc_byte + 2 ^ 32 - fragment.size % 2 ^ 32) % 2 ^ 32;
  ralloc_byte = (h.ralloc_byte + 2 ^ 32 - (fragment_size + fragment.size) % 2 ^ 32) % 2 ^ 32;
  memory = update h.memory last (some (record last_fragment { idx = fragment.idx }));
  fragment_list = update h.fragment_list fragment.idx last;
}

unfoldable pub free_fragment : ℕ → Fragment → ℕ → Fragment → Heap → Heap
unfolding finish move_last
free_fragment p fragment last last_fragment h =
    if ltb (h.max_fragment - 1) fragment.idx
    then h
    else if ltb (h.max_fragment - 1) last_fragment.idx
    then h
    else if h.fragment_nums == 1
    then (if fragment.idx == last_fragment.idx then finish p h else h)
    else if last_fragment.idx == fragment.idx
    then finish p h
    else finish p (move_last p fragment last last_fragment h)

-- `none` reads a fragment that is not there.
unfoldable pub heap_free : Option ℕ → Heap → Option Heap
unfolding free_fragment
heap_free none h = some h
heap_free (some p) h =
    if h.fragment_nums == 0
    then some h
    else (let last = h.fragment_list (h.fragment_nums - 1) in
        elim (h.memory p) [
          | none ↦ none
          | some fragment ↦ elim (h.memory last) [
            | none ↦ none
            | some last_fragment ↦ some (free_fragment p fragment last last_fragment h)
          ]
        ])

unfoldable pub clean_loop : ℕ → ℕ → Heap → (ℕ → Option Fragment)
clean_loop zero i h = h.memory
clean_loop (suc n) i h =
    clean_loop n (i + 1) (record h { memory = update h.memory (h.fragment_list i) none })

unfoldable pub heap_clean : Heap → Heap
unfolding clean_loop
heap_clean h = if h.fragment_nums == 0 then h else record h {
  memory = clean_loop h.fragment_nums 0 h;
  fragment_nums = 0;
  alloc_byte = 0;
  ralloc_byte = 0;
}

-- The heap itself is given back: what is left is the memory of the fragments.
unfoldable pub heap_release : Heap → (ℕ → Option Fragment)
unfolding heap_clean
heap_release h = (heap_clean h).memory
