-- ===== src/FixedList.antt =====
-- gnb_fixed_list.c: a list of at most `size` nodes, which live in one block. A node is its number in
-- the block; `idx` and `udata` are the fields of the nodes, `array` the order of the list.
pub mod Order
pub mod Reuse
mod Tests
use gnb_udp_over_tcp.Prelude.{
  ℕ, zero, suc, ◌+◌, ◌-◌, Option, none, some, ltb, ◌==◌, if◌then◌else◌, update,
}

pub record FixedList : Type 0 where
  pub size : ℕ
  pub num : ℕ
  pub array : ℕ → ℕ
  pub idx : ℕ → ℕ
  pub udata : ℕ → ℕ

-- `for (i=0; i<size; i++) { array[i] = p; p += sizeof(node); }`, from the `i`-th round on
unfoldable pub fill_array : ℕ → ℕ → (ℕ → ℕ) → ℕ → ℕ
fill_array zero i array = array
fill_array (suc n) i array = fill_array n (i + 1) (update array i i)

-- The blocks come from `gnb_heap_alloc` with what they hold.
unfoldable pub create : (array idx udata : ℕ → ℕ) → ℕ → FixedList
unfolding fill_array
create array idx udata size = record {
  size = size;
  num = 0;
  array = fill_array size 0 array;
  idx = idx;
  udata = udata;
}

unfoldable pub push : FixedList → ℕ → Option ℕ × FixedList
push l value =
    if l.size == l.num
    then (none, l)
    else (let node = l.array l.num in
        (
          some node,
          record l {
            udata = update l.udata node value;
            idx = update l.idx node l.num;
            num = l.num + 1;
          },
        ))

-- The node that is given up, and the node that is last.
unfoldable pub pop_between : FixedList → ℕ → ℕ → FixedList
pop_between l node last_node =
    if ltb (l.size - 1) (l.idx node)
    then l
    else if ltb (l.size - 1) (l.idx last_node)
    then l
    else if l.idx last_node == l.idx node
    then record l { num = l.num - 1 }
    else record l {
      idx = update l.idx last_node (l.idx node);
      array = update l.array (l.idx node) last_node;
      num = l.num - 1;
    }

-- The second test for `num == 1` of the source is not reached.
unfoldable pub pop : FixedList → ℕ → FixedList
unfolding pop_between
pop l node =
    if l.num == 0
    then l
    else if l.num == 1
    then record l { num = 0 }
    else pop_between l node (l.array (l.num - 1))
