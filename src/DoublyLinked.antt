-- ===== src/DoublyLinked.antt =====
-- gnb_doubly_linked_list.c: a doubly linked list over nodes that the caller owns. A node is its
-- address, NULL is `none`, and the fields of all nodes are functions of the address.
-- `num` counts nodes in memory, so that it cannot overflow.
pub mod Segment
pub mod Unlink
pub mod Chain
pub mod Ends
pub mod Inner
pub mod Move
mod Tests
use gnb_udp_over_tcp.Prelude.{
  ◌>>=◌, ℕ, ◌+◌, ◌-◌, Bool, true, false, ◌&&◌, ◌||◌, Option, none, some, ◌==◌, if◌then◌else◌,
  update,
}

pub record DList : Type 0 where
  pub head : Option ℕ
  pub tail : Option ℕ
  pub num : ℕ
  pub pre : ℕ → Option ℕ
  pub nex : ℕ → Option ℕ
  pub node_data : ℕ → Option ℕ

-- `p == q` on pointers
abbrev pub same_node : Option ℕ → Option ℕ → Bool
same_node none none = true
same_node none (some q) = false
same_node (some p) none = false
same_node (some p) (some q) = p == q

-- The `int` that a function returns: 0 or -1.
pub data Status : Type 0 where
  done : Status
  failed : Status

unfoldable pub node_set : DList → ℕ → Option ℕ → DList
node_set l node value = record l { node_data = update l.node_data node value }

-- The fields of the nodes are what memory holds.
unfoldable pub create : (pre nex node_data : ℕ → Option ℕ) → DList
create pre nex node_data = record {
  head = none;
  tail = none;
  num = 0;
  pre = pre;
  nex = nex;
  node_data = node_data;
}

-- `p->pre = v` and `p->nex = v`; `none` is a write through NULL.
unfoldable pub write_pre : Option ℕ → Option ℕ → DList → Option DList
write_pre none v l = none
write_pre (some p) v l = some (record l { pre = update l.pre p v })

unfoldable pub write_nex : Option ℕ → Option ℕ → DList → Option DList
write_nex none v l = none
write_nex (some p) v l = some (record l { nex = update l.nex p v })

unfoldable pub add : DList → ℕ → Option DList
unfolding write_pre
add l node =
    if l.num == 0
    then some (record l {
      head = some node;
      pre = update l.pre node none;
      nex = update l.nex node none;
      tail = some node;
      num = l.num + 1;
    })
    else (let l₁ = record l { pre = update l.pre node none; nex = update l.nex node l.head } in
        let front = write_pre l.head (some node) l₁ in
        if l.num == 1
        then (front >>= λ l₂. some (record l₂ { tail = l.head; head = some node; num = l.num + 1 }))
        else (front >>= λ l₂. some (record l₂ { head = some node; num = l.num + 1 })))

-- The node that is popped, if any, and the list. `none` is a fault.
unfoldable pub pop_head : DList → Option (Option ℕ × DList)
unfolding write_pre
pop_head l =
    if l.num == 0
    then some (none, l)
    else if l.num == 1
    then (if same_node l.head l.tail
        then some (l.head, record l { head = none; tail = none; num = 0 })
        else some (none, l))
    else if same_node l.head l.tail
    then some (none, l)
    else do
      h ← l.head
      let l₁ = record l { head = l.nex h }
      l₂ ← write_pre l₁.head none l₁
      some (some h, record l₂ { num = l.num - 1 })

unfoldable pub pop_tail : DList → Option (Option ℕ × DList)
unfolding write_nex
pop_tail l =
    if l.num == 0
    then some (none, l)
    else if l.num == 1
    then (if same_node l.head l.tail
        then some (l.tail, record l { head = none; tail = none; num = 0 })
        else some (none, l))
    else if same_node l.head l.tail
    then some (none, l)
    else do
      t ← l.tail
      let l₁ = record l { tail = l.pre t }
      l₂ ← write_nex l₁.tail none l₁
      some (some t, record l₂ { num = l.num - 1 })

-- `if (NULL != nex_node) nex_node->pre = pre_node; else tail = pre_node;`
unfoldable pub detach_right : Option ℕ → Option ℕ → DList → DList
detach_right none p l = record l { tail = p }
detach_right (some n) p l = record l { pre = update l.pre n p }

unfoldable pub move_head : DList → ℕ → Option (Status × DList)
unfolding write_pre write_nex detach_right
move_head l node = if (l.num == 1) || (l.num == 2) then some (done, l) else elim (l.pre node) [
  | none ↦ some (done, l)
  | some p ↦
      let n = l.nex node in
      let l₁ = detach_right n (some p) l in
      let l₂ = record l₁ { nex = update (update l₁.nex p n) node l₁.head } in
      write_pre l₂.head (some node) l₂ >>= λ l₃.
      some (done, record l₃ { head = some node; pre = update l₃.pre node none })
]

-- The four cases of `gnb_doubly_linked_list_pop` by the neighbours of the node.
unfoldable pub pop_between : DList → ℕ → Option ℕ → Option ℕ → Status × DList
pop_between l node none none =
    if same_node l.head (some node)
    then (if same_node l.tail (some node)
        then (if l.num == 1
            then (done, record l { head = none; tail = none; num = 0 })
            else (failed, l))
        else (failed, l))
    else (failed, l)
pop_between l node none (some n) =
    if same_node l.head (some node)
    then (if l.num == 1
        then (failed, l)
        else (done, record l { pre = update l.pre n none; head = some n; num = l.num - 1 }))
    else (failed, l)
pop_between l node (some p) none =
    if same_node l.tail (some node)
    then (if l.num == 1
        then (failed, l)
        else (done, record l { nex = update l.nex p none; tail = some p; num = l.num - 1 }))
    else (failed, l)
pop_between l node (some p) (some n) = (
  done,
  record l { nex = update l.nex p (some n); pre = update l.pre n (some p); num = l.num - 1 },
)

unfoldable pub pop : DList → ℕ → Status × DList
unfolding pop_between
pop l node = if l.num == 0 then (done, l) else pop_between l node (l.pre node) (l.nex node)
