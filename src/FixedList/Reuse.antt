-- ===== src/FixedList/Reuse.antt =====
-- A push after a pop hands out a node that is in use.
use gnb_udp_over_tcp.Prelude.{ℕ, ◌-◌, ◌≡◌, ◌≢◌, some, ltb, ◌==◌, arith, false}
use gnb_udp_over_tcp.FixedList.{FixedList, push, pop}
use gnb_udp_over_tcp.FixedList.Order.{IsValid, IsLive}

-- For a valid list and a live node that is not the last: after gnb_fixed_list_pop the formerly
-- last node is live, the next gnb_fixed_list_push hands out that same node and overwrites its
-- data, and the list is no longer valid.
pub push-pop-IsLive :
    (l : FixedList) (node value : ℕ)
    → IsValid l
    → IsLive l node
    → l.idx node ≢ l.num - 1
    → let last = l.array (l.num - 1) in
      let l' = pop l node in
      IsLive l' last
      × ((push l' value).0 ≡ some last)
      × ((push l' value).1.udata last ≡ value)
      × (¬ IsValid (push l' value).1)
unfolding push pop
push-pop-IsLive l node value v live inner =
    let last = l.array (l.num - 1) in
    let e : l.idx last ≡ l.num - 1 = v.placed (l.num - 1) (omega (arith, live.0)) in
    let some_left : (l.num == 0) ≡ false = ground (arith, live.0) in
    let more : (l.num == 1) ≡ false = ground (arith, live.0) in
    let in_range : ltb (l.size - 1) (l.idx node) ≡ false = ground (arith, live.0, v.bounded) in
    let in_range' : ltb (l.size - 1) (l.idx last) ≡ false = ground (arith, live.0, v.bounded) in
    let other : (l.idx last == l.idx node) ≡ false = ground arith in
    let room : (l.size == l.num - 1) ≡ false = ground (arith, live.0, v.bounded) in
    rw (some_left, more, in_range, in_range', other, room)
      (
        ground (arith, live.0),
        ground arith,
        ground arith,
        λ bad. ground (arith, bad.placed (l.idx node), live.0),
      )
