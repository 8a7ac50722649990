-- ===== src/FixedList/Tests.antt =====
-- The list at concrete nodes.
use gnb_udp_over_tcp.Prelude.{◌+◌, ◌≡◌, refl, some, arith}
use gnb_udp_over_tcp.FixedList.{FixedList, push, pop}
use gnb_udp_over_tcp.FixedList.Order.{IsValid, IsLive, HasFreeNode}
use gnb_udp_over_tcp.FixedList.Reuse.{push-pop-IsLive}

-- Three of four nodes are in use, in the order of their numbers.
abbrev three : FixedList
three = record { size = 4; num = 3; array = λ i. i; idx = λ i. i; udata = λ i. i + 10 }

three-IsValid : IsValid three
three-IsValid = record { bounded = omega arith; placed = λ i lt. refl }

three-HasFreeNode : HasFreeNode three
three-HasFreeNode i lt e = omega arith

push-pop-IsLive_example :
    IsLive (pop three 0) 2
    × ((push (pop three 0) 99).0 ≡ some 2)
    × ((push (pop three 0) 99).1.udata 2 ≡ 99)
    × (¬ IsValid (push (pop three 0) 99).1)
push-pop-IsLive_example =
    push-pop-IsLive three 0 99 three-IsValid (omega arith, refl) (λ e. omega arith)
