-- ===== src/DoublyLinked/Tests.antt =====
-- The list at three concrete nodes.
use gnb_udp_over_tcp.Prelude.{ℕ, refl, List, [], ◌∷◌, none, some, ◌==◌, if◌then◌else◌}
use gnb_udp_over_tcp.DoublyLinked.{DList}
use gnb_udp_over_tcp.DoublyLinked.Chain.{IsChain}
use gnb_udp_over_tcp.DoublyLinked.Move.{Moved, move_head-order}

abbrev nodes : List ℕ
nodes = 1 ∷ 2 ∷ 3 ∷ []

abbrev three : DList
three = record {
  head = some 1;
  tail = some 3;
  num = 3;
  pre = λ p. if p == 2 then some 1 else if p == 3 then some 2 else none;
  nex = λ p. if p == 1 then some 2 else if p == 2 then some 3 else none;
  node_data = λ p. some p;
}

three-IsChain : IsChain three nodes
three-IsChain = record {
  head = refl;
  tail = refl;
  num = refl;
  links = (refl, refl, (refl, refl, (refl, refl, tt)));
  distinct = (refl, (refl, (refl, tt)));
}

move_head-order_example : (l' : DList) × Moved three (1 ∷ 2 ∷ []) 3 [] l'
move_head-order_example = move_head-order three (1 ∷ 2 ∷ []) 3 [] three-IsChain
