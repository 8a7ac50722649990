-- ===== src/DoublyLinked/Chain.antt =====
-- The list of nodes that a `DList` stands for, and a new node at its head.
use gnb_udp_over_tcp.Prelude.{
  ℕ, ◌+◌, ◌≡◌, refl, false, Option, none, some, List, [], ◌∷◌, update, length, arith,
}
use gnb_udp_over_tcp.DoublyLinked.{DList, create, add}
use gnb_udp_over_tcp.DoublyLinked.Segment.{
  Links, first, final, has, Distinct, Segment, Segment-pre, Segment-nex, relink_first, update?,
}

-- From head to tail the links lead through `xs`, and back.
pub record IsChain (l : DList) (xs : List ℕ) : Type 0 where
  pub head : l.head ≡ first xs none
  pub tail : l.tail ≡ final none xs
  pub num : l.num ≡ length xs
  pub links : Segment l.pre l.nex none xs none
  pub distinct : Distinct xs

pub create-IsChain : (pre nex value : Links) → IsChain (create pre nex value) []
unfolding create
create-IsChain pre nex value = record {
  head = refl;
  tail = refl;
  num = refl;
  links = tt;
  distinct = tt;
}

-- The list with `node` in front of `xs`.
abbrev in_front : DList → List ℕ → ℕ → DList
in_front l xs node = record l {
  head = some node;
  tail = final none (node ∷ xs);
  num = l.num + 1;
  pre = update? (update l.pre node none) (first xs none) (some node);
  nex = update l.nex node (first xs none);
}

add-in_front :
    (l : DList) (xs : List ℕ) (node : ℕ) → IsChain l xs → add l node ≡ some (in_front l xs node)
unfolding add
add-in_front l [] node c = ground (arith, c.num)
add-in_front l (x ∷ []) node c = ground (arith, c.num, c.head, c.tail)
add-in_front l (x ∷ y ∷ xs) node c = ground (arith, c.num, c.head, c.tail)

-- Linking a node in front of a chain.
pub link_front :
    (pre nex : Links) (xs : List ℕ) (node : ℕ) (a : Option ℕ)
    → has node xs ≡ false
    → Distinct xs
    → Segment pre nex a xs none
    → Segment
        (update? (update pre node none) (first xs none) (some node))
        (update nex node (first xs none))
        none
        (node ∷ xs)
        none
link_front pre nex [] node a out d s = (ground arith, ground arith, tt)
link_front pre nex (x ∷ xs) node a out d s = (
  ground arith,
  ground arith,
  relink_first (update pre node none) (update nex node (some x)) a x xs none (some node) d.0 (
      Segment-nex (update pre node none) nex a (x ∷ xs) none node (some x) out
        (Segment-pre pre nex a (x ∷ xs) none node none out s)),
)

-- For a list whose links lead through the distinct nodes xs, and a node that is not among them:
-- gnb_doubly_linked_list_add returns without a fault, the links lead through the node and then xs,
-- and the data of the nodes stay.
pub add-cons :
    (l : DList) (xs : List ℕ) (node : ℕ)
    → IsChain l xs
    → has node xs ≡ false
    → (l' : DList) × (add l node ≡ some l') × IsChain l' (node ∷ xs) × (l'.node_data ≡ l.node_data)
add-cons l xs node c out = (
  in_front l xs node,
  add-in_front l xs node c,
  record {
    head = refl;
    tail = refl;
    num = omega (arith, c.num);
    links = link_front l.pre l.nex xs node none out c.distinct c.links;
    distinct = (out, c.distinct);
  },
  refl,
)
