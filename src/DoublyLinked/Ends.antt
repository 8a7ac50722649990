-- ===== src/DoublyLinked/Ends.antt =====
-- `gnb_doubly_linked_list_pop_head` and `gnb_doubly_linked_list_pop_tail`.
use gnb_udp_over_tcp.Prelude.{
  ℕ, ◌≡◌, refl, ◌∙◌, subst, Bool, false, ◌||◌, some, List, [], ◌∷◌, ◌++◌, ◌==◌, length, arith,
  append-nil,
}
use gnb_udp_over_tcp.DoublyLinked.{DList, same_node, pop_head, pop_tail, write_pre, write_nex}
use gnb_udp_over_tcp.DoublyLinked.Chain.{IsChain}
use gnb_udp_over_tcp.DoublyLinked.Unlink.{unlink, final-same_node}
use gnb_udp_over_tcp.DoublyLinked.Inner.{
  final-some, unlinked, unlinked-IsChain, not_zero, not_one, num-lem, tail-lem,
}

pop_head-unlinked :
    (l : DList) (x : ℕ) (ys : List ℕ)
    → IsChain l (x ∷ ys)
    → pop_head l ≡ some (some x, unlinked l [] ys)
unfolding pop_head
pop_head-unlinked l x [] c = ground (arith, c.num, c.head, c.tail)
pop_head-unlinked l x (y ∷ ys) c =
    let busy : (l.num == 0) ≡ false = not_zero _ _ c.num in
    let more : (l.num == 1) ≡ false = not_one _ (length ys) (omega (arith, c.num)) in
    let apart : same_node l.head l.tail ≡ false =
      rw (c.head, c.tail) (final-same_node x y ys c.distinct.0) in
    let next : l.nex x ≡ some y = c.links.1 in
    rw (busy, more, apart) (rw (c.head) (rw (next, write_pre) (rw c.tail)))

-- For a list whose links lead through x and then ys, of distinct nodes:
-- gnb_doubly_linked_list_pop_head gives x, the links lead through ys, and the data of the nodes
-- stay.
pub pop_head-tail :
    (l : DList) (x : ℕ) (ys : List ℕ)
    → IsChain l (x ∷ ys)
    → (l' : DList) × (pop_head l ≡ some (some x, l')) × IsChain l' ys × (l'.node_data ≡ l.node_data)
pop_head-tail l x ys c =
    (unlinked l [] ys, pop_head-unlinked l x ys c, unlinked-IsChain l [] x ys c, refl)

apart_sym : (x z : ℕ) (b : Bool) → ((x == z) || b) ≡ false → (z == x) ≡ false
apart_sym x z b h = ground arith

pop_tail-unlinked :
    (l : DList) (xs : List ℕ) (x : ℕ)
    → IsChain l (xs ++ x ∷ [])
    → pop_tail l ≡ some (some x, unlinked l xs [])
unfolding pop_tail
pop_tail-unlinked l [] x c = ground (arith, c.num, c.head, c.tail)
pop_tail-unlinked l (z ∷ zs) x c =
    let (d, lp, ln, out, s) = unlink l.pre l.nex (z ∷ zs) x [] c.distinct c.links in
    let (p, e) = final-some z zs in
    let pre : l.pre x ≡ some p = lp ∙ e in
    let tail : l.tail ≡ some x = tail-lem l (z ∷ zs) x [] c in
    let busy : (l.num == 0) ≡ false = not_zero _ _ c.num in
    let more : (l.num == 1) ≡ false = not_one _ _ (num-lem l (z ∷ zs) x [] c) in
    let apart : same_node l.head l.tail ≡ false = rw (c.head, tail) (apart_sym x z _ out) in
    rw (busy, more, apart) (rw (tail) (rw (pre, append-nil zs, e, write_nex) (rw c.head)))

-- For a list whose links lead through xs and then x, of distinct nodes:
-- gnb_doubly_linked_list_pop_tail gives x, the links lead through xs, and the data of the nodes
-- stay.
pub pop_tail-init :
    (l : DList) (xs : List ℕ) (x : ℕ)
    → IsChain l (xs ++ x ∷ [])
    → (l' : DList) × (pop_tail l ≡ some (some x, l')) × IsChain l' xs × (l'.node_data ≡ l.node_data)
pop_tail-init l xs x c = (
  unlinked l xs [],
  pop_tail-unlinked l xs x c,
  subst (IsChain (unlinked l xs [])) (append-nil xs) (unlinked-IsChain l xs x [] c),
  refl,
)
