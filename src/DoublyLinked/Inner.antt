-- ===== src/DoublyLinked/Inner.antt =====
-- `gnb_doubly_linked_list_pop` and `gnb_doubly_linked_list_move_head` at any node of the list.
use gnb_udp_over_tcp.Prelude.{
  ℕ, suc, ◌+◌, ◌-◌, ◌≡◌, refl, ◌∙◌, true, false, Option, none, some, List, [], ◌∷◌, ◌++◌, ◌==◌,
  length, length-append, arith, append-nil,
}
use gnb_udp_over_tcp.DoublyLinked.{DList, done, same_node, pop}
use gnb_udp_over_tcp.DoublyLinked.Segment.{first, final, update?}
use gnb_udp_over_tcp.DoublyLinked.Chain.{IsChain}
use gnb_udp_over_tcp.DoublyLinked.Unlink.{unlink, final-append}

pub final-some : (z : ℕ) (zs : List ℕ) → (p : ℕ) × (final (some z) zs ≡ some p)
final-some z [] = (z, refl)
final-some z (y ∷ zs) = final-some y zs

-- The list without the node between `xs` and `ys`.
abbrev pub unlinked : DList → List ℕ → List ℕ → DList
unlinked l xs ys = record l {
  head = first (xs ++ ys) none;
  tail = final none (xs ++ ys);
  num = l.num - 1;
  pre = update? l.pre (first ys none) (final none xs);
  nex = update? l.nex (final none xs) (first ys none);
}

module _ (l : DList) (xs : List ℕ) (x : ℕ) (ys : List ℕ) (c : IsChain l (xs ++ x ∷ ys)) where
  pub num-lem : l.num ≡ suc (length xs + length ys)
  num-lem = omega (arith, c.num, length-append xs (x ∷ ys))

  pub tail-lem : l.tail ≡ final (some x) ys
  tail-lem = c.tail ∙ final-append none xs (x ∷ ys)

  pub unlinked-IsChain : IsChain (unlinked l xs ys) (xs ++ ys)
  unlinked-IsChain =
      let (d, p, n, out, s) = unlink l.pre l.nex xs x ys c.distinct c.links in
      record {
        head = refl;
        tail = refl;
        num = omega (arith, num-lem, length-append xs ys);
        links = s;
        distinct = d;
      }

pub not_zero : (n k : ℕ) → n ≡ suc k → (n == 0) ≡ false
not_zero n k e = ground arith

pub not_one : (n k : ℕ) → n ≡ suc (suc k + 0) → (n == 1) ≡ false
not_one n k e = ground arith

same_self : (p : Option ℕ) (x : ℕ) → p ≡ some x → same_node p (some x) ≡ true
same_self p x e = rw e (ground arith)

pop-unlinked :
    (l : DList) (xs : List ℕ) (x : ℕ) (ys : List ℕ)
    → IsChain l (xs ++ x ∷ ys)
    → pop l x ≡ (done, unlinked l xs ys)
unfolding pop
pop-unlinked l [] x [] c = ground (arith, c.num, c.links, c.head, c.tail)
pop-unlinked l [] x (y ∷ ys) c = ground (arith, c.num, c.links, c.head, c.tail)
pop-unlinked l (z ∷ zs) x [] c =
    let (d, lp, ln, out, s) = unlink l.pre l.nex (z ∷ zs) x [] c.distinct c.links in
    let (p, e) = final-some z zs in
    let pre : l.pre x ≡ some p = lp ∙ e in
    let tail : l.tail ≡ some x = tail-lem l (z ∷ zs) x [] c in
    let busy : (l.num == 0) ≡ false = not_zero _ _ c.num in
    let more : (l.num == 1) ≡ false = not_one _ _ (num-lem l (z ∷ zs) x [] c) in
    rw (busy, pre, ln, e, append-nil zs, e) (rw (same_self l.tail x tail, more) (rw c.head))
pop-unlinked l (z ∷ zs) x (y ∷ ys) c =
    let (d, lp, ln, out, s) = unlink l.pre l.nex (z ∷ zs) x (y ∷ ys) c.distinct c.links in
    let (p, e) = final-some z zs in
    let pre : l.pre x ≡ some p = lp ∙ e in
    let busy : (l.num == 0) ≡ false = not_zero _ _ c.num in
    let tail : l.tail ≡ final (some y) ys = tail-lem l (z ∷ zs) x (y ∷ ys) c in
    let tail' : final (some z) (zs ++ y ∷ ys) ≡ final (some y) ys =
      final-append (some z) zs (y ∷ ys) in
    rw (busy, pre, ln, tail', e) (rw (c.head, tail))

-- For a list whose links lead through xs, x and ys, of distinct nodes: gnb_doubly_linked_list_pop
-- of x returns 0, the links lead through xs and ys in that order, forwards and backwards, and the
-- data of the nodes stay.
pub pop-unlink :
    (l : DList) (xs : List ℕ) (x : ℕ) (ys : List ℕ)
    → IsChain l (xs ++ x ∷ ys)
    → ((pop l x).0 ≡ done) × IsChain (pop l x).1 (xs ++ ys) × ((pop l x).1.node_data ≡ l.node_data)
pop-unlink l xs x ys c = rw (pop-unlinked l xs x ys c) (refl, unlinked-IsChain l xs x ys c, refl)
