-- ===== src/DoublyLinked/Move.antt =====
-- `gnb_doubly_linked_list_move_head`.
use gnb_udp_over_tcp.Prelude.{
  ℕ, ◌<◌, ◌≡◌, refl, ap, ◌∙◌, true, false, ◌||◌, Option, none, some, List, [], ◌∷◌, ◌++◌, ◌==◌, ltb,
  if◌then◌else◌, update, length, length-append, arith, Bool-cases, inl, inr, append-nil,
}
use gnb_udp_over_tcp.DoublyLinked.{DList, done, move_head, write_pre}
use gnb_udp_over_tcp.DoublyLinked.Segment.{
  Links, first, final, has, Distinct, Segment, Segment-pre, Segment-nex, relink_first, update?,
}
use gnb_udp_over_tcp.DoublyLinked.Chain.{IsChain}
use gnb_udp_over_tcp.DoublyLinked.Unlink.{unlink, final-append}
use gnb_udp_over_tcp.DoublyLinked.Inner.{final-some, num-lem, tail-lem}

-- The writes of the function, in its order: `node` in front of the chain `zs`.
relink_front :
    (pre nex : Links) (zs : List ℕ) (node : ℕ) (a : Option ℕ)
    → has node zs ≡ false
    → Distinct zs
    → Segment pre nex a zs none
    → Segment
        (update (update? pre (first zs none) (some node)) node none)
        (update nex node (first zs none))
        none
        (node ∷ zs)
        none
relink_front pre nex [] node a out d s = (ground arith, ground arith, tt)
relink_front pre nex (z ∷ zs) node a out d s =
    let pre' = update pre z (some node) in
    (
      ground arith,
      ground arith,
      Segment-pre pre' (update nex node (some z)) (some node) (z ∷ zs) none node none out (
          relink_first pre (update nex node (some z)) a z zs none (some node) d.0
            (Segment-nex pre nex a (z ∷ zs) none node (some z) out s)),
    )

-- The list with the node between `xs` and `ys` in front.
abbrev moved : DList → List ℕ → ℕ → List ℕ → DList
moved l xs x ys = record l {
  head = some x;
  tail = final none (x ∷ xs ++ ys);
  pre =
      update
        (update? (update? l.pre (first ys none) (final none xs)) (first (xs ++ ys) none) (some x)) x
        none;
  nex = update (update? l.nex (final none xs) (first ys none)) x (first (xs ++ ys) none);
}

move_head-moved :
    (l : DList) (z : ℕ) (zs : List ℕ) (x : ℕ) (ys : List ℕ)
    → IsChain l (z ∷ zs ++ x ∷ ys)
    → (l.num == 1) || (l.num == 2) ≡ false
    → move_head l x ≡ some (done, moved l (z ∷ zs) x ys)
unfolding move_head
move_head-moved l z zs x [] c long =
    let (d, lp, ln, out, s) = unlink l.pre l.nex (z ∷ zs) x [] c.distinct c.links in
    let (p, e) = final-some z zs in
    let pre : l.pre x ≡ some p = lp ∙ e in
    rw (long, pre, ln, append-nil zs, e) (rw (write_pre, c.head))
move_head-moved l z zs x (y ∷ ys) c long =
    let (d, lp, ln, out, s) = unlink l.pre l.nex (z ∷ zs) x (y ∷ ys) c.distinct c.links in
    let (p, e) = final-some z zs in
    let pre : l.pre x ≡ some p = lp ∙ e in
    let tail : l.tail ≡ final (some y) ys = tail-lem l (z ∷ zs) x (y ∷ ys) c in
    let tail' : final (some z) (zs ++ y ∷ ys) ≡ final (some y) ys =
      final-append (some z) zs (y ∷ ys) in
    rw (long, pre, ln, tail', e) (rw (write_pre, c.head) (rw tail))

moved-IsChain :
    (l : DList) (xs : List ℕ) (x : ℕ) (ys : List ℕ)
    → IsChain l (xs ++ x ∷ ys)
    → IsChain (moved l xs x ys) (x ∷ xs ++ ys)
moved-IsChain l xs x ys c =
    let (d, lp, ln, out, s) = unlink l.pre l.nex xs x ys c.distinct c.links in
    record {
      head = refl;
      tail = refl;
      num = omega (arith, num-lem l xs x ys c, length-append xs ys);
      links =
          relink_front (update? l.pre (first ys none) (final none xs))
            (update? l.nex (final none xs) (first ys none)) (xs ++ ys) x none out d s;
      distinct = (out, d);
    }

-- The order after `gnb_doubly_linked_list_move_head`: a list of one or two nodes stays as it is.
abbrev pub order_after_move : List ℕ → ℕ → List ℕ → List ℕ
order_after_move xs x ys = if ltb 2 (length (xs ++ x ∷ ys)) then x ∷ xs ++ ys else xs ++ x ∷ ys

abbrev pub Moved : DList → List ℕ → ℕ → List ℕ → DList → Type 0
Moved l xs x ys l' =
    (move_head l x ≡ some (done, l'))
    × IsChain l' (order_after_move xs x ys)
    × (l'.node_data ≡ l.node_data)

short : (n : ℕ) → 0 < n → ltb 2 n ≡ false → ((n == 1) || (n == 2)) ≡ true
short n lt h = ground arith

long : (n : ℕ) → ltb 2 n ≡ true → ((n == 1) || (n == 2)) ≡ false
long n h = ground arith

stays : (l : DList) (x : ℕ) → ((l.num == 1) || (l.num == 2)) ≡ true → move_head l x ≡ some (done, l)
unfolding move_head
stays l x h = rw h

is_head : (l : DList) (x : ℕ) → l.pre x ≡ none → move_head l x ≡ some (done, l)
unfolding move_head
is_head l x h = rw h (ground arith)

-- For a list whose links lead through xs, x and ys, of distinct nodes:
-- gnb_doubly_linked_list_move_head of x returns 0; with three nodes or more the links lead through
-- x, xs and ys, with one or two nodes the order stays as it is; the data of the nodes stay.
pub move_head-order :
    (l : DList) (xs : List ℕ) (x : ℕ) (ys : List ℕ)
    → IsChain l (xs ++ x ∷ ys)
    → (l' : DList) × Moved l xs x ys l'
move_head-order l xs x ys c = elim (Bool-cases (ltb 2 (length (xs ++ x ∷ ys)))) [
  | inr few ↦ rw few (
    l,
    (
      stays l x (
          ap (λ n. (n == 1) || (n == 2)) c.num
          ∙ short _ (omega (arith, length-append xs (x ∷ ys))) few),
      c,
      refl,
    ),
  )
  | inl many ↦ rw many (go xs c (ap (λ n. (n == 1) || (n == 2)) c.num ∙ long _ many))
]
  where
    go :
        (xs : List ℕ)
        → IsChain l (xs ++ x ∷ ys)
        → ((l.num == 1) || (l.num == 2)) ≡ false
        → (l' : DList) × ((move_head l x ≡ some (done, l'))
            × IsChain l' (x ∷ xs ++ ys)
            × (l'.node_data ≡ l.node_data))
    go [] c many = (l, (is_head l x c.links.0, c, refl))
    go (z ∷ zs) c many = (
      moved l (z ∷ zs) x ys,
      (move_head-moved l z zs x ys c many, moved-IsChain l (z ∷ zs) x ys c, refl),
    )
