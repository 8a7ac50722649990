-- ===== src/DoublyLinked/Unlink.antt =====
-- Taking a node out of the middle of a chain.
use gnb_udp_over_tcp.Prelude.{
  ℕ, ◌≡◌, refl, ◌∙◌, true, false, Option, none, some, List, [], ◌∷◌, ◌++◌, arith, Bool-cases, inl,
  inr,
}
use gnb_udp_over_tcp.DoublyLinked.{same_node}
use gnb_udp_over_tcp.DoublyLinked.Segment.{
  Links, first, final, has, Distinct, Segment, Segment-pre, Segment-nex, relink_first, update?,
  split, join, has-append, Distinct-append, append-Distinct,
}

-- The last node of a chain is one of its nodes.
pub final-same_node :
    (x y : ℕ) (ys : List ℕ)
    → has x (y ∷ ys) ≡ false
    → same_node (some x) (final (some y) ys) ≡ false
final-same_node x y [] out = ground arith
final-same_node x y (z ∷ ys) out = final-same_node x z ys (ground arith)

final-update? :
    (f : Links) (x y : ℕ) (ys : List ℕ) (v : Option ℕ)
    → has x (y ∷ ys) ≡ false
    → update? f (final (some y) ys) v x ≡ f x
final-update? f x y [] v out = ground arith
final-update? f x y (z ∷ ys) v out = final-update? f x z ys v (ground arith)

pub final-append : (a : Option ℕ) (xs ys : List ℕ) → final a (xs ++ ys) ≡ final (final a xs) ys
final-append a [] ys = refl
final-append a (x ∷ xs) ys = final-append (some x) xs ys

pub first-append : (xs ys : List ℕ) (b : Option ℕ) → first (xs ++ ys) b ≡ first xs (first ys b)
first-append [] ys b = refl
first-append (x ∷ xs) ys b = refl

module _ (pre nex : Links) where
  relink_final :
      (a : Option ℕ) (xs : List ℕ) (b b' : Option ℕ)
      → Distinct xs
      → Segment pre nex a xs b
      → Segment pre (update? nex (final none xs) b') a xs b'
  relink_final a [] b b' d s = tt
  relink_final a (x ∷ []) b b' d (l, r, s) = (l, ground arith, tt)
  relink_final a (x ∷ y ∷ ys) b b' (out, d) (l, r, s) =
      (l, final-update? nex x y ys b' out ∙ r, relink_final (some x) (y ∷ ys) b b' d s)

  -- A write at the last node of `xs` spares the nodes outside.
  Segment-final :
      (a : Option ℕ) (xs ys : List ℕ) (b v : Option ℕ)
      → ((p : ℕ) → has p xs ≡ true → has p ys ≡ false)
      → Segment pre nex a ys b
      → Segment pre (update? nex (final none xs) v) a ys b
  Segment-final a [] ys b v apart s = s
  Segment-final a (x ∷ []) ys b v apart s =
      Segment-nex pre nex a ys b x v (apart x (ground arith)) s
  Segment-final a (x ∷ z ∷ xs) ys b v apart s =
      Segment-final a (z ∷ xs) ys b v (λ p h. apart p (ground arith)) s

  -- A write at the first node of `ys` spares the nodes outside, and relinks `ys`.
  Segment-first :
      (a : Option ℕ) (xs ys : List ℕ) (b v : Option ℕ)
      → ((p : ℕ) → has p xs ≡ true → has p ys ≡ false)
      → Segment pre nex a xs b
      → Segment (update? pre (first ys none) v) nex a xs b
  Segment-first a xs [] b v apart s = s
  Segment-first a xs (y ∷ ys) b v apart s = Segment-pre pre nex a xs b y v (out xs apart) s
    where
      out : (zs : List ℕ) → ((p : ℕ) → has p zs ≡ true → has p (y ∷ ys) ≡ false) → has y zs ≡ false
      out zs h = elim (Bool-cases (has y zs)) [ inl i ↦ ground (arith, h y) | inr n ↦ n ]

  relink_first? :
      (a : Option ℕ) (ys : List ℕ) (b a' : Option ℕ)
      → Distinct ys
      → Segment pre nex a ys b
      → Segment (update? pre (first ys none) a') nex a' ys b
  relink_first? a [] b a' d s = tt
  relink_first? a (y ∷ ys) b a' d s = relink_first pre nex a y ys b a' d.0 s

-- The node `x` is gone from the distinct nodes `xs ++ x ∷ ys`.
pub unlink :
    (pre nex : Links) (xs : List ℕ) (x : ℕ) (ys : List ℕ)
    → Distinct (xs ++ x ∷ ys)
    → Segment pre nex none (xs ++ x ∷ ys) none
    → Distinct (xs ++ ys)
      × (pre x ≡ final none xs)
      × (nex x ≡ first ys none)
      × (has x (xs ++ ys) ≡ false)
      × Segment
          (update? pre (first ys none) (final none xs))
          (update? nex (final none xs) (first ys none))
          none
          (xs ++ ys)
          none
unlink pre nex xs x ys d s =
    let (front, back) = split pre nex none xs (x ∷ ys) none s in
    let (dx, dy, apart) = Distinct-append xs (x ∷ ys) d in
    let apart' : (p : ℕ) → has p xs ≡ true → has p ys ≡ false = λ p h. ground (arith, apart p h) in
    let nex' = update? nex (final none xs) (first ys none) in
    let out : has x xs ≡ false = elim (Bool-cases (has x xs)) [
      | inl i ↦ ground (arith, apart x i)
      | inr n ↦ n
    ] in
    (
      append-Distinct xs ys dx dy.1 apart',
      back.0,
      back.1,
      ground (arith, has-append x xs ys),
      join (update? pre (first ys none) (final none xs)) nex' none xs ys none
          (Segment-first pre nex' none xs ys (first ys none) (final none xs) apart'
            (relink_final pre nex none xs (some x) (first ys none) dx front))
          (relink_first? pre nex' (some x) ys none (final none xs) dy.1
            (Segment-final pre nex (some x) xs ys none (first ys none) apart' back.2)),
    )
