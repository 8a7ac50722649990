-- ===== src/DoublyLinked/Segment.antt =====
-- Stretches of a chain, and what writes to `pre` and `nex` do to them.
use gnb_udp_over_tcp.Prelude.{
  ℕ, ◌≡◌, refl, Bool, true, false, ◌||◌, Option, none, some, List, [], ◌∷◌, ◌++◌, ◌==◌, update,
  arith,
}

abbrev pub Links : Type 0
Links = ℕ → Option ℕ

abbrev pub first : List ℕ → Option ℕ → Option ℕ
first [] b = b
first (x ∷ xs) b = some x

abbrev pub final : Option ℕ → List ℕ → Option ℕ
final a [] = a
final a (x ∷ xs) = final (some x) xs

abbrev pub has : ℕ → List ℕ → Bool
has a [] = false
has a (x ∷ xs) = (a == x) || has a xs

abbrev pub Distinct : List ℕ → Type 0
Distinct [] = Unit
Distinct (x ∷ xs) = (has x xs ≡ false) × Distinct xs

-- The nodes `xs` are linked to one another, to `a` before them and to `b` behind them.
abbrev pub Segment : Links → Links → Option ℕ → List ℕ → Option ℕ → Type 0
Segment pre nex a [] b = Unit
Segment pre nex a (x ∷ xs) b = (pre x ≡ a) × (nex x ≡ first xs b) × Segment pre nex (some x) xs b

-- A write at a node, if there is one.
abbrev pub update? : Links → Option ℕ → Option ℕ → Links
update? f none v = f
update? f (some p) v = update f p v

abbrev pub Absent : Option ℕ → List ℕ → Type 0
Absent none xs = Unit
Absent (some p) xs = has p xs ≡ false

module _ (pre nex : Links) where
  pub Segment-pre :
      (a : Option ℕ) (xs : List ℕ) (b : Option ℕ) (p : ℕ) (v : Option ℕ)
      → has p xs ≡ false
      → Segment pre nex a xs b
      → Segment (update pre p v) nex a xs b
  Segment-pre a [] b p v out s = tt
  Segment-pre a (x ∷ xs) b p v out (l, r, s) =
      (ground arith, r, Segment-pre (some x) xs b p v (ground arith) s)

  pub Segment-nex :
      (a : Option ℕ) (xs : List ℕ) (b : Option ℕ) (p : ℕ) (v : Option ℕ)
      → has p xs ≡ false
      → Segment pre nex a xs b
      → Segment pre (update nex p v) a xs b
  Segment-nex a [] b p v out s = tt
  Segment-nex a (x ∷ xs) b p v out (l, r, s) =
      (l, ground arith, Segment-nex (some x) xs b p v (ground arith) s)

  -- The first node gets another predecessor.
  pub relink_first :
      (a : Option ℕ) (x : ℕ) (xs : List ℕ) (b a' : Option ℕ)
      → has x xs ≡ false
      → Segment pre nex a (x ∷ xs) b
      → Segment (update pre x a') nex a' (x ∷ xs) b
  relink_first a x xs b a' out (l, r, s) = (ground arith, r, Segment-pre (some x) xs b x a' out s)

  -- The last node gets another successor.
  pub relink_last :
      (a : Option ℕ) (xs : List ℕ) (x : ℕ) (b b' : Option ℕ)
      → has x xs ≡ false
      → Segment pre nex a (xs ++ x ∷ []) b
      → Segment pre (update nex x b') a (xs ++ x ∷ []) b'
  relink_last a [] x b b' out (l, r, s) = (l, ground arith, tt)
  relink_last a (y ∷ []) x b b' out (l, r, s) =
      (l, ground arith, relink_last (some y) [] x b b' refl s)
  relink_last a (y ∷ z ∷ ys) x b b' out (l, r, s) =
      (l, ground arith, relink_last (some y) (z ∷ ys) x b b' (ground arith) s)

  pub split :
      (a : Option ℕ) (xs ys : List ℕ) (b : Option ℕ)
      → Segment pre nex a (xs ++ ys) b
      → Segment pre nex a xs (first ys b) × Segment pre nex (final a xs) ys b
  split a [] ys b s = (tt, s)
  split a (x ∷ []) ys b (l, r, s) = ((l, r, tt), s)
  split a (x ∷ z ∷ xs) ys b (l, r, s) =
      let (front, back) = split (some x) (z ∷ xs) ys b s in ((l, r, front), back)

  pub join :
      (a : Option ℕ) (xs ys : List ℕ) (b : Option ℕ)
      → Segment pre nex a xs (first ys b)
      → Segment pre nex (final a xs) ys b
      → Segment pre nex a (xs ++ ys) b
  join a [] ys b s t = t
  join a (x ∷ []) ys b (l, r, s) t = (l, r, t)
  join a (x ∷ z ∷ xs) ys b (l, r, s) t = (l, r, join (some x) (z ∷ xs) ys b s t)

pub has-append : (a : ℕ) (xs ys : List ℕ) → has a (xs ++ ys) ≡ (has a xs || has a ys)
has-append a [] ys = refl
has-append a (x ∷ xs) ys = ground (arith, has-append a xs ys)

-- Distinct nodes around a middle one.
pub Distinct-append :
    (xs ys : List ℕ)
    → Distinct (xs ++ ys)
    → Distinct xs × Distinct ys × ((a : ℕ) → has a xs ≡ true → has a ys ≡ false)
Distinct-append [] ys d = (tt, d, λ a h. ground arith)
Distinct-append (x ∷ xs) ys (out, d) =
    let (dx, dy, apart) = Distinct-append xs ys d in
    (
      (ground (arith, has-append x xs ys), dx),
      dy,
      λ a h. ground (arith, apart a, has-append x xs ys),
    )

pub append-Distinct :
    (xs ys : List ℕ)
    → Distinct xs
    → Distinct ys
    → ((a : ℕ) → has a xs ≡ true → has a ys ≡ false)
    → Distinct (xs ++ ys)
append-Distinct [] ys dx dy apart = dy
append-Distinct (x ∷ xs) ys (out, dx) dy apart = (
  ground (arith, has-append x xs ys, apart x),
  append-Distinct xs ys dx dy (λ a h. apart a (ground arith)),
)
