-- ===== src/FixedList/Order.antt =====
-- The order of the list, what a push adds, and what a pop keeps.
use gnb_udp_over_tcp.Prelude.{
  ℕ, zero, suc, ◌+◌, ◌-◌, ◌≤◌, ◌<◌, ◌≡◌, ◌≢◌, refl, ap, ◌∙◌, subst, some, ltb, ◌==◌, if◌then◌else◌,
  update, arith, false, Bool-cases, inl, inr,
}
use gnb_udp_over_tcp.FixedList.{FixedList, fill_array, create, push, pop}

-- The live nodes know their places.
pub record IsValid (l : FixedList) : Type 0 where
  pub bounded : l.num ≤ l.size
  pub placed : (i : ℕ) → i < l.num → l.idx (l.array i) ≡ i

-- `node` stands at the place that it names.
abbrev pub IsLive : FixedList → ℕ → Type 0
IsLive l node = (l.idx node < l.num) × (l.array (l.idx node) ≡ node)

-- The slot behind the list holds a node that is not live.
abbrev pub HasFreeNode : FixedList → Type 0
HasFreeNode l = (i : ℕ) → i < l.num → l.array i ≢ l.array l.num

fill_array-lem :
    (n i : ℕ) (array : ℕ → ℕ) (j : ℕ)
    → fill_array n i array j ≡ (if ltb j i then array j else if ltb j (i + n) then j else array j)
unfolding fill_array
fill_array-lem zero i array j = ground arith
fill_array-lem (suc n) i array j = rw (fill_array-lem n (i + 1) (update array i i) j) (ground arith)

-- A fresh list is valid, and its slot i holds the node i.
pub create-IsValid :
    (array idx udata : ℕ → ℕ) (size : ℕ)
    → IsValid (create array idx udata size)
      × ((i : ℕ) → i < size → (create array idx udata size).array i ≡ i)
unfolding create
create-IsValid array idx udata size = (
  record { bounded = omega arith; placed = λ i lt. absurd (omega arith) },
  λ i lt. fill_array-lem size 0 array i ∙ ground arith,
)

-- For a valid list with room whose next slot holds a node that is not in use: gnb_fixed_list_push
-- gives a node that is live in the new, valid list and carries the value, and every node that was
-- live is live with the data it had.
pub push-IsValid :
    (l : FixedList) (value : ℕ)
    → IsValid l
    → HasFreeNode l
    → l.num < l.size
    → (node : ℕ) × ((push l value).0 ≡ some node)
      × IsValid (push l value).1
      × IsLive (push l value).1 node
      × ((push l value).1.udata node ≡ value)
      × ((q : ℕ) → IsLive l q → IsLive (push l value).1 q × ((push l value).1.udata q ≡ l.udata q))
unfolding push
push-IsValid l value v free room =
    let not_full : (l.size == l.num) ≡ false = ground arith in
    let node = l.array l.num in
    rw not_full (
      node,
      refl,
      record {
        bounded = omega arith;
        placed = λ i lt. elim (Bool-cases (i == l.num)) [
          | inl new ↦ ground arith
          | inr old ↦ let ne = free i (ground arith) in ground (arith, v.placed i)
        ];
      },
      (ground arith, ground arith),
      ground arith,
      λ q (lt, at). let ne = free (l.idx q) lt in ((ground arith, ground arith), ground arith),
    )

module _ (l : FixedList) (node : ℕ) (v : IsValid l) (live : IsLive l node) where
  abbrev pub last : ℕ
  last = l.array (l.num - 1)

  abbrev pub Popped : FixedList → Type 0
  Popped l' =
      IsValid l'
      × (l'.num + 1 ≡ l.num)
      × (¬ IsLive l' node)
      × ((q : ℕ) → q ≢ node → IsLive l q → IsLive l' q × (l'.udata q ≡ l.udata q))

  pub last-idx : l.idx last ≡ l.num - 1
  last-idx = v.placed (l.num - 1) (omega (arith, live.0))

  shrink-Popped : l.idx node ≡ l.num - 1 → Popped (record l { num = l.num - 1 })
  shrink-Popped e = (
    record { bounded = omega (arith, v.bounded); placed = λ i lt. v.placed i (omega arith) },
    omega (arith, live.0),
    (λ dead. omega (arith, dead.0)),
    λ q ne (lt, at).
        let other : l.idx q ≢ l.num - 1 = λ i. ground (arith, ap l.array i, ap l.array e, live.1) in
        ((omega arith, at), refl),
  )

  move-Popped :
      l.idx node ≢ l.num - 1
      → Popped (record l {
        idx = update l.idx last (l.idx node);
        array = update l.array (l.idx node) last;
        num = l.num - 1;
      })
  move-Popped ne =
      let e = last-idx in
      let apart : last ≢ node = λ same. ground (arith, ap l.idx same) in
      (
        record {
          bounded = omega (arith, v.bounded);
          placed = λ i lt. elim (Bool-cases (i == l.idx node)) [
            | inl moved ↦ rw moved (ground arith)
            | inr kept ↦
                let at = v.placed i (omega arith) in
                let other : l.array i ≢ last = λ same. ground (arith, ap l.idx same) in
                rw kept (ground arith)
          ];
        },
        omega (arith, live.0),
        (λ dead. ground (arith, dead.1)),
        λ q other (lt, at). elim (Bool-cases (q == last)) [
          | inl moved ↦ ((rw moved (ground (arith, live.0)), rw moved (ground arith)), refl)
          | inr kept ↦
              let ne' : l.idx q ≢ l.num - 1 = λ i. ground (arith, ap l.array i) in
              let ne'' : l.idx q ≢ l.idx node = λ i. ground (arith, ap l.array i, live.1) in
              ((rw kept (ground arith), rw kept (ground arith)), refl)
        ],
      )

  -- For a valid list and a node that is live in it: after gnb_fixed_list_pop the list is valid and
  -- one shorter, the node is not live, and every other live node is live with the data it had.
  pub pop-IsValid : Popped (pop l node)
  unfolding pop
  pop-IsValid =
      let e = last-idx in
      let some_left : (l.num == 0) ≡ false = ground (arith, live.0) in
      let in_range : ltb (l.size - 1) (l.idx node) ≡ false = ground (arith, live.0, v.bounded) in
      let in_range' : ltb (l.size - 1) (l.idx last) ≡ false = ground (arith, live.0, v.bounded) in
      rw some_left (elim (Bool-cases (l.num == 1)) [
        | inl one ↦ rw one (
            subst (λ n. Popped (record l { num = n })) (ground arith)
              (shrink-Popped (ground arith)))
        | inr more ↦
            rw (more, in_range, in_range')
              (elim (Bool-cases (l.idx last == l.idx node)) [
                | inl same ↦ rw same (shrink-Popped (ground arith))
                | inr other ↦ rw other (move-Popped (ground arith))
              ])
      ])
