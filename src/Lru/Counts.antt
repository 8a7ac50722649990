-- ===== src/Lru/Counts.antt =====
-- Lists searched by a test, for the entries of src/gnb_lru32.c.
use gnb_udp_over_tcp.Prelude.{
  ℕ, ◌+◌, ◌≡◌, refl, ap, ◌∙◌, sym, Bool, true, false, Option, none, some, List, [], ◌∷◌, ◌++◌, map,
  if◌then◌else◌, Bool-cases, inl, inr, arith,
}

module _ {ℓ} {A : Type ℓ} (p : A → Bool) where
  abbrev pub find : List A → Option A
  find [] = none
  find (x ∷ xs) = let rest = find xs in if p x then some x else rest

  -- The list without the first element that meets the test.
  abbrev pub remove : List A → List A
  remove [] = []
  remove (x ∷ xs) = let rest = remove xs in if p x then xs else x ∷ rest

  abbrev pub count : List A → ℕ
  count [] = 0
  count (x ∷ xs) = let rest = count xs in if p x then rest + 1 else rest

  pub count-append : (xs ys : List A) → count (xs ++ ys) ≡ count xs + count ys
  count-append [] ys = omega arith
  count-append (x ∷ xs) ys = ground (arith, count-append xs ys)

  pub find-none : (xs : List A) → count xs ≡ 0 → find xs ≡ none
  find-none [] e = refl
  find-none (x ∷ xs) e = elim (Bool-cases (p x)) [
    | inl hit ↦ absurd (ground (arith, e, hit))
    | inr miss ↦ rw miss (find-none xs (ground (arith, e, miss)))
  ]

  pub count-none : (xs : List A) → find xs ≡ none → count xs ≡ 0
  count-none [] e = refl
  count-none (x ∷ xs) e = elim (Bool-cases (p x)) [
    | inl hit ↦ absurd (ground (arith, e, hit))
    | inr miss ↦ rw miss (count-none xs (ground (arith, e, miss)))
  ]

  -- Behind a list in which nothing meets the test.
  pub find-append : (xs ys : List A) → count xs ≡ 0 → find (xs ++ ys) ≡ find ys
  find-append [] ys e = refl
  find-append (x ∷ xs) ys e = elim (Bool-cases (p x)) [
    | inl hit ↦ absurd (ground (arith, e, hit))
    | inr miss ↦ rw miss (find-append xs ys (ground (arith, e, miss)))
  ]

  pub remove-append :
      (xs : List A) (y : A) (ys : List A)
      → count xs ≡ 0
      → p y ≡ true
      → remove (xs ++ y ∷ ys) ≡ xs ++ ys
  remove-append [] y ys e h = rw h refl
  remove-append (x ∷ xs) y ys e h = elim (Bool-cases (p x)) [
    | inl hit ↦ absurd (ground (arith, e, hit))
    | inr miss ↦ rw miss (ap (λ l. x ∷ l) (remove-append xs y ys (ground (arith, e, miss)) h))
  ]

  -- An element that fails the test.
  pub find-skip :
      (xs : List A) (y : A) (ys : List A) → p y ≡ false → find (xs ++ y ∷ ys) ≡ find (xs ++ ys)
  find-skip [] y ys h = rw h refl
  find-skip (x ∷ xs) y ys h = elim (Bool-cases (p x)) [
    | inl hit ↦ rw hit refl
    | inr miss ↦ rw miss (find-skip xs y ys h)
  ]

  -- Where an element is found.
  pub find-split :
      (l : List A) (y : A)
      → find l ≡ some y
      → (xs : List A) × (ys : List A) × (l ≡ xs ++ y ∷ ys) × (p y ≡ true) × (count xs ≡ 0)
  find-split [] y e = absurd (ground (arith, e))
  find-split (x ∷ l) y e = elim (Bool-cases (p x)) [
    | inl hit ↦
        let same : x ≡ y = ground (arith, e, hit) in
        ([], l, ap (λ z. z ∷ l) same, ap p (sym same) ∙ hit, refl)
    | inr miss ↦
        let (xs, ys, at, test, away) = find-split l y (ground (arith, e, miss)) in
        (x ∷ xs, ys, ap (λ k. x ∷ k) at, test, rw miss away)
  ]

module _ {ℓ ℓ'} {A : Type ℓ} {B : Type ℓ'} (p : B → Bool) (f : A → B) where
  pub find-map :
      (xs : List A)
      → find p (map f xs) ≡ elim (find (λ a. p (f a)) xs) [ none ↦ none | some a ↦ some (f a) ]
  find-map [] = refl
  find-map (x ∷ xs) = elim (Bool-cases (p (f x))) [
    | inl hit ↦ rw hit refl
    | inr miss ↦ rw miss (find-map xs)
  ]

  pub remove-map : (xs : List A) → remove p (map f xs) ≡ map f (remove (λ a. p (f a)) xs)
  remove-map [] = refl
  remove-map (x ∷ xs) = elim (Bool-cases (p (f x))) [
    | inl hit ↦ rw hit refl
    | inr miss ↦ rw miss (ap (λ l. f x ∷ l) (remove-map xs))
  ]

module _ {ℓ} {A : Type ℓ} where
  -- Each element meets `P`.
  abbrev pub All {κ} : (A → Type κ) → List A → Type κ
  All P [] = Unit
  All P (x ∷ xs) = P x × All P xs
