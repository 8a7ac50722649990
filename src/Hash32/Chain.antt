-- ===== src/Hash32/Chain.antt =====
-- The chains of src/gnb_hash32.c: what a lookup finds after a key was set.
use gnb_udp_over_tcp.Prelude.{
  ℕ, suc, ◌+◌, ◌≤◌, ◌≡◌, ◌≢◌, refl, ◌∙◌, sym, Bool, true, false, Option, none, some, List, [], ◌∷◌,
  ltb, if◌then◌else◌, length, Bool-cases, inl, inr, arith,
}
use gnb_udp_over_tcp.Hash32.{
  Value, value_size, Kv, kv32_create, same_bytes, has_key, write_value, set_chain, get_chain,
}

pub same_bytes_refl : (k : List ℕ) → same_bytes k k ≡ true
same_bytes_refl [] = refl
same_bytes_refl (x ∷ k) = ground (arith, same_bytes_refl k)

pub same_bytes_eq : (k l : List ℕ) → same_bytes k l ≡ true → k ≡ l
same_bytes_eq [] [] h = refl
same_bytes_eq [] (y ∷ l) h = ground (arith, h)
same_bytes_eq (x ∷ k) [] h = ground (arith, h)
same_bytes_eq (x ∷ k) (y ∷ l) h = elim (Bool-cases (same_bytes k l)) [
  | inl same ↦ let e = same_bytes_eq k l same in ground (arith, h)
  | inr other ↦ ground (arith, h, other)
]

pub has_key_self : (key : List ℕ) (kv : Kv) → kv.key ≡ key → has_key key kv ≡ true
has_key_self key kv e = rw e (ground (arith, same_bytes_refl key))

pub has_key_eq : (key : List ℕ) (kv : Kv) → has_key key kv ≡ true → kv.key ≡ key
has_key_eq key kv h = elim (Bool-cases (same_bytes kv.key key)) [
  | inl same ↦ same_bytes_eq kv.key key same
  | inr other ↦ ground (arith, h, other)
]

-- Another key.
pub has_key_other :
    (key other : List ℕ) (kv : Kv) → kv.key ≡ key → other ≢ key → has_key other kv ≡ false
has_key_other key other kv e ne = elim (Bool-cases (has_key other kv)) [
  | inl hit ↦ absurd (ne (sym (has_key_eq other kv hit) ∙ e))
  | inr miss ↦ miss
]

abbrev pub value_of : Option Kv → Option Value
value_of none = none
value_of (some kv) = some kv.value

-- Each entry was made with room for `size` bytes of value.
abbrev pub HaveRoom : ℕ → List Kv → Type 0
HaveRoom size [] = Unit
HaveRoom size (kv ∷ chain) = (size ≤ kv.room) × HaveRoom size chain

abbrev pub grown : Bool → ℕ → ℕ
grown found n = if found then n else n + 1

abbrev pub Stored : List ℕ → Value → List Kv → Bool × List Kv → Type 0
Stored key value chain r =
    (set_chain key value chain ≡ some r)
    × (value_of (get_chain key r.1) ≡ some value)
    × (length r.1 ≡ grown r.0 (length chain))

step : (found : Bool) (n k : ℕ) → n ≡ grown found k → suc n ≡ grown found (suc k)
step true n k e = omega arith
step false n k e = omega arith

-- For a chain whose entries were made with room for the value: the loop of gnb_hash32_set returns,
-- a lookup of the key finds the value, a lookup of any other key finds what it found before, and
-- the chain is one longer unless the key was found.
pub set_chain-Stored :
    (key : List ℕ) (value : Value) (chain : List Kv)
    → HaveRoom (value_size value) chain
    → (r : Bool × List Kv) × Stored key value chain r
      × ((other : List ℕ)
          → other ≢ key
          → value_of (get_chain other r.1) ≡ value_of (get_chain other chain))
unfolding set_chain get_chain kv32_create write_value
set_chain-Stored key value [] room =
    let new = kv32_create key value in
    (
      (false, new ∷ []),
      (refl, rw (has_key_self key new refl) refl, refl),
      λ other ne. rw (has_key_other key other new refl ne) refl,
    )
set_chain-Stored key value (kv ∷ chain) (fits, room) = elim (Bool-cases (has_key key kv)) [
  | inl here ↦
      let same = has_key_eq key kv here in
      let kv' : Kv = record kv { value = value } in
      let fits' : ltb kv.room (value_size value) ≡ false = ground arith in
      (
        (true, kv' ∷ chain),
        (rw (here, fits') refl, rw (has_key_self key kv' same) refl, refl),
        λ other ne. rw (has_key_other key other kv same ne) refl,
      )
  | inr away ↦
      let ((found, chain'), (e, at, size), rest) = set_chain-Stored key value chain room in
      (
        (found, kv ∷ chain'),
        (rw (away, e) refl, rw away at, step found (length chain') (length chain) size),
        λ other ne. elim (Bool-cases (has_key other kv)) [
          | inl hit ↦ rw hit refl
          | inr miss ↦ rw miss (rest other ne)
        ],
      )
]
