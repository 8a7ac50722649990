-- ===== src/Hash32/Keys.antt =====
-- The keys of a chain of src/gnb_hash32.c: all of one length and distinct, which set and del keep.
use gnb_udp_over_tcp.Prelude.{
  ℕ, ◌+◌, ◌≤◌, ◌≡◌, ◌≢◌, refl, ap, ◌∙◌, sym, Bool, true, false, none, some, List, [], ◌∷◌, ltb,
  if◌then◌else◌, length, Bool-cases, inl, inr, arith,
}
use gnb_udp_over_tcp.Hash32.{
  Value, pointer, Kv, kv32_create, same_bytes, has_key, write_value, set_chain, get_chain,
  del_chain,
}
use gnb_udp_over_tcp.Hash32.Chain.{
  has_key_self, has_key_eq, has_key_other, same_bytes_eq, same_bytes_refl,
}

abbrev pub Lacks : List ℕ → List Kv → Type 0
Lacks key [] = Unit
Lacks key (kv ∷ chain) = (kv.key ≢ key) × Lacks key chain

-- Keys of `n` bytes, each in the chain once, with room for a pointer.
abbrev pub WellKeyed : ℕ → List Kv → Type 0
WellKeyed n [] = Unit
WellKeyed n (kv ∷ chain) =
    (length kv.key ≡ n) × (8 ≤ kv.room) × Lacks kv.key chain × WellKeyed n chain

-- Bytes that differ.
pub differ : (k l : List ℕ) → same_bytes k l ≡ false → k ≢ l
differ k l h e = ground (arith, same_bytes_refl l, ap (λ x. same_bytes x l) e)

pub has_key_lem : (key : List ℕ) (kv : Kv) → has_key key kv ≡ false → kv.key ≢ key
has_key_lem key kv h e = ground (arith, has_key_self key kv e)

get_chain-Lacks : (key : List ℕ) (chain : List Kv) → Lacks key chain → get_chain key chain ≡ none
unfolding get_chain
get_chain-Lacks key [] out = refl
get_chain-Lacks key (kv ∷ chain) (ne, out) = elim (Bool-cases (has_key key kv)) [
  | inl hit ↦ absurd (ne (has_key_eq key kv hit))
  | inr miss ↦ rw miss (get_chain-Lacks key chain out)
]

-- The chain that `set_chain` makes of one with room.
pub with_key : List ℕ → Value → List Kv → List Kv
with_key key value [] = kv32_create key value ∷ []
with_key key value (kv ∷ chain) =
    let rest = with_key key value chain in
    if has_key key kv then record kv { value = value } ∷ chain else kv ∷ rest

pub set_chain-with_key :
    (n p : ℕ) (key : List ℕ) (chain : List Kv)
    → WellKeyed n chain
    → (found : Bool) × (set_chain key (pointer p) chain
        ≡ some (found, with_key key (pointer p) chain))
unfolding set_chain with_key write_value
set_chain-with_key n p key [] w = (false, refl)
set_chain-with_key n p key (kv ∷ chain) (len, room, out, w) = elim (Bool-cases (has_key key kv)) [
  | inl hit ↦ let fits : ltb kv.room 8 ≡ false = ground arith in rw (hit, fits) (true, refl)
  | inr miss ↦ let (found, e) = set_chain-with_key n p key chain w in rw (miss, e) (found, refl)
]

with_key-Lacks :
    (other key : List ℕ) (value : Value) (chain : List Kv)
    → key ≢ other
    → Lacks other chain
    → Lacks other (with_key key value chain)
unfolding with_key kv32_create
with_key-Lacks other key value [] ne out = (ne, tt)
with_key-Lacks other key value (kv ∷ chain) ne (away, out) = elim (Bool-cases (has_key key kv)) [
  | inl hit ↦ rw hit (away, out)
  | inr miss ↦ rw miss (away, with_key-Lacks other key value chain ne out)
]

pub with_key-WellKeyed :
    (n p : ℕ) (key : List ℕ) (chain : List Kv)
    → length key ≡ n
    → WellKeyed n chain
    → WellKeyed n (with_key key (pointer p) chain)
unfolding with_key kv32_create
with_key-WellKeyed n p key [] len w = (len, omega arith, tt, tt)
with_key-WellKeyed n p key (kv ∷ chain) len (len', room, out, w) =
    elim (Bool-cases (has_key key kv)) [
      | inl hit ↦ rw hit (len', room, out, w)
      | inr miss ↦ rw miss (
        len',
        room,
        with_key-Lacks kv.key key (pointer p) chain (λ e. has_key_lem key kv miss (sym e)) out,
        with_key-WellKeyed n p key chain len w,
      )
    ]

pub del_chain-Lacks :
    (other key : List ℕ) (chain : List Kv) → Lacks other chain → Lacks other (del_chain key chain).1
unfolding del_chain
del_chain-Lacks other key [] out = tt
del_chain-Lacks other key (kv ∷ chain) (away, out) = elim (Bool-cases (has_key key kv)) [
  | inl hit ↦ rw hit out
  | inr miss ↦ rw miss (away, del_chain-Lacks other key chain out)
]

pub del_chain-WellKeyed :
    (n : ℕ) (key : List ℕ) (chain : List Kv)
    → WellKeyed n chain
    → WellKeyed n (del_chain key chain).1
unfolding del_chain
del_chain-WellKeyed n key [] w = tt
del_chain-WellKeyed n key (kv ∷ chain) (len, room, out, w) = elim (Bool-cases (has_key key kv)) [
  | inl hit ↦ rw hit w
  | inr miss ↦
      rw miss (len, room, del_chain-Lacks kv.key key chain out, del_chain-WellKeyed n key chain w)
]

-- A lookup after a deletion.
pub get_chain-del_chain :
    (n : ℕ) (key other : List ℕ) (chain : List Kv)
    → WellKeyed n chain
    → get_chain other (del_chain key chain).1
      ≡ (if same_bytes other key then none else get_chain other chain)
unfolding get_chain del_chain
get_chain-del_chain n key other [] w = ground arith
get_chain-del_chain n key other (kv ∷ chain) (len, room, out, w) =
    elim (Bool-cases (same_bytes other key)) [
      | inl same ↦
          let e = same_bytes_eq other key same in
          rw same (elim (Bool-cases (has_key key kv)) [
            | inl hit ↦ rw hit (
                ap (λ k. get_chain k chain) (e ∙ sym (has_key_eq key kv hit))
                ∙ get_chain-Lacks kv.key chain out)
            | inr miss ↦
                let away : has_key other kv ≡ false = ap (λ k. has_key k kv) e ∙ miss in
                rw (miss, away) (get_chain-del_chain n key other chain w ∙ rw same refl)
          ])
      | inr apart ↦ rw (apart) (elim (Bool-cases (has_key key kv)) [
        | inl hit ↦
            rw (hit, has_key_other key other kv (has_key_eq key kv hit) (differ other key apart))
              refl
        | inr miss ↦ elim (Bool-cases (has_key other kv)) [
          | inl there ↦ rw (miss, there) refl
          | inr away ↦ rw (miss, away) (get_chain-del_chain n key other chain w ∙ rw apart refl)
        ]
      ])
    ]

-- Where no entry is found the chain stays, else it is one shorter.
pub del_chain-none :
    (key : List ℕ) (chain : List Kv)
    → (del_chain key chain).0 ≡ none
    → (del_chain key chain).1 ≡ chain
unfolding del_chain
del_chain-none key [] h = refl
del_chain-none key (kv ∷ chain) h = elim (Bool-cases (has_key key kv)) [
  | inl hit ↦ ground (arith, h, hit)
  | inr miss ↦ rw miss (ap (λ c. kv ∷ c) (del_chain-none key chain (ground (arith, h, miss))))
]

pub length-del_chain :
    (key : List ℕ) (chain : List Kv) (kv : Kv)
    → (del_chain key chain).0 ≡ some kv
    → length (del_chain key chain).1 + 1 ≡ length chain
unfolding del_chain
length-del_chain key [] kv h = ground (arith, h)
length-del_chain key (kv' ∷ chain) kv h = elim (Bool-cases (has_key key kv')) [
  | inl hit ↦ rw hit (omega arith)
  | inr miss ↦ rw miss (omega (arith, length-del_chain key chain kv (ground (arith, h, miss))))
]
