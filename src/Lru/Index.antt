-- ===== src/Lru/Index.antt =====
-- The hash map of src/gnb_lru32.c as an index of the entries: a key leads to the node of its entry.
use gnb_udp_over_tcp.Prelude.{
  ℕ, ◌+◌, ◌≡◌, ◌≤◌, refl, ap, ◌∙◌, sym, Bool, true, false, Option, none, some, List, [], ◌∷◌, ◌++◌,
  length, Bool-cases, inl, inr, arith,
}
use gnb_udp_over_tcp.Hash32.{
  pointer, Kv, HashMap, same_bytes, has_key, get_chain, hash32_get, hash32_set, hash32_del,
  bucket_idx,
}
use gnb_udp_over_tcp.Hash32.Chain.{value_of, same_bytes_eq, same_bytes_refl, has_key_eq}
use gnb_udp_over_tcp.Hash32.Lookup.{ptr, IsTable, lookup, set-lookup, del-lookup}
use gnb_udp_over_tcp.Lru.Counts.{find, count, count-append, find-none, find-append, find-skip}

-- What the structures hold for one key: the addresses of its two nodes, and the data.
pub record Entry : Type 0 where
  pub node : ℕ
  pub dl : ℕ
  pub key : List ℕ
  pub udata : Option ℕ

abbrev pub for_key : List ℕ → Entry → Bool
for_key key e = same_bytes key e.key

abbrev pub node_of : Option Entry → Option ℕ
node_of none = none
node_of (some e) = some e.node

count_mid :
    (key : List ℕ) (xs : List Entry) (e : Entry) (ys : List Entry)
    → count (for_key key) (xs ++ e ∷ ys)
      ≡ count (for_key key) (e ∷ []) + count (for_key key) (xs ++ ys)
count_mid key xs e ys =
    let one : count (for_key key) (e ∷ ys) ≡ count (for_key key) (e ∷ []) + count (for_key key) ys =
      ground arith in
    omega (arith, one, count-append (for_key key) xs (e ∷ ys), count-append (for_key key) xs ys)

count_front :
    (key : List ℕ) (e : Entry) (es : List Entry)
    → count (for_key key) (e ∷ es) ≡ count (for_key key) (e ∷ []) + count (for_key key) es
count_front key e es = ground arith

count_one :
    (key : List ℕ) (e : Entry) → same_bytes key e.key ≡ true → count (for_key key) (e ∷ []) ≡ 1
count_one key e h = rw h refl

count_zero :
    (key : List ℕ) (e : Entry) → same_bytes key e.key ≡ false → count (for_key key) (e ∷ []) ≡ 0
count_zero key e h = rw h refl

-- An entry of the key `key` between `xs` and `ys` that is the only one.
find_only :
    (key : List ℕ) (xs : List Entry) (e : Entry) (ys : List Entry)
    → count (for_key key) (xs ++ e ∷ ys) ≤ 1
    → same_bytes key e.key ≡ true
    → find (for_key key) (xs ++ e ∷ ys) ≡ some e
find_only key xs e ys once h =
    let none_before : count (for_key key) xs ≡ 0 =
      omega (arith, count_mid key xs e ys, count_one key e h, count-append (for_key key) xs ys) in
    find-append (for_key key) xs (e ∷ ys) none_before ∙ rw h refl

get_chain-key :
    (key : List ℕ) (chain : List Kv) (kv : Kv) → get_chain key chain ≡ some kv → kv.key ≡ key
unfolding get_chain
get_chain-key key [] kv e = absurd (ground (arith, e))
get_chain-key key (kv' ∷ chain) kv e = elim (Bool-cases (has_key key kv')) [
  | inl hit ↦
      let same : kv' ≡ kv = ground (arith, e, hit) in
      ap (λ k. k.key) (sym same) ∙ has_key_eq key kv' hit
  | inr miss ↦ get_chain-key key chain kv (ground (arith, e, miss))
]

ptr-some : (o : Option Kv) (p : ℕ) → ptr (value_of o) ≡ some p → (kv : Kv) × (o ≡ some kv)
ptr-some none p e = absurd (ground (arith, e))
ptr-some (some kv) p e = (kv, refl)

module _ (murmurhash_hash : List ℕ → ℕ) where
  pub record IsIndex (n : ℕ) (m : HashMap) (es : List Entry) : Type 0 where
    pub table : IsTable n m
    pub at : (key : List ℕ) → lookup murmurhash_hash key m ≡ node_of (find (for_key key) es)
    pub once : (key : List ℕ) → count (for_key key) es ≤ 1

  pub move-IsIndex :
      (n : ℕ) (m : HashMap) (xs : List Entry) (e : Entry) (ys : List Entry)
      → IsIndex n m (xs ++ e ∷ ys)
      → IsIndex n m (e ∷ xs ++ ys)
  move-IsIndex n m xs e ys x = record {
    table = x.table;
    at = λ key. x.at key ∙ elim (Bool-cases (same_bytes key e.key)) [
      | inl same ↦ rw same (ap node_of (find_only key xs e ys (x.once key) same))
      | inr other ↦ rw other (ap node_of (find-skip (for_key key) xs e ys other))
    ];
    once = λ key. omega (arith, x.once key, count_mid key xs e ys, count_front key e (xs ++ ys));
  }

  pub del-IsIndex :
      (after : Kv → List ℕ) (n : ℕ) (m : HashMap) (xs : List Entry) (e : Entry) (ys : List Entry)
      → IsIndex n m (xs ++ e ∷ ys)
      → length e.key ≡ n
      → IsIndex n (hash32_del murmurhash_hash after e.key m).1 (xs ++ ys)
  del-IsIndex after n m xs e ys x len =
      let (t, at) = del-lookup murmurhash_hash after n e.key m x.table len in
      record {
        table = t;
        at = λ key. at key ∙ elim (Bool-cases (same_bytes key e.key)) [
          | inl same ↦
              let gone : count (for_key key) (xs ++ ys) ≡ 0 =
                omega (arith, x.once key, count_mid key xs e ys, count_one key e same) in
              rw same (ap node_of (sym (find-none (for_key key) (xs ++ ys) gone)))
          | inr other ↦ rw other (x.at key ∙ ap node_of (find-skip (for_key key) xs e ys other))
        ];
        once = λ key. omega (arith, x.once key, count_mid key xs e ys);
      }

  pub set-IsIndex :
      (n : ℕ) (m : HashMap) (e : Entry) (es : List Entry)
      → IsIndex n m es
      → length e.key ≡ n
      → count (for_key e.key) es ≡ 0
      → (found : Bool) × (m' : HashMap) × (kv : Kv) × (hash32_set murmurhash_hash e.key
            (pointer e.node)
            m
          ≡ some (found, m'))
        × (hash32_get murmurhash_hash e.key m' ≡ some kv)
        × (kv.key ≡ e.key)
        × IsIndex n m' (e ∷ es)
  unfolding hash32_get
  set-IsIndex n m e es x len new =
      let (found, m', returns, t, at) = set-lookup murmurhash_hash n e.node e.key m x.table len in
      let self : lookup murmurhash_hash e.key m' ≡ some e.node =
        at e.key ∙ rw (same_bytes_refl e.key) refl in
      let (kv, got) = ptr-some (hash32_get murmurhash_hash e.key m') e.node self in
      (
        found,
        m',
        kv,
        returns,
        got,
        get_chain-key e.key (m'.buckets (bucket_idx murmurhash_hash m' e.key)).kv_chain kv got,
        record {
          table = t;
          at = λ key. at key ∙ elim (Bool-cases (same_bytes key e.key)) [
            | inl same ↦ rw same refl
            | inr other ↦ rw other (x.at key)
          ];
          once = λ key. elim (Bool-cases (same_bytes key e.key)) [
            | inl same ↦
                let k = same_bytes_eq key e.key same in
                omega (
                  arith,
                  count_front key e es,
                  count_one key e same,
                  ap (λ j. count (for_key j) es) k,
                  new,
                )
            | inr other ↦ omega (arith, x.once key, count_front key e es, count_zero key e other)
          ];
        },
      )
