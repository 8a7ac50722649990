-- ===== src/Hash32.antt =====
-- src/gnb_hash32.c: a map from keys of bytes to values, as buckets with chains. The hash function is a
-- parameter. A chain is the list of its entries from `kv_chain` on; allocation succeeds.
pub mod Chain
pub mod Map
pub mod Keys
pub mod Lookup
pub mod Arrays
mod Tests
use gnb_udp_over_tcp.Prelude.{
  ℕ, zero, suc, ◌+◌, ◌-◌, ◌*◌, ◌%◌, Bool, true, false, ◌&&◌, Option, none, some, List, [], ◌∷◌,
  ◌++◌, ltb, ◌==◌, if◌then◌else◌, length, take, update,
}

-- `value_len` bytes, or for the length 0 the pointer itself.
pub data Value : Type 0 where
  bytes : List ℕ → Value
  pointer : ℕ → Value

-- The room that a value takes in its block.
abbrev pub value_size : Value → ℕ
value_size (bytes b) = length b
value_size (pointer p) = 8

-- `room` is what the entry was made with.
pub record Kv : Type 0 where
  pub key : List ℕ
  pub value : Value
  pub room : ℕ

unfoldable pub kv32_create : List ℕ → Value → Kv
kv32_create key value = record { key = key; value = value; room = value_size value }

pub record Bucket : Type 0 where
  pub chain_len : ℕ
  pub kv_chain : List Kv

pub record HashMap : Type 0 where
  pub bucket_num : ℕ
  pub kv_num : ℕ
  pub buckets : ℕ → Bucket

unfoldable pub hash32_create : ℕ → HashMap
hash32_create bucket_num = record {
  bucket_num = bucket_num;
  kv_num = 0;
  buckets = λ i. record { chain_len = 0; kv_chain = [] };
}

-- `!memcmp(p, q, n)` for `n` bytes each.
abbrev pub same_bytes : List ℕ → List ℕ → Bool
same_bytes [] [] = true
same_bytes [] (y ∷ ys) = false
same_bytes (x ∷ xs) [] = false
same_bytes (x ∷ xs) (y ∷ ys) = (x == y) && same_bytes xs ys

-- The test of the loops: the size first.
abbrev pub has_key : List ℕ → Kv → Bool
has_key key kv = (length key == length kv.key) && same_bytes kv.key key

-- The number at the start of a block, little endian.
unfoldable pub le_number : List ℕ → ℕ
le_number [] = 0
le_number (b ∷ bs) = b + 256 * le_number bs

-- `GNB_HASH32_VALUE_PTR`: a pointer that is stored as such, or the first eight bytes read as one.
unfoldable pub value_ptr : Value → ℕ
unfolding le_number
value_ptr (pointer p) = p
value_ptr (bytes b) = le_number (take 8 b)

-- Writing a value into an entry; `none` leaves its block.
unfoldable pub write_value : Value → Kv → Option Kv
write_value value kv =
    if ltb kv.room (value_size value) then none else some (record kv { value = value })

-- The `do` loop of `gnb_hash32_set` and what follows it: whether a key was found, and the chain.
unfoldable pub set_chain : List ℕ → Value → List Kv → Option (Bool × List Kv)
unfolding kv32_create write_value
set_chain key value [] = some (false, kv32_create key value ∷ [])
set_chain key value (kv ∷ chain) =
    let rest = set_chain key value chain in
    if has_key key kv
    then elim (write_value value kv) [ none ↦ none | some kv' ↦ some (true, kv' ∷ chain) ]
    else elim rest [ none ↦ none | some (found, chain') ↦ some (found, kv ∷ chain') ]

unfoldable pub get_chain : List ℕ → List Kv → Option Kv
get_chain key [] = none
get_chain key (kv ∷ chain) =
    let rest = get_chain key chain in if has_key key kv then some kv else rest

-- The `do` loop of `gnb_hash32_del`, behind the head of the chain.
unfoldable pub del_chain : List ℕ → List Kv → Option Kv × List Kv
del_chain key [] = (none, [])
del_chain key (kv ∷ chain) =
    let rest = del_chain key chain in
    if has_key key kv then (some kv, chain) else (rest.0, kv ∷ rest.1)

module _ (murmurhash_hash : List ℕ → ℕ) where
  unfoldable pub bucket_idx : HashMap → List ℕ → ℕ
  bucket_idx m key = murmurhash_hash key % m.bucket_num

  -- The change of `chain_len` and `kv_num` for a new key.
  unfoldable pub put_chain : HashMap → ℕ → Bool × List Kv → HashMap
  put_chain m i (true, chain) = record m {
    buckets = update m.buckets i (record (m.buckets i) { kv_chain = chain });
  }
  put_chain m i (false, chain) = record m {
    kv_num = m.kv_num + 1;
    buckets =
        update m.buckets i (record { chain_len = (m.buckets i).chain_len + 1; kv_chain = chain });
  }

  -- Whether the key was there (the entry is returned) or not (NULL), and the map.
  unfoldable pub hash32_set : List ℕ → Value → HashMap → Option (Bool × HashMap)
  unfolding set_chain bucket_idx put_chain kv32_create
  hash32_set key value m =
      let i = bucket_idx m key in
      elim (m.buckets i).kv_chain [
        | [] ↦ some (
          false,
          record m {
            kv_num = m.kv_num + 1;
            buckets =
                update m.buckets i
                  (record { chain_len = 1; kv_chain = kv32_create key value ∷ [] });
          },
        )
        | kv ∷ chain ↦ elim (set_chain key value (kv ∷ chain)) [
          | none ↦ none
          | some r ↦ some (r.0, put_chain m i r)
        ]
      ]

  unfoldable pub hash32_get : List ℕ → HashMap → Option Kv
  unfolding get_chain bucket_idx
  hash32_get key m = get_chain key (m.buckets (bucket_idx m key)).kv_chain

  -- `after` gives the bytes behind a key: the test of the head of a chain has no test of the size.
  unfoldable pub hash32_del : (Kv → List ℕ) → List ℕ → HashMap → Option Kv × HashMap
  unfolding del_chain bucket_idx
  hash32_del after key m =
      let i = bucket_idx m key in
      let b = m.buckets i in
      elim b.kv_chain [
        | [] ↦ (none, m)
        | kv ∷ chain ↦
            if same_bytes (take (length key) (kv.key ++ after kv)) key
            then (
              some kv,
              record m {
                kv_num = m.kv_num - 1;
                buckets = update m.buckets i (
                    if b.chain_len == 1
                    then record { chain_len = 0; kv_chain = [] }
                    else record { chain_len = b.chain_len - 1; kv_chain = chain });
              },
            )
            else (let (old, rest) = del_chain key chain in
                elim old [
                  | none ↦ (none, m)
                  | some kv' ↦ (
                    some kv',
                    record m {
                      kv_num = m.kv_num - 1;
                      buckets =
                          update m.buckets i
                            (record { chain_len = b.chain_len - 1; kv_chain = kv ∷ rest });
                    },
                  )
                ])
      ]
