-- ===== src/Hash32/Arrays.antt =====
-- src/gnb_hash32.c: `gnb_hash32_store` and the arrays of the entries and of their keys. `none` is an
-- access through NULL, to released memory or behind the array.
use gnb_udp_over_tcp.Prelude.{
  ℕ, zero, suc, ◌+◌, Option, none, some, List, [], ◌∷◌, ◌++◌, map, ltb, ◌==◌, if◌then◌else◌, length,
  take, update, ◌>>=◌,
}
use gnb_udp_over_tcp.Hash32.{Value, Kv, HashMap, has_key, kv32_create, bucket_idx, le_number}

-- The loop behind the head and what follows it: the entry of the key and those behind it are cut off,
-- and a new entry stands at the end.
unfoldable pub store_chain : List ℕ → Value → List Kv → List Kv
unfolding kv32_create
store_chain key value [] = kv32_create key value ∷ []
store_chain key value (kv ∷ chain) =
    let rest = store_chain key value chain in
    if has_key key kv then kv32_create key value ∷ [] else kv ∷ rest

-- For an entry at the head, the new one is linked to the released one.
unfoldable pub hash32_store : (List ℕ → ℕ) → List ℕ → Value → HashMap → Option HashMap
unfolding kv32_create bucket_idx store_chain
hash32_store murmurhash_hash key value m =
    let i = bucket_idx murmurhash_hash m key in
    elim (m.buckets i).kv_chain [
      | [] ↦ some (record m {
        kv_num = m.kv_num + 1;
        buckets =
            update m.buckets i (record { chain_len = 1; kv_chain = kv32_create key value ∷ [] });
      })
      | kv ∷ chain ↦
          if has_key key kv
          then none
          else some (record m {
            kv_num = m.kv_num + 1;
            buckets = update m.buckets i (record {
              chain_len = (m.buckets i).chain_len + 1;
              kv_chain = kv ∷ store_chain key value chain;
            });
          })
    ]

-- `for (j=0; j<bucket->chain_len; j++)`
unfoldable pub first_entries : ℕ → List Kv → Option (List Kv)
first_entries zero chain = some []
first_entries (suc n) [] = none
first_entries (suc n) (kv ∷ chain) = first_entries n chain >>= λ rest. some (kv ∷ rest)

-- The entries of `n` buckets from `i` on.
unfoldable pub bucket_entries : HashMap → ℕ → ℕ → Option (List Kv)
unfolding first_entries
bucket_entries m zero i = some []
bucket_entries m (suc n) i =
    let b = m.buckets i in
    first_entries b.chain_len b.kv_chain >>= λ row.
    bucket_entries m n (i + 1) >>= λ rest. some (row ++ rest)

-- What the four functions share: the array and the new `*num`.
unfoldable pub hash32_list {ℓ} : {A : Type ℓ} → (Kv → A) → ℕ → HashMap → Option (List A × ℕ)
unfolding bucket_entries
hash32_list field num m =
    if m.kv_num == 0
    then some ([], 0)
    else (let room = if ltb m.kv_num num then m.kv_num else num in
        bucket_entries m m.bucket_num 0 >>= λ entries.
        if ltb room (length entries) then none else some (map field entries, room))

unfoldable pub hash32_array : ℕ → HashMap → Option (List Kv × ℕ)
unfolding hash32_list
hash32_array num m = hash32_list (λ kv. kv) num m

-- Keys of at least four or eight bytes, read as numbers.
unfoldable pub hash32_uint32_keys : ℕ → HashMap → Option (List ℕ × ℕ)
unfolding hash32_list le_number
hash32_uint32_keys num m = hash32_list (λ kv. le_number (take 4 kv.key)) num m

unfoldable pub hash32_uint64_keys : ℕ → HashMap → Option (List ℕ × ℕ)
unfolding hash32_list le_number
hash32_uint64_keys num m = hash32_list (λ kv. le_number (take 8 kv.key)) num m

unfoldable pub hash32_string_keys : ℕ → HashMap → Option (List (List ℕ) × ℕ)
unfolding hash32_list
hash32_string_keys num m = hash32_list (λ kv. kv.key) num m
