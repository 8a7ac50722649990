-- ===== src/Hash32/Map.antt =====
-- src/gnb_hash32.c as a map: a lookup after `gnb_hash32_set`.
use gnb_udp_over_tcp.Prelude.{
  ℕ, ◌+◌, ◌%◌, ◌≡◌, ◌≢◌, refl, ap, ◌∙◌, Bool, true, false, Option, none, some, List, [], ◌∷◌, ◌==◌,
  if◌then◌else◌, length, update, Bool-cases, inl, inr, arith,
}
use gnb_udp_over_tcp.Hash32.{
  Value, value_size, Kv, HashMap, kv32_create, set_chain, get_chain, bucket_idx, put_chain,
  hash32_set, hash32_get,
}
use gnb_udp_over_tcp.Hash32.Chain.{value_of, HaveRoom, grown, set_chain-Stored}

module _ (murmurhash_hash : List ℕ → ℕ) where
  -- The bucket of a key knows its length.
  abbrev pub IsCounted : HashMap → List ℕ → Type 0
  IsCounted m key =
      let b = m.buckets (bucket_idx murmurhash_hash m key) in b.chain_len ≡ length b.kv_chain

  -- What `gnb_hash32_set` does by the chain of the bucket.
  abbrev by_chain : List ℕ → Value → HashMap → ℕ → List Kv → Option (Bool × HashMap)
  by_chain key value m i [] = some (
    false,
    record m {
      kv_num = m.kv_num + 1;
      buckets =
          update m.buckets i (record { chain_len = 1; kv_chain = kv32_create key value ∷ [] });
    },
  )
  by_chain key value m i (kv ∷ chain) = elim (set_chain key value (kv ∷ chain)) [
    | none ↦ none
    | some r ↦ some (r.0, put_chain murmurhash_hash m i r)
  ]

  set-by_chain :
      (key : List ℕ) (value : Value) (m : HashMap) (chain : List Kv)
      → (m.buckets (bucket_idx murmurhash_hash m key)).kv_chain ≡ chain
      → hash32_set murmurhash_hash key value m
        ≡ by_chain key value m (bucket_idx murmurhash_hash m key) chain
  unfolding hash32_set
  set-by_chain key value m [] here = rw (hash32_set, here) refl
  set-by_chain key value m (kv ∷ chain) here = rw (hash32_set, here) refl

  abbrev with_bucket : HashMap → ℕ → ℕ → List Kv → HashMap
  with_bucket m i n chain = record m {
    kv_num = m.kv_num + 1;
    buckets = update m.buckets i (record { chain_len = n; kv_chain = chain });
  }

  -- A new entry in an empty bucket is what the loop would make of it.
  by_chain-put :
      (key : List ℕ) (value : Value) (m : HashMap) (i : ℕ) (chain : List Kv) (r : Bool × List Kv)
      → (m.buckets i).chain_len ≡ length chain
      → set_chain key value chain ≡ some r
      → by_chain key value m i chain ≡ some (r.0, put_chain murmurhash_hash m i r)
  unfolding set_chain put_chain
  by_chain-put key value m i [] r counted e =
      let new = kv32_create key value ∷ [] in
      let first : 1 ≡ (m.buckets i).chain_len + 1 = omega (arith, counted) in
      ap (λ n. some (false, with_bucket m i n new)) first
      ∙ ap (λ o. elim o [ none ↦ none | some r' ↦ some (r'.0, put_chain murmurhash_hash m i r') ]) e
  by_chain-put key value m i (kv ∷ chain) r counted e =
      ap (λ o. elim o [ none ↦ none | some r' ↦ some (r'.0, put_chain murmurhash_hash m i r') ]) e

  pub set-put :
      (key : List ℕ) (value : Value) (m : HashMap) (r : Bool × List Kv)
      → IsCounted m key
      → set_chain key value (m.buckets (bucket_idx murmurhash_hash m key)).kv_chain ≡ some r
      → hash32_set murmurhash_hash key value m
        ≡ some (r.0, put_chain murmurhash_hash m (bucket_idx murmurhash_hash m key) r)
  set-put key value m r counted e =
      set-by_chain key value m _ refl
      ∙ by_chain-put key value m (bucket_idx murmurhash_hash m key) _ r counted e

  pub lookup-put :
      (m : HashMap) (key other : List ℕ) (found : Bool) (chain : List Kv)
      → hash32_get murmurhash_hash other
          (put_chain murmurhash_hash m (bucket_idx murmurhash_hash m key) (found, chain))
        ≡ get_chain other (
            if bucket_idx murmurhash_hash m other == bucket_idx murmurhash_hash m key
            then chain
            else (m.buckets (bucket_idx murmurhash_hash m other)).kv_chain)
  unfolding hash32_get put_chain
  lookup-put m key other true chain =
      elim (Bool-cases
        ((murmurhash_hash other % m.bucket_num) == (murmurhash_hash key % m.bucket_num))) [
          | inl same ↦ rw same refl
          | inr apart ↦ rw apart refl
        ]
  lookup-put m key other false chain =
      elim (Bool-cases
        ((murmurhash_hash other % m.bucket_num) == (murmurhash_hash key % m.bucket_num))) [
          | inl same ↦ rw same refl
          | inr apart ↦ rw apart refl
        ]

  kv_num-put :
      (m : HashMap) (i : ℕ) (found : Bool) (chain : List Kv)
      → (put_chain murmurhash_hash m i (found, chain)).kv_num ≡ grown found m.kv_num
  unfolding put_chain
  kv_num-put m i true chain = refl
  kv_num-put m i false chain = refl

  put-IsCounted :
      (m : HashMap) (key : List ℕ) (found : Bool) (chain : List Kv)
      → IsCounted m key
      → length chain ≡ grown found (length (m.buckets (bucket_idx murmurhash_hash m key)).kv_chain)
      → IsCounted
          (put_chain murmurhash_hash m (bucket_idx murmurhash_hash m key) (found, chain))
          key
  unfolding put_chain bucket_idx
  put-IsCounted m key true chain counted size =
      let i = murmurhash_hash key % m.bucket_num in
      let same : (i == i) ≡ true = ground arith in rw same (omega (arith, counted, size))
  put-IsCounted m key false chain counted size =
      let i = murmurhash_hash key % m.bucket_num in
      let same : (i == i) ≡ true = ground arith in rw same (omega (arith, counted, size))

  get-lookup :
      (m : HashMap) (key : List ℕ)
      → hash32_get murmurhash_hash key m
        ≡ get_chain key (m.buckets (bucket_idx murmurhash_hash m key)).kv_chain
  unfolding hash32_get
  get-lookup m key = refl

  pub set-get :
      (key : List ℕ) (value : Value) (m : HashMap)
      → IsCounted m key
      → HaveRoom (value_size value) (m.buckets (bucket_idx murmurhash_hash m key)).kv_chain
      → (found : Bool) × (m' : HashMap) × (hash32_set murmurhash_hash key value m
          ≡ some (found, m'))
        × (value_of (hash32_get murmurhash_hash key m') ≡ some value)
        × (m'.kv_num ≡ grown found m.kv_num)
        × IsCounted m' key
        × ((other : List ℕ)
            → other ≢ key
            → value_of (hash32_get murmurhash_hash other m')
              ≡ value_of (hash32_get murmurhash_hash other m))
  set-get key value m counted room =
      let i = bucket_idx murmurhash_hash m key in
      let chain = (m.buckets i).kv_chain in
      let ((found, chain'), (e, at, size), rest) = set_chain-Stored key value chain room in
      let self : (i == i) ≡ true = ground arith in
      (
        found,
        put_chain murmurhash_hash m i (found, chain'),
        set-by_chain key value m chain refl
            ∙ by_chain-put key value m i chain (found, chain') counted e,
        rw (lookup-put m key key found chain', self) at,
        kv_num-put m i found chain',
        put-IsCounted m key found chain' counted size,
        λ other ne. elim (Bool-cases (bucket_idx murmurhash_hash m other == i)) [
          | inl shared ↦
              let same : bucket_idx murmurhash_hash m other ≡ i = ground arith in
              rw (lookup-put m key other found chain', get-lookup m other, shared, same)
                (rest other ne)
          | inr apart ↦ rw (lookup-put m key other found chain', get-lookup m other, apart) refl
        ],
      )
