-- ===== src/Hash32/Lookup.antt =====
-- src/gnb_hash32.c as a table from keys of one length to pointers: the laws of a lookup after
-- `gnb_hash32_set` and `gnb_hash32_del`.
use gnb_udp_over_tcp.Prelude.{
  ℕ, ◌+◌, ◌-◌, ◌%◌, ◌≡◌, refl, ap, ◌∙◌, sym, subst, Bool, true, false, Option, none, some, List, [],
  ◌∷◌, ◌++◌, ◌==◌, if◌then◌else◌, length, take, take-append, update, Bool-cases, Option-cases, inl,
  inr, arith,
}
use gnb_udp_over_tcp.Hash32.{
  Value, pointer, Kv, Bucket, HashMap, same_bytes, has_key, get_chain, del_chain, bucket_idx,
  put_chain, hash32_set, hash32_get, hash32_del, hash32_create, value_ptr,
}
use gnb_udp_over_tcp.Hash32.Chain.{value_of, HaveRoom, set_chain-Stored, same_bytes_eq}
use gnb_udp_over_tcp.Hash32.Map.{set-put, set-get}
use gnb_udp_over_tcp.Hash32.Keys.{
  WellKeyed, with_key, set_chain-with_key, with_key-WellKeyed, del_chain-WellKeyed, del_chain-none,
  length-del_chain, get_chain-del_chain, differ,
}

abbrev pub ptr : Option Value → Option ℕ
ptr none = none
ptr (some v) = some (value_ptr v)

-- Each bucket knows its length, and has keys of `n` bytes, each once.
abbrev pub IsTable : ℕ → HashMap → Type 0
IsTable n m =
    (i : ℕ)
    → ((m.buckets i).chain_len ≡ length (m.buckets i).kv_chain) × WellKeyed n (m.buckets i).kv_chain

WellKeyed-HaveRoom : (n : ℕ) (chain : List Kv) → WellKeyed n chain → HaveRoom 8 chain
WellKeyed-HaveRoom n [] w = tt
WellKeyed-HaveRoom n (kv ∷ chain) (len, room, out, w) = (room, WellKeyed-HaveRoom n chain w)

pub create-IsTable : (n k : ℕ) → IsTable n (hash32_create k)
unfolding hash32_create
create-IsTable n k i = (refl, tt)

module _ (murmurhash_hash : List ℕ → ℕ) where
  abbrev pub lookup : List ℕ → HashMap → Option ℕ
  lookup key m = ptr (value_of (hash32_get murmurhash_hash key m))

  pub create-lookup : (k : ℕ) (key : List ℕ) → lookup key (hash32_create k) ≡ none
  unfolding hash32_create hash32_get
  create-lookup k key = refl

  put-IsTable :
      (n : ℕ) (m : HashMap) (i : ℕ) (found : Bool) (chain : List Kv)
      → IsTable n m
      → WellKeyed n chain
      → length chain
        ≡ (if found then length (m.buckets i).kv_chain else length (m.buckets i).kv_chain + 1)
      → IsTable n (put_chain murmurhash_hash m i (found, chain))
  unfolding put_chain
  put-IsTable n m i true chain t w size j = elim (Bool-cases (j == i)) [
    | inl here ↦ rw here (omega (arith, (t i).0), w)
    | inr away ↦ rw away (t j)
  ]
  put-IsTable n m i false chain t w size j = elim (Bool-cases (j == i)) [
    | inl here ↦ rw here (omega (arith, (t i).0), w)
    | inr away ↦ rw away (t j)
  ]

  abbrev pub set_at : List ℕ → ℕ → HashMap → List ℕ → Option ℕ
  set_at key p m other = if same_bytes other key then some p else lookup other m

  -- `gnb_hash32_set` of a pointer: the key finds it, other keys find what they found.
  pub set-lookup :
      (n p : ℕ) (key : List ℕ) (m : HashMap)
      → IsTable n m
      → length key ≡ n
      → (found : Bool) × (m' : HashMap) × (hash32_set murmurhash_hash key (pointer p) m
          ≡ some (found, m'))
        × IsTable n m'
        × ((other : List ℕ) → lookup other m' ≡ set_at key p m other)
  unfolding value_ptr
  set-lookup n p key m t len =
      let i = bucket_idx murmurhash_hash m key in
      let chain = (m.buckets i).kv_chain in
      let (counted, w) = t i in
      let ((found, chain'), (e, at, size), rest) =
        set_chain-Stored key (pointer p) chain (WellKeyed-HaveRoom n chain w) in
      let (found', e') = set_chain-with_key n p key chain w in
      let made : chain' ≡ with_key key (pointer p) chain =
        ap (λ (o : Option (Bool × List Kv)). elim o [ none ↦ [] | some r ↦ r.1 ]) (sym e ∙ e') in
      let w' : WellKeyed n chain' = rw made (with_key-WellKeyed n p key chain len w) in
      let t' = put-IsTable n m i found chain' t w' size in
      let (found₂, m', returns, at', num, c, rest') =
        set-get murmurhash_hash key (pointer p) m counted (WellKeyed-HaveRoom n chain w) in
      let same : put_chain murmurhash_hash m i (found, chain') ≡ m' =
        ap (λ (o : Option (Bool × HashMap)). elim o [ none ↦ m | some r ↦ r.1 ])
          (sym (set-put murmurhash_hash key (pointer p) m (found, chain') counted e) ∙ returns) in
      (
        found₂,
        m',
        returns,
        subst (IsTable n) same t',
        λ other. elim (Bool-cases (same_bytes other key)) [
          | inl equal ↦
              rw equal (ap (λ k. lookup k m') (same_bytes_eq other key equal) ∙ ap ptr at')
          | inr apart ↦ rw apart (ap ptr (rest' other (differ other key apart)))
        ],
      )

  -- What `gnb_hash32_del` does by the chain of the bucket, for keys of one length.
  abbrev pub del_at : List ℕ → HashMap → List ℕ → Option ℕ
  del_at key m other = if same_bytes other key then none else lookup other m

  head_test :
      (n : ℕ) (key : List ℕ) (kv : Kv) (after : List ℕ)
      → length key ≡ n
      → length kv.key ≡ n
      → same_bytes (take (length key) (kv.key ++ after)) key ≡ has_key key kv
  head_test n key kv after len len' =
      let same : (length key == length kv.key) ≡ true = ground arith in
      ap (λ k. same_bytes k key) (take-append kv.key after (length key) (omega arith))
      ∙ rw same refl

  -- The buckets after `gnb_hash32_del`.
  abbrev row : List ℕ → HashMap → List Kv → ℕ → Bucket
  row key m chain j =
      let rest = (del_chain key chain).1 in
      if j == bucket_idx murmurhash_hash m key
      then record { chain_len = length rest; kv_chain = rest }
      else m.buckets j

  bucket_path :
      (b : Bucket) (chain : List Kv)
      → b.chain_len ≡ length chain
      → b.kv_chain ≡ chain
      → b ≡ record { chain_len = length chain; kv_chain = chain }
  bucket_path b chain p q = λ z. record { chain_len = p z; kv_chain = q z }

  same_row :
      (i j : ℕ) (m : HashMap) (chain chain' : List Kv)
      → (m.buckets i).chain_len ≡ length chain
      → (m.buckets i).kv_chain ≡ chain
      → chain ≡ chain'
      → m.buckets j
        ≡ (if j == i then record { chain_len = length chain'; kv_chain = chain' } else m.buckets j)
  same_row i j m chain chain' counted here same = elim (Bool-cases (j == i)) [
    | inl at ↦
        let e : j ≡ i = ground arith in
        rw at (
          ap m.buckets e
          ∙ bucket_path (m.buckets i) chain counted here
          ∙ ap (λ c. record { chain_len = length c; kv_chain = c }) same)
    | inr away ↦ rw away refl
  ]

  -- The bucket whose head goes.
  head_gone :
      (n : ℕ) (kv : Kv) (chain : List Kv)
      → n ≡ length (kv ∷ chain)
      → ◌≡◌ {A = Bucket}
          (if n == 1
            then record { chain_len = 0; kv_chain = [] }
            else record { chain_len = n - 1; kv_chain = chain })
          (record { chain_len = length chain; kv_chain = chain })
  head_gone n kv [] e = rw e refl
  head_gone n kv (x ∷ chain) e =
      let test : (n == 1) ≡ false = ground arith in
      rw test (ap (λ k. record { chain_len = k; kv_chain = x ∷ chain }) (omega arith))

  del-row :
      (after : Kv → List ℕ) (n : ℕ) (key : List ℕ) (m : HashMap) (chain : List Kv) (j : ℕ)
      → (m.buckets (bucket_idx murmurhash_hash m key)).kv_chain ≡ chain
      → (m.buckets (bucket_idx murmurhash_hash m key)).chain_len ≡ length chain
      → WellKeyed n chain
      → length key ≡ n
      → let m' = (hash32_del murmurhash_hash after key m).1 in
        (m'.bucket_num ≡ m.bucket_num) × (m'.buckets j ≡ row key m chain j)
  unfolding hash32_del del_chain
  del-row after n key m [] j here counted w len =
      rw (hash32_del, here) (refl, same_row _ j m [] [] counted here refl)
  del-row after n key m (kv ∷ chain) j here counted (len', room, out, w) len =
      let test = head_test n key kv (after kv) len len' in
      elim (Bool-cases (has_key key kv)) [
        | inl hit ↦
            rw (hash32_del, here, test, hit)
              (
                refl,
                ap (λ b. update m.buckets (bucket_idx murmurhash_hash m key) b j)
                    (head_gone _ kv chain counted),
              )
        | inr miss ↦ elim (Option-cases (del_chain key chain).0) [
          | inl gone ↦
              rw (hash32_del, here, test, miss, gone)
                (
                  refl,
                  same_row _ j m (kv ∷ chain) (kv ∷ (del_chain key chain).1) counted here
                      (ap (λ c. kv ∷ c) (sym (del_chain-none key chain gone))),
                )
          | inr (kv', found) ↦
              rw (hash32_del, here, test, miss, found)
                (
                  refl,
                  ap
                      (λ k.
                        update m.buckets (bucket_idx murmurhash_hash m key)
                          (record { chain_len = k; kv_chain = kv ∷ (del_chain key chain).1 }) j)
                      (omega (arith, counted, length-del_chain key chain kv' found)),
                )
        ]
      ]

  abbrev IsGood : ℕ → Bucket → Type 0
  IsGood n b = (b.chain_len ≡ length b.kv_chain) × WellKeyed n b.kv_chain

  choose :
      (c : Bool) (o : Option Kv)
      → ptr (value_of (if c then none else o)) ≡ (if c then none else ptr (value_of o))
  choose true o = refl
  choose false o = refl

  -- For any hash function, a map whose entries have keys of n bytes and room for a pointer, each
  -- key at most once in its bucket, and whose buckets know their lengths, and a key of n bytes:
  -- after gnb_hash32_del gnb_hash32_get does not find the key and finds of any other key what it
  -- found before, and the map is of that kind again, whatever bytes stand behind the keys in
  -- memory.
  pub del-lookup :
      (after : Kv → List ℕ) (n : ℕ) (key : List ℕ) (m : HashMap)
      → IsTable n m
      → length key ≡ n
      → let m' = (hash32_del murmurhash_hash after key m).1 in
        IsTable n m' × ((other : List ℕ) → lookup other m' ≡ del_at key m other)
  unfolding hash32_get
  del-lookup after n key m t len =
      let i = bucket_idx murmurhash_hash m key in
      let chain = (m.buckets i).kv_chain in
      let (counted, w) = t i in
      let m' = (hash32_del murmurhash_hash after key m).1 in
      let rows : (j : ℕ) → (m'.bucket_num ≡ m.bucket_num) × (m'.buckets j ≡ row key m chain j) =
        λ j. del-row after n key m chain j refl counted w len in
      let J = λ (other : List ℕ). murmurhash_hash other % m.bucket_num in
      let found : (other : List ℕ)
          → lookup other m'
            ≡ ptr (value_of (get_chain other (row key m chain (J other)).kv_chain)) =
        λ other.
          ap
            (λ k.
              ptr (value_of (get_chain other (m'.buckets (murmurhash_hash other % k)).kv_chain)))
            (rows 0).0
          ∙ ap (λ b. ptr (value_of (get_chain other b.kv_chain))) (rows (J other)).1 in
      (
        λ j. subst (IsGood n) (sym (rows j).1) (elim (Bool-cases (j == i)) [
          | inl at ↦ rw at (refl, del_chain-WellKeyed n key chain w)
          | inr away ↦ rw away (t j)
        ]),
        λ other. found other ∙ elim (Bool-cases (J other == i)) [
          | inl at ↦
              let e : J other ≡ i = ground arith in
              rw at (
                ap (λ o. ptr (value_of o)) (get_chain-del_chain n key other chain w)
                ∙ choose (same_bytes other key) (get_chain other chain)
                ∙ ap
                    (λ k.
                      if same_bytes other key
                      then none
                      else ptr (value_of (get_chain other (m.buckets k).kv_chain)))
                    (sym e))
          | inr away ↦ rw away (elim (Bool-cases (same_bytes other key)) [
            | inl equal ↦ let e : J other ≡ i = ap J (same_bytes_eq other key equal) in ground arith
            | inr apart ↦ rw apart refl
          ])
        ],
      )
