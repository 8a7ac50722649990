-- ===== src/Hash32/Tests.antt =====
-- A chain of two entries, and the map with the length of a key as its hash.
use gnb_udp_over_tcp.Prelude.{length, ℕ, ◌≡◌, ◌≢◌, refl, ap, true, some, List, [], ◌∷◌, arith}
use gnb_udp_over_tcp.Hash32.{pointer, Kv, set_chain, HashMap, hash32_del}
use gnb_udp_over_tcp.Hash32.Lookup.{IsTable, lookup, del_at, del-lookup}

abbrev entry : List ℕ → Kv
entry key = record { key = key; value = pointer 7; room = 8 }

abbrev two : List Kv
two = entry (1 ∷ []) ∷ entry (2 ∷ 3 ∷ []) ∷ []

-- A key that is there gets the new value.
set_chain_runs :
    set_chain (1 ∷ []) (pointer 9) two
    ≡ some (true, record { key = 1 ∷ []; value = pointer 9; room = 8 } ∷ entry (2 ∷ 3 ∷ []) ∷ [])
unfolding set_chain
set_chain_runs = refl

-- Two entries, of which the keys of odd length share a bucket.
abbrev small : HashMap
small = record {
  bucket_num = 2;
  kv_num = 2;
  buckets = λ i. record { chain_len = 1; kv_chain = entry (1 ∷ []) ∷ [] };
}

-- The first byte of a key.
abbrev head : List ℕ → ℕ
head [] = 0
head (x ∷ xs) = x

one_two : ◌≢◌ {A = List ℕ} (2 ∷ []) (1 ∷ [])
one_two e = ground (arith, ap head e)

-- Two keys of one length in a bucket; the one behind the head is deleted.
abbrev table : HashMap
table = record {
  bucket_num = 1;
  kv_num = 2;
  buckets = λ i. record { chain_len = 2; kv_chain = entry (1 ∷ []) ∷ entry (2 ∷ []) ∷ [] };
}

abbrev after_key : Kv → List ℕ
after_key kv = 2 ∷ []

del-lookup_example :
    IsTable 1 (hash32_del length after_key (2 ∷ []) table).1
    × ((other : List ℕ)
        → lookup length other (hash32_del length after_key (2 ∷ []) table).1
          ≡ del_at length (2 ∷ []) table other)
del-lookup_example =
    del-lookup length after_key 1 (2 ∷ []) table
      (λ i. (refl, (refl, omega arith, ((λ e. one_two e), tt), (refl, omega arith, tt, tt)))) refl
