-- ===== src/Lru/Tests.antt =====
-- A map of two entries, in memory without content, with the length of a key as its hash, so that the keys share a bucket.
use gnb_udp_over_tcp.Prelude.{◌≡◌, refl, sym, subst, some, List, [], ◌∷◌, length, arith}
use gnb_udp_over_tcp.Lru.{Lru, lru32_put}
use gnb_udp_over_tcp.Lru.Sample.{no_links, no_nodes, no_memory, no_pool, after_key, empty, state_of}
use gnb_udp_over_tcp.Lru.Items.{Item}
use gnb_udp_over_tcp.Lru.Refine.{Keeps, put-refines}
use gnb_udp_over_tcp.Lru.Runs.{
  Call, call_get, call_put, call_pop_by_key, call_pop_head, call_pop_tail, run, create-run,
}

abbrev two_puts : List Call
two_puts = call_put (1 ∷ []) (some 7) ∷ call_put (2 ∷ []) (some 8) ∷ []

abbrev two : Lru
two = state_of (run length after_key two_puts (empty 0))

abbrev two_items : List Item
two_items = record { key = 2 ∷ []; udata = some 8 } ∷ record { key = 1 ∷ []; udata = some 7 } ∷ []

two-Keeps : Keeps length 1 2 two two_items
two-Keeps =
    let (l, runs, k) =
      create-run length no_links no_links no_links no_pool no_nodes no_memory after_key 1 2 0 1000
        2000 3000 two_puts (omega arith) (omega arith) (omega arith) (omega arith) (omega arith)
        (refl, (refl, tt)) in
    subst (λ o. Keeps length 1 2 (state_of o) two_items) (sym runs) k

-- The entry of the key 1 is pushed out.
put-refines_example :
    (l' : Lru) × (lru32_put length after_key (3 ∷ []) (some 9) two ≡ some (some 7, l'))
    × Keeps length 1 2 l'
        (record { key = 3 ∷ []; udata = some 9 } ∷ record { key = 2 ∷ []; udata = some 8 } ∷ [])
put-refines_example =
    put-refines length after_key 1 2 (3 ∷ []) (some 9) two two_items two-Keeps refl (omega arith)

abbrev calls : List Call
calls =
    call_put (1 ∷ []) (some 7)
    ∷ call_put (2 ∷ []) (some 8)
    ∷ call_put (3 ∷ []) (some 9)
    ∷ call_get (1 ∷ [])
    ∷ call_get (2 ∷ [])
    ∷ call_pop_by_key (3 ∷ [])
    ∷ call_pop_tail
    ∷ call_pop_head
    ∷ []
