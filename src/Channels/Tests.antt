-- ===== src/Channels/Tests.antt =====
-- Two channels, of the descriptors 5 and 6, fill a map of two; the channel of 5 is the older one.
use gnb_udp_over_tcp.Prelude.{
  ℕ, ◌≡◌, ◌==◌, refl, sym, subst, none, some, List, [], ◌∷◌, if◌then◌else◌, length, arith,
}
use gnb_udp_over_tcp.Lru.{Lru}
use gnb_udp_over_tcp.Lru.Items.{Item, drop_last}
use gnb_udp_over_tcp.Lru.Refine.{Keeps}
use gnb_udp_over_tcp.Lru.Runs.{Call, call_put, run, create-run}
use gnb_udp_over_tcp.Lru.Sample.{no_links, no_nodes, no_memory, no_pool, after_key, empty, state_of}
use gnb_udp_over_tcp.Channels.{Channel, Service, fd_key, service_accept_cb, service_idle_cb}
use gnb_udp_over_tcp.Channels.Full.{accept-full-fault, idle-drops_tail}

abbrev key : ℕ → List ℕ
key fd = fd ∷ 0 ∷ 0 ∷ 0 ∷ []

abbrev two_puts : List Call
two_puts = call_put (key 5) (some 500) ∷ call_put (key 6) (some 600) ∷ []

abbrev two : Lru
two = state_of (run length after_key two_puts (empty 48))

abbrev two_items : List Item
two_items = record { key = key 6; udata = some 600 } ∷ record { key = key 5; udata = some 500 } ∷ []

two-Keeps : Keeps length 4 2 two two_items
two-Keeps =
    let (l, runs, k) =
      create-run length no_links no_links no_links no_pool no_nodes no_memory after_key 4 2 48 1000
        2000 3000 two_puts (omega arith) (omega arith) (omega arith) (omega arith) (omega arith)
        (refl, (refl, tt)) in
    subst (λ o. Keeps length 4 2 (state_of o) two_items) (sym runs) k

abbrev first_channel : Channel
first_channel = record { tcp_conn = 51; udp_conn = 52; keepalive_ts_sec = 100 }

abbrev service : Service (List ℕ)
service = record {
  channel_lru = two;
  channels = λ p. if p == 500 then some first_channel else none;
  now_time_sec = 116;
  world = [];
}

abbrev log : ℕ → List ℕ → List ℕ
log p w = p ∷ w

accept-full-fault_example :
    service_accept_cb log log length after_key log 700 72 71 7 service ≡ none
unfolding fd_key
accept-full-fault_example =
    accept-full-fault log log length after_key log 700 72 71 7 2 500 service two_items two-Keeps
      (omega arith) refl refl refl

idle-drops_tail_example :
    (n' : Service (List ℕ)) × (service_idle_cb log log length after_key service ≡ some n')
    × Keeps length 4 2 n'.channel_lru (drop_last two_items)
    × (n'.channels 500 ≡ none)
unfolding service_idle_cb
idle-drops_tail_example =
    idle-drops_tail log log length after_key 2 500 first_channel service two_items two-Keeps refl
      refl
