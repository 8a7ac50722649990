-- ===== src/Lru/Sample.antt =====
-- A fresh map of two entries for src/gnb_lru32.c, in memory without content.
use gnb_udp_over_tcp.Prelude.{ℕ, Option, none, some, List, []}
use gnb_udp_over_tcp.DoublyLinked
use gnb_udp_over_tcp.FixedPool.{Pool}
use gnb_udp_over_tcp.Hash32.{Kv}
use gnb_udp_over_tcp.Lru.{LruNode, Lru, lru32_create}
use gnb_udp_over_tcp.Lru.Runs.{Answer}

abbrev pub no_links : ℕ → Option ℕ
no_links p = none

abbrev pub no_nodes : ℕ → LruNode
no_nodes p = record { dl_node = none; kv = none; udata = none }

abbrev pub no_memory : ℕ → List ℕ
no_memory p = []

abbrev pub no_pool : Pool
no_pool = record { num = 0; bsize = 0; block = 0; block_len = 0; array_len = 0; array = [] }

abbrev pub after_key : Kv → List ℕ
after_key kv = []

abbrev pub empty : ℕ → Lru
empty block_size =
    lru32_create 1000 2000 3000 2 block_size (DoublyLinked.create no_links no_links no_links)
      no_pool no_nodes no_memory

abbrev pub state_of : Option (List Answer × Lru) → Lru
state_of none = empty 0
state_of (some r) = r.1
