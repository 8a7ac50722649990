-- ===== src/Channels.antt =====
-- src/service/uot_tcp_service.c: the channels of the TCP side in their LRU map, by the descriptor of
-- the TCP connection. A channel is its address, and `none` as a result is a fault: an access through
-- NULL or to memory that was given back. The pointers from the connections back to their channel and
-- its payload context are left out.
pub mod Full
mod Tests
use gnb_udp_over_tcp.Prelude.{
  ℕ, zero, suc, ◌+◌, ◌*◌, ◌/◌, ◌%◌, Option, none, some, List, [], ◌∷◌, ltb, ◌==◌, if◌then◌else◌,
  update, ◌>>=◌,
}
use gnb_udp_over_tcp.DoublyLinked.{DList}
use gnb_udp_over_tcp.FixedPool.{Pool}
use gnb_udp_over_tcp.Hash32.{Kv}
use gnb_udp_over_tcp.Lru.{
  LruNode, Lru, lru32_create, lru32_put, lru32_pop_by_key, lru32_get_tail, lru32_pop_tail,
}
use gnb_udp_over_tcp.Tunnel.{elapsed, keepalive_timeout_sec}

-- The connections by the addresses of their memory.
pub record Channel : Type 0 where
  pub tcp_conn : ℕ
  pub udp_conn : ℕ
  pub keepalive_ts_sec : ℕ

-- `channels` is the memory of the channels: `none` was given back.
pub record Service (W : Type 0) : Type 0 where
  pub channel_lru : Lru
  pub channels : ℕ → Option Channel
  pub now_time_sec : ℕ
  pub world : W

-- The four bytes of a descriptor in memory.
unfoldable pub fd_key : ℕ → List ℕ
fd_key fd = fd % 256 ∷ fd / 256 % 256 ∷ fd / 65536 % 256 ∷ fd / 16777216 % 256 ∷ []

abbrev pub max_channels : ℕ
max_channels = 1024

-- `gnb_lru32_create(service->heap, 1024, sizeof(uot_channel_t))`
unfoldable pub channel_map :
    (udata_block dl_block node_block channel_size : ℕ)
    → DList
    → Pool
    → (ℕ → LruNode)
    → (ℕ → List ℕ)
    → Lru
unfolding lru32_create
channel_map udata_block dl_block node_block channel_size list unset nodes memory =
    lru32_create udata_block dl_block node_block max_channels channel_size list unset nodes memory

-- `gnb_heap_free` of a channel.
unfoldable pub free_channel : {W : Type 0} → ℕ → Service W → Option (Service W)
free_channel p n = n.channels p >>= λ c. some (record n { channels = update n.channels p none })

-- `close` stands for `gnb_connection_close` and `release` for `gnb_connection_release`.
module _ {W : Type 0} (close release : ℕ → W → W) (murmurhash_hash : List ℕ → ℕ)
    (after : Kv → List ℕ) where
  -- Both connections of a channel.
  unfoldable pub end_connections : Channel → Service W → Service W
  end_connections c n = record n {
    world = release c.tcp_conn (release c.udp_conn (close c.udp_conn (close c.tcp_conn n.world)));
  }

  -- The channel that left the map is given back twice.
  unfoldable pub drop_popped : ℕ → Service W → Option (Service W)
  unfolding end_connections free_channel
  drop_popped p n =
      n.channels p >>= λ c. free_channel p (end_connections c n) >>= λ n'. free_channel p n'

  -- `p` and `udp` are what the heap returns for the channel and for its UDP connection; `open_udp`
  -- stands for `gnb_connection_create` and `gnb_network_service_udp_channel`. `fd` is the descriptor
  -- of `tcp`.
  unfoldable pub service_accept_cb :
      (open_udp : ℕ → W → W) → (p udp tcp fd : ℕ) → Service W → Option (Service W)
  unfolding lru32_put fd_key drop_popped
  service_accept_cb open_udp p udp tcp fd n =
      let c : Channel = record {
        tcp_conn = tcp;
        udp_conn = udp;
        keepalive_ts_sec = n.now_time_sec;
      } in
      lru32_put murmurhash_hash after (fd_key fd) (some p) n.channel_lru >>= λ (popped, lru).
      let n₁ = record n {
        channel_lru = lru;
        channels = update n.channels p (some c);
        world = open_udp udp n.world;
      } in
      elim popped [ none ↦ some n₁ | some q ↦ drop_popped q n₁ ]

  -- `p` is the channel of the connection, `conn->udata`.
  unfoldable pub service_close_cb : (p tcp fd : ℕ) → Service W → Option (Service W)
  unfolding lru32_pop_by_key fd_key free_channel
  service_close_cb p tcp fd n = do
    r ← lru32_pop_by_key murmurhash_hash after (fd_key fd) n.channel_lru
    c ← n.channels p
    free_channel p (record n {
      channel_lru = r.1;
      world = release tcp (release c.udp_conn (close c.udp_conn n.world));
    })

  -- After a timeout of the channel at the tail.
  unfoldable pub drop_tail : Service W → Option (Service W)
  unfolding lru32_pop_tail end_connections free_channel
  drop_tail n = do
    r ← lru32_pop_tail murmurhash_hash after n.channel_lru
    p ← r.0
    c ← n.channels p
    free_channel p (end_connections c (record n { channel_lru = r.1 }))

  unfoldable pub service_idle_cb : Service W → Option (Service W)
  unfolding lru32_get_tail drop_tail elapsed
  service_idle_cb n = elim (lru32_get_tail n.channel_lru) [
    | none ↦ some n
    | some p ↦ n.channels p >>= λ c.
        if ltb keepalive_timeout_sec (elapsed n.now_time_sec c.keepalive_ts_sec)
        then drop_tail n
        else some n
  ]
