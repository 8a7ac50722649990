-- ===== src/Channels/Full.antt =====
-- The map of channels of src/service/uot_tcp_service.c when it is full, and when its last channel is old.
use gnb_udp_over_tcp.Prelude.{
  ℕ, ◌≡◌, ◌<◌, refl, ap, ◌∙◌, Bool, true, Option, none, some, List, ltb, leb, ◌==◌, if◌then◌else◌,
  length, update, Bool-cases, Option-cases, inl, inr, arith, ◌>>=◌,
}
use gnb_udp_over_tcp.Hash32.{Kv}
use gnb_udp_over_tcp.Lru.{Lru}
use gnb_udp_over_tcp.Lru.Items.{Item, look, last_udata, drop_last, put_item, put_at}
use gnb_udp_over_tcp.Lru.Refine.{Keeps, put-refines}
use gnb_udp_over_tcp.Lru.Pops.{pop_tail-refines, get_tail-refines}
use gnb_udp_over_tcp.Tunnel.{elapsed, keepalive_timeout_sec}
use gnb_udp_over_tcp.Channels.{
  Channel, Service, fd_key, free_channel, end_connections, drop_popped, service_accept_cb,
  drop_tail, service_idle_cb,
}

module _ {W : Type 0} (close release : ℕ → W → W) (murmurhash_hash : List ℕ → ℕ)
    (after : Kv → List ℕ) where
  free-gone : (q : ℕ) (n : Service W) → n.channels q ≡ none → free_channel q n ≡ none
  unfolding free_channel
  free-gone q n gone =
      ap
        (λ (o : Option Channel). o >>= λ c. some (record n { channels = update n.channels q none }))
        gone

  freed : ℕ → Service W → Service W
  freed q n = record n { channels = update n.channels q none }

  free-there :
      (q : ℕ) (c : Channel) (n : Service W)
      → n.channels q ≡ some c
      → free_channel q n ≡ some (freed q n)
  unfolding free_channel freed
  free-there q c n there =
      ap
        (λ (o : Option Channel). o >>= λ c. some (record n { channels = update n.channels q none }))
        there

  freed-gone : (q : ℕ) (n : Service W) → (freed q n).channels q ≡ none
  unfolding freed
  freed-gone q n = let self : (q == q) ≡ true = ground arith in rw self refl

  -- Giving a channel back twice faults, whether it was still there or not.
  drop_popped-fault :
      (q : ℕ) (n : Service W) → drop_popped close release murmurhash_hash after q n ≡ none
  unfolding drop_popped end_connections
  drop_popped-fault q n =
      let go = λ (c : Channel).
        free_channel q (end_connections close release murmurhash_hash after c n) >>= λ n'.
        free_channel q n' in
      elim (Option-cases (n.channels q)) [
        | inl gone ↦ ap (λ (o : Option Channel). o >>= go) gone
        | inr (c, there) ↦
            let n₁ = end_connections close release murmurhash_hash after c n in
            ap (λ (o : Option Channel). o >>= go) there
            ∙ ap (λ (o : Option (Service W)). o >>= λ n'. free_channel q n')
                (free-there q c n₁ there)
            ∙ free-gone q (freed q n₁) (freed-gone q n₁)
      ]

  -- For a service whose map of channels is full and holds no channel for the new descriptor:
  -- service_accept_cb ends in a fault, since it gives the memory of the channel that is pushed out
  -- back and then once more.
  pub accept-full-fault :
      (open_udp : ℕ → W → W) (p udp tcp fd max_size q : ℕ) (n : Service W) (items : List Item)
      → Keeps murmurhash_hash 4 max_size n.channel_lru items
      → 0 < max_size
      → length items ≡ max_size
      → look (fd_key fd) items ≡ none
      → last_udata items ≡ some q
      → service_accept_cb close release murmurhash_hash after open_udp p udp tcp fd n ≡ none
  unfolding service_accept_cb fd_key
  accept-full-fault open_udp p udp tcp fd max_size q n items k pos full new last =
      let (l', puts, k') =
        put-refines murmurhash_hash after 4 max_size (fd_key fd) (some p) n.channel_lru items k refl
          pos in
      let test : leb max_size (length items) ≡ true = ground (arith, full) in
      let popped : (put_item max_size (fd_key fd) (some p) items).0 ≡ some q =
        ap (λ o. (put_at max_size (fd_key fd) (some p) items o).0) new ∙ rw test last in
      let new_channel : Channel = record {
        tcp_conn = tcp;
        udp_conn = udp;
        keepalive_ts_sec = n.now_time_sec;
      } in
      let n₁ = λ (lru : Lru). record n {
        channel_lru = lru;
        channels = update n.channels p (some new_channel);
        world = open_udp udp n.world;
      } in
      let dropped : Option ℕ → Lru → Option (Service W) = λ o lru. elim o [
        | none ↦ some (n₁ lru)
        | some q ↦ drop_popped close release murmurhash_hash after q (n₁ lru)
      ] in
      ap (λ (o : Option (Option ℕ × Lru)). o >>= λ (o, lru). dropped o lru) puts
      ∙ ap (λ o. dropped o l') popped
      ∙ drop_popped-fault q (n₁ l')

  timed_out : Service W → Channel → Bool
  timed_out n c = ltb keepalive_timeout_sec (elapsed n.now_time_sec c.keepalive_ts_sec)

  -- For a service whose map of channels ends with a channel that is in memory: service_idle_cb
  -- returns; where the last sign of life of that channel is more than 15 seconds ago the channel
  -- leaves the map and its memory is given back, else the map and the channel stay.
  pub idle-drops_tail :
      (max_size p : ℕ) (c : Channel) (n : Service W) (items : List Item)
      → Keeps murmurhash_hash 4 max_size n.channel_lru items
      → last_udata items ≡ some p
      → n.channels p ≡ some c
      → let old = ltb keepalive_timeout_sec (elapsed n.now_time_sec c.keepalive_ts_sec) in
        (n' : Service W) × (service_idle_cb close release murmurhash_hash after n ≡ some n')
        × Keeps murmurhash_hash 4 max_size n'.channel_lru (if old then drop_last items else items)
        × (n'.channels p ≡ (if old then none else some c))
  unfolding service_idle_cb drop_tail end_connections freed
  idle-drops_tail max_size p c n items k last there =
      let tail = get_tail-refines murmurhash_hash after 4 max_size n.channel_lru items k ∙ last in
      let (l', pops, k') =
        pop_tail-refines murmurhash_hash after 4 max_size n.channel_lru items k in
      let n₁ =
        end_connections close release murmurhash_hash after c (record n { channel_lru = l' }) in
      let drops : drop_tail close release murmurhash_hash after n ≡ some (freed p n₁) =
        ap
          (λ (o : Option (Option ℕ × Lru)). o >>= λ r. r.0 >>= λ p. n.channels p >>= λ c.
            free_channel p (
              end_connections close release murmurhash_hash after c
                (record n { channel_lru = r.1 })))
          pops
        ∙ ap
            (λ (o : Option ℕ). o >>= λ p. n.channels p >>= λ c. free_channel p (
              end_connections close release murmurhash_hash after c
                (record n { channel_lru = l' })))
            last
        ∙ ap
            (λ (o : Option Channel). o >>= λ c. free_channel p (
              end_connections close release murmurhash_hash after c
                (record n { channel_lru = l' })))
            there
        ∙ free-there p c n₁ there in
      let look_at = λ (c : Channel).
        if ltb keepalive_timeout_sec (elapsed n.now_time_sec c.keepalive_ts_sec)
        then drop_tail close release murmurhash_hash after n
        else some n in
      let start : service_idle_cb close release murmurhash_hash after n ≡ look_at c =
        ap (λ (o : Option ℕ). elim o [ none ↦ some n | some p ↦ n.channels p >>= look_at ]) tail
        ∙ ap (λ (o : Option Channel). o >>= look_at) there in
      elim (Bool-cases (ltb keepalive_timeout_sec (elapsed n.now_time_sec c.keepalive_ts_sec))) [
        | inl old ↦ rw old (freed p n₁, start ∙ rw old drops, k', freed-gone p n₁)
        | inr young ↦ rw young (n, start ∙ rw young refl, k, there)
      ]
