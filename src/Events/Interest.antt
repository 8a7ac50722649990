-- ===== src/Events/Interest.antt =====
-- src/event/epoll_event_handler.c: what the handler asks of the kernel, and its pool of blocks.
use gnb_udp_over_tcp.Prelude.{
  ℕ, ◌<◌, ◌≡◌, refl, sym, ap, ◌∙◌, Bool, true, false, ◌||◌, Option, none, some, List, [], ◌∷◌, ◌++◌,
  ◌==◌, if◌then◌else◌, length, length-append, update, arith, update_self,
}
use gnb_udp_over_tcp.FixedPool.{Pool}
use gnb_udp_over_tcp.FixedPool
use gnb_udp_over_tcp.FixedPool.Stack.{Holds, pop-last, push-snoc}
use gnb_udp_over_tcp.Network.{type_read, type_write, has_bit, with_bit}
use gnb_udp_over_tcp.Events.{GnbEvent, EventOp, op_enable, op_disable, op_other}
use gnb_udp_over_tcp.Events.Epoll.{
  EpollEvent, EpollCtx, CtlOp, ctl_add, ctl_mod, epoll_in, epoll_out, epoll_rdhup, without_bit,
  add_mask, set_mask, epoll_add, epoll_set, epoll_del,
}

-- Whether a test holds after an operation that turns it on or off for the chosen events.
abbrev switched : EventOp → Bool → Bool → Bool
switched op_enable chosen old = chosen || old
switched op_disable true old = false
switched op_disable false old = old
switched op_other chosen old = old

abbrev Asks : Bool → Bool → Bool → ℕ → Type 0
Asks r w h m = (has_bit epoll_in m ≡ r) × (has_bit epoll_out m ≡ w) × (has_bit epoll_rdhup m ≡ h)

with_in : (m : ℕ) → Asks true (has_bit epoll_out m) (has_bit epoll_rdhup m) (with_bit epoll_in m)
with_in m = (ground arith, ground arith, ground arith)

with_out : (m : ℕ) → Asks (has_bit epoll_in m) true (has_bit epoll_rdhup m) (with_bit epoll_out m)
with_out m = (ground arith, ground arith, ground arith)

without_in :
    (m : ℕ) → Asks false (has_bit epoll_out m) (has_bit epoll_rdhup m) (without_bit epoll_in m)
without_in m = (ground arith, ground arith, ground arith)

without_out :
    (m : ℕ) → Asks (has_bit epoll_in m) false (has_bit epoll_rdhup m) (without_bit epoll_out m)
without_out m = (ground arith, ground arith, ground arith)

put_in :
    (b : Bool) (m : ℕ)
    → Asks
        (b || has_bit epoll_in m)
        (has_bit epoll_out m)
        (has_bit epoll_rdhup m)
        (if b then with_bit epoll_in m else m)
put_in true m = with_in m
put_in false m = (refl, refl, refl)

put_out :
    (b : Bool) (m : ℕ)
    → Asks
        (has_bit epoll_in m)
        (b || has_bit epoll_out m)
        (has_bit epoll_rdhup m)
        (if b then with_bit epoll_out m else m)
put_out true m = with_out m
put_out false m = (refl, refl, refl)

take_in :
    (b : Bool) (m : ℕ)
    → Asks
        (switched op_disable b (has_bit epoll_in m))
        (has_bit epoll_out m)
        (has_bit epoll_rdhup m)
        (if b then without_bit epoll_in m else m)
take_in true m = without_in m
take_in false m = (refl, refl, refl)

take_out :
    (b : Bool) (m : ℕ)
    → Asks
        (has_bit epoll_in m)
        (switched op_disable b (has_bit epoll_out m))
        (has_bit epoll_rdhup m)
        (if b then without_bit epoll_out m else m)
take_out true m = without_out m
take_out false m = (refl, refl, refl)

set_mask-Asks :
    (op : EventOp) (t m : ℕ)
    → Asks
        (switched op (has_bit type_read t) (has_bit epoll_in m))
        (switched op (has_bit type_write t) (has_bit epoll_out m))
        (has_bit epoll_rdhup m)
        (set_mask op t m)
unfolding set_mask
set_mask-Asks op_enable t m =
    let a = put_in (has_bit type_read t) m in
    let b =
      put_out (has_bit type_write t) (if has_bit type_read t then with_bit epoll_in m else m) in
    (b.0 ∙ a.0, b.1 ∙ ap (λ o. has_bit type_write t || o) a.1, b.2 ∙ a.2)
set_mask-Asks op_disable t m =
    let a = take_in (has_bit type_read t) m in
    let b =
      take_out (has_bit type_write t) (if has_bit type_read t then without_bit epoll_in m else m) in
    (b.0 ∙ a.0, b.1 ∙ ap (λ o. switched op_disable (has_bit type_write t) o) a.1, b.2 ∙ a.2)
set_mask-Asks op_other t m = (refl, refl, refl)

||-false : (b : Bool) → (b || false) ≡ b
||-false true = refl
||-false false = refl

add_mask-Asks : (t : ℕ) → Asks (has_bit type_read t) (has_bit type_write t) true (add_mask t)
unfolding add_mask
add_mask-Asks t =
    let a = put_in (has_bit type_read t) epoll_rdhup in
    let b =
      put_out (has_bit type_write t)
        (if has_bit type_read t then with_bit epoll_in epoll_rdhup else epoll_rdhup) in
    (
      b.0 ∙ a.0 ∙ ||-false (has_bit type_read t),
      b.1 ∙ ap (λ o. has_bit type_write t || o) a.1 ∙ ||-false (has_bit type_write t),
      b.2 ∙ a.2,
    )

pub pop-empty : (pool : Pool) → Holds pool [] → FixedPool.pop pool ≡ (none, pool)
unfolding FixedPool.pop
pop-empty pool h = let empty : (pool.num == 0) ≡ true = ground (arith, h.num) in rw empty refl

pub pop-array_len : (pool : Pool) → (FixedPool.pop pool).1.array_len ≡ pool.array_len
unfolding FixedPool.pop
pop-array_len pool = ground arith

module _ {W : Type 0} (epoll_ctl : CtlOp → ℕ → Option EpollEvent → W → W) (c : EpollCtx W) where
  module _ (ev t p : ℕ) (items : List ℕ)
      (h : Holds c.epoll_event_fixed_pool (items ++ p ∷ [])) where
    abbrev fresh : EpollEvent
    fresh = record { events = add_mask t; ptr = some ev }

    abbrev added : EpollCtx W
    added = record {
      epoll_event_fixed_pool = (FixedPool.pop c.epoll_event_fixed_pool).1;
      epoll_events = update c.epoll_events p fresh;
      events = update c.events ev (record (c.events ev) { uevent = some p });
      world = epoll_ctl ctl_add (c.events ev).fd (some fresh) c.world;
    }

    epoll_add-added : epoll_add epoll_ctl ev t c ≡ some added
    unfolding epoll_add
    epoll_add-added = rw (pop-last c.epoll_event_fixed_pool items p h).0 refl

    room : length items < added.epoll_event_fixed_pool.array_len
    room =
        omega (arith, pop-array_len c.epoll_event_fixed_pool, h.size, length-append items (p ∷ []))

    -- An event that is added, and deleted again.
    pub epoll_add-Asks :
        (d : EpollCtx W) × (epoll_add epoll_ctl ev t c ≡ some d)
        × ((d.events ev).uevent ≡ some p)
        × ((d.epoll_events p).ptr ≡ some ev)
        × Asks (has_bit type_read t) (has_bit type_write t) true (d.epoll_events p).events
        × (d.world ≡ epoll_ctl ctl_add (c.events ev).fd (some (d.epoll_events p)) c.world)
        × Holds d.epoll_event_fixed_pool items
        × Holds (epoll_del epoll_ctl ev d).epoll_event_fixed_pool (items ++ p ∷ [])
    unfolding epoll_del
    epoll_add-Asks =
        let at = update_self c.epoll_events p fresh in
        let asks = add_mask-Asks t in
        let held = (pop-last c.epoll_event_fixed_pool items p h).1 in
        let known : (added.events ev).uevent ≡ some p =
          ap (λ (e : GnbEvent). e.uevent) (update_self c.events ev _) in
        (
          added,
          epoll_add-added,
          known,
          ap (λ (e : EpollEvent). e.ptr) at,
          rw at asks,
          ap (λ (e : EpollEvent). epoll_ctl ctl_add (c.events ev).fd (some e) c.world) (sym at),
          held,
          rw known (push-snoc added.epoll_event_fixed_pool items p held room).1,
        )

  -- For an event of the epoll handler that has its block: set_event returns and changes the entry
  -- of the descriptor in the kernel to that of the block, which asks for input and for output when
  -- the operation enables them or they were asked for and it does not disable them, and for
  -- EPOLLRDHUP as before; the pointer to the event stays, and so do the events.
  pub epoll_set-Asks :
      (ev t p : ℕ) (op : EventOp)
      → (c.events ev).uevent ≡ some p
      → (d : EpollCtx W) × (epoll_set epoll_ctl ev op t c ≡ some d)
        × Asks
            (switched op (has_bit type_read t) (has_bit epoll_in (c.epoll_events p).events))
            (switched op (has_bit type_write t) (has_bit epoll_out (c.epoll_events p).events))
            (has_bit epoll_rdhup (c.epoll_events p).events)
            (d.epoll_events p).events
        × ((d.epoll_events p).ptr ≡ (c.epoll_events p).ptr)
        × (d.world ≡ epoll_ctl ctl_mod (c.events ev).fd (some (d.epoll_events p)) c.world)
        × (d.events ≡ c.events)
  unfolding epoll_set
  epoll_set-Asks ev t p op known =
      let epoll_ev : EpollEvent = record (c.epoll_events p) {
        events = set_mask op t (c.epoll_events p).events;
      } in
      let at = update_self c.epoll_events p epoll_ev in
      (
        record c {
          epoll_events = update c.epoll_events p epoll_ev;
          world = epoll_ctl ctl_mod (c.events ev).fd (some epoll_ev) c.world;
        },
        rw known refl,
        rw at (set_mask-Asks op t (c.epoll_events p).events),
        ap (λ (e : EpollEvent). e.ptr) at,
        ap (λ (e : EpollEvent). epoll_ctl ctl_mod (c.events ev).fd (some e) c.world) (sym at),
        refl,
      )

  -- An event that finds no block in the pool.
  pub epoll_add-empty :
      (ev t : ℕ) → Holds c.epoll_event_fixed_pool [] → epoll_add epoll_ctl ev t c ≡ none
  unfolding epoll_add
  epoll_add-empty ev t h = rw (pop-empty c.epoll_event_fixed_pool h) refl
