-- ===== src/Events/Epoll.antt =====
-- src/event/epoll_event_handler.c: each event has a block with its `struct epoll_event`. The calls
-- `epoll_ctl` and `epoll_wait` are a parameter and an argument; what `epoll_ctl` returns is only
-- printed.
use gnb_udp_over_tcp.Prelude.{
  ℕ, ◌-◌, Bool, Option, none, some, List, [], ◌∷◌, if◌then◌else◌, update, ◌>>=◌,
}
use mathlib.Core.Option
use gnb_udp_over_tcp.FixedPool.{Pool}
use gnb_udp_over_tcp.FixedPool
use gnb_udp_over_tcp.Network.{type_read, type_write, type_eof, type_error, has_bit, with_bit}
use gnb_udp_over_tcp.Events.{GnbEvent, EventOp, op_enable, op_disable, op_other}

-- The bits of `events` in a `struct epoll_event`.
abbrev pub epoll_in : ℕ
epoll_in = 1

abbrev pub epoll_out : ℕ
epoll_out = 4

abbrev pub epoll_err : ℕ
epoll_err = 8

abbrev pub epoll_hup : ℕ
epoll_hup = 16

abbrev pub epoll_rdhup : ℕ
epoll_rdhup = 8192

-- `m & ~bit`
abbrev pub without_bit : ℕ → ℕ → ℕ
without_bit bit m = if has_bit bit m then m - bit else m

pub record EpollEvent : Type 0 where
  pub events : ℕ
  pub ptr : Option ℕ

pub data CtlOp : Type 0 where
  ctl_add : CtlOp
  ctl_mod : CtlOp
  ctl_del : CtlOp

-- `epoll_events` is the memory of the blocks, `events` that of the events.
pub record EpollCtx (W : Type 0) : Type 0 where
  pub epoll_event_fixed_pool : Pool
  pub epoll_events : ℕ → EpollEvent
  pub events : ℕ → GnbEvent
  pub world : W

-- `block` is the memory of the pool, and `size` that of a `struct epoll_event`.
unfoldable pub epoll_init :
    {W : Type 0} → (block max_event size : ℕ) → (ℕ → EpollEvent) → (ℕ → GnbEvent) → W → EpollCtx W
epoll_init block max_event size epoll_events events world = record {
  epoll_event_fixed_pool = FixedPool.create block max_event size;
  epoll_events = epoll_events;
  events = events;
  world = world;
}

unfoldable pub add_mask : ℕ → ℕ
add_mask ev_type =
    let r : ℕ = if has_bit type_read ev_type then with_bit epoll_in epoll_rdhup else epoll_rdhup in
    if has_bit type_write ev_type then with_bit epoll_out r else r

unfoldable pub set_mask : EventOp → ℕ → ℕ → ℕ
set_mask op_enable ev_type m =
    let r : ℕ = if has_bit type_read ev_type then with_bit epoll_in m else m in
    if has_bit type_write ev_type then with_bit epoll_out r else r
set_mask op_disable ev_type m =
    let r : ℕ = if has_bit type_read ev_type then without_bit epoll_in m else m in
    if has_bit type_write ev_type then without_bit epoll_out r else r
set_mask op_other ev_type m = m

module _ {W : Type 0} (epoll_ctl : CtlOp → ℕ → Option EpollEvent → W → W) where
  unfoldable pub epoll_add : ℕ → ℕ → EpollCtx W → Option (EpollCtx W)
  unfolding add_mask
  epoll_add ev ev_type c =
      let (block, pool) = FixedPool.pop c.epoll_event_fixed_pool in
      block >>= λ p.
      let epoll_ev : EpollEvent = record { events = add_mask ev_type; ptr = some ev } in
      some (record {
        epoll_event_fixed_pool = pool;
        epoll_events = update c.epoll_events p epoll_ev;
        events = update c.events ev (record (c.events ev) { uevent = some p });
        world = epoll_ctl ctl_add (c.events ev).fd (some epoll_ev) c.world;
      })

  unfoldable pub epoll_set : ℕ → EventOp → ℕ → EpollCtx W → Option (EpollCtx W)
  unfolding set_mask
  epoll_set ev op ev_type c = (c.events ev).uevent >>= λ p.
      let old : EpollEvent = c.epoll_events p in
      let epoll_ev : EpollEvent = record old { events = set_mask op ev_type old.events } in
      some (record c {
        epoll_events = update c.epoll_events p epoll_ev;
        world = epoll_ctl ctl_mod (c.events ev).fd (some epoll_ev) c.world;
      })

  unfoldable pub epoll_del : ℕ → EpollCtx W → EpollCtx W
  epoll_del ev c =
      let uevent : Option ℕ = (c.events ev).uevent in
      record c {
        epoll_event_fixed_pool = (FixedPool.push c.epoll_event_fixed_pool uevent).1;
        world = epoll_ctl ctl_del (c.events ev).fd (Option.map c.epoll_events uevent) c.world;
      }

-- The bits of `ev_type` for those that `epoll_wait` reports, as the code collects them.
unfoldable pub wait_type : (rdhup hup err in_bit out_bit : Bool) → ℕ
wait_type rdhup hup err in_bit out_bit =
    let a : ℕ = if rdhup then with_bit type_eof 0 else 0 in
    let b : ℕ = if hup then with_bit type_error a else a in
    let c : ℕ = if err then with_bit type_error b else b in
    let d : ℕ = if in_bit then with_bit type_read c else c in
    if out_bit then with_bit type_write d else d

unfoldable pub type_of_mask : ℕ → ℕ
unfolding wait_type
type_of_mask m =
    wait_type (has_bit epoll_rdhup m) (has_bit epoll_hup m) (has_bit epoll_err m)
      (has_bit epoll_in m) (has_bit epoll_out m)

-- The loop over `eventlist`.
unfoldable pub hand_out : List EpollEvent → (ℕ → GnbEvent) → Option (List ℕ × (ℕ → GnbEvent))
unfolding type_of_mask
hand_out [] events = some ([], events)
hand_out (e ∷ list) events = e.ptr >>= λ p.
    hand_out list (update events p (record (events p) { ev_type = type_of_mask e.events }))
    >>= λ got. some (p ∷ got.0, got.1)

-- `none` as the answer of `epoll_wait` is an error. The first part of the result is what the
-- function returns.
unfoldable pub epoll_get :
    {W : Type 0} → Option (List EpollEvent) → EpollCtx W → Option (ℕ × List ℕ × EpollCtx W)
unfolding hand_out
epoll_get none c = some (1, [], c)
epoll_get (some list) c =
    hand_out list c.events >>= λ got. some (0, got.0, record c { events = got.1 })
