-- ===== src/Events.antt =====
-- src/gnb_event.h and src/gnb_event.c: the events that a handler watches, and the choice of the
-- handler. The children have the handlers of src/event. An event is the address of its
-- `gnb_event_t`, and `none` as a result is a fault: an access through NULL or outside of a block.
pub mod Registry
pub mod Unregister
pub mod Select
pub mod Sound
pub mod Ready
pub mod Handed
pub mod Epoll
pub mod Waited
pub mod Interest
pub mod Kqueue
mod Tests
mod Samples
use gnb_udp_over_tcp.Prelude.{
  ℕ, suc, ◌+◌, ◌-◌, ◌*◌, Bool, true, false, Option, none, some, List, [], ◌∷◌, ltb, ◌==◌,
  if◌then◌else◌, length, get_elem?, set, replicate, update, ◌>>=◌,
}

pub record GnbEvent : Type 0 where
  pub fd : ℕ
  pub ev_type : ℕ
  pub index : ℕ
  pub uevent : Option ℕ

-- The array of the watched events, with the memory of all events. NULL in `list` is `none`.
pub record EventArray : Type 0 where
  pub size : ℕ
  pub nevent : ℕ
  pub list : List (Option ℕ)
  pub events : ℕ → GnbEvent

-- `op` of `set_event`.
pub data EventOp : Type 0 where
  op_enable : EventOp
  op_disable : EventOp
  op_other : EventOp

-- `sizeof(gnb_event_t)` holds four pointers on a 64-bit system.
abbrev pub pointers_per_event : ℕ
pointers_per_event = 4

-- The array that `malloc` and `memset` give a handler.
unfoldable pub array_create : ℕ → (ℕ → GnbEvent) → EventArray
array_create max_event events = record {
  size = max_event;
  nevent = 0;
  list = replicate (pointers_per_event * max_event) none;
  events = events;
}

unfoldable pub load_event : List (Option ℕ) → ℕ → Option ℕ
load_event list i = get_elem? list i >>= λ p. p

unfoldable pub store_event : List (Option ℕ) → ℕ → ℕ → Option (List (Option ℕ))
store_event list i p = if ltb i (length list) then some (set list i (some p)) else none

-- `list[nevent] = ev; ev->index = nevent; nevent++`
unfoldable pub register : ℕ → EventArray → Option EventArray
unfolding store_event
register ev a = store_event a.list a.nevent ev >>= λ list. some (record a {
  list = list;
  nevent = a.nevent + 1;
  events = update a.events ev (record (a.events ev) { index = a.nevent });
})

-- The last event takes the place of `ev`.
unfoldable pub unregister : ℕ → EventArray → Option EventArray
unfolding load_event store_event
unregister ev a =
    if a.nevent == 0
    then some a
    else if ltb a.nevent (a.events ev).index
    then some a
    else load_event a.list (a.nevent - 1) >>= λ last.
        let place : ℕ = (a.events ev).index in
        store_event a.list place last >>= λ list. some (record a {
          list = list;
          nevent = a.nevent - 1;
          events = update a.events last (record (a.events last) { index = place });
        })

-- The handlers of the platforms.
pub data Platform : Type 0 where
  free_bsd : Platform
  open_bsd : Platform
  apple : Platform
  linux : Platform
  windows : Platform

pub data Handler : Type 0 where
  kqueue_event_cmd : Handler
  epoll_event_cmd : Handler
  select_event_cmd : Handler

unfoldable pub create_event_cmd : Platform → Handler
create_event_cmd free_bsd = kqueue_event_cmd
create_event_cmd open_bsd = kqueue_event_cmd
create_event_cmd apple = kqueue_event_cmd
create_event_cmd linux = epoll_event_cmd
create_event_cmd windows = select_event_cmd
