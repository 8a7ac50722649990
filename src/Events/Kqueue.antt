-- ===== src/Events/Kqueue.antt =====
-- src/event/kqueue_event_handler.c: the array of the events, and for each event a block with two
-- entries, for reading and for writing. `kevent` is a parameter where it hands changes to the
-- kernel, and its answer an argument where it waits.
pub mod Changes
use gnb_udp_over_tcp.Prelude.{
  ℕ, zero, suc, ◌+◌, ◌-◌, ◌/◌, ◌%◌, Bool, true, false, Option, none, some, List, [], ◌∷◌, leb, ◌==◌,
  if◌then◌else◌, update, ◌>>=◌,
}
use gnb_udp_over_tcp.FixedPool.{Pool}
use gnb_udp_over_tcp.FixedPool
use gnb_udp_over_tcp.Network.{type_read, type_write, type_eof, type_error, has_bit, with_bit}
use gnb_udp_over_tcp.Events.{
  GnbEvent, EventArray, EventOp, op_enable, op_disable, op_other, array_create, register,
  unregister,
}

pub data Filter : Type 0 where
  evfilt_read : Filter
  evfilt_write : Filter
  evfilt_other : Filter

-- The bits of `flags`.
abbrev pub ev_add : ℕ
ev_add = 1

abbrev pub ev_delete : ℕ
ev_delete = 2

abbrev pub ev_enable : ℕ
ev_enable = 4

abbrev pub ev_disable : ℕ
ev_disable = 8

abbrev pub ev_error : ℕ
ev_error = 16384

abbrev pub ev_eof : ℕ
ev_eof = 32768

-- `fflags` and `data` are 0.
pub record Kevent : Type 0 where
  pub ident : ℕ
  pub filter : Filter
  pub flags : ℕ
  pub udata : Option ℕ

-- `changelist` at READ_KEVENT and at WRITE_KEVENT.
pub record FdEvents : Type 0 where
  pub on_read : Kevent
  pub on_write : Kevent

pub record KqueueCtx (W : Type 0) : Type 0 where
  pub fd_events_fixed_pool : Pool
  pub fd_events : ℕ → FdEvents
  pub event_array : EventArray
  pub world : W

unfoldable pub kqueue_init :
    {W : Type 0} → (block max_event size : ℕ) → (ℕ → FdEvents) → (ℕ → GnbEvent) → W → KqueueCtx W
kqueue_init block max_event size fd_events events world = record {
  fd_events_fixed_pool = FixedPool.create block max_event size;
  fd_events = fd_events;
  event_array = array_create max_event events;
  world = world;
}

abbrev pub change : ℕ → Filter → ℕ → ℕ → Kevent
change fd filter flags ev = record { ident = fd; filter = filter; flags = flags; udata = some ev }

-- The entry for reading is written twice, the second time enabled.
unfoldable pub new_fd_events : ℕ → ℕ → ℕ → FdEvents
new_fd_events ev fd ev_type = record {
  on_read = change fd evfilt_read (ev_add + ev_enable) ev;
  on_write =
      change fd evfilt_write
        (if has_bit type_write ev_type then ev_add + ev_enable else ev_add + ev_disable) ev;
}

-- `flags` of `set_event`; `none` is a variable that was not set.
unfoldable pub op_flags : EventOp → Option ℕ
op_flags op_enable = some ev_enable
op_flags op_disable = some ev_disable
op_flags op_other = none

-- The bits of `ev_type` for an entry that `kevent` reports.
unfoldable pub kevent_type : Kevent → ℕ
kevent_type k =
    let a : ℕ = elim k.filter [
      | evfilt_read ↦ type_read
      | evfilt_write ↦ type_write
      | evfilt_other ↦ 0
    ] in
    let b : ℕ = if has_bit ev_error k.flags then with_bit type_error a else a in
    if has_bit ev_eof k.flags then with_bit type_eof b else b

-- The loop over `eventlist`.
unfoldable pub hand_out_kevents : List Kevent → (ℕ → GnbEvent) → Option (List ℕ × (ℕ → GnbEvent))
unfolding kevent_type
hand_out_kevents [] events = some ([], events)
hand_out_kevents (k ∷ list) events = k.udata >>= λ p.
    hand_out_kevents list (update events p (record (events p) { ev_type = kevent_type k }))
    >>= λ got. some (p ∷ got.0, got.1)

module _ {W : Type 0} (kevent : List Kevent → W → W) where
  -- The result is whether the function returns 0.
  unfoldable pub kqueue_add : ℕ → ℕ → KqueueCtx W → Option (Bool × KqueueCtx W)
  unfolding new_fd_events
  kqueue_add ev ev_type c =
      if leb c.event_array.size c.event_array.nevent
      then some (false, c)
      else register ev c.event_array >>= λ a.
          let (block, pool) = FixedPool.pop c.fd_events_fixed_pool in
          elim block [
            | none ↦ some (false, record c { event_array = a; fd_events_fixed_pool = pool })
            | some p ↦
                let fresh : FdEvents = new_fd_events ev (a.events ev).fd ev_type in
                some (
                  true,
                  record {
                    fd_events_fixed_pool = pool;
                    fd_events = update c.fd_events p fresh;
                    event_array = record a {
                      events = update a.events ev (record (a.events ev) { uevent = some p });
                    };
                    world = kevent (fresh.on_read ∷ fresh.on_write ∷ []) c.world;
                  },
                )
          ]

  -- One of the two entries with new flags goes to the kernel.
  unfoldable pub change_read : Option ℕ → Option ℕ → KqueueCtx W → Option (KqueueCtx W)
  change_read uevent flags c = uevent >>= λ p. flags >>= λ f.
      let k : Kevent = record (c.fd_events p).on_read { flags = f } in
      some (record c {
        fd_events = update c.fd_events p (record (c.fd_events p) { on_read = k });
        world = kevent (k ∷ []) c.world;
      })

  unfoldable pub change_write : Option ℕ → Option ℕ → KqueueCtx W → Option (KqueueCtx W)
  change_write uevent flags c = uevent >>= λ p. flags >>= λ f.
      let k : Kevent = record (c.fd_events p).on_write { flags = f } in
      some (record c {
        fd_events = update c.fd_events p (record (c.fd_events p) { on_write = k });
        world = kevent (k ∷ []) c.world;
      })

  unfoldable pub kqueue_set : ℕ → EventOp → ℕ → KqueueCtx W → Option (KqueueCtx W)
  unfolding op_flags change_read change_write
  kqueue_set ev op ev_type c =
      let uevent : Option ℕ = (c.event_array.events ev).uevent in
      (if has_bit type_read ev_type then change_read uevent (op_flags op) c else some c) >>= λ d.
      if has_bit type_write ev_type then change_write uevent (op_flags op) d else some d

  unfoldable pub kqueue_del : ℕ → KqueueCtx W → Option (KqueueCtx W)
  kqueue_del ev c =
      let uevent : Option ℕ = (c.event_array.events ev).uevent in
      unregister ev c.event_array >>= λ a. uevent >>= λ p.
      let old : FdEvents = c.fd_events p in
      let gone : FdEvents = record {
        on_read = record old.on_read { flags = ev_delete };
        on_write = record old.on_write { flags = ev_delete };
      } in
      some (record {
        fd_events_fixed_pool = (FixedPool.push c.fd_events_fixed_pool (some p)).1;
        fd_events = update c.fd_events p gone;
        event_array = a;
        world = kevent (gone.on_read ∷ gone.on_write ∷ []) c.world;
      })

-- `none` as the answer of `kevent` is an error. The first part of the result is whether the function
-- returns 0.
unfoldable pub kqueue_get :
    {W : Type 0} → Option (List Kevent) → KqueueCtx W → Option (Bool × List ℕ × KqueueCtx W)
unfolding hand_out_kevents
kqueue_get none c = some (false, [], c)
kqueue_get (some list) c = hand_out_kevents list c.event_array.events >>= λ got.
    some (true, got.0, record c { event_array = record c.event_array { events = got.1 } })
