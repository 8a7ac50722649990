-- ===== src/Events/Select.antt =====
-- src/event/select_event_handler.c: the sets of descriptors beside the array of the events. The
-- answer of `select` is an argument, and so is FD_SETSIZE: a descriptor from there on is outside of
-- a set. `nfds` is `maxfd + 1`.
use gnb_udp_over_tcp.Prelude.{
  ℕ, ◌+◌, Bool, true, false, Option, none, some, List, [], ◌∷◌, ◌++◌, ltb, leb, ◌==◌, if◌then◌else◌,
  length, update, ◌>>=◌, take,
}
use gnb_udp_over_tcp.Network.{type_read, type_write, type_error, has_bit, with_bit}
use gnb_udp_over_tcp.Events.{
  GnbEvent, EventArray, EventOp, op_enable, op_disable, op_other, array_create, register,
  unregister,
}

abbrev pub FdSet : Type 0
FdSet = ℕ → Bool

pub record SelectCtx : Type 0 where
  pub nfds : ℕ
  pub readfd_set : FdSet
  pub writefd_set : FdSet
  pub exceptfd_set : FdSet
  pub event_array : EventArray

-- `select`: -1, or the number of descriptors that are ready and the sets of these.
pub data Selected : Type 0 where
  select_failed : Selected
  ready : ℕ → FdSet → FdSet → FdSet → Selected

abbrev pub max_get_event : ℕ
max_get_event = 100

unfoldable pub select_init : ℕ → (ℕ → GnbEvent) → SelectCtx
select_init max_event events = record {
  nfds = 0;
  readfd_set = λ fd. false;
  writefd_set = λ fd. false;
  exceptfd_set = λ fd. false;
  event_array = array_create max_event events;
}

-- The bits for the sets that a descriptor is in, as the code collects them.
unfoldable pub ready_type : Bool → Bool → Bool → ℕ
ready_type in_read in_write in_except =
    let r : ℕ = if in_read then with_bit type_read 0 else 0 in
    let w : ℕ = if in_write then with_bit type_write r else r in
    if in_except then with_bit type_error w else w

module _ (fd_setsize : ℕ) where
  -- `FD_SET` and `FD_CLR`, where the test before them holds.
  unfoldable pub fd_put : Bool → Bool → ℕ → FdSet → Option FdSet
  fd_put false value fd set = some set
  fd_put true value fd set = if ltb fd fd_setsize then some (update set fd value) else none

  -- The result is whether the function returns 0.
  unfoldable pub select_add : ℕ → ℕ → SelectCtx → Option (Bool × SelectCtx)
  select_add ev ev_type c =
      if leb c.event_array.size c.event_array.nevent
      then some (false, c)
      else let fd : ℕ = (c.event_array.events ev).fd in
        register ev c.event_array >>= λ a.
        fd_put (has_bit type_read ev_type) true fd c.readfd_set >>= λ r.
        fd_put (has_bit type_write ev_type) true fd c.writefd_set >>= λ w.
        fd_put true true fd c.exceptfd_set >>= λ x. some (
          true,
          record {
            nfds = if ltb c.nfds (fd + 1) then fd + 1 else c.nfds;
            readfd_set = r;
            writefd_set = w;
            exceptfd_set = x;
            event_array = record a {
              events = update a.events ev (record (a.events ev) { uevent = some ev });
            };
          },
        )

  unfoldable pub select_put : Bool → ℕ → ℕ → SelectCtx → Option SelectCtx
  select_put value ev ev_type c =
      let fd : ℕ = (c.event_array.events ev).fd in
      fd_put (has_bit type_write ev_type) value fd c.writefd_set >>= λ w.
      fd_put (has_bit type_read ev_type) value fd c.readfd_set >>= λ r.
      some (record c { readfd_set = r; writefd_set = w })

  unfoldable pub select_set : ℕ → EventOp → ℕ → SelectCtx → Option SelectCtx
  select_set ev op_enable ev_type c = select_put true ev ev_type c
  select_set ev op_disable ev_type c = select_put false ev ev_type c
  select_set ev op_other ev_type c = some c

  unfoldable pub select_del : ℕ → SelectCtx → Option SelectCtx
  select_del ev c = unregister ev c.event_array >>= λ a.
      let fd : ℕ = (a.events ev).fd in
      fd_put true false fd c.readfd_set >>= λ r. fd_put true false fd c.writefd_set >>= λ w.
      fd_put true false fd c.exceptfd_set >>= λ x.
      some (record c { readfd_set = r; writefd_set = w; exceptfd_set = x; event_array = a })

-- One round of the loop over the array: `ev_lst` has room for 100 events, whatever `*nevents` is.
unfoldable pub collect :
    FdSet → FdSet → FdSet → ℕ → List ℕ → (ℕ → GnbEvent) → Option (List ℕ × (ℕ → GnbEvent))
collect readfds writefds exceptfds p out events =
    let fd : ℕ = (events p).fd in
    let bits : ℕ = ready_type (readfds fd) (writefds fd) (exceptfds fd) in
    if bits == 0
    then some (out, events)
    else if leb max_get_event (length out)
    then none
    else some (out ++ p ∷ [], update events p (record (events p) { ev_type = bits }))

-- The loop over the places from the first on, until `n_ready` events are found.
unfoldable pub collect_all :
    FdSet
    → FdSet
    → FdSet
    → ℕ
    → List (Option ℕ)
    → List ℕ
    → (ℕ → GnbEvent)
    → Option (List ℕ × (ℕ → GnbEvent))
collect_all readfds writefds exceptfds n_ready [] out events = some (out, events)
collect_all readfds writefds exceptfds n_ready (none ∷ list) out events = none
collect_all readfds writefds exceptfds n_ready (some p ∷ list) out events =
    collect readfds writefds exceptfds p out events >>= λ next.
    if length next.0 == n_ready
    then some next
    else collect_all readfds writefds exceptfds n_ready list next.0 next.1

unfoldable pub select_get : Selected → SelectCtx → Option (List ℕ × SelectCtx)
select_get select_failed c = some ([], c)
select_get (ready n_ready readfds writefds exceptfds) c =
    if n_ready == 0
    then some ([], c)
    else collect_all readfds writefds exceptfds n_ready
        (take c.event_array.nevent c.event_array.list) [] c.event_array.events
      >>= λ got. some (got.0, record c { event_array = record c.event_array { events = got.1 } })
