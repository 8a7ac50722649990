-- ===== src/Events/Samples.antt =====
-- The handlers at concrete inputs: what they hand out, and the pools of epoll and kqueue.
use gnb_udp_over_tcp.Prelude.{
  ℕ, zero, suc, ◌+◌, ◌<◌, ◌≡◌, refl, ap, ◌∙◌, ◌↔◌, ◌⊎◌, true, false, ◌||◌, Option, none, some, List,
  [], ◌∷◌, ◌++◌, ◌==◌, if◌then◌else◌, get_elem?, update, arith,
}
use gnb_udp_over_tcp.FixedPool
use gnb_udp_over_tcp.FixedPool.{Pool}
use gnb_udp_over_tcp.FixedPool.Stack.{Holds, blocks, create-Holds}
use gnb_udp_over_tcp.Network.{has_bit}
use gnb_udp_over_tcp.Events.{GnbEvent, EventArray, op_disable}
use gnb_udp_over_tcp.Events.Registry.{IsValid, Watches}
use gnb_udp_over_tcp.Events.Select.{FdSet, ready, select_get}
use gnb_udp_over_tcp.Events.Ready.{is_ready, type_in}
use gnb_udp_over_tcp.Events.Handed.{listed, select_get-ready, select_get-overflow}
use gnb_udp_over_tcp.Events.Epoll.{EpollEvent, EpollCtx, CtlOp, ctl_mod, epoll_set, epoll_get}
use gnb_udp_over_tcp.Events.Waited.{in_order, epoll_get-types}
use gnb_udp_over_tcp.Events.Interest.{epoll_set-Asks}
use gnb_udp_over_tcp.Events.Kqueue.{
  Kevent, KqueueCtx, change, evfilt_read, evfilt_write, kqueue_add, kqueue_del,
}
use gnb_udp_over_tcp.Events.Kqueue.Changes.{kqueue_del-add}
use gnb_udp_over_tcp.Events.Tests.{
  idle_events, two_watched, two_watched-IsValid, context, not_watched,
}

-- Only the descriptor 12, that of the event 9, can be read.
abbrev twelve : FdSet
twelve fd = fd == 12

abbrev nothing : FdSet
nothing fd = false

select_get-ready_example :
    (events : ℕ → GnbEvent) × (select_get (ready 1 twelve nothing nothing) context
      ≡ some (9 ∷ [], record context { event_array = record two_watched { events = events } }))
    × ((q : ℕ)
        → (listed q (9 ∷ []) ≡ true) ↔ (
            Watches two_watched q
            × (is_ready twelve nothing nothing (λ p. (two_watched.events p).fd) q ≡ true)))
    × ((q : ℕ)
        → events q ≡ (
            if listed q (9 ∷ [])
            then record (two_watched.events q) {
              ev_type = type_in (twelve (two_watched.events q).fd) false false;
            }
            else two_watched.events q))
select_get-ready_example =
    select_get-ready context 1 twelve nothing nothing two_watched-IsValid (omega arith)
      (omega arith)

-- The events from `i` on.
abbrev row : ℕ → ℕ → List (Option ℕ)
row zero i = []
row (suc n) i = some i ∷ row n (suc i)

zero-plus : (i : ℕ) → 0 + i ≡ i
zero-plus i = omega arith

row-entry : (n i k : ℕ) → i < n → get_elem? (row n k) i ≡ some (some (k + i))
row-entry zero i k h = absurd (omega arith)
row-entry (suc n) zero k h = let same : k ≡ k + 0 = omega arith in ap (λ p. some (some p)) same
row-entry (suc n) (suc i) k h =
    let same : suc k + i ≡ k + suc i = omega arith in
    row-entry n i (suc k) (omega arith) ∙ ap (λ p. some (some p)) same

-- An array of 101 events.
abbrev crowd : EventArray
crowd = record {
  size = 101;
  nevent = 101;
  list = row 101 0;
  events = λ p. record { fd = p + 3; ev_type = 0; index = p; uevent = some p };
}

crowd-IsValid : IsValid crowd
crowd-IsValid = record {
  room = omega arith;
  block = omega arith;
  entry = λ i h. (i, row-entry 101 i 0 h ∙ ap (λ p. some (some p)) (zero-plus i), refl);
}

abbrev everything : FdSet
everything fd = true

select_get-overflow_example :
    select_get (ready 101 everything nothing nothing) (record context { event_array = crowd })
    ≡ none
select_get-overflow_example =
    select_get-overflow (record context { event_array = crowd }) 101 everything nothing nothing
      crowd-IsValid (omega arith) (omega arith)

-- A kernel that remembers what it is asked for each descriptor.
abbrev Kernel : Type 0
Kernel = ℕ → Option EpollEvent

abbrev kernel : CtlOp → ℕ → Option EpollEvent → Kernel → Kernel
kernel op fd e k = update k fd e

two_blocks-Holds : Holds (FixedPool.create 1000 2 12) (1000 ∷ 1012 ∷ [])
unfolding blocks
two_blocks-Holds = create-Holds 1000 2 12

abbrev epoll_context : EpollCtx Kernel
epoll_context = record {
  epoll_event_fixed_pool = FixedPool.create 1000 2 12;
  epoll_events = λ p. record { events = 8197; ptr = some 9 };
  events = update idle_events 9 (record (idle_events 9) { uevent = some 1000 });
  world = λ fd. none;
}

epoll_set-Asks_example :
    (d : EpollCtx Kernel) × (epoll_set kernel 9 op_disable 2 epoll_context ≡ some d)
    × ((has_bit 1 (d.epoll_events 1000).events ≡ true)
        × (has_bit 4 (d.epoll_events 1000).events ≡ false)
        × (has_bit 8192 (d.epoll_events 1000).events ≡ true))
    × ((d.epoll_events 1000).ptr ≡ some 9)
    × (d.world ≡ kernel ctl_mod 12 (some (d.epoll_events 1000)) epoll_context.world)
    × (d.events ≡ epoll_context.events)
epoll_set-Asks_example = epoll_set-Asks kernel epoll_context 9 2 1000 op_disable refl

epoll_get-types_example :
    (events : ℕ → GnbEvent) × (epoll_get
        (some (record { events = 8193; ptr = some 9 } ∷ []))
        epoll_context
      ≡ some (0, 9 ∷ [], record epoll_context { events = events }))
    × ((before after : List (ℕ × ℕ)) (q m : ℕ)
        → (9, 8193) ∷ [] ≡ before ++ (q, m) ∷ after
        → listed q (in_order after) ≡ false
        → (t : ℕ) × (events q ≡ record (epoll_context.events q) { ev_type = t })
          × ((has_bit 8 t ≡ has_bit 8192 m)
              × (has_bit 16 t ≡ (has_bit 16 m || has_bit 8 m))
              × (has_bit 1 t ≡ has_bit 1 m)
              × (has_bit 2 t ≡ has_bit 4 m)))
    × ((q : ℕ) → listed q (9 ∷ []) ≡ false → events q ≡ epoll_context.events q)
epoll_get-types_example = epoll_get-types epoll_context ((9, 8193) ∷ [])

abbrev kqueue_context : KqueueCtx (List Kevent)
kqueue_context = record {
  fd_events_fixed_pool = FixedPool.create 1000 2 12;
  fd_events =
      λ p. record { on_read = change 0 evfilt_read 0 0; on_write = change 0 evfilt_write 0 0 };
  event_array = two_watched;
  world = [];
}

-- The changes that the kernel got, the last ones first.
abbrev note_changes : List Kevent → List Kevent → List Kevent
note_changes changes log = changes ++ log

kqueue_del-add_example :
    (d e : KqueueCtx (List Kevent)) × (kqueue_add note_changes 4 0 kqueue_context ≡ some (true, d))
    × ((d.fd_events 1012).on_read.flags ≡ 5)
    × ((d.fd_events 1012).on_write.flags ≡ 9)
    × IsValid d.event_array
    × ((q : ℕ) → Watches d.event_array q ↔ (Watches two_watched q ⊎ (q ≡ 4)))
    × (kqueue_del note_changes 4 d ≡ some e)
    × Holds e.fd_events_fixed_pool (1000 ∷ 1012 ∷ [])
    × IsValid e.event_array
    × ((q : ℕ) → Watches e.event_array q ↔ Watches two_watched q)
kqueue_del-add_example =
    kqueue_del-add note_changes kqueue_context 4 0 two_watched-IsValid not_watched (omega arith)
      1012 (1000 ∷ []) two_blocks-Holds
