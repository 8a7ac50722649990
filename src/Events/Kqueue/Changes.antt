-- ===== src/Events/Kqueue/Changes.antt =====
-- src/event/kqueue_event_handler.c: an event that is added and deleted again, and an empty pool.
use gnb_udp_over_tcp.Prelude.{
  ℕ, ◌+◌, ◌<◌, ◌≡◌, refl, ap, subst, ◌≢◌, ◌↔◌, ◌⊎◌, inl, inr, true, false, some, List, [], ◌∷◌,
  ◌++◌, leb, if◌then◌else◌, length, length-append, update, arith, update_self,
}
use gnb_udp_over_tcp.FixedPool
use gnb_udp_over_tcp.FixedPool.Stack.{Holds, pop-last, push-snoc}
use gnb_udp_over_tcp.Network.{type_write, has_bit}
use gnb_udp_over_tcp.Events.{GnbEvent, EventArray}
use gnb_udp_over_tcp.Events.Registry.{
  IsValid, Watches, registered, register-registered, register-IsValid, register-Watches,
}
use gnb_udp_over_tcp.Events.Unregister.{unregister-set}
use gnb_udp_over_tcp.Events.Sound.{with_events, same_places-IsValid, same_places-Watches}
use gnb_udp_over_tcp.Events.Interest.{pop-empty, pop-array_len}
use gnb_udp_over_tcp.Events.Kqueue.{
  Kevent, FdEvents, KqueueCtx, ev_add, ev_enable, ev_disable, ev_delete, new_fd_events, kqueue_add,
  kqueue_del,
}

module _ {W : Type 0} (kevent : List Kevent → W → W) (c : KqueueCtx W) (ev t : ℕ)
    (v : IsValid c.event_array) (fresh : Watches c.event_array ev → ⊥)
    (room : c.event_array.nevent < c.event_array.size) where
  abbrev array_with : EventArray
  array_with = registered c.event_array ev v fresh

  not_full : leb c.event_array.size c.event_array.nevent ≡ false
  not_full = ground arith

  -- An event that finds no block in the pool stays in the array.
  pub kqueue_add-empty :
      Holds c.fd_events_fixed_pool []
      → (d : KqueueCtx W) × (kqueue_add kevent ev t c ≡ some (false, d))
        × Watches d.event_array ev
        × (d.world ≡ c.world)
  unfolding kqueue_add
  kqueue_add-empty h = (
    record c {
      event_array = array_with;
      fd_events_fixed_pool = (FixedPool.pop c.fd_events_fixed_pool).1;
    },
    rw not_full (
        rw (register-registered c.event_array ev v fresh room)
          (rw (ap (λ x. x.0) (pop-empty c.fd_events_fixed_pool h)) refl)),
    (register-Watches c.event_array ev v fresh room ev).1 (inr refl),
    refl,
  )

  module _ (p : ℕ) (items : List ℕ) (h : Holds c.fd_events_fixed_pool (items ++ p ∷ [])) where
    abbrev entries : FdEvents
    entries = new_fd_events ev (array_with.events ev).fd t

    abbrev added : KqueueCtx W
    added = record {
      fd_events_fixed_pool = (FixedPool.pop c.fd_events_fixed_pool).1;
      fd_events = update c.fd_events p entries;
      event_array =
          with_events array_with
            (update array_with.events ev (record (array_with.events ev) { uevent = some p }));
      world = kevent (entries.on_read ∷ entries.on_write ∷ []) c.world;
    }

    kqueue_add-added : kqueue_add kevent ev t c ≡ some (true, added)
    unfolding kqueue_add
    kqueue_add-added = rw not_full (
        rw (register-registered c.event_array ev v fresh room)
          (rw (pop-last c.fd_events_fixed_pool items p h).0 refl))

    same_index : (q : ℕ) → (added.event_array.events q).index ≡ (array_with.events q).index
    same_index q = ground arith

    valid : IsValid added.event_array
    valid =
        same_places-IsValid array_with added.event_array.events same_index
          (register-IsValid c.event_array ev v fresh room)

    added-Watches : (q : ℕ) → Watches added.event_array q ↔ (Watches c.event_array q ⊎ (q ≡ ev))
    added-Watches q =
        let kept = same_places-Watches array_with added.event_array.events same_index q in
        let new = register-Watches c.event_array ev v fresh room q in
        (λ w. new.0 (kept.0 w), λ e. kept.1 (new.1 e))

    watched : Watches added.event_array ev
    watched = (added-Watches ev).1 (inr refl)

    known : (added.event_array.events ev).uevent ≡ some p
    known = ap (λ (e : GnbEvent). e.uevent) (update_self array_with.events ev _)

    space : length items < added.fd_events_fixed_pool.array_len
    space =
        omega (arith, pop-array_len c.fd_events_fixed_pool, h.size, length-append items (p ∷ []))

    back_as_before : (q : ℕ) → (Watches added.event_array q × (q ≢ ev)) ↔ Watches c.event_array q
    back_as_before q = (
      λ (w : Watches added.event_array q × (q ≢ ev)). elim ((added-Watches q).0 w.0) [
        | inl old ↦ old
        | inr same ↦ absurd (w.1 same)
      ],
      λ (old : Watches c.event_array q).
          ((added-Watches q).1 (inl old), λ same. fresh (subst (Watches c.event_array) same old)),
    )

    abbrev left : EventArray
    left = (unregister-set added.event_array ev valid watched).0

    abbrev gone : FdEvents
    gone = record {
      on_read = record (added.fd_events p).on_read { flags = ev_delete };
      on_write = record (added.fd_events p).on_write { flags = ev_delete };
    }

    abbrev deleted : KqueueCtx W
    deleted = record {
      fd_events_fixed_pool = (FixedPool.push added.fd_events_fixed_pool (some p)).1;
      fd_events = update added.fd_events p gone;
      event_array = left;
      world = kevent (gone.on_read ∷ gone.on_write ∷ []) added.world;
    }

    kqueue_del-deleted : kqueue_del kevent ev added ≡ some deleted
    unfolding kqueue_del
    kqueue_del-deleted = rw (unregister-set added.event_array ev valid watched).1 (rw known refl)

    -- For a valid array with room, an event that is not watched, and a pool that holds blocks of
    -- which p is the last: add_event of the kqueue handler returns 0, the event is watched, its
    -- entry for reading is enabled whatever the type says and that for writing when the type asks
    -- for it; del_event then gives the block back, and the pool and the set of the watched events
    -- are as before.
    pub kqueue_del-add :
        (d e : KqueueCtx W) × (kqueue_add kevent ev t c ≡ some (true, d))
        × ((d.fd_events p).on_read.flags ≡ ev_add + ev_enable)
        × ((d.fd_events p).on_write.flags
            ≡ (if has_bit type_write t then ev_add + ev_enable else ev_add + ev_disable))
        × IsValid d.event_array
        × ((q : ℕ) → Watches d.event_array q ↔ (Watches c.event_array q ⊎ (q ≡ ev)))
        × (kqueue_del kevent ev d ≡ some e)
        × Holds e.fd_events_fixed_pool (items ++ p ∷ [])
        × IsValid e.event_array
        × ((q : ℕ) → Watches e.event_array q ↔ Watches c.event_array q)
    unfolding new_fd_events
    kqueue_del-add =
        let gone = unregister-set added.event_array ev valid watched in
        let at = update_self c.fd_events p entries in
        (
          added,
          deleted,
          kqueue_add-added,
          ap (λ (e : FdEvents). e.on_read.flags) at,
          ap (λ (e : FdEvents). e.on_write.flags) at,
          valid,
          added-Watches,
          kqueue_del-deleted,
          (push-snoc added.fd_events_fixed_pool items p
              (pop-last c.fd_events_fixed_pool items p h).1 space).1,
          gone.2,
          λ q. (
            λ w. (back_as_before q).0 ((gone.3 q).0 w),
            λ w. (gone.3 q).1 ((back_as_before q).1 w),
          ),
        )
