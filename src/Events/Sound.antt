-- ===== src/Events/Sound.antt =====
-- src/event/select_event_handler.c: the sets of descriptors and `maxfd` as events come and go.
use gnb_udp_over_tcp.Prelude.{
  ℕ, ◌+◌, ◌≤◌, ◌<◌, ◌≡◌, refl, sym, ap, ◌∙◌, ◌≢◌, ◌↔◌, ◌⊎◌, inl, inr, Bool, true, false, none, some,
  ltb, leb, if◌then◌else◌, get_elem?, update, arith, Bool-cases, Option-cases, lt→ltb,
}
use gnb_udp_over_tcp.Network.{type_read, type_write, has_bit}
use gnb_udp_over_tcp.Events.{GnbEvent, EventArray, register}
use gnb_udp_over_tcp.Events.Registry.{
  IsValid, Watches, registered, register-registered, register-IsValid, register-Watches,
}
use gnb_udp_over_tcp.Events.Unregister.{unregister-set}
use gnb_udp_over_tcp.Events.Select.{FdSet, SelectCtx, fd_put, select_add, select_del}

-- `maxfd` is not below the descriptor of any watched event.
pub record IsSound (c : SelectCtx) : Type 0 where
  pub valid : IsValid c.event_array
  pub covered : (q : ℕ) → Watches c.event_array q → (c.event_array.events q).fd < c.nfds

-- A change of the events that keeps their places keeps the array.
abbrev pub with_events : EventArray → (ℕ → GnbEvent) → EventArray
with_events a events = record a { events = events }

pub same_places-IsValid :
    (a : EventArray) (events : ℕ → GnbEvent)
    → ((q : ℕ) → (events q).index ≡ (a.events q).index)
    → IsValid a
    → IsValid (with_events a events)
same_places-IsValid a events same v = record {
  room = v.room;
  block = v.block;
  entry = λ i h. let (p, found, at) = v.entry i h in (p, found, same p ∙ at);
}

pub same_places-Watches :
    (a : EventArray) (events : ℕ → GnbEvent)
    → ((q : ℕ) → (events q).index ≡ (a.events q).index)
    → (q : ℕ) → Watches (with_events a events) q ↔ Watches a q
same_places-Watches a events same q = (
  λ (w : Watches (with_events a events) q).
      (omega (arith, w.0, same q), ap (λ n. get_elem? a.list n) (sym (same q)) ∙ w.1),
  λ (w : Watches a q). (omega (arith, w.0, same q), ap (λ n. get_elem? a.list n) (same q) ∙ w.1),
)

-- A set with one descriptor put in or taken out, if the test holds.
abbrev put_if : Bool → Bool → ℕ → FdSet → FdSet
put_if true value fd set = update set fd value
put_if false value fd set = set

fd_put-inside :
    (fd_setsize : ℕ) (test value : Bool) (fd : ℕ) (set : FdSet)
    → fd < fd_setsize
    → fd_put fd_setsize test value fd set ≡ some (put_if test value fd set)
unfolding fd_put
fd_put-inside fd_setsize true value fd set h = rw (lt→ltb _ _ h)
fd_put-inside fd_setsize false value fd set h = refl

module _ (fd_setsize : ℕ) (c : SelectCtx) (ev ev_type : ℕ) (s : IsSound c)
    (fresh : Watches c.event_array ev → ⊥) where
  open c use {event_array}

  abbrev array_with : EventArray
  array_with = registered event_array ev s.valid fresh

  abbrev fd : ℕ
  fd = (event_array.events ev).fd

  abbrev added : SelectCtx
  added = record {
    nfds = if ltb c.nfds (fd + 1) then fd + 1 else c.nfds;
    readfd_set = put_if (has_bit type_read ev_type) true fd c.readfd_set;
    writefd_set = put_if (has_bit type_write ev_type) true fd c.writefd_set;
    exceptfd_set = update c.exceptfd_set fd true;
    event_array =
        with_events array_with
          (update array_with.events ev (record (array_with.events ev) { uevent = some ev }));
  }

  select_add-added :
      event_array.nevent < event_array.size
      → fd < fd_setsize
      → select_add fd_setsize ev ev_type c ≡ some (true, added)
  unfolding select_add
  select_add-added room inside =
      let below : leb event_array.size event_array.nevent ≡ false = ground arith in
      rw below (
        rw (register-registered event_array ev s.valid fresh room) (
          rw (fd_put-inside fd_setsize (has_bit type_read ev_type) true fd c.readfd_set inside) (
            rw (fd_put-inside fd_setsize (has_bit type_write ev_type) true fd c.writefd_set inside)
              (rw (fd_put-inside fd_setsize true true fd c.exceptfd_set inside) refl))))

  same_fd : (q : ℕ) → (added.event_array.events q).fd ≡ (event_array.events q).fd
  unfolding registered
  same_fd q = ground arith

  same_index : (q : ℕ) → (added.event_array.events q).index ≡ (array_with.events q).index
  same_index q = ground arith

  added-Watches :
      event_array.nevent < event_array.size
      → (q : ℕ) → Watches added.event_array q ↔ (Watches event_array q ⊎ (q ≡ ev))
  added-Watches room q =
      let kept = same_places-Watches array_with added.event_array.events same_index q in
      let new = register-Watches event_array ev s.valid fresh room q in
      (λ w. new.0 (kept.0 w), λ e. kept.1 (new.1 e))

  nfds_grows : (c.nfds ≤ added.nfds) × (fd < added.nfds)
  nfds_grows = ground arith

  added-covered :
      event_array.nevent < event_array.size
      → (q : ℕ) → Watches added.event_array q
      → (added.event_array.events q).fd < added.nfds
  added-covered room q w = elim ((added-Watches room q).0 w) [
    | inl old ↦ omega (arith, s.covered q old, same_fd q, nfds_grows.0)
    | inr new ↦ omega (arith, same_fd q, nfds_grows.1, ap (λ x. (event_array.events x).fd) new)
  ]

  -- For a sound context of the select handler (the array is valid and maxfd is not below the
  -- descriptor of a watched event), an event that is not watched, room in the array and a
  -- descriptor below FD_SETSIZE: add_event returns 0 and a sound context that watches this event
  -- and those from before, and puts the descriptor into the sets for reading and writing that the
  -- type asks for.
  pub select_add-IsSound :
      event_array.nevent < event_array.size
      → fd < fd_setsize
      → (d : SelectCtx) × (select_add fd_setsize ev ev_type c ≡ some (true, d))
        × IsSound d
        × ((q : ℕ) → Watches d.event_array q ↔ (Watches event_array q ⊎ (q ≡ ev)))
        × (d.readfd_set ≡ put_if (has_bit type_read ev_type) true fd c.readfd_set)
        × (d.writefd_set ≡ put_if (has_bit type_write ev_type) true fd c.writefd_set)
  select_add-IsSound room inside = (
    added,
    select_add-added room inside,
    record {
      valid =
          same_places-IsValid array_with added.event_array.events same_index
            (register-IsValid event_array ev s.valid fresh room);
      covered = added-covered room;
    },
    added-Watches room,
    refl,
    refl,
  )

-- A descriptor from FD_SETSIZE on.
pub select_add-outside :
    (fd_setsize : ℕ) (c : SelectCtx) (ev ev_type : ℕ)
    → c.event_array.nevent < c.event_array.size
    → fd_setsize ≤ (c.event_array.events ev).fd
    → select_add fd_setsize ev ev_type c ≡ none
unfolding select_add fd_put
select_add-outside fd_setsize c ev ev_type room outside =
    let below : leb c.event_array.size c.event_array.nevent ≡ false = ground arith in
    let over : ltb (c.event_array.events ev).fd fd_setsize ≡ false = ground arith in
    rw (below, over)
      (elim (Option-cases (register ev c.event_array)) [
        | inl e ↦ rw e refl
        | inr (a, e) ↦ rw e (elim (Bool-cases (has_bit type_read ev_type)) [
          | inl r ↦ rw (r, over) refl
          | inr r ↦ elim (Bool-cases (has_bit type_write ev_type)) [
            | inl w ↦ rw (r, w, over) refl
            | inr w ↦ rw (r, w) refl
          ]
        ])
      ])

module _ (fd_setsize : ℕ) (c : SelectCtx) (ev : ℕ) (s : IsSound c)
    (w : Watches c.event_array ev) where
  open c use {event_array}

  abbrev left : EventArray
  left = (unregister-set event_array ev s.valid w).0

  abbrev old_fd : ℕ
  old_fd = (left.events ev).fd

  same : (q : ℕ) → (left.events q).fd ≡ (event_array.events q).fd
  same = (unregister-set event_array ev s.valid w).4

  abbrev removed : SelectCtx
  removed = record c {
    readfd_set = update c.readfd_set old_fd false;
    writefd_set = update c.writefd_set old_fd false;
    exceptfd_set = update c.exceptfd_set old_fd false;
    event_array = left;
  }

  select_del-removed : old_fd < fd_setsize → select_del fd_setsize ev c ≡ some removed
  unfolding select_del
  select_del-removed inside = rw (unregister-set event_array ev s.valid w).1 (
      rw (fd_put-inside fd_setsize true false old_fd c.readfd_set inside) (
        rw (fd_put-inside fd_setsize true false old_fd c.writefd_set inside)
          (rw (fd_put-inside fd_setsize true false old_fd c.exceptfd_set inside) refl)))

  -- For a sound context of the select handler and an event that it watches, with a descriptor
  -- below FD_SETSIZE: del_event returns and leaves a sound context that watches the events from
  -- before but this one, and takes its descriptor out of the three sets.
  pub select_del-IsSound :
      (event_array.events ev).fd < fd_setsize
      → (d : SelectCtx) × (select_del fd_setsize ev c ≡ some d)
        × IsSound d
        × ((q : ℕ) → Watches d.event_array q ↔ (Watches event_array q × (q ≢ ev)))
        × (d.readfd_set ≡ update c.readfd_set (event_array.events ev).fd false)
        × (d.writefd_set ≡ update c.writefd_set (event_array.events ev).fd false)
        × (d.exceptfd_set ≡ update c.exceptfd_set (event_array.events ev).fd false)
  select_del-IsSound inside =
      let set = unregister-set event_array ev s.valid w in
      (
        removed,
        select_del-removed (omega (arith, same ev)),
        record {
          valid = set.2;
          covered = λ q still. omega (arith, same q, s.covered q ((set.3 q).0 still).0);
        },
        set.3,
        ap (λ fd. update c.readfd_set fd false) (same ev),
        ap (λ fd. update c.writefd_set fd false) (same ev),
        ap (λ fd. update c.exceptfd_set fd false) (same ev),
      )
