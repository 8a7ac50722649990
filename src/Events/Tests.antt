-- ===== src/Events/Tests.antt =====
-- The event handlers at concrete inputs.
use gnb_udp_over_tcp.Prelude.{
  ℕ, zero, suc, ◌+◌, ◌<◌, ◌≡◌, refl, ◌≢◌, ◌↔◌, ◌⊎◌, true, false, ◌||◌, Option, none, some, ◌∷◌,
  ◌==◌, get_elem?, replicate, update, arith, sym, ap, ◌∙◌, ℕ_discrete, ◌>>=◌,
}
use gnb_udp_over_tcp.Network.{type_read}
use gnb_udp_over_tcp.Events.{GnbEvent, EventArray, unregister, load_event, store_event}
use gnb_udp_over_tcp.Events.Registry.{IsValid, Watches}
use gnb_udp_over_tcp.Events.Unregister.{unregister-stale}
use gnb_udp_over_tcp.Events.Select.{SelectCtx, select_add, select_del}
use gnb_udp_over_tcp.Events.Sound.{IsSound, select_add-IsSound, select_del-IsSound}

-- The descriptor of the event at `p` is `p + 3`.
abbrev pub idle_events : ℕ → GnbEvent
idle_events p = record { fd = p + 3; ev_type = 0; index = 0; uevent = none }

-- Two events of four are watched, 7 and 9.
abbrev pub two_watched : EventArray
two_watched = record {
  size = 4;
  nevent = 2;
  list = some 7 ∷ some 9 ∷ replicate 14 none;
  events = update idle_events 9 (record (idle_events 9) { index = 1 });
}

two_watched-entry :
    (i : ℕ)
    → i < 2
    → (p : ℕ) × (get_elem? two_watched.list i ≡ some (some p)) × ((two_watched.events p).index ≡ i)
two_watched-entry zero h = (7, refl, refl)
two_watched-entry (suc zero) h = (9, refl, refl)
two_watched-entry (suc (suc i)) h = absurd (omega arith)

pub two_watched-IsValid : IsValid two_watched
two_watched-IsValid = record { room = omega arith; block = omega arith; entry = two_watched-entry }

-- After a first event is deleted, deleting it again takes the other one out of the array.
deleted_twice :
    (unregister 9 two_watched >>= unregister 9)
    ≡ some (record two_watched {
      nevent = 0;
      list = some 7 ∷ some 7 ∷ replicate 14 none;
      events =
          update
            (update two_watched.events 9 (record (two_watched.events 9) { index = 1 }))
            7
            (record (idle_events 7) { index = 1 });
    })
unfolding unregister load_event store_event
deleted_twice = refl

slot_injective : (p q : ℕ) → ◌≡◌ {A = Option (Option ℕ)} (some (some p)) (some (some q)) → p ≡ q
slot_injective p q e = cc

two_watched-covered : (q : ℕ) → Watches two_watched q → (two_watched.events q).fd < 13
two_watched-covered q w =
    let fd : (two_watched.events q).fd ≡ q + 3 = ground arith in
    elim (ℕ_discrete (two_watched.events q).index 0) [
      | yes at ↦
          let same : 7 ≡ q =
            slot_injective _ q (ap (λ n. get_elem? two_watched.list n) (sym at) ∙ w.1) in
          omega (arith, fd)
      | no other ↦
          let last : (two_watched.events q).index ≡ 1 = omega (arith, w.0) in
          let same : 9 ≡ q =
            slot_injective _ q (ap (λ n. get_elem? two_watched.list n) (sym last) ∙ w.1) in
          omega (arith, fd)
    ]

-- The event 4 was deleted before and keeps its index.
abbrev stale_array : EventArray
stale_array = record two_watched {
  events = update two_watched.events 4 (record (idle_events 4) { index = 2 });
}

pub not_watched : Watches two_watched 4 → ⊥
not_watched w = absurd (let same : ◌≡◌ {A = ℕ} 7 4 = slot_injective 7 4 w.1 in omega arith)

abbrev pub context : SelectCtx
context = record {
  nfds = 13;
  readfd_set = λ fd. fd == 10;
  writefd_set = λ fd. fd == 12;
  exceptfd_set = λ fd. fd == 10 || fd == 12;
  event_array = two_watched;
}

context-IsSound : IsSound context
context-IsSound = record { valid = two_watched-IsValid; covered = two_watched-covered }

select_add-IsSound_example :
    (d : SelectCtx) × (select_add 1024 4 type_read context ≡ some (true, d))
    × IsSound d
    × ((q : ℕ) → Watches d.event_array q ↔ (Watches two_watched q ⊎ (q ≡ 4)))
    × (d.readfd_set ≡ update context.readfd_set 7 true)
    × (d.writefd_set ≡ context.writefd_set)
select_add-IsSound_example =
    select_add-IsSound 1024 context 4 type_read context-IsSound not_watched (omega arith)
      (omega arith)

watched : Watches two_watched 9
watched = (omega arith, refl)

select_del-IsSound_example :
    (d : SelectCtx) × (select_del 1024 9 context ≡ some d)
    × IsSound d
    × ((q : ℕ) → Watches d.event_array q ↔ (Watches two_watched q × (q ≢ 9)))
    × (d.readfd_set ≡ update context.readfd_set 12 false)
    × (d.writefd_set ≡ update context.writefd_set 12 false)
    × (d.exceptfd_set ≡ update context.exceptfd_set 12 false)
select_del-IsSound_example = select_del-IsSound 1024 context 9 context-IsSound watched (omega arith)

unregister-stale_example :
    (b : EventArray) × (unregister 4 (stale_array) ≡ some b) × (Watches b 9 → ⊥)
unregister-stale_example = unregister-stale stale_array 4 9 (omega arith) (omega arith) refl refl
