-- ===== src/Events/Unregister.antt =====
-- src/event/select_event_handler.c and kqueue_event_handler.c: an event leaves the array, and the
-- last one takes its place.
use gnb_udp_over_tcp.Prelude.{
  ℕ, ◌-◌, ◌<◌, ◌≡◌, refl, sym, ap, ◌∙◌, ◌≢◌, ◌↔◌, true, false, some, ltb, ◌==◌, length, get_elem?,
  set, update, update_self, update_ne, subst, arith, ℕ_discrete, length-set, get_elem?-set_self,
  get_elem?-set_ne, lt→ltb,
}
use gnb_udp_over_tcp.Events.{EventArray, load_event, store_event, unregister}
use gnb_udp_over_tcp.Events.Registry.{IsValid, Watches, some_injective, entry-index, entry-Watches}

module _ (a : EventArray) (ev last : ℕ) (v : IsValid a) (watched : Watches a ev)
    (at_end : get_elem? a.list (a.nevent - 1) ≡ some (some last)) where
  -- The array with the last event in the place of `ev`.
  unfoldable pub unregistered : EventArray
  unregistered = record a {
    list = set a.list (a.events ev).index (some last);
    nevent = a.nevent - 1;
    events = update a.events last (record (a.events last) { index = (a.events ev).index });
  }

  pub unregister-unregistered : unregister ev a ≡ some unregistered
  unfolding unregister load_event store_event unregistered
  unregister-unregistered =
      let inside : ltb (a.events ev).index (length a.list) ≡ true =
        lt→ltb _ _ (omega (arith, v.room, v.block, watched.0)) in
      let some_left : (a.nevent == 0) ≡ false = ground (arith, watched.0) in
      let known : ltb a.nevent (a.events ev).index ≡ false = ground (arith, watched.0) in
      rw some_left (rw known (rw at_end (rw inside refl)))

  last_index : (a.events last).index ≡ a.nevent - 1
  last_index = entry-index a v (a.nevent - 1) last (omega (arith, watched.0)) at_end

  same_at :
      (i p q : ℕ) → get_elem? a.list i ≡ some (some p) → get_elem? a.list i ≡ some (some q) → p ≡ q
  same_at i p q e f = some_injective (some_injective (sym e ∙ f))

  filled : get_elem? unregistered.list (a.events ev).index ≡ some (some last)
  unfolding unregistered
  filled = get_elem?-set_self a.list _ (some last) (omega (arith, v.room, v.block, watched.0))

  kept_entry :
      (i q : ℕ) → i ≢ (a.events ev).index → get_elem? unregistered.list i ≡ get_elem? a.list i
  unfolding unregistered
  kept_entry i q h = get_elem?-set_ne a.list (some last) (λ e. h (sym e))

  moved_index : (unregistered.events last).index ≡ (a.events ev).index
  unfolding unregistered
  moved_index = ap (λ x. x.index) (update_self a.events last _)

  kept_index : (q : ℕ) → q ≢ last → (unregistered.events q).index ≡ (a.events q).index
  unfolding unregistered
  kept_index q h = ap (λ x. x.index) (update_ne a.events _ q h)

  kept_fd : (q : ℕ) → (unregistered.events q).fd ≡ (a.events q).fd
  unfolding unregistered
  kept_fd q = ground arith

  fewer : unregistered.nevent ≡ a.nevent - 1
  unfolding unregistered
  fewer = refl

  left_entry :
      (i : ℕ)
      → i < a.nevent - 1
      → (p : ℕ) × (get_elem? unregistered.list i ≡ some (some p))
        × ((unregistered.events p).index ≡ i)
  left_entry i h = elim (ℕ_discrete i (a.events ev).index) [
    | yes at ↦ (last, rw at filled, moved_index ∙ sym at)
    | no other ↦
        let (p, found, at) = v.entry i (omega arith) in
        let apart : p ≢ last =
          λ e. absurd (omega (arith, last_index, at, ap (λ x. (a.events x).index) e)) in
        (p, kept_entry i p other ∙ found, kept_index p apart ∙ at)
  ]

  pub unregister-IsValid : IsValid unregistered
  unregister-IsValid = record {
    room = unfold unregistered in (omega (arith, v.room));
    block =
        unfold unregistered in
        (omega (arith, v.block, length-set a.list (a.events ev).index (some last)));
    entry = λ i k. left_entry i (omega (arith, fewer));
  }

  still_there : (q : ℕ) → Watches a q → q ≢ ev → Watches unregistered q
  still_there q w other = elim (ℕ_discrete q last) [
    | yes e ↦
        let apart : (a.events ev).index ≢ a.nevent - 1 =
          λ at. other (e ∙ same_at _ last ev (rw at at_end) watched.1) in
        subst (Watches unregistered) (sym e) (
          entry-Watches unregistered unregister-IsValid (a.events ev).index last
            (omega (arith, fewer, watched.0, apart)) filled)
    | no e ↦
        let apart : (a.events q).index ≢ (a.events ev).index =
          λ at. other (same_at (a.events ev).index q ev (rw at at w.1) watched.1) in
        let below : (a.events q).index ≢ a.nevent - 1 =
          λ at. e (same_at (a.nevent - 1) q last (rw at at w.1) at_end) in
        entry-Watches unregistered unregister-IsValid (a.events q).index q
          (omega (arith, fewer, w.0, below)) (kept_entry _ q apart ∙ w.1)
  ]

  was_there : (q : ℕ) → Watches unregistered q → Watches a q × (q ≢ ev)
  was_there q w = elim (ℕ_discrete q last) [
    | yes e ↦
        let at : (unregistered.events q).index ≡ (a.events ev).index =
          ap (λ x. (unregistered.events x).index) e ∙ moved_index in
        (
          subst (Watches a) (sym e) (omega (arith, last_index, watched.0), rw last_index at_end),
          λ same. absurd (
              omega (
                arith,
                w.0,
                at,
                fewer,
                last_index,
                watched.0,
                ap (λ x. (a.events x).index) (sym e ∙ same),
              )),
        )
    | no e ↦
        let at = kept_index q e in
        let found : get_elem? unregistered.list (a.events q).index ≡ some (some q) =
          ap (λ n. get_elem? unregistered.list n) (sym at) ∙ w.1 in
        let apart : (a.events q).index ≢ (a.events ev).index = λ same. e (
          some_injective
            (some_injective (sym found ∙ ap (λ n. get_elem? unregistered.list n) same ∙ filled))) in
        (
          (omega (arith, w.0, at, fewer), sym (kept_entry _ q apart) ∙ found),
          λ same. apart (ap (λ x. (a.events x).index) same),
        )
  ]

-- What unregister does to the set of the watched events.
pub unregister-set :
    (a : EventArray) (ev : ℕ)
    → IsValid a
    → Watches a ev
    → (b : EventArray) × (unregister ev a ≡ some b)
      × IsValid b
      × ((q : ℕ) → Watches b q ↔ (Watches a q × (q ≢ ev)))
      × ((q : ℕ) → (b.events q).fd ≡ (a.events q).fd)
unregister-set a ev v w =
    let (last, at_end, at) = v.entry (a.nevent - 1) (omega (arith, w.0)) in
    (
      unregistered a ev last v w at_end,
      unregister-unregistered a ev last v w at_end,
      unregister-IsValid a ev last v w at_end,
      λ q. (
        was_there a ev last v w at_end q,
        λ (both : Watches a q × (q ≢ ev)). still_there a ev last v w at_end q both.0 both.1,
      ),
      kept_fd a ev last v w at_end,
    )

-- For an array with at least one event and one free place, and an event whose index is nevent, as
-- it is for the last event once it was deleted: deleting it takes the event at the last place out
-- of the array.
pub unregister-stale :
    (a : EventArray) (ev q : ℕ)
    → 0 < a.nevent
    → a.nevent < length a.list
    → (a.events ev).index ≡ a.nevent
    → get_elem? a.list (a.nevent - 1) ≡ some (some q)
    → (b : EventArray) × (unregister ev a ≡ some b) × (Watches b q → ⊥)
unfolding unregister load_event store_event
unregister-stale a ev q h inside stale at_end =
    let some_left : (a.nevent == 0) ≡ false = ground arith in
    let known : ltb a.nevent (a.events ev).index ≡ false = ground arith in
    let fits : ltb (a.events ev).index (length a.list) ≡ true = lt→ltb _ _ (omega arith) in
    let moved = update_self a.events q (record (a.events q) { index = (a.events ev).index }) in
    (
      record a {
        list = set a.list (a.events ev).index (some q);
        nevent = a.nevent - 1;
        events = update a.events q (record (a.events q) { index = (a.events ev).index });
      },
      rw some_left (rw known (rw at_end (rw fits refl))),
      λ w. absurd (omega (arith, w.0, ap (λ x. x.index) moved)),
    )
