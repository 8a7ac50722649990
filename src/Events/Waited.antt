-- ===== src/Events/Waited.antt =====
-- src/event/epoll_event_handler.c: what `epoll_wait` reports as the `ev_type` of the events.
use gnb_udp_over_tcp.Prelude.{
  ℕ, ◌≡◌, refl, ap, ◌∙◌, Bool, true, false, ◌||◌, some, List, [], ◌∷◌, ◌++◌, update, arith,
  update_self, update_ne, ℕ_discrete,
}
use gnb_udp_over_tcp.Network.{type_read, type_write, type_eof, type_error, has_bit}
use gnb_udp_over_tcp.Events.{GnbEvent}
use gnb_udp_over_tcp.Events.Handed.{listed}
use gnb_udp_over_tcp.Events.Epoll.{
  EpollEvent, EpollCtx, epoll_in, epoll_out, epoll_err, epoll_hup, epoll_rdhup, wait_type,
  type_of_mask, hand_out, epoll_get,
}

-- A bit of the type for each of the reported bits.
abbrev Bits : (rdhup hup err in_bit out_bit : Bool) → ℕ → Type 0
Bits rdhup hup err in_bit out_bit t =
    (has_bit type_eof t ≡ rdhup)
    × (has_bit type_error t ≡ (hup || err))
    × (has_bit type_read t ≡ in_bit)
    × (has_bit type_write t ≡ out_bit)

wait_type-Bits : (a b c d e : Bool) → Bits a b c d e (wait_type a b c d e)
unfolding wait_type
wait_type-Bits a b c d e = (ground arith, ground arith, ground arith, ground arith)

-- What `epoll_wait` reports, as pairs of an event and its bits.
abbrev reported : List (ℕ × ℕ) → List EpollEvent
reported [] = []
reported ((p, m) ∷ es) = record { events = m; ptr = some p } ∷ reported es

abbrev pub in_order : List (ℕ × ℕ) → List ℕ
in_order [] = []
in_order ((p, m) ∷ es) = p ∷ in_order es

with_type : ℕ → GnbEvent → GnbEvent
with_type m e = record e { ev_type = type_of_mask m }

assign : List (ℕ × ℕ) → (ℕ → GnbEvent) → ℕ → GnbEvent
assign [] events = events
assign ((p, m) ∷ es) events = assign es (update events p (with_type m (events p)))

hand_out-assign :
    (es : List (ℕ × ℕ)) (events : ℕ → GnbEvent)
    → hand_out (reported es) events ≡ some (in_order es, assign es events)
unfolding hand_out assign with_type
hand_out-assign [] events = refl
hand_out-assign ((p, m) ∷ es) events = rw (hand_out-assign es _) refl

with_type-update :
    (m k p q : ℕ) (events : ℕ → GnbEvent)
    → with_type m (update events p (with_type k (events p)) q) ≡ with_type m (events q)
unfolding with_type
with_type-update m k p q events = ground arith

assign-kept :
    (es : List (ℕ × ℕ)) (events : ℕ → GnbEvent) (q : ℕ)
    → listed q (in_order es) ≡ false
    → assign es events q ≡ events q
unfolding assign
assign-kept [] events q h = refl
assign-kept ((p, m) ∷ es) events q h = elim (ℕ_discrete q p) [
  | yes same ↦ absurd (let e : listed q (in_order ((p, m) ∷ es)) ≡ true = ground arith in cc)
  | no other ↦ assign-kept es _ q (ground arith) ∙ update_ne events (with_type m (events p)) q other
]

assign-last :
    (before after : List (ℕ × ℕ)) (events : ℕ → GnbEvent) (q m : ℕ)
    → listed q (in_order after) ≡ false
    → assign (before ++ (q, m) ∷ after) events q ≡ with_type m (events q)
unfolding assign
assign-last [] after events q m h =
    assign-kept after _ q h ∙ update_self events q (with_type m (events q))
assign-last ((p, k) ∷ before) after events q m h =
    assign-last before after _ q m h ∙ with_type-update m k p q events

-- For an answer of epoll_wait whose entries point to events: get_event of the epoll handler
-- returns 0 and the events in the order of the entries; an event has got from its last entry the
-- bit for EOF when EPOLLRDHUP is reported, for an error when EPOLLHUP or EPOLLERR is, for reading
-- when EPOLLIN is and for writing when EPOLLOUT is, and its other fields stay, as do the events
-- without an entry.
pub epoll_get-types :
    {W : Type 0} (c : EpollCtx W) (es : List (ℕ × ℕ))
    → (events : ℕ → GnbEvent) × (epoll_get (some (reported es)) c
        ≡ some (0, in_order es, record c { events = events }))
      × ((before after : List (ℕ × ℕ)) (q m : ℕ)
          → es ≡ before ++ (q, m) ∷ after
          → listed q (in_order after) ≡ false
          → (t : ℕ) × (events q ≡ record (c.events q) { ev_type = t })
            × Bits
                (has_bit epoll_rdhup m)
                (has_bit epoll_hup m)
                (has_bit epoll_err m)
                (has_bit epoll_in m)
                (has_bit epoll_out m)
                t)
      × ((q : ℕ) → listed q (in_order es) ≡ false → events q ≡ c.events q)
unfolding epoll_get type_of_mask with_type
epoll_get-types c es = (
  assign es c.events,
  rw (hand_out-assign es c.events) refl,
  λ before after q m e h. (
    type_of_mask m,
    ap (λ l. assign l c.events q) e ∙ assign-last before after c.events q m h,
    wait_type-Bits _ (has_bit epoll_hup m) (has_bit epoll_err m) _ _,
  ),
  λ q. assign-kept es c.events q,
)
