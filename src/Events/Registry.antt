-- ===== src/Events/Registry.antt =====
-- src/event/select_event_handler.c and kqueue_event_handler.c: the array of the watched events as a
-- set of events.
use gnb_udp_over_tcp.Prelude.{
  ℕ, ◌+◌, ◌≤◌, ◌<◌, ◌≡◌, refl, sym, ap, ◌∙◌, ◌≢◌, ◌↔◌, ◌⊎◌, inl, inr, some, length, get_elem?, set,
  update, update_self, update_ne, subst, arith, ℕ_discrete, length-set, get_elem?-set_self,
  get_elem?-set_ne, lt→ltb,
}
use gnb_udp_over_tcp.Events.{EventArray, store_event, register}

-- An event knows its place in the array, and the first `nevent` places are taken.
pub record IsValid (a : EventArray) : Type 0 where
  pub room : a.nevent ≤ a.size
  pub block : a.size ≤ length a.list
  pub entry :
      (i : ℕ)
      → i < a.nevent
      → (p : ℕ) × (get_elem? a.list i ≡ some (some p)) × ((a.events p).index ≡ i)

-- The event is among the first `nevent` of the array.
abbrev pub Watches : EventArray → ℕ → Type 0
Watches a p =
    ((a.events p).index < a.nevent) × (get_elem? a.list (a.events p).index ≡ some (some p))

pub some_injective {ℓ} : {A : Type ℓ} {x y : A} → some x ≡ some y → x ≡ y
some_injective e = cc

-- What stands in the array is watched.
pub entry-index :
    (a : EventArray)
    → IsValid a
    → (i p : ℕ) → i < a.nevent
    → get_elem? a.list i ≡ some (some p)
    → (a.events p).index ≡ i
entry-index a v i p h e =
    let (q, found, at) = v.entry i h in
    let same : p ≡ q = some_injective (some_injective (sym e ∙ found)) in
    ap (λ x. (a.events x).index) same ∙ at

-- What stands in the array is watched.
pub entry-Watches :
    (a : EventArray)
    → IsValid a
    → (i p : ℕ) → i < a.nevent
    → get_elem? a.list i ≡ some (some p)
    → Watches a p
entry-Watches a v i p h e =
    let at : (a.events p).index ≡ i = entry-index a v i p h e in
    (omega arith, ap (λ n. get_elem? a.list n) at ∙ e)

module _ (a : EventArray) (ev : ℕ) (v : IsValid a) (fresh : Watches a ev → ⊥) where
  -- The array with `ev` behind the last entry.
  unfoldable pub registered : EventArray
  registered = record a {
    list = set a.list a.nevent (some ev);
    nevent = a.nevent + 1;
    events = update a.events ev (record (a.events ev) { index = a.nevent });
  }

  pub register-registered : a.nevent < a.size → register ev a ≡ some registered
  unfolding register store_event registered
  register-registered h =
      let inside : a.nevent < length a.list = omega (arith, v.block) in rw (lt→ltb _ _ inside)

  -- The entry at a place below keeps its index.
  old_index :
      (i p : ℕ)
      → i < a.nevent
      → get_elem? a.list i ≡ some (some p)
      → (registered.events p).index ≡ i
  unfolding registered
  old_index i p h e = elim (ℕ_discrete p ev) [
    | yes same ↦ absurd (fresh (subst (Watches a) same (entry-Watches a v i p h e)))
    | no other ↦ ap (λ x. x.index) (update_ne a.events _ p other) ∙ entry-index a v i p h e
  ]

  old_entry :
      (i : ℕ)
      → i < a.nevent
      → (p : ℕ) × (get_elem? registered.list i ≡ some (some p)) × ((registered.events p).index ≡ i)
  unfolding registered
  old_entry i h =
      let (p, found, at) = v.entry i h in
      let apart : a.nevent ≢ i = λ e. absurd (omega arith) in
      (p, get_elem?-set_ne a.list _ apart ∙ found, old_index i p h found)

  new_entry :
      (i : ℕ)
      → i ≡ a.nevent
      → a.nevent < a.size
      → (get_elem? registered.list i ≡ some (some ev)) × ((registered.events ev).index ≡ i)
  unfolding registered
  new_entry i e h = (
    rw e (get_elem?-set_self a.list a.nevent (some ev) (omega (arith, v.block))),
    ap (λ x. x.index) (update_self a.events ev _) ∙ sym e,
  )

  pub register-IsValid : a.nevent < a.size → IsValid registered
  register-IsValid h = record {
    room = unfold registered in (omega arith);
    block = unfold registered in (omega (arith, v.block, length-set a.list a.nevent (some ev)));
    entry = λ i k. elim (ℕ_discrete i a.nevent) [
      | yes same ↦ let (found, at) = new_entry i same h in (ev, found, at)
      | no other ↦ old_entry i (unfold registered in (omega arith))
    ];
  }

  same_index : (q : ℕ) → q ≢ ev → (registered.events q).index ≡ (a.events q).index
  unfolding registered
  same_index q other = ap (λ x. x.index) (update_ne a.events _ q other)

  -- A place below the new one is found as before.
  same_place :
      (i q : ℕ)
      → q ≢ ev
      → a.nevent < a.size
      → get_elem? registered.list i ≡ some (some q)
      → (i ≢ a.nevent) × (get_elem? a.list i ≡ some (some q))
  unfolding registered
  same_place i q other h e = elim (ℕ_discrete i a.nevent) [
    | yes at ↦
        let self = get_elem?-set_self a.list a.nevent (some ev) (omega (arith, v.block)) in
        absurd (other (some_injective (some_injective (sym (rw at at e) ∙ self))))
    | no below ↦ (below, sym (get_elem?-set_ne a.list (some ev) (λ x. below (sym x))) ∙ e)
  ]

  count : registered.nevent ≡ a.nevent + 1
  unfolding registered
  count = refl

  still_watched : a.nevent < a.size → (q : ℕ) → Watches a q → Watches registered q
  still_watched h q w =
      let apart : a.nevent ≢ (a.events q).index = λ e. absurd (omega (arith, w.0)) in
      entry-Watches registered (register-IsValid h) (a.events q).index q (omega (arith, count, w.0))
        (unfold registered in (get_elem?-set_ne a.list (some ev) apart ∙ w.1))

  pub register-Watches :
      a.nevent < a.size → (q : ℕ) → Watches registered q ↔ (Watches a q ⊎ (q ≡ ev))
  register-Watches h q = (
    λ (w : Watches registered q). elim (ℕ_discrete q ev) [
      | yes same ↦ inr same
      | no other ↦
          let at = same_index q other in
          let (below, found) = same_place _ q other h w.1 in
          inl (omega (arith, count, w.0), ap (λ n. get_elem? a.list n) (sym at) ∙ found)
    ],
    λ (either : Watches a q ⊎ (q ≡ ev)). elim either [
      | inl w ↦ still_watched h q w
      | inr e ↦
          let found = (new_entry a.nevent refl h).0 in
          subst (Watches registered) (sym e)
            (entry-Watches registered (register-IsValid h) a.nevent ev (omega (arith, count)) found)
    ],
  )

-- What register does to the set of the watched events.
pub register-set :
    (a : EventArray) (ev : ℕ)
    → IsValid a
    → a.nevent < a.size
    → (Watches a ev → ⊥)
    → (b : EventArray) × (register ev a ≡ some b)
      × IsValid b
      × ((q : ℕ) → Watches b q ↔ (Watches a q ⊎ (q ≡ ev)))
register-set a ev v room fresh = (
  registered a ev v fresh,
  register-registered a ev v fresh room,
  register-IsValid a ev v fresh room,
  register-Watches a ev v fresh room,
)
