-- ===== src/History/Notify.antt =====
-- The reconciliations that readers of a history are told of when an event comes late.
use contime.Prelude.{
  ℕ, ◌≤◌, ◌<◌, ◌≡◌, ◌⊎◌, inl, inr, refl, true, false, Option, none, some, [], ◌∷◌, ◌++◌, All,
  All-imp, last, length, ltb, Bool-cases, Option-cases, arith,
}
use contime.Prelude.Int.{ℤ, ltb_ℤ}
use contime.Key.{ContimeKey, key_ord, compare_key}
use contime.Ord.{is_le}
use contime.BTreeMap.{BTreeMap}
use contime.BTreeMap.Sorted.{IsSorted}
use contime.BTreeMap.Ranges.{last-bounds}
use contime.Traits.{Snapshot}
use contime.Channel.{Reconciliation, Channel, IsBounded}
use contime.History.{History, def_deps, last_time, notify_late, apply_event}
use contime.History.Valid.{IsValid, apply_event_total}

time_le : (j k : ContimeKey) → is_le (key_ord.cmp j k) ≡ true → ltb_ℤ k.time j.time ≡ false
unfolding key_ord compare_key
time_le j k h = ground arith

-- an event at a time is not late where the latest of all is not later
not_late : (t a b : ℤ) → ltb_ℤ b a ≡ false → ltb_ℤ t b ≡ false → ltb_ℤ t a ≡ false
not_late t a b h g = ground arith

some_is_not {ℓ} : {A : Type ℓ} (a : A) → Option.some a ≡ none → ⊥
some_is_not a q = cc

no_latest {κ} : {V : Type κ} (m : BTreeMap ContimeKey V) → last m ≡ none → m ≡ []
no_latest [] e = refl
no_latest (x ∷ m) e = elim (Option-cases (last m)) [
  | inl gone ↦ absurd (some_is_not x (rw gone at e))
  | inr (y, found) ↦ absurd (some_is_not y (rw found at e))
]

module _ {κ} {V : Type κ} (events : BTreeMap ContimeKey V) where
  -- the time of the latest of some events
  abbrev pub IsLatest : ℤ → Type κ
  IsLatest t =
      (k : ContimeKey) × (e : V) × (last events ≡ some (k, e))
      × (k.time ≡ t)
      × All (λ x. ltb_ℤ t (x.0).time ≡ false) events

  -- none of the events is later than the time
  abbrev pub NoneLater : ℤ → Type 0
  NoneLater t = All (λ x. ltb_ℤ t (x.0).time ≡ false) events

module _ {μ} {C : Type μ} (F : Channel C) (bounded : IsBounded F) where
  -- a message is the last that waits where there was room for it, and is lost where there was none
  abbrev pub Queues : Reconciliation → C → C → Type 0
  Queues m c c' =
      ((length (F.queued c) < F.capacity c) × (F.queued c' ≡ F.queued c ++ m ∷ []))
      ⊎ ((F.capacity c ≤ length (F.queued c)) × (F.queued c' ≡ F.queued c))

  try_send-Queues : (m : Reconciliation) (c : C) → Queues m c (F.try_send m c)
  try_send-Queues m c = elim (Bool-cases (ltb (length (F.queued c)) (F.capacity c))) [
    | inl room ↦ inl (ground arith, bounded.queued_room m c (ground arith))
    | inr full ↦ inr (ground arith, bounded.queued_full m c (ground arith))
  ]

  -- what an event at a time tells the readers of a history: nothing where no event that the history
  -- holds is later, and else the span from its time to that of the latest event
  abbrev pub Notifies {κ} : {V : Type κ} → ℕ → ℤ → BTreeMap ContimeKey V → C → C → Type (κ ⊔ μ)
  Notifies id t events c c' =
      (NoneLater events t × (c' ≡ c))
      ⊎ ((latest : ℤ) × IsLatest events latest
          × (ltb_ℤ t latest ≡ true)
          × Queues (record { snapshot_id = id; from_time = t; to_time = latest }) c c')

  notify_late-Notifies {κ} :
      {V : Type κ} (id : ℕ) (t : ℤ) (events : BTreeMap ContimeKey V) (c : C)
      → IsSorted events
      → Notifies id t events c (notify_late F id t (last_time events) c)
  unfolding notify_late
  notify_late-Notifies id t events c s = elim (Option-cases (last events)) [
    | inl gone ↦ inl (rw (no_latest events gone) tt, rw (last_time, gone) refl)
    | inr ((k, e), found) ↦
        let bound = All-imp (λ x h. time_le x.0 k h) events (last-bounds events k e s found) in
        elim (Bool-cases (ltb_ℤ t k.time)) [
          | inl late ↦ inr (
            k.time,
            (k, e, found, refl, bound),
            late,
            rw (last_time, found) (rw late (try_send-Queues _ c)),
          )
          | inr in_time ↦ inl (
            All-imp (λ x h. not_late t (x.0).time k.time h in_time) events bound,
            rw (last_time, found) (rw in_time refl),
          )
        ]
  ]

module _ {ℓ κ μ} {S : Type ℓ} {E : Type κ} {C : Type μ} (T : Snapshot S E) (F : Channel C) where
  -- On a valid history an event goes in without a panic, and the history stays valid. If no event
  -- that the history holds has a later time, readers are told nothing. Otherwise the reconciliation
  -- from the time of the event to that of the latest event waits behind those that wait, or is lost
  -- where the channel is full.
  pub apply_event-Notifies :
      (bounded : IsBounded F) (event : E) (h : History S E C)
      → IsValid T F h
      → (h' : History S E C) × (d : ℤ) × (apply_event T F (def_deps T) event h ≡ some (h', d))
        × IsValid T F h'
        × Notifies F bounded h.snapshot_id
            (T.event.time event)
            h.events
            h.reconciliation
            h'.reconciliation
  apply_event-Notifies bounded event h v =
      let (h', d, e, w) = apply_event_total T F event h v in
      (
        h',
        d,
        e,
        w.valid,
        rw w.notified (
            notify_late-Notifies F bounded h.snapshot_id (T.event.time event) h.events
              h.reconciliation v.maps.events_sorted),
      )
