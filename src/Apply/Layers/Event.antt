-- ===== src/Apply/Layers/Event.antt =====
-- `apply_event_in_place` where the checkpoints hold several authoritative snapshots.
use contime.Prelude.{
  ℕ, zero, suc, ◌<◌, ◌%◌, ◌==◌, ◌≡◌, ◌⊎◌, refl, sym, ap, ◌∙◌, Bool, true, false, some, [], ◌++◌,
  append-nil, if◌then◌else◌, All, All-imp, All-intro, All-passes, last, length, arith, inl, inr,
}
use contime.Prelude.Int.{ℤ, pos}
use contime.Prelude.Word.{to_i64}
use contime.Key.{ContimeKey, key_ord, from_event}
use contime.Ord.{◌≺◌}
use contime.BTreeMap.{
  BTreeMap, Bound, contains_key, insert, entries, included, excluded, unbounded, in_range, above,
}
use contime.BTreeMap.Sorted.{IsSorted, KeysBefore, contains_key-insert, all_before, All-contains}
use contime.BTreeMap.Ranges.{before, behind, before-IsLower, entries-cut, filter-insert}
use contime.Traits.{Snapshot}
use contime.Apply.{
  Applied, is_end, start_from, replay, apply_latest, apply_out_of_order, apply_event_in_place,
}
use contime.Apply.Replay.{
  walk, walk-IsSorted, walk-All, walk-contains, insert_if-All, insert_if-IsSorted,
  insert_if-contains,
}
use contime.Apply.Branches.{apply_event_in_place-cases}
use contime.Apply.Latest.{end_nil}
use contime.Apply.OutOfOrder.{apply_out_of_order-walk}
use contime.Apply.Invariant.{insert_new}
use contime.Apply.Layers.{
  IsLayer, IsLayered, IsLayered-cut, IsLayered-insert, authorities_within, state_upto,
}
use contime.Apply.Layers.Resume.{
  IsResumed, resume, resume-replay, above_start, state_upto_behind, reached_IsLayer,
}

module _ {ℓ κ} {S : Type ℓ} {E : Type κ} (T : Snapshot S E) where
  -- more checkpoints, each the state at its key
  pub more_layers :
      (base : S) (a cps cps' : BTreeMap ContimeKey S) (events : BTreeMap ContimeKey E)
      → IsLayered T base a cps events
      → IsSorted cps'
      → All (IsLayer T base a events) cps'
      → ((k : ContimeKey) → contains_key k cps ≡ true → contains_key k cps' ≡ true)
      → IsLayered T base a cps' events
  more_layers base a cps cps' events v s h c = record {
    events_sorted = v.events_sorted;
    authorities_sorted = v.authorities_sorted;
    checkpoints_sorted = s;
    layers = h;
    held = All-imp (λ x e. c x.0 e) a v.held;
  }

  resume_all :
      (base : S) (a cps : BTreeMap ContimeKey S) (events : BTreeMap ContimeKey E)
      → IsLayered T base a cps events
      → IsResumed T (start_from T base (last a)) (start_from T base (last cps)) events unbounded
  resume_all base a cps events v =
      resume T base a cps events unbounded v (All-intro _ cps (λ y x h. refl))

  latest-IsLayered :
      (base : S) (a cps : BTreeMap ContimeKey S) (events : BTreeMap ContimeKey E) (k : ContimeKey)
      (i : ℕ) (d : ℤ)
      → IsLayered T base a cps events
      → KeysBefore k cps
      → contains_key k events ≡ true
      → behind k events ≡ []
      → (r : Applied S E) × (apply_latest T k base cps events (suc i) d ≡ some r)
        × (r.events ≡ events)
        × IsLayered T base a r.checkpoints events
  unfolding apply_latest
  latest-IsLayered base a cps events k i d v b held nothing = (
    _,
    refl,
    refl,
    more_layers base a cps _ events v (insert_if-IsSorted T due k snap cps v.checkpoints_sorted)
        (insert_if-All T (IsLayer T base a events) due k snap cps (inl held, exact) v.layers)
        (λ j. insert_if-contains T due j k snap cps v.checkpoints_sorted),
  )
    where
      start : S × Bound ContimeKey
      start = start_from T base (last cps)

      top : S × Bound ContimeKey
      top = start_from T base (last a)

      snap : S
      snap = replay T start.0 (entries start.1 unbounded events)

      due : Bool
      due = length (entries start.1 unbounded events) % suc i == 0

      authorities_before : KeysBefore k a
      authorities_before = authorities_within T (λ x. x ≺ k) base a cps events v b

      after : (x : ContimeKey) → k ≺ x → above top.1 x ≡ true
      after x h =
          above_start T base a x
            (All-imp (λ y q. key_ord.lt_trans y.0 k x q h) a authorities_before)

      exact : snap ≡ state_upto T base a events k
      exact =
          resume-replay T top start events unbounded (resume_all base a cps events v)
          ∙ ap (replay T top.0) (
              sym (entries-cut top.1 unbounded k events v.events_sorted after (λ x h. refl))
              ∙ ap (λ r. entries top.1 (included k) events ++ r) nothing
              ∙ append-nil _)
          ∙ sym (
              state_upto_behind T base a events k v.authorities_sorted
                (above_start T base a k authorities_before))

  out_of_order-IsLayered :
      (base : S) (a cps : BTreeMap ContimeKey S) (events : BTreeMap ContimeKey E) (k : ContimeKey)
      (event : E) (i : ℕ) (d : ℤ)
      → IsLayered T base a cps events
      → (r : Applied S E) × (apply_out_of_order T k base cps (insert k event events) (suc i) d
          ≡ some r)
        × (r.events ≡ insert k event events)
        × IsLayered T base (before k a) r.checkpoints (insert k event events)
  out_of_order-IsLayered base a cps events k event i d v =
      let kept = before k cps in
      let all_events = insert k event events in
      let w : IsLayered T base (before k a) kept all_events =
        IsLayered-insert T base (before k a) kept events k event
          (All-imp (λ x h. ground arith) kept
            (All-passes (λ x. in_range unbounded (excluded k) x.0) cps))
          (IsLayered-cut T (in_range unbounded (excluded k)) base a cps events (before-IsLower k)
            v) in
      let start = start_from T base (last kept) in
      let top = start_from T base (last (before k a)) in
      let later = entries start.1 unbounded all_events in
      let resumed = resume_all base (before k a) kept all_events w in
      let r = walk T i later 0 start.0 kept (pos 0) in
      (
        _,
        apply_out_of_order-walk T k base cps all_events i d v.checkpoints_sorted,
        refl,
        more_layers base (before k a) kept r.0 all_events w
            (walk-IsSorted T i later 0 start.0 kept (pos 0) w.checkpoints_sorted)
            (walk-All T (IsLayer T base (before k a) all_events) top.0
              (entries top.1 unbounded all_events) i resumed.skipped later 0 start.0 kept (pos 0)
              (λ xs ys j e.
                reached_IsLayer T base (before k a) all_events xs ys j e w.authorities_sorted
                  w.events_sorted)
              resumed.whole resumed.reached w.layers)
            (λ j. walk-contains T i later 0 start.0 kept (pos 0) j w.checkpoints_sorted),
      )

  -- an event that is the latest lies behind all authorities
  abbrev pub IsInFront : E → BTreeMap ContimeKey S → BTreeMap ContimeKey E → Type 0
  IsInFront event a events =
      let key = from_event T.event event in
      contains_key key events ≡ false → is_end (behind key events) ≡ true → KeysBefore key a

  -- the authorities after an event: one that others lie behind takes away those from its key on
  abbrev pub authorities_after :
      E → BTreeMap ContimeKey S → BTreeMap ContimeKey E → BTreeMap ContimeKey S
  authorities_after event a events =
      let key = from_event T.event event in
      if contains_key key events then a else if is_end (behind key events) then a else before key a

  checkpoints_before :
      (base : S) (a cps : BTreeMap ContimeKey S) (events : BTreeMap ContimeKey E) (k : ContimeKey)
      → IsLayered T base a cps events
      → KeysBefore k events
      → KeysBefore k a
      → KeysBefore k cps
  checkpoints_before base a cps events k v b c = All-imp (λ x h. placed x.0 h.0) cps v.layers
    where
      placed : (j : ContimeKey) → (contains_key j events ≡ true) ⊎ (contains_key j a ≡ true) → j ≺ k
      placed j (inl e) = All-contains (λ x. x ≺ k) j events b e
      placed j (inr e) = All-contains (λ x. x ≺ k) j a c e

  event-IsLayered :
      (event : E) (base : S) (a cps : BTreeMap ContimeKey S) (events : BTreeMap ContimeKey E)
      (i : ℕ)
      → IsLayered T base a cps events
      → IsInFront event a events
      → (r : Applied S E) × (apply_event_in_place T event base cps events (suc i) ≡ some r)
        × (r.events ≡ insert_new T event events)
        × IsLayered T base (authorities_after event a events) r.checkpoints r.events
  event-IsLayered event base a cps events i v front =
      let key = from_event T.event event in
      let d = to_i64 (T.event.conservative_size event) in
      let same : behind key (insert key event events) ≡ behind key events =
        filter-insert (in_range (excluded key) unbounded) key event events
          (rw (key_ord.cmp_self key)) in
      elim (apply_event_in_place-cases T event base cps events (suc i)) [
        | inl (taken, applied) ↦ (
          record { checkpoints = cps; events = events; bytes_delta = pos 0 },
          applied,
          rw taken,
          rw taken v,
        )
        | inr (new, branch) ↦ elim branch [
          | inl (last_event, applied) ↦
              let latest : is_end (behind key events) ≡ true = rw same at last_event in
              let nothing = end_nil (behind key events) latest in
              let b = all_before key events new nothing in
              let c = checkpoints_before base a cps events key v b (front new latest) in
              let (r, e, q, w) =
                latest-IsLayered base a cps (insert key event events) key i d
                  (IsLayered-insert T base a cps events key event c v) c
                  (contains_key-insert key event events) (same ∙ nothing) in
              (r, applied ∙ e, rw new q, rw (new, latest, q) w)
          | inr (others, applied) ↦
              let earlier : is_end (behind key events) ≡ false = rw same at others in
              let (r, e, q, w) = out_of_order-IsLayered base a cps events key event i d v in
              (r, applied ∙ e, rw new q, rw (new, earlier, q) w)
        ]
      ]

  -- With a positive interval and layered checkpoints, `apply_event_in_place` on an event that, if it
  -- is the latest, lies behind all authorities, does not panic: the event is put in unless its key
  -- is taken, and the checkpoints are layered over the authorities that are left.
  pub apply_event_in_place-IsLayered :
      (event : E) (base : S) (a cps : BTreeMap ContimeKey S) (events : BTreeMap ContimeKey E)
      (interval : ℕ)
      → 0 < interval
      → IsLayered T base a cps events
      → IsInFront event a events
      → (r : Applied S E) × (apply_event_in_place T event base cps events interval ≡ some r)
        × (r.events ≡ insert_new T event events)
        × IsLayered T base (authorities_after event a events) r.checkpoints r.events
  apply_event_in_place-IsLayered event base a cps events zero h v front = absurd (omega arith)
  apply_event_in_place-IsLayered event base a cps events (suc i) h v front =
      event-IsLayered event base a cps events i v front
