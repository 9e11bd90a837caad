-- ===== src/History/Ledger/Refines.antt =====
-- A history keeps to its ledger: the operations of src/history.rs, one by one and in sequence.
use contime.Prelude.{
  ◌<◌, ◌≡◌, ◌≢◌, refl, ◌∙◌, true, false, some, List, [], ◌∷◌, ◌++◌, ◌==◌, arith, All-imp,
  All-passes, Bool-cases, inl, inr, subst,
}
use contime.Prelude.Int.{ℤ, pos}
use contime.Key.{key_ord}
use contime.BTreeMap.{excluded, unbounded, in_range}
use contime.BTreeMap.Ranges.{before, before-IsLower}
use contime.Traits.{Snapshot, SetsTime, IgnoresTime}
use contime.Channel.{Channel}
use contime.Apply.Layers.{IsLayered, IsLayered-cut}
use contime.Apply.Layers.Event.{IsInFront, apply_event_in_place-IsLayered}
use contime.Apply.Layers.Extend.{IsLayered-extend}
use contime.History.{
  History, def_deps, new, apply_event, apply_snapshot, snapshot_at, notify_late, last_time,
}
use contime.History.Query.{query_key}
use contime.History.Install.{TakesSnapshot, takes_snapshot, apply_snapshot_other}
use contime.History.Ledger.{
  Ledger, Command, event, snapshot, take_event, take_authority, take, take_all, new_ledger, IsFree,
  InFront, answer_at, perform, perform_all,
}
use contime.History.Ledger.Answers.{snapshot_at_layered}

module _ {ℓ κ μ} {S : Type ℓ} {E : Type κ} {C : Type μ} (T : Snapshot S E) (F : Channel C) where
  pub record Represents (l : Ledger S E) (h : History S E C) : Type (ℓ ⊔ κ) where
    pub same_id : h.snapshot_id ≡ l.id
    pub same_base : h.base_snapshot ≡ l.base
    pub same_events : h.events ≡ l.events
    pub layered : IsLayered T h.base_snapshot l.authorities h.checkpoints h.events
    pub interval : 0 < h.checkpoint_interval

  pub new-Represents : (s : S) (now delta : ℤ) → Represents (new_ledger T s) (new T F s now delta).0
  unfolding new
  new-Represents s now delta = record {
    same_id = refl;
    same_base = refl;
    same_events = refl;
    layered = record {
      events_sorted = tt;
      authorities_sorted = tt;
      checkpoints_sorted = tt;
      layers = tt;
      held = tt;
    };
    interval = omega arith;
  }

  pub event_refines :
      (e : E) (l : Ledger S E) (h : History S E C)
      → Represents l h
      → IsInFront T e l.authorities l.events
      → (h' : History S E C) × (d : ℤ) × (apply_event T F (def_deps T) e h ≡ some (h', d))
        × Represents (take_event T e l) h'
  unfolding apply_event
  event_refines e l h v front =
      let (r, q, same, w) =
        apply_event_in_place-IsLayered T e h.base_snapshot l.authorities h.checkpoints h.events
          h.checkpoint_interval v.interval v.layered (rw v.same_events front) in
      (
        record h {
          checkpoints = r.checkpoints;
          events = r.events;
          reconciliation =
              notify_late F h.snapshot_id (T.event.time e) (last_time h.events) h.reconciliation;
        },
        r.bytes_delta,
        rw q refl,
        record {
          same_id = v.same_id;
          same_base = v.same_base;
          same_events = same ∙ rw v.same_events refl;
          layered = rw v.same_events at w;
          interval = v.interval;
        },
      )

  extended_with :
      (s : S) (l : Ledger S E) (h h' : History S E C) (d : ℤ)
      → Represents l h
      → TakesSnapshot T F s h h' d
      → let key = query_key (T.time s) h.snapshot_id in
        IsLayered T h.base_snapshot
          (before key l.authorities ++ (key, s) ∷ [])
          h'.checkpoints
          h.events
  extended_with s l h h' d v w =
      let key = query_key (T.time s) h.snapshot_id in
      rw w.checkpoints (
        IsLayered-extend T h.base_snapshot (before key l.authorities) (before key h.checkpoints)
          w.rebuilt h.events key s
          (IsLayered-cut T (in_range unbounded (excluded key)) h.base_snapshot l.authorities
            h.checkpoints h.events (before-IsLower key) v.layered)
          (All-imp (λ x p. ground arith) (before key h.checkpoints)
            (All-passes (λ x. in_range unbounded (excluded key) x.0) h.checkpoints))
          (rw w.checkpoints at w.sorted) w.exact)

  pub snapshot_refines :
      (s : S) (l : Ledger S E) (h : History S E C)
      → Represents l h
      → (h' : History S E C) × (d : ℤ) × (apply_snapshot T F s h ≡ some (h', d))
        × Represents (take_authority T s l) h'
  snapshot_refines s l h v = elim (Bool-cases (T.id s == l.id)) [
    | inl same ↦
        let (h', d, e, w) =
          takes_snapshot T F s h v.interval
            (record {
              events_sorted = v.layered.events_sorted;
              checkpoints_sorted = v.layered.checkpoints_sorted;
            })
            (own same) in
        (
          h',
          d,
          e,
          rw same (record {
            same_id = w.same_id ∙ v.same_id;
            same_base = w.same_base ∙ v.same_base;
            same_events = w.same_events ∙ v.same_events;
            layered =
                rw (w.same_base, w.same_events)
                  (subst
                    (λ i.
                      IsLayered T h.base_snapshot
                        (before (query_key (T.time s) i) l.authorities
                          ++ (query_key (T.time s) i, s) ∷ [])
                        h'.checkpoints h.events)
                    v.same_id (extended_with s l h h' d v w));
            interval = rw w.same_interval v.interval;
          }),
        )
    | inr other ↦ (h, pos 0, apply_snapshot_other T F s h (foreign other), rw other v)
  ]
    where
      own : (T.id s == l.id) ≡ true → T.id s ≡ h.snapshot_id
      own same = rw v.same_id (ground arith)

      foreign : (T.id s == l.id) ≡ false → T.id s ≢ h.snapshot_id
      foreign other same = ground (arith, v.same_id, same)

  perform_refines :
      (c : Command S E) (cs : List (Command S E)) (l : Ledger S E) (h : History S E C)
      → Represents l h
      → InFront T (c ∷ cs) l
      → (h' : History S E C) × (d : ℤ) × (perform T F c h ≡ some (h', d))
        × Represents (take T c l) h'
        × InFront T cs (take T c l)
  unfolding perform
  perform_refines (event e) cs l h v front =
      let (h', d, q, w) = event_refines e l h v front.0 in (h', d, q, w, front.1)
  perform_refines (snapshot s) cs l h v front =
      let (h', d, q, w) = snapshot_refines s l h v in (h', d, q, w, front)

  pub perform_all_refines :
      (cs : List (Command S E)) (l : Ledger S E) (h : History S E C)
      → Represents l h
      → InFront T cs l
      → (h' : History S E C) × (perform_all T F cs h ≡ some h') × Represents (take_all T cs l) h'
  unfolding perform_all
  perform_all_refines [] l h v front = (h, refl, v)
  perform_all_refines (c ∷ cs) l h v front =
      let (h₁, d, e, w, rest) = perform_refines c cs l h v front in
      let (h₂, e₂, w₂) = perform_all_refines cs (take T c l) h₁ w rest in (h₂, rw e e₂, w₂)

module _ {ℓ κ μ} {S : Type ℓ} {E : Type κ} {C : Type μ} (T : Snapshot S E) (F : Channel C) where
  pub answers :
      SetsTime T
      → IgnoresTime T
      → (l : Ledger S E) (h : History S E C) (t : ℤ) → Represents T F l h
      → IsFree T l t
      → snapshot_at T F t h ≡ some (answer_at T l t, h.reconciliation)
  unfolding answer_at
  answers sets ignores l h t v free =
      rw (← v.same_id, ← v.same_events, ← v.same_base)
        (snapshot_at_layered T F sets ignores l.authorities t h v.layered
          (rw (v.same_id, v.same_events) free.0) (rw v.same_id free.1))

  -- Where `set_time` sets only the time and the effect of an event ignores it: a new history takes
  -- any list of events and authoritative snapshots without a panic, if each event that is the
  -- latest when it comes lies behind all authorities then in force. Afterwards its events are those
  -- of the ledger, and every query that has the key of no event and of no authority of the ledger
  -- returns the answer of the ledger: the last authority up to the query, or the base, with the
  -- events behind it and before the query applied in order.
  pub history_refines_ledger :
      SetsTime T
      → IgnoresTime T
      → (s : S) (now delta : ℤ) (cs : List (Command S E)) → InFront T cs (new_ledger T s)
      → let l = take_all T cs (new_ledger T s) in
        (h : History S E C) × (perform_all T F cs (new T F s now delta).0 ≡ some h)
        × (h.events ≡ l.events)
        × ((t : ℤ) → IsFree T l t → snapshot_at T F t h ≡ some (answer_at T l t, h.reconciliation))
  history_refines_ledger sets ignores s now delta cs front =
      let (h, e, v) =
        perform_all_refines T F cs (new_ledger T s) (new T F s now delta).0
          (new-Represents T F s now delta) front in
      (h, e, v.same_events, λ t free. answers sets ignores _ h t v free)
