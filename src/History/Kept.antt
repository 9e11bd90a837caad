-- ===== src/History/Kept.antt =====
-- A predicate that events and `set_time` keep holds of all that a history holds and returns.
use contime.Prelude.{
  ◌≡◌, refl, sym, ap, ◌∙◌, ◌>>=◌, some, some_injective, subst, List, [], ◌∷◌, All, All-imp,
  All-append, All-filter, last, last-All, Option, none, ◌==◌, Bool-cases, inl, inr, arith,
}
use contime.Prelude.Int.{ℤ, pos}
use contime.Key.{ContimeKey, key_ord}
use contime.BTreeMap.{BTreeMap}
use contime.BTreeMap.Ranges.{upto, before, behind}
use contime.Traits.{Snapshot}
use contime.Channel.{Channel}
use contime.Apply.{start_from}
use contime.Apply.Replay.{IsCheckpoint}
use contime.Apply.Safe.{apply_event_in_place_safe}
use contime.Apply.Values.{Keeps, Values, replay-kept, apply_event_in_place-Values}
use contime.History.{
  History, def_deps, new, apply_event, apply_snapshot, snapshot_at, apply_all, notify_late,
  last_time,
}
use contime.History.Install.{snapshot_key, takes_snapshot, apply_snapshot_other}
use contime.History.Query.{query_key}
use contime.History.Safe.{IsSound, new-IsSound}
use contime.History.Ledger.{Command, event, snapshot, perform, perform_all}

module _ {ℓ κ ν} {S : Type ℓ} {E : Type κ} (T : Snapshot S E) (P : S → Type ν) where
  -- the snapshots among some commands have the predicate
  abbrev pub Given : Command S E → Type ν
  Given (event e) = Unit
  Given (snapshot s) = P s

module _ {ℓ κ μ ν} {S : Type ℓ} {E : Type κ} {C : Type μ} (T : Snapshot S E) (F : Channel C)
    (P : S → Type ν) where
  pub record IsKept (h : History S E C) : Type ν where
    pub sound : IsSound T F h
    pub base : P h.base_snapshot
    pub values : Values T P h.checkpoints

module _ {ℓ κ μ ν} {S : Type ℓ} {E : Type κ} {C : Type μ} (T : Snapshot S E) (F : Channel C)
    (P : S → Type ν) (keeps : Keeps T P) where
  new-IsKept : (s : S) (now delta : ℤ) → P s → IsKept T F P (new T F s now delta).0
  unfolding new
  new-IsKept s now delta p = record {
    sound = unfold new in new-IsSound T F s now delta;
    base = keeps.set_time (pos 0) s p;
    values = tt;
  }

  event-IsKept :
      (e : E) (h : History S E C)
      → IsKept T F P h
      → (h' : History S E C) × (d : ℤ) × (apply_event T F (def_deps T) e h ≡ some (h', d))
        × IsKept T F P h'
  unfolding apply_event
  event-IsKept e h v =
      let (r, q, w) =
        apply_event_in_place_safe T e h.base_snapshot h.checkpoints h.events h.checkpoint_interval
          v.sound.interval v.sound.maps in
      let (r', q', vals) =
        apply_event_in_place-Values T P keeps e h.base_snapshot h.checkpoints h.events
          h.checkpoint_interval v.sound.interval v.sound.maps v.base v.values in
      (
        record h {
          checkpoints = r.checkpoints;
          events = r.events;
          reconciliation =
              notify_late F h.snapshot_id (T.event.time e) (last_time h.events) h.reconciliation;
        },
        r.bytes_delta,
        rw q refl,
        record {
          sound = record { maps = w; interval = v.sound.interval };
          base = v.base;
          values = subst (λ a. Values T P a.checkpoints) (some_injective r' r (sym q' ∙ q)) vals;
        },
      )

  snapshot-IsKept :
      (s : S) (h : History S E C)
      → P s
      → IsKept T F P h
      → (h' : History S E C) × (d : ℤ) × (apply_snapshot T F s h ≡ some (h', d)) × IsKept T F P h'
  snapshot-IsKept s h p v = elim (Bool-cases (T.id s == h.snapshot_id)) [
    | inl same ↦
        let (h', d, e, w) = takes_snapshot T F s h v.sound.interval v.sound.maps (ground arith) in
        (
          h',
          d,
          e,
          record {
            sound = record {
              maps = record {
                events_sorted = rw w.same_events v.sound.maps.events_sorted;
                checkpoints_sorted = w.sorted;
              };
              interval = rw w.same_interval v.sound.interval;
            };
            base = rw w.same_base v.base;
            values = rw w.checkpoints (
                All-append (λ x. P x.1) (before (snapshot_key T F s h) h.checkpoints)
                  ((snapshot_key T F s h, s) ∷ w.rebuilt)
                  (All-filter (λ x. P x.1) _ h.checkpoints v.values)
                  (p, All-imp (λ x q. follows (snapshot_key T F s h) x q) w.rebuilt w.exact));
          },
        )
    | inr other ↦ (h, pos 0, apply_snapshot_other T F s h (λ q. ground (arith, q)), v)
  ]
    where
      follows :
          (key : ContimeKey) (x : ContimeKey × S) → IsCheckpoint T s (behind key h.events) x → P x.1
      follows key x q = subst P (sym q.1) (replay-kept T P keeps s _ p)

  apply_all-kept : (s : S) (xs : BTreeMap ContimeKey E) → P s → P (apply_all T s xs)
  unfolding apply_all
  apply_all-kept s [] p = p
  apply_all-kept s ((k, e) ∷ xs) p = apply_all-kept (T.apply.apply_to e s) xs (keeps.apply_to e s p)

  start-kept :
      (base : S) (found : Option (ContimeKey × S))
      → P base
      → ((x : ContimeKey × S) → found ≡ some x → P x.1)
      → P (start_from T base found).0
  start-kept base none p q = p
  start-kept base (some x) p q = q x refl

  abbrev the_answer : ℤ → S → C → BTreeMap ContimeKey E → S × C
  the_answer t s c replayed = (T.set_time t (apply_all T s replayed), c)

  answered_with :
      (t : ℤ) (s x : S) (c c' : C) (found : Option (BTreeMap ContimeKey E))
      → P s
      → (do replayed ← found; some (the_answer t s c replayed)) ≡ some (x, c')
      → P x
  answered_with t s x c c' none p e = cc
  answered_with t s x c c' (some replayed) p e =
      subst P (ap (λ y. y.0) (some_injective _ (x, c') e))
        (keeps.set_time t _ (apply_all-kept s replayed p))

  snapshot_at-kept :
      (t : ℤ) (h : History S E C) (x : S) (c : C)
      → IsKept T F P h
      → snapshot_at T F t h ≡ some (x, c)
      → P x
  unfolding snapshot_at
  snapshot_at-kept t h x c v e =
      let q = query_key t h.snapshot_id in
      answered_with t _ x h.reconciliation c _
        (start-kept h.base_snapshot (last (upto q h.checkpoints)) v.base (λ y g.
          last-All (λ z. P z.1) (upto q h.checkpoints) y g
            (All-filter (λ z. P z.1) _ h.checkpoints v.values)))
        e

  perform-IsKept :
      (c : Command S E) (h : History S E C)
      → Given T P c
      → IsKept T F P h
      → (h' : History S E C) × (d : ℤ) × (perform T F c h ≡ some (h', d)) × IsKept T F P h'
  unfolding perform
  perform-IsKept (event e) h p v = event-IsKept e h v
  perform-IsKept (snapshot s) h p v = snapshot-IsKept s h p v

  perform_all-IsKept :
      (cs : List (Command S E)) (h : History S E C)
      → All (Given T P) cs
      → IsKept T F P h
      → (h' : History S E C) × (perform_all T F cs h ≡ some h') × IsKept T F P h'
  unfolding perform_all
  perform_all-IsKept [] h p v = (h, refl, v)
  perform_all-IsKept (c ∷ cs) h p v =
      let (h₁, d, e, w) = perform-IsKept c h p.0 v in
      let (h₂, e₂, w₂) = perform_all-IsKept cs h₁ p.1 w in (h₂, rw e e₂, w₂)

  -- a new history takes any events, and any snapshots with the predicate, and every answer has it
  pub answers_kept :
      (s : S) (now delta : ℤ) (cs : List (Command S E))
      → P s
      → All (Given T P) cs
      → (h : History S E C) × (perform_all T F cs (new T F s now delta).0 ≡ some h)
        × ((t : ℤ) (x : S) (c : C) → snapshot_at T F t h ≡ some (x, c) → P x)
  answers_kept s now delta cs p given =
      let (h, e, v) =
        perform_all-IsKept cs (new T F s now delta).0 given (new-IsKept s now delta p) in
      (h, e, λ t x c q. snapshot_at-kept t h x c v q)
