-- ===== src/Apply/Start.antt =====
-- Where a replay starts: the last checkpoint, or the base where there is none. The events that it
-- skips are those that the start already holds.
use contime.Prelude.{
  ◌≡◌, refl, sym, subst, Option, none, some, [], ◌∷◌, ◌++◌, All, All-imp, All-intro, All-append,
  All-passes, last, last-All, filter-All, arith,
}
use contime.Key.{ContimeKey, key_ord}
use contime.Ord.{◌≺◌}
use contime.BTreeMap.{BTreeMap, Bound, excluded, unbounded, entries, in_range}
use contime.BTreeMap.Sorted.{IsSorted, Precedes, IsSorted-Precedes}
use contime.BTreeMap.Ranges.{upto, behind, upto-behind, last_splits}
use contime.Traits.{Snapshot}
use contime.Apply.{start_from, replay}
use contime.Apply.Replay.{IsCheckpoint}

module _ {ℓ κ} {S : Type ℓ} {E : Type κ} (T : Snapshot S E) where
  -- a replay from `start` over the events behind its bound is the replay of all events
  pub record Covers (base : S) (events : BTreeMap ContimeKey E) (start : S × Bound ContimeKey)
      : Type (ℓ ⊔ κ) where
    pub skipped : BTreeMap ContimeKey E
    pub whole : skipped ++ entries start.1 unbounded events ≡ events
    pub reached : start.0 ≡ replay T base skipped

  start_Covers :
      (base : S) (events : BTreeMap ContimeKey E) (found : Option (ContimeKey × S))
      → IsSorted events
      → ((e : ContimeKey × S) → found ≡ some e → IsCheckpoint T base events e)
      → Covers base events (start_from T base found)
  unfolding replay
  start_Covers base events none s h = record {
    skipped = [];
    whole = filter-All _ events (All-intro _ events (λ e. refl));
    reached = refl;
  }
  start_Covers base events (some (k, c)) s h = record {
    skipped = upto k events;
    whole = upto-behind k events s;
    reached = (h (k, c) refl).1;
  }

  pub last-Covers :
      (base : S) (events : BTreeMap ContimeKey E) (cps : BTreeMap ContimeKey S)
      → IsSorted events
      → All (IsCheckpoint T base events) cps
      → Covers base events (start_from T base (last cps))
  last-Covers base events cps s a =
      start_Covers base events (last cps) s (λ e h. last-All (IsCheckpoint T base events) cps e h a)

  -- every checkpoint lies before every event that is replayed from the last one
  start_Precedes :
      (base : S) (events : BTreeMap ContimeKey E) (cps : BTreeMap ContimeKey S)
      (found : Option (ContimeKey × S))
      → last cps ≡ found
      → IsSorted cps
      → Precedes cps (entries (start_from T base found).1 unbounded events)
  start_Precedes base events [] none h s = tt
  start_Precedes base events (x ∷ cps) none h s = ground arith
  start_Precedes base events cps (some (k, c)) h s =
      let (xs, e) = last_splits cps (k, c) h in
      subst (λ m. Precedes m (behind k events)) (sym e)
        (All-append (λ x. All (λ y. x.0 ≺ y.0) (behind k events)) xs ((k, c) ∷ [])
          (All-imp
            (λ x p. All-imp (λ y q. key_ord.lt_trans x.0 k y.0 p.0 q) (behind k events) behind_k) xs
            (IsSorted-Precedes xs ((k, c) ∷ []) (rw (← e) s)))
          (behind_k, tt))
    where
      behind_k : All (λ y. k ≺ y.0) (behind k events)
      behind_k =
          All-imp (λ y p. ground arith) (behind k events)
            (All-passes (λ y. in_range (excluded k) unbounded y.0) events)

  pub last-Precedes :
      (base : S) (events : BTreeMap ContimeKey E) (cps : BTreeMap ContimeKey S)
      → IsSorted cps
      → Precedes cps (entries (start_from T base (last cps)).1 unbounded events)
  last-Precedes base events cps s = start_Precedes base events cps (last cps) refl s
