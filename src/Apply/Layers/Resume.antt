-- ===== src/Apply/Layers/Resume.antt =====
-- Where a replay over several authorities starts: from the last checkpoint it goes on as from the
-- last authority.
use contime.Prelude.{
  ◌≡◌, refl, sym, ap, ◌∙◌, List, true, none, [], ◌∷◌, ◌++◌, All, last, last-All, Option-cases,
  filter-All, All-imp, All-passes, All-append_right, subst, inl, inr, arith,
}
use contime.Key.{ContimeKey, key_ord}
use contime.Ord.{◌≺◌, is_le}
use contime.BTreeMap.{
  BTreeMap, Bound, contains_key, entries, included, excluded, unbounded, in_range, above, below,
}
use contime.BTreeMap.Sorted.{
  IsSorted, KeysBefore, filter-IsSorted, contains_key-append, not_contains_after,
}
use contime.BTreeMap.Ranges.{upto, upto_at, entries-cut, last-bounds, narrow, contains_of_filter}
use contime.Traits.{Snapshot}
use contime.Apply.{start_from, replay}
use contime.Apply.Replay.{replay-append}
use contime.Apply.Layers.{IsLayer, IsLayered, resume_upto, state_upto, authorities_within}

pub last-none {ℓ} : {A : Type ℓ} (xs : List A) → last xs ≡ none → xs ≡ []
last-none [] e = refl
last-none (x ∷ xs) e = ground arith

none_held {ℓ} :
    {S : Type ℓ} (a : BTreeMap ContimeKey S)
    → All (λ x. contains_key {V = S} x.0 [] ≡ true) a
    → a ≡ []
none_held [] h = refl
none_held {S = S} (x ∷ a) h = cc (h.0, not_contains_after {V = S} x.0 [] tt)

module _ {ℓ κ} {S : Type ℓ} {E : Type κ} (T : Snapshot S E) where
  -- what lies behind all authorities lies behind the bound that they start from
  pub above_start :
      (base : S) (a : BTreeMap ContimeKey S) (x : ContimeKey)
      → KeysBefore x a
      → above (start_from T base (last a)).1 x ≡ true
  above_start base a x h = elim (Option-cases (last a)) [
    | inl e ↦ rw e
    | inr ((j, s), e) ↦ rw e (rw (last-All (λ y. y.0 ≺ x) a (j, s) e h))
  ]

  -- the events between the start of the authorities and that of the checkpoints
  pub record IsResumed (top start : S × Bound ContimeKey) (events : BTreeMap ContimeKey E)
      (hi : Bound ContimeKey) : Type (ℓ ⊔ κ) where
    pub skipped : BTreeMap ContimeKey E
    pub whole : skipped ++ entries start.1 hi events ≡ entries top.1 hi events
    pub reached : start.0 ≡ replay T top.0 skipped

  behind_all : (x k y : ContimeKey) → k ≺ x → is_le (key_ord.cmp y k) ≡ true → y ≺ x
  behind_all x k y lt q = ground (arith, key_ord.lt_trans y k x, key_ord.eq_of_cmp y k)

  pub resume :
      (base : S) (a cps : BTreeMap ContimeKey S) (events : BTreeMap ContimeKey E)
      (hi : Bound ContimeKey)
      → IsLayered T base a cps events
      → All (λ y. (x : ContimeKey) → is_le (key_ord.cmp x y.0) ≡ true → below hi x ≡ true) cps
      → IsResumed (start_from T base (last a)) (start_from T base (last cps)) events hi
  unfolding replay state_upto
  resume base a cps events hi v inside = elim (Option-cases (last cps)) [
    | inl e ↦
        let nothing : a ≡ [] = none_held a (rw (last-none cps e) at v.held) in
        rw (e, nothing) (record { skipped = []; whole = refl; reached = refl })
    | inr ((k, c), e) ↦
        let within =
          authorities_within T (λ x. is_le (key_ord.cmp x k) ≡ true) base a cps events v
            (last-bounds cps k c v.checkpoints_sorted e) in
        rw e (record {
          skipped = entries (start_from T base (last a)).1 (included k) events;
          whole =
              entries-cut (start_from T base (last a)).1 hi k events v.events_sorted
                (λ x lt. above_start base a x (All-imp (λ y q. behind_all x k y.0 lt q) a within))
                (last-All
                  (λ y. (x : ContimeKey) → is_le (key_ord.cmp x y.0) ≡ true → below hi x ≡ true) cps
                  (k, c) e inside);
          reached =
              (last-All (IsLayer T base a events) cps (k, c) e v.layers).1
              ∙ ap (λ r. resume_upto T base r events k)
                  (filter-All (λ x. in_range unbounded (included k) x.0) a within);
        })
  ]

  -- the replay from the last checkpoint ends as the one from the last authority
  pub resume-replay :
      (top start : S × Bound ContimeKey) (events : BTreeMap ContimeKey E) (hi : Bound ContimeKey)
      → IsResumed top start events hi
      → replay T start.0 (entries start.1 hi events) ≡ replay T top.0 (entries top.1 hi events)
  resume-replay top start events hi r = rw r.reached (
      sym (replay-append T top.0 r.skipped (entries start.1 hi events))
      ∙ ap (replay T top.0) r.whole)

  -- behind the last authority, the state at a key goes on from it
  pub state_upto_behind :
      (base : S) (a : BTreeMap ContimeKey S) (events : BTreeMap ContimeKey E) (k : ContimeKey)
      → IsSorted a
      → above (start_from T base (last a)).1 k ≡ true
      → state_upto T base a events k ≡ resume_upto T base a events k
  unfolding state_upto
  state_upto_behind base a events k s h =
      ap (λ r. resume_upto T base r events k)
        (filter-All (λ x. in_range unbounded (included k) x.0) a (within h))
    where
      not_behind :
          (j : ContimeKey)
          → above (excluded j) k ≡ true
          → All (λ x. is_le (key_ord.cmp x.0 j) ≡ true) a
          → All (λ x. is_le (key_ord.cmp x.0 k) ≡ true) a
      not_behind j g =
          All-imp (λ x q. ground (arith, key_ord.lt_trans x.0 j k, key_ord.eq_of_cmp x.0 j)) a

      within :
          above (start_from T base (last a)).1 k ≡ true
          → All (λ x. is_le (key_ord.cmp x.0 k) ≡ true) a
      within g = elim (Option-cases (last a)) [
        | inl e ↦ rw (last-none a e) tt
        | inr ((j, c), e) ↦ not_behind j (rw e at g) (last-bounds a j c s e)
      ]

  -- a state that the replay from the last authority reaches is the state at its key
  pub reached_IsLayer :
      (base : S) (a : BTreeMap ContimeKey S) (events xs ys : BTreeMap ContimeKey E) (k : ContimeKey)
      (e : E)
      → IsSorted a
      → IsSorted events
      → let top = start_from T base (last a) in
        xs ++ (k, e) ∷ ys ≡ entries top.1 unbounded events
        → IsLayer T base a events (k, replay T top.0 (xs ++ (k, e) ∷ []))
  reached_IsLayer base a events xs ys k e s t w = (
    inl (
        contains_of_filter (in_range top.1 unbounded) k events t
          (rw (← w) (contains_key-append k e xs ys sorted))),
    sym (
        state_upto_behind base a events k s passes
        ∙ ap (replay T top.0) (
            narrow (in_range unbounded (included k)) (in_range top.1 unbounded)
              (in_range top.1 (included k)) events (λ x. ground arith)
            ∙ ap (upto k) (sym w)
            ∙ upto_at k e xs ys sorted)),
  )
    where
      top : S × Bound ContimeKey
      top = start_from T base (last a)

      sorted : IsSorted (xs ++ (k, e) ∷ ys)
      sorted = subst IsSorted (sym w) (filter-IsSorted (λ x. in_range top.1 unbounded x.0) events t)

      passes : above top.1 k ≡ true
      passes =
          above_of_range top.1 k
            (All-append_right (λ x. in_range top.1 unbounded x.0 ≡ true) xs ((k, e) ∷ ys)
              (subst (All (λ x. in_range top.1 unbounded x.0 ≡ true)) (sym w)
                (All-passes (λ x. in_range top.1 unbounded x.0) events))).0
        where
          above_of_range :
              (lo : Bound ContimeKey) (j : ContimeKey)
              → in_range lo unbounded j ≡ true
              → above lo j ≡ true
          above_of_range lo j h = ground (arith, h)
