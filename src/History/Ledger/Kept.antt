-- ===== src/History/Ledger/Kept.antt =====
-- The layers from a key on: a start that leaves out the events before the key, and the answers from
-- it on.
use contime.Prelude.{
  ℕ, ◌≡◌, refl, sym, ap, ◌∙◌, true, Option, none, some, [], ◌++◌, ◌&&◌, append-nil, All-imp,
  All-both, All-filter, All-passes, last, last-All, last-append_some, Option-cases, inl, inr, arith,
}
use contime.Prelude.Int.{ℤ}
use contime.Key.{ContimeKey, key_ord}
use contime.Ord.{◌≺◌, is_le}
use contime.BTreeMap.{
  BTreeMap, Bound, included, excluded, unbounded, contains_key, entries, in_range, below,
}
use contime.BTreeMap.Sorted.{KeysBefore, filter-IsSorted}
use contime.BTreeMap.Ranges.{
  upto, before, from, before-IsLower, before-entries, entries-cut_before, narrow,
  contains_key-filter,
}
use contime.Traits.{Snapshot, SetsTime, IgnoresTime}
use contime.Apply.{replay, start_from}
use contime.Apply.Replay.{replay-append}
use contime.Apply.Layers.{IsLayer, IsLayered, IsLayered-cut, state_upto}
use contime.Apply.Layers.Resume.{IsResumed, resume, above_start, last-none}
use contime.History.{promoted, apply_all}
use contime.History.Query.{query_key, apply_all-replay}
use contime.History.Ledger.{answer_at}

module _ {ℓ κ} {S : Type ℓ} {E : Type κ} (T : Snapshot S E) where
  -- what a start leaves out of the events up to a bound, against another start with more events
  record HasMoved (top : S × Bound ContimeKey) (events : BTreeMap ContimeKey E)
      (start : S × Bound ContimeKey) (kept : BTreeMap ContimeKey E) (hi : Bound ContimeKey)
      : Type (ℓ ⊔ κ) where
    skipped : BTreeMap ContimeKey E
    whole : skipped ++ entries start.1 hi kept ≡ entries top.1 hi events
    reached : start.0 ≡ replay T top.0 skipped

module _ {ℓ κ} {S : Type ℓ} {E : Type κ} (T : Snapshot S E) (base : S)
    (a cps : BTreeMap ContimeKey S) (events : BTreeMap ContimeKey E) (k : ContimeKey)
    (v : IsLayered T base a cps events)
    (gap : entries (start_from T base (last (before k cps))).1 (excluded k) events ≡ []) where
  promoted-start :
      (found : Option (ContimeKey × S)) → promoted base found ≡ (start_from T base found).0
  promoted-start none = refl
  promoted-start (some e) = refl

  keys_before {ν} : {V : Type ν} (m : BTreeMap ContimeKey V) → KeysBefore k (before k m)
  keys_before m =
      All-imp (λ x p. ground arith) (before k m)
        (All-passes (λ x. in_range unbounded (excluded k) x.0) m)

  -- the new base is the state of all events before the key
  base-IsResumed :
      promoted base (last (before k cps))
      ≡ replay T
          (start_from T base (last (before k a))).0
          (entries (start_from T base (last (before k a))).1 (excluded k) events)
  base-IsResumed =
      let top = start_from T base (last (before k a)) in
      let start = start_from T base (last (before k cps)) in
      let r : IsResumed T top start events (excluded k) =
        resume T base (before k a) (before k cps) events (excluded k)
          (IsLayered-cut T (in_range unbounded (excluded k)) base a cps events (before-IsLower k) v)
          (All-imp (λ y h x le. inside x y.0 le h) (before k cps) (keys_before cps)) in
      promoted-start (last (before k cps))
      ∙ r.reached
      ∙ ap (replay T top.0)
          (sym (append-nil r.skipped) ∙ ap (λ m. r.skipped ++ m) (sym gap) ∙ r.whole)
    where
      inside :
          (x y : ContimeKey) → is_le (key_ord.cmp x y) ≡ true → y ≺ k → below (excluded k) x ≡ true
      inside x y le h = ground (arith, key_ord.lt_trans x y k, key_ord.eq_of_cmp x y)

  moved :
      (x : ContimeKey) (hi : Bound ContimeKey)
      → is_le (key_ord.cmp k x) ≡ true
      → ((y : ContimeKey) → y ≺ k → below hi y ≡ true)
      → HasMoved T
          (start_from T base (last (upto x a)))
          events
          (start_from T (promoted base (last (before k cps))) (last (upto x (from k a))))
          (from k events)
          hi
  unfolding replay
  moved x hi later inside = elim (Option-cases (last (upto x (from k a)))) [
    | inl e ↦
        rw (e, earlier_start e)
          (record {
            skipped = entries (start_from T base (last (before k a))).1 (excluded k) events;
            whole =
                entries-cut_before (start_from T base (last (before k a))).1 hi k events
                  v.events_sorted
                  (λ y p.
                    above_start T base (before k a) y
                      (All-imp (λ z q. up_to z.0 y q p) (before k a) (keys_before a)))
                  inside;
            reached = base-IsResumed;
          })
    | inr ((j, s), e) ↦
        rw (e, same_start j s e)
          (record {
            skipped = [];
            whole = sym (
                narrow (in_range (excluded j) hi) (in_range (included k) unbounded)
                  (in_range (excluded j) hi) events (λ y. drops y j (from_k j s e)));
            reached = refl;
          })
  ]
    where
      up_to : (z y : ContimeKey) → z ≺ k → is_le (key_ord.cmp k y) ≡ true → z ≺ y
      up_to z y q p = ground (arith, key_ord.lt_trans z k y, key_ord.eq_of_cmp k y)

      cut : before k a ++ upto x (from k a) ≡ upto x a
      cut = before-entries k (included x) a v.authorities_sorted (λ y p. rw (up_to y x p later))

      earlier_start : last (upto x (from k a)) ≡ none → last (upto x a) ≡ last (before k a)
      earlier_start e = ap last (
          sym cut
          ∙ ap (λ r. before k a ++ r) (last-none (upto x (from k a)) e)
          ∙ append-nil (before k a))

      same_start :
          (j : ContimeKey) (s : S)
          → last (upto x (from k a)) ≡ some (j, s)
          → last (upto x a) ≡ some (j, s)
      same_start j s e =
          ap last (sym cut) ∙ last-append_some (before k a) (upto x (from k a)) (j, s) e

      from_k :
          (j : ContimeKey) (s : S)
          → last (upto x (from k a)) ≡ some (j, s)
          → in_range (included k) unbounded j ≡ true
      from_k j s e =
          last-All (λ y. in_range (included k) unbounded y.0 ≡ true) (upto x (from k a)) (j, s) e
            (All-filter (λ y. in_range (included k) unbounded y.0 ≡ true)
              (λ y. in_range unbounded (included x) y.0) (from k a)
              (All-passes (λ y. in_range (included k) unbounded y.0) a))

      drops :
          (y j : ContimeKey)
          → in_range (included k) unbounded j ≡ true
          → in_range (excluded j) hi y
            ≡ (in_range (included k) unbounded y && in_range (excluded j) hi y)
      drops y j h = ground (arith, h, key_ord.lt_trans k j y, key_ord.eq_of_cmp k j)

  moved-replay :
      (top start : S × Bound ContimeKey) (kept : BTreeMap ContimeKey E) (hi : Bound ContimeKey)
      → HasMoved T top events start kept hi
      → replay T start.0 (entries start.1 hi kept) ≡ replay T top.0 (entries top.1 hi events)
  moved-replay top start kept hi r = rw r.reached (
      sym (replay-append T top.0 r.skipped (entries start.1 hi kept)) ∙ ap (replay T top.0) r.whole)

  up_to_it :
      (x y : ContimeKey) → is_le (key_ord.cmp k x) ≡ true → y ≺ k → is_le (key_ord.cmp y x) ≡ true
  up_to_it x y h p = ground (arith, key_ord.lt_trans y k x, key_ord.eq_of_cmp k x)

  kept_IsLayer :
      (x : ContimeKey × S)
      → is_le (key_ord.cmp k x.0) ≡ true
      → IsLayer T base a events x
      → IsLayer T (promoted base (last (before k cps))) (from k a) (from k events) x
  unfolding state_upto
  kept_IsLayer x h (p, q) = (
    elim p [
      | inl e ↦ inl (contains_key-filter (in_range (included k) unbounded) x.0 events (rw h) e)
      | inr e ↦ inr (contains_key-filter (in_range (included k) unbounded) x.0 a (rw h) e)
    ],
    q
        ∙ sym (
            moved-replay _ _ (from k events) (included x.0)
              (moved x.0 (included x.0) h (λ y. up_to_it x.0 y h))),
  )

  -- what lies before the key is dropped, and the rest is layered on the new base
  pub IsLayered-from :
      IsLayered T (promoted base (last (before k cps))) (from k a) (from k cps) (from k events)
  IsLayered-from = record {
    events_sorted = filter-IsSorted _ events v.events_sorted;
    authorities_sorted = filter-IsSorted _ a v.authorities_sorted;
    checkpoints_sorted = filter-IsSorted _ cps v.checkpoints_sorted;
    layers =
        All-imp (λ x h. kept_IsLayer x (ground (arith, h.0)) h.1) (from k cps)
          (All-both (λ x. in_range (included k) unbounded x.0 ≡ true) (IsLayer T base a events)
            (from k cps) (All-passes (λ x. in_range (included k) unbounded x.0) cps)
            (All-filter (IsLayer T base a events) _ cps v.layers));
    held =
        All-imp (λ x h. contains_key-filter (in_range (included k) unbounded) x.0 cps h.0 h.1)
          (from k a)
          (All-both (λ x. in_range (included k) unbounded x.0 ≡ true)
            (λ x. contains_key x.0 cps ≡ true) (from k a)
            (All-passes (λ x. in_range (included k) unbounded x.0) a)
            (All-filter (λ x. contains_key x.0 cps ≡ true) _ a v.held));
  }

  -- a query from the key on has the same answer
  pub answer-from :
      SetsTime T
      → IgnoresTime T
      → (id : ℕ) (t : ℤ) → is_le (key_ord.cmp k (query_key t id)) ≡ true
      → answer_at T
          (record {
            id = id;
            base = promoted base (last (before k cps));
            authorities = from k a;
            events = from k events;
          })
          t
        ≡ answer_at T (record { id = id; base = base; authorities = a; events = events }) t
  unfolding answer_at
  answer-from sets ignores id t h =
      let q = query_key t id in
      let top = start_from T base (last (upto q a)) in
      let start = start_from T (promoted base (last (before k cps))) (last (upto q (from k a))) in
      let r : HasMoved T top events start (from k events) (excluded q) =
        moved q (excluded q) h (λ y p. before_query q y h p) in
      let rest = entries start.1 (excluded q) (from k events) in
      ap (λ u. T.set_time t (apply_all T u rest)) r.reached
      ∙ apply_all-replay T sets ignores t top.0 r.skipped rest
      ∙ ap (λ m. T.set_time t (apply_all T top.0 m)) r.whole
    where
      before_query :
          (q y : ContimeKey) → is_le (key_ord.cmp k q) ≡ true → y ≺ k → below (excluded q) y ≡ true
      before_query q y h p = ground (arith, key_ord.lt_trans y k q, key_ord.eq_of_cmp k q)
