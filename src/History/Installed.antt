-- ===== src/History/Installed.antt =====
-- Queries after `apply_snapshot`: before the snapshot's time, behind it, and at it.
use contime.Prelude.{
  ℕ, ◌≡◌, ◌≢◌, refl, ap, ◌∙◌, true, false, none, some, List, [], ◌∷◌, ◌++◌, All, All-imp,
  All-filter, All-passes, last, last-All, last-append, filter-append, filter_none, arith,
  Option-cases, inl, inr,
}
use contime.Prelude.Int.{ℤ, ltb_ℤ}
use contime.Key.{ContimeKey, key_ord, compare_key}
use contime.Ord.{◌≺◌, is_le, gt_of_lt}
use contime.BTreeMap.{
  BTreeMap, included, excluded, unbounded, contains_key, entries, range, in_range,
}
use contime.BTreeMap.Sorted.{
  IsSorted, KeysAfter, filter-IsSorted, All-contains, IsSorted-append_right,
}
use contime.BTreeMap.Ranges.{upto, before, behind, narrow, upto-before, not_contains_filter}
use contime.Traits.{Snapshot, SetsTime, IgnoresTime}
use contime.Channel.{Channel}
use contime.Apply.Replay.{IsCheckpoint}
use contime.History.{History, apply_all, apply_snapshot, snapshot_at}
use contime.History.Valid.{IsValid}
use contime.History.Query.{query_key, state_at, range_in_order, key_below, apply_all-replay}
use contime.History.Install.{snapshot_key, TakesSnapshot, apply_snapshot_total}

last-none {ℓ} : {A : Type ℓ} (x : A) (xs : List A) → last xs ≡ none → last (x ∷ xs) ≡ some x
last-none x xs e = rw e refl

last-some {ℓ} : {A : Type ℓ} (x y : A) (xs : List A) → last xs ≡ some y → last (x ∷ xs) ≡ some y
last-some x y xs e = rw e refl

pub key_lt : (a b : ℤ) (id : ℕ) → ltb_ℤ a b ≡ true → query_key a id ≺ query_key b id
unfolding key_ord compare_key
key_lt a b id h = ground arith

range_panics {κ} :
    {V : Type κ} (k : ContimeKey) (m : BTreeMap ContimeKey V)
    → range (excluded k) (excluded k) m ≡ none
unfolding range
range_panics k m = rw (key_ord.cmp_self k) refl

module _ {ℓ} {S : Type ℓ} (k : ContimeKey) (snapshot : S) (lo hi : BTreeMap ContimeKey S) where
  -- the checkpoint that a query behind the snapshot, and one at it, finds
  found_behind :
      (q : ContimeKey)
      → k ≺ q
      → last (upto q (lo ++ (k, snapshot) ∷ hi)) ≡ last ((k, snapshot) ∷ upto q hi)
  found_behind q p =
      rw (filter-append (λ x. in_range unbounded (included q) x.0) lo ((k, snapshot) ∷ hi))
        (rw p (last-append (upto q lo) (k, snapshot) (upto q hi)))

  found_at : KeysAfter k hi → last (upto k (lo ++ (k, snapshot) ∷ hi)) ≡ some (k, snapshot)
  found_at a =
      rw (filter-append (λ x. in_range unbounded (included k) x.0) lo ((k, snapshot) ∷ hi)) (
        rw (key_ord.cmp_self k) (
          rw (filter_none (λ x. in_range unbounded (included k) x.0) hi none_passes)
            (last-append (upto k lo) (k, snapshot) [])))
    where
      none_passes : All (λ x. in_range unbounded (included k) x.0 ≡ false) hi
      none_passes =
          All-imp {A = ContimeKey × S} {P = λ x. k ≺ x.0} (λ x p. rw (gt_of_lt k x.0 p)) hi a

same_range {κ} :
    {E : Type κ} (key k q : ContimeKey) (m : BTreeMap ContimeKey E)
    → is_le (key_ord.cmp key k) ≡ true
    → entries (excluded k) (excluded q) m ≡ entries (excluded k) (excluded q) (behind key m)
same_range key k q m p =
    narrow (in_range (excluded k) (excluded q)) (in_range (excluded key) unbounded)
      (in_range (excluded k) (excluded q)) m
      (λ x. ground (arith, key_ord.lt_trans key k x, key_ord.eq_of_cmp key k))

-- a range behind a key is the range, up to its end, of the events behind the key
range_behind {κ} :
    {E : Type κ} (key q : ContimeKey) (m : BTreeMap ContimeKey E)
    → entries (excluded key) (excluded q) m ≡ before q (behind key m)
range_behind key q m =
    narrow (in_range unbounded (excluded q)) (in_range (excluded key) unbounded)
      (in_range (excluded key) (excluded q)) m (λ x. ground arith)

module _ {ℓ κ μ} {S : Type ℓ} {E : Type κ} {C : Type μ} (T : Snapshot S E) (F : Channel C)
    (snapshot : S) (h h' : History S E C) (d : ℤ) (w : TakesSnapshot T F snapshot h h' d) where
  -- at the very key of the snapshot both bounds of the range exclude one key
  panics_at : snapshot_at T F (T.time snapshot) h' ≡ none
  unfolding snapshot_at
  panics_at =
      rw (w.same_id, w.same_base, w.same_events)
        (rw
          (ap (λ m. last (upto (snapshot_key T F snapshot h) m)) w.checkpoints
            ∙ found_at _ snapshot _ w.rebuilt after)
          (rw (range_panics (snapshot_key T F snapshot h) h.events)))
    where
      after : KeysAfter (snapshot_key T F snapshot h) w.rebuilt
      after =
          (IsSorted-append_right (before (snapshot_key T F snapshot h) h.checkpoints)
            ((snapshot_key T F snapshot h, snapshot) ∷ w.rebuilt) (rw w.checkpoints at w.sorted)).0

  -- the state that a checkpoint behind the snapshot leads to
  served :
      SetsTime T
      → IgnoresTime T
      → (t : ℤ) (k q : ContimeKey) (c : S) → IsSorted h.events
      → k ≺ q
      → snapshot_key T F snapshot h ≺ k
      → IsCheckpoint T snapshot (behind (snapshot_key T F snapshot h) h.events) (k, c)
      → T.set_time t (apply_all T c (entries (excluded k) (excluded q) h.events))
        ≡ T.set_time t
            (apply_all T snapshot (before q (behind (snapshot_key T F snapshot h) h.events)))
  served sets ignores t k q c s p r x =
      let key = snapshot_key T F snapshot h in
      let later = behind key h.events in
      ap (λ m. T.set_time t (apply_all T c m)) (same_range key k q h.events (rw r))
      ∙ rw x.1 (
          apply_all-replay T sets ignores t snapshot (upto k later) _
          ∙ ap (λ m. T.set_time t (apply_all T snapshot m))
              (upto-before k q later (filter-IsSorted _ h.events s) p))

  behind_served :
      SetsTime T
      → IgnoresTime T
      → (t : ℤ) → IsSorted h.events
      → snapshot_key T F snapshot h ≺ query_key t h.snapshot_id
      → contains_key (query_key t h.snapshot_id) h.events ≡ false
      → snapshot_at T F t h'
        ≡ some (
          state_at T snapshot (behind (snapshot_key T F snapshot h) h.events) h.snapshot_id t,
          h'.reconciliation,
        )
  unfolding snapshot_at state_at
  behind_served sets ignores t s p free =
      rw (w.same_id, w.same_base, w.same_events)
        (elim (Option-cases (last (upto q w.rebuilt))) [
          | inl e ↦ rw (finds ∙ last-none (key, snapshot) (upto q w.rebuilt) e) (
              rw (range_in_order (excluded key) (excluded q) h.events (rw (gt_of_lt key q p))) (
                ap (λ m. some (T.set_time t (apply_all T snapshot m), h'.reconciliation))
                  (range_behind key q h.events)))
          | inr ((k, c), e) ↦ rw (finds ∙ last-some (key, snapshot) (k, c) (upto q w.rebuilt) e) (
              rw
                (range_in_order (excluded k) (excluded q) h.events
                  (rw (gt_of_lt k q (before_query k c e))))
                (ap (λ u. some (u, h'.reconciliation))
                  (served sets ignores t k q c s (before_query k c e) (after_snapshot k c e)
                    (found k c e))))
        ])
    where
      key : ContimeKey
      key = snapshot_key T F snapshot h

      q : ContimeKey
      q = query_key t h.snapshot_id

      later : BTreeMap ContimeKey E
      later = behind key h.events

      found :
          (k : ContimeKey) (c : S)
          → last (upto q w.rebuilt) ≡ some (k, c)
          → IsCheckpoint T snapshot later (k, c)
      found k c e =
          last-All (IsCheckpoint T snapshot later) (upto q w.rebuilt) (k, c) e
            (All-filter (IsCheckpoint T snapshot later) _ w.rebuilt w.exact)

      later_behind : KeysAfter key later
      later_behind =
          All-imp (λ y p. ground arith) later
            (All-passes (λ y. in_range (excluded key) unbounded y.0) h.events)

      not_held : contains_key q later ≡ false
      not_held = not_contains_filter (in_range (excluded key) unbounded) q h.events s free

      finds : last (upto q h'.checkpoints) ≡ last ((key, snapshot) ∷ upto q w.rebuilt)
      finds =
          ap (λ m. last (upto q m)) w.checkpoints
          ∙ found_behind key snapshot (before key h.checkpoints) w.rebuilt q p

      after_snapshot : (k : ContimeKey) (c : S) → last (upto q w.rebuilt) ≡ some (k, c) → key ≺ k
      after_snapshot k c e = All-contains (λ j. key ≺ j) k later later_behind (found k c e).0

      before_query : (k : ContimeKey) (c : S) → last (upto q w.rebuilt) ≡ some (k, c) → k ≺ q
      before_query k c e = key_below k q later (found k c e).0 not_held (
          last-All (λ y. is_le (key_ord.cmp y.0 q) ≡ true) (upto q w.rebuilt) (k, c) e
            (All-passes (λ y. in_range unbounded (included q) y.0) w.rebuilt))

module _ {ℓ κ μ} {S : Type ℓ} {E : Type κ} {C : Type μ} (T : Snapshot S E) (F : Channel C) where
  -- Where `set_time` sets only the time and the effect of an event ignores it: after an
  -- authoritative snapshot with the id of a valid history, a query behind its time returns the
  -- snapshot with the events applied that lie behind it and before the query, if no event has the
  -- key of the query.
  pub snapshot_at_installed :
      SetsTime T
      → IgnoresTime T
      → (snapshot : S) (t : ℤ) (h : History S E C) → IsValid T F h
      → T.id snapshot ≡ h.snapshot_id
      → ltb_ℤ (T.time snapshot) t ≡ true
      → contains_key (query_key t h.snapshot_id) h.events ≡ false
      → (h' : History S E C) × (d : ℤ) × (apply_snapshot T F snapshot h ≡ some (h', d))
        × (snapshot_at T F t h'
            ≡ some (
              state_at T snapshot (behind (snapshot_key T F snapshot h) h.events) h.snapshot_id t,
              h'.reconciliation,
            ))
  snapshot_at_installed sets ignores snapshot t h v same later free =
      let (h', d, e, w) = apply_snapshot_total T F snapshot h v same in
      (
        h',
        d,
        e,
        behind_served T F snapshot h h' d w sets ignores t v.maps.events_sorted
            (key_lt (T.time snapshot) t h.snapshot_id later) free,
      )

  -- After an authoritative snapshot with the id of a valid history that holds any event, the query
  -- at the very time of the snapshot panics.
  pub snapshot_at_installed_panics :
      (snapshot : S) (h : History S E C)
      → IsValid T F h
      → T.id snapshot ≡ h.snapshot_id
      → h.events ≢ []
      → (h' : History S E C) × (d : ℤ) × (apply_snapshot T F snapshot h ≡ some (h', d))
        × (snapshot_at T F (T.time snapshot) h' ≡ none)
  snapshot_at_installed_panics snapshot h v same some_event =
      let (h', d, e, w) = apply_snapshot_total T F snapshot h v same in
      (h', d, e, panics_at T F snapshot h h' d w)
