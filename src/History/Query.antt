-- ===== src/History/Query.antt =====
-- `snapshot_at`: the checkpoints are a cache, and a query returns what a replay of all events
-- before the query from the base returns.
use contime.Prelude.{
  ℕ, ◌≡◌, refl, ap, ◌∙◌, true, false, some, [], ◌∷◌, ◌++◌, All-passes, All-filter, last, last-All,
  Option-cases, inl, inr, arith,
}
use contime.Prelude.Int.{ℤ}
use contime.Key.{ContimeKey, key_ord}
use contime.Ord.{Ord, ◌≺◌, is_le, gt_of_lt}
use contime.BTreeMap.{
  BTreeMap, Bound, included, excluded, unbounded, contains_key, entries, range, out_of_order,
  in_range,
}
use contime.BTreeMap.Ranges.{upto, before, upto-before}
use contime.Traits.{Snapshot, SetsTime, IgnoresTime}
use contime.Channel.{Channel}
use contime.Apply.{step, replay}
use contime.Apply.Replay.{IsCheckpoint}
use contime.History.{History, apply_all, snapshot_at}
use contime.History.Valid.{IsValid}

pub range_in_order {ℓ κ} :
    {K : Type ℓ} {V : Type κ} ⦃o : Ord K⦄ (lo hi : Bound K) (m : BTreeMap K V)
    → out_of_order lo hi ≡ false
    → range lo hi m ≡ some (entries lo hi m)
unfolding range
range_in_order lo hi m h = rw h refl

abbrev pub query_key : ℤ → ℕ → ContimeKey
query_key t id = record { time = t; id = id }

pub key_below {κ} :
    {V : Type κ} (k q : ContimeKey) (m : BTreeMap ContimeKey V)
    → contains_key k m ≡ true
    → contains_key q m ≡ false
    → is_le (key_ord.cmp k q) ≡ true
    → k ≺ q
key_below k q m held free le = ground (arith, key_ord.eq_of_cmp k q)

module _ {ℓ κ} {S : Type ℓ} {E : Type κ} (T : Snapshot S E) where
  -- the state that the events before a query give
  unfoldable pub state_at : S → BTreeMap ContimeKey E → ℕ → ℤ → S
  state_at base events id t = T.set_time t (apply_all T base (before (query_key t id) events))

module _ {ℓ κ} {S : Type ℓ} {E : Type κ} (T : Snapshot S E) (sets : SetsTime T)
    (ignores : IgnoresTime T) where
  -- the time that the start carries does not show in the end
  apply_all-set_time :
      (t u : ℤ) (s : S) (xs : BTreeMap ContimeKey E)
      → T.set_time t (apply_all T (T.set_time u s) xs) ≡ T.set_time t (apply_all T s xs)
  unfolding apply_all
  apply_all-set_time t u s [] = sets.set_time-set_time t u s
  apply_all-set_time t u s ((k, e) ∷ xs) =
      rw (ignores.apply_to-set_time e u s) (apply_all-set_time t u (T.apply.apply_to e s) xs)

  pub apply_all-replay :
      (t : ℤ) (s : S) (xs ys : BTreeMap ContimeKey E)
      → T.set_time t (apply_all T (replay T s xs) ys) ≡ T.set_time t (apply_all T s (xs ++ ys))
  unfolding apply_all replay step
  apply_all-replay t s [] ys = refl
  apply_all-replay t s ((k, e) ∷ xs) ys =
      apply_all-replay t (step T s e) xs ys
      ∙ apply_all-set_time t (T.event.time e) (T.apply.apply_to e s) (xs ++ ys)

  -- Where `set_time` sets only the time and the effect of an event ignores it: on a valid history
  -- that holds no event with the very key of the query, `snapshot_at` does not panic, and returns
  -- the base with the events before the query applied in order.
  pub snapshot_at_exact {μ} :
      {C : Type μ} (F : Channel C) (t : ℤ) (h : History S E C)
      → IsValid T F h
      → contains_key (query_key t h.snapshot_id) h.events ≡ false
      → snapshot_at T F t h
        ≡ some (state_at T h.base_snapshot h.events h.snapshot_id t, h.reconciliation)
  unfolding snapshot_at state_at
  snapshot_at_exact F t h v n = elim (Option-cases (last (upto qk h.checkpoints))) [
    | inl e ↦ rw e (rw (range_in_order unbounded (excluded qk) h.events refl))
    | inr ((k, c), e) ↦ rw e (
        rw (range_in_order (excluded k) (excluded qk) h.events (in_order k c e))
          (ap (λ s. some (s, h.reconciliation)) (cached k c e)))
  ]
    where
      qk : ContimeKey
      qk = query_key t h.snapshot_id

      found :
          (k : ContimeKey) (c : S)
          → last (upto qk h.checkpoints) ≡ some (k, c)
          → IsCheckpoint T h.base_snapshot h.events (k, c)
      found k c e =
          last-All (IsCheckpoint T h.base_snapshot h.events) (upto qk h.checkpoints) (k, c) e
            (All-filter (IsCheckpoint T h.base_snapshot h.events) _ h.checkpoints v.maps.exact)

      earlier : (k : ContimeKey) (c : S) → last (upto qk h.checkpoints) ≡ some (k, c) → k ≺ qk
      earlier k c e = key_below k qk h.events (found k c e).0 n (
          last-All (λ x. is_le (key_ord.cmp x.0 qk) ≡ true) (upto qk h.checkpoints) (k, c) e
            (All-passes (λ x. in_range unbounded (included qk) x.0) h.checkpoints))

      in_order :
          (k : ContimeKey) (c : S)
          → last (upto qk h.checkpoints) ≡ some (k, c)
          → out_of_order (excluded k) (excluded qk) ≡ false
      in_order k c e = rw (gt_of_lt k qk (earlier k c e))

      cached :
          (k : ContimeKey) (c : S)
          → last (upto qk h.checkpoints) ≡ some (k, c)
          → T.set_time t (apply_all T c (entries (excluded k) (excluded qk) h.events))
            ≡ T.set_time t (apply_all T h.base_snapshot (before qk h.events))
      cached k c e = rw (found k c e).1 (
          apply_all-replay t h.base_snapshot (upto k h.events) _
          ∙ ap (λ xs. T.set_time t (apply_all T h.base_snapshot xs))
              (upto-before k qk h.events v.maps.events_sorted (earlier k c e)))
