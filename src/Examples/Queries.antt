-- ===== src/Examples/Queries.antt =====
-- The theorems about queries, pruning and snapshots at concrete histories.
use contime.Prelude.{
  ℕ, ◌≡◌, ◌≢◌, refl, ap, sym, ◌||◌, Bool, true, false, some, none, [], ◌∷◌, ◌⊎◌, last, arith,
}
use contime.Prelude.Int.{ℤ, pos}
use contime.Prelude.Word.{sub_i64, to_i64, add_i64}
use contime.Key.{ContimeKey, key_ord, compare_key, from_event}
use contime.BTreeMap.{contains_key, get}
use contime.BTreeMap.Ranges.{before, behind, from}
use contime.History.{new, advance, drop_key, apply_snapshot, snapshot_at}
use contime.History.Valid.{IsValid}
use contime.History.Query.{state_at, snapshot_at_exact}
use contime.History.Arrival.{apply_events, TakesEvents, apply_events_total, arrival_order}
use contime.History.Advance.{IsCovered, advance-IsValid, advance_keeps_queries, advance_forgets}
use contime.History.Freed.{ReturnsChange, ReturnsTooMuch, advance_drifts}
use contime.History.Install.{TakesSnapshot, snapshot_key, apply_snapshot_total}
use contime.History.Installed.{snapshot_at_installed, snapshot_at_installed_panics}
use contime.Fixtures.{TestSnapshot, test_snapshot}
use contime.Examples.Data.{
  list_channel, TestHistory, blank, start, start-IsValid, first, late, plain, plain-IsValid, cached,
  cached-IsValid, test-SetsTime, test-IgnoresTime,
}

snapshot_at_exact_example :
    snapshot_at test_snapshot list_channel (pos 11) cached
    ≡ some (state_at test_snapshot blank cached.events 1 (pos 11), cached.reconciliation)
unfolding contains_key get key_ord compare_key
snapshot_at_exact_example =
    snapshot_at_exact test_snapshot test-SetsTime test-IgnoresTime list_channel (pos 11) cached
      cached-IsValid refl

apply_events_total_example :
    (h' : TestHistory) × (apply_events test_snapshot list_channel (first ∷ late ∷ first ∷ []) start
      ≡ some h')
    × TakesEvents test_snapshot list_channel (first ∷ late ∷ first ∷ []) start h'
apply_events_total_example =
    apply_events_total test_snapshot list_channel (first ∷ late ∷ first ∷ []) start start-IsValid

advance_drifts_example :
    ((last (before (drop_key test_snapshot list_channel (pos 1008) cached) cached.checkpoints)
        ≡ none)
      × ReturnsChange test_snapshot list_channel cached
          (advance test_snapshot list_channel (pos 1008) cached).0
          (advance test_snapshot list_channel (pos 1008) cached).1)
    ⊎ ((k : ContimeKey) × (c : TestSnapshot) × (last
            (before (drop_key test_snapshot list_channel (pos 1008) cached) cached.checkpoints)
          ≡ some (k, c))
        × ReturnsTooMuch test_snapshot list_channel c cached
            (advance test_snapshot list_channel (pos 1008) cached).0
            (advance test_snapshot list_channel (pos 1008) cached).1)
advance_drifts_example = advance_drifts test_snapshot list_channel (pos 1008) cached cached-IsValid

cached-IsCovered : IsCovered test_snapshot list_channel (pos 1008) cached
unfolding key_ord compare_key sub_i64 to_i64 add_i64
cached-IsCovered = refl

advance-IsValid_example :
    IsValid test_snapshot list_channel (advance test_snapshot list_channel (pos 1008) cached).0
advance-IsValid_example =
    advance-IsValid test_snapshot list_channel (pos 1008) cached cached-IsValid cached-IsCovered

advance_keeps_queries_example :
    snapshot_at test_snapshot list_channel
      (pos 11)
      (advance test_snapshot list_channel (pos 1008) cached).0
    ≡ snapshot_at test_snapshot list_channel (pos 11) cached
unfolding contains_key get key_ord compare_key sub_i64 to_i64 add_i64
advance_keeps_queries_example =
    advance_keeps_queries test_snapshot list_channel test-SetsTime test-IgnoresTime (pos 1008)
      (pos 11) cached cached-IsValid cached-IsCovered refl refl

advance_forgets_example :
    snapshot_at test_snapshot list_channel
      (pos 11)
      (advance test_snapshot list_channel (pos 1008) plain).0
    ≡ some (
      state_at test_snapshot blank
          (from (drop_key test_snapshot list_channel (pos 1008) plain) plain.events)
          1
          (pos 11),
      plain.reconciliation,
    )
unfolding contains_key get key_ord compare_key
advance_forgets_example =
    advance_forgets test_snapshot list_channel test-SetsTime test-IgnoresTime (pos 1008) (pos 11)
      plain plain-IsValid refl refl

-- an authoritative snapshot between the two events
abbrev correction : TestSnapshot
correction = record { id = 1; time = pos 7; items = []; sum = pos 50 }

apply_snapshot_total_example :
    (h' : TestHistory) × (d : ℤ) × (apply_snapshot test_snapshot list_channel correction plain
      ≡ some (h', d))
    × TakesSnapshot test_snapshot list_channel correction plain h' d
apply_snapshot_total_example =
    apply_snapshot_total test_snapshot list_channel correction plain plain-IsValid refl

snapshot_at_installed_example :
    (h' : TestHistory) × (d : ℤ) × (apply_snapshot test_snapshot list_channel correction plain
      ≡ some (h', d))
    × (snapshot_at test_snapshot list_channel (pos 11) h'
        ≡ some (
          state_at test_snapshot correction
              (behind (snapshot_key test_snapshot list_channel correction plain) plain.events)
              1
              (pos 11),
          h'.reconciliation,
        ))
unfolding contains_key get key_ord compare_key
snapshot_at_installed_example =
    snapshot_at_installed test_snapshot list_channel test-SetsTime test-IgnoresTime correction
      (pos 11) plain plain-IsValid refl refl refl

snapshot_at_installed_panics_example :
    (h' : TestHistory) × (d : ℤ) × (apply_snapshot test_snapshot list_channel correction plain
      ≡ some (h', d))
    × (snapshot_at test_snapshot list_channel (pos 7) h' ≡ none)
snapshot_at_installed_panics_example =
    snapshot_at_installed_panics test_snapshot list_channel correction plain plain-IsValid refl
      (λ q. cc)

-- the order of two tests, and a test that is repeated, do not matter
swapped : (a b : Bool) → (a || (b || false)) ≡ (b || (a || (b || false)))
swapped true true = refl
swapped true false = refl
swapped false true = refl
swapped false false = refl

ids : ◌≢◌ {A = ℕ} 10 5
ids q = absurd (omega (arith, q))

apart : from_event test_snapshot.event first ≢ from_event test_snapshot.event late
apart q = ids (ap (λ (k : ContimeKey). k.id) q)

arrival_order_example :
    (h₁ : TestHistory) × (h₂ : TestHistory) × (s : TestSnapshot) × (apply_events test_snapshot
        list_channel
        (first ∷ late ∷ [])
        (new test_snapshot list_channel blank (pos 0) (pos 1000)).0
      ≡ some h₁)
    × (apply_events test_snapshot list_channel
          (late ∷ first ∷ late ∷ [])
          (new test_snapshot list_channel blank (pos 0) (pos 1000)).0
        ≡ some h₂)
    × (h₁.events ≡ h₂.events)
    × (snapshot_at test_snapshot list_channel (pos 11) h₁ ≡ some (s, h₁.reconciliation))
    × (snapshot_at test_snapshot list_channel (pos 11) h₂ ≡ some (s, h₂.reconciliation))
unfolding key_ord compare_key
arrival_order_example =
    arrival_order test_snapshot list_channel test-SetsTime test-IgnoresTime blank (pos 0) (pos 1000)
      (first ∷ late ∷ []) (late ∷ first ∷ late ∷ []) (pos 11) (λ k. swapped _ _)
      (
        ((λ q. absurd (apart q)), ((λ q. refl), ((λ q. absurd (apart q)), tt))),
        (((λ q. refl), ((λ q. absurd (apart (sym q))), ((λ q. refl), tt))), tt),
      )
      refl
