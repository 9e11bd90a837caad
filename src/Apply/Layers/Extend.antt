-- ===== src/Apply/Layers/Extend.antt =====
-- An authoritative snapshot behind all checkpoints, and the checkpoints that follow from it.
use contime.Prelude.{
  ◌≡◌, refl, sym, ap, ◌∙◌, true, some, [], ◌∷◌, ◌++◌, append-nil, All, All-imp, All-append,
  All-intro, All-both, last, last-append, filter-append, filter-All, filter_none, All-passes, inl,
  inr, arith,
}
use contime.Key.{ContimeKey, key_ord}
use contime.Ord.{◌≺◌, is_le, gt_of_lt}
use contime.BTreeMap.{BTreeMap, contains_key, entries, included, excluded, unbounded, in_range}
use contime.BTreeMap.Sorted.{
  IsSorted, KeysBefore, IsSorted-append, contains_key-append, contains_key-append_left,
  All-contains,
}
use contime.BTreeMap.Ranges.{upto, behind, narrow, contains_of_filter}
use contime.Traits.{Snapshot}
use contime.Apply.{replay}
use contime.Apply.Replay.{IsCheckpoint}
use contime.Apply.Layers.{IsLayer, IsLayered, authorities_within, state_upto, state_upto-congr}
use contime.Apply.Layers.Resume.{state_upto_behind}

module _ {ℓ κ} {S : Type ℓ} {E : Type κ} (T : Snapshot S E) (base : S)
    (a cps rebuilt : BTreeMap ContimeKey S) (events : BTreeMap ContimeKey E) (k : ContimeKey)
    (s : S) (v : IsLayered T base a cps events) (b : KeysBefore k cps) where
  extended : BTreeMap ContimeKey S
  extended = a ++ (k, s) ∷ []

  extended-last : last extended ≡ some (k, s)
  unfolding extended
  extended-last = last-append a (k, s) []

  a_before : KeysBefore k a
  a_before = authorities_within T (λ x. x ≺ k) base a cps events v b

  extended-IsSorted : IsSorted extended
  unfolding extended
  extended-IsSorted =
      IsSorted-append a ((k, s) ∷ []) v.authorities_sorted (tt, tt)
        (All-imp (λ x h. (h, tt)) a a_before)

  older :
      (x : ContimeKey × S) → x.0 ≺ k → IsLayer T base a events x → IsLayer T base extended events x
  unfolding extended
  older x h (p, q) = (
    elim p [ inl e ↦ inl e | inr e ↦ inr (contains_key-append_left x.0 a ((k, s) ∷ []) e) ],
    q ∙ state_upto-congr T base a (a ++ (k, s) ∷ []) events events x.0 (sym same) (λ lo. refl),
  )
    where
      same : upto x.0 (a ++ (k, s) ∷ []) ≡ upto x.0 a
      same =
          filter-append (λ y. in_range unbounded (included x.0) y.0) a ((k, s) ∷ [])
          ∙ rw (gt_of_lt x.0 k h) (append-nil _)

  itself : IsLayer T base extended events (k, s)
  unfolding extended state_upto replay
  itself = (
    inr (contains_key-append k s a [] extended-IsSorted),
    sym (rw (whole, extended-last) (rw nothing refl)),
  )
    where
      whole : upto k (a ++ (k, s) ∷ []) ≡ extended
      whole =
          filter-All (λ x. in_range unbounded (included k) x.0) extended
            (All-append (λ x. is_le (key_ord.cmp x.0 k) ≡ true) a ((k, s) ∷ [])
              (All-imp (λ x h. rw h) a a_before) (rw (key_ord.cmp_self k), tt))

      nothing : entries (excluded k) (included k) events ≡ []
      nothing =
          filter_none (λ x. in_range (excluded k) (included k) x.0) events
            (All-intro _ events (λ x. ground (arith, key_ord.cmp_flip k x.0)))

  newer :
      (x : ContimeKey × S) → IsCheckpoint T s (behind k events) x → IsLayer T base extended events x
  newer x (e, q) = (
    inl (contains_of_filter (in_range (excluded k) unbounded) x.0 events v.events_sorted e),
    q
        ∙ ap (replay T s) (
            sym (
              narrow (in_range unbounded (included x.0)) (in_range (excluded k) unbounded)
                (in_range (excluded k) (included x.0)) events (λ y. ground arith)))
        ∙ sym (
            state_upto_behind T base extended events x.0 extended-IsSorted
              (rw extended-last (rw after))
            ∙ rw extended-last refl),
  )
    where
      after : k ≺ x.0
      after =
          All-contains (λ j. k ≺ j) x.0 (behind k events)
            (All-imp (λ y p. ground arith) (behind k events)
              (All-passes (λ y. in_range (excluded k) unbounded y.0) events))
            e

  -- the authorities with the snapshot behind them
  pub IsLayered-extend :
      IsSorted (cps ++ (k, s) ∷ rebuilt)
      → All (IsCheckpoint T s (behind k events)) rebuilt
      → IsLayered T base (a ++ (k, s) ∷ []) (cps ++ (k, s) ∷ rebuilt) events
  unfolding extended
  IsLayered-extend sorted exact = record {
    events_sorted = v.events_sorted;
    authorities_sorted = extended-IsSorted;
    checkpoints_sorted = sorted;
    layers =
        All-append (IsLayer T base (a ++ (k, s) ∷ []) events) cps ((k, s) ∷ rebuilt)
          (All-imp (λ x h. older x h.0 h.1) cps
            (All-both (λ x. x.0 ≺ k) (IsLayer T base a events) cps b v.layers))
          (itself, All-imp newer rebuilt exact);
    held =
        All-append (λ x. contains_key x.0 (cps ++ (k, s) ∷ rebuilt) ≡ true) a ((k, s) ∷ [])
          (All-imp (λ x h. contains_key-append_left x.0 cps ((k, s) ∷ rebuilt) h) a v.held)
          (contains_key-append k s cps rebuilt sorted, tt);
  }
