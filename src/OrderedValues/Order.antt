-- ===== src/OrderedValues/Order.antt =====
-- The values that a query of the example returns come in the order of the times of their events.
use contime.Prelude.{
  ◌≡◌, refl, ap, sym, ◌∙◌, some, false, List, [], ◌∷◌, ◌++◌, append_assoc, append-nil, map,
}
use contime.Prelude.Int.{ℤ}
use contime.Key.{ContimeKey, key_ord}
use contime.BTreeMap.{BTreeMap, contains_key}
use contime.BTreeMap.Ranges.{before}
use contime.Traits.{SetsTime, IgnoresTime}
use contime.Channel.{Channel}
use contime.History.{History, apply_all, snapshot_at}
use contime.History.Valid.{IsValid}
use contime.History.Query.{query_key, state_at, snapshot_at_exact}
use contime.OrderedValues.{OrderedValuesSnapshot, ReceiveValue, ordered_values}

ordered-SetsTime : SetsTime ordered_values
ordered-SetsTime = record {
  time-set_time = λ t s. refl;
  id-set_time = λ t s. refl;
  set_time-set_time = λ t u s. refl;
}

ordered-IgnoresTime : IgnoresTime ordered_values
ordered-IgnoresTime = record { apply_to-set_time = λ e t s. refl }

-- the values of some events, in the order of the keys
abbrev pub values_of : BTreeMap ContimeKey ReceiveValue → List ℤ
values_of = map (λ e. (e.1).value)

apply_all-values :
    (s : OrderedValuesSnapshot) (events : BTreeMap ContimeKey ReceiveValue)
    → apply_all ordered_values s events ≡ record s { values = s.values ++ values_of events }
unfolding apply_all
apply_all-values s [] = ap (λ (v : List ℤ). record s { values = v }) (sym (append-nil s.values))
apply_all-values s ((k, e) ∷ events) =
    apply_all-values (record s { values = s.values ++ e.value ∷ [] }) events
    ∙ ap (λ (v : List ℤ). record s { values = v })
        (append_assoc s.values (e.value ∷ []) (values_of events))

-- On a valid history a query whose key no event has does not panic, and returns the values of the
-- base and then those of the events before the query, sorted by time and id, in whatever order
-- they came.
pub values_in_order {μ} :
    {C : Type μ} (F : Channel C) (t : ℤ) (h : History OrderedValuesSnapshot ReceiveValue C)
    → IsValid ordered_values F h
    → contains_key (query_key t h.snapshot_id) h.events ≡ false
    → snapshot_at ordered_values F t h
      ≡ some (
        record {
          id = h.base_snapshot.id;
          time = t;
          values =
              h.base_snapshot.values ++ values_of (before (query_key t h.snapshot_id) h.events);
        },
        h.reconciliation,
      )
unfolding state_at
values_in_order F t h v free =
    snapshot_at_exact ordered_values ordered-SetsTime ordered-IgnoresTime F t h v free
    ∙ ap (λ (s : OrderedValuesSnapshot). some (record s { time = t }, h.reconciliation))
        (apply_all-values h.base_snapshot (before (query_key t h.snapshot_id) h.events))
