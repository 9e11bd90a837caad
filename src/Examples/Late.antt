-- ===== src/Examples/Late.antt =====
-- The theorem about an event before an authoritative snapshot at a concrete input.
use contime.Prelude.{◌≡◌, refl, false, some, [], ◌∷◌, arith}
use contime.Prelude.Int.{ℤ, pos}
use contime.Key.{ContimeKey, from_event, key_ord, compare_key}
use contime.Ord.{◌≺◌}
use contime.BTreeMap.{BTreeMap, contains_key, insert}
use contime.Apply.{Applied, apply_event_in_place}
use contime.Apply.Safe.{IsSound}
use contime.Apply.Behind.{late_authority_stored}
use contime.Apply.Late.{late_event_forgets}
use contime.Fixtures.{TestEvent, TestSnapshot, test_snapshot}
use contime.Examples.Data.{blank, first, late}

-- an authoritative snapshot at time 20, behind an event at time 10
abbrev authority : BTreeMap ContimeKey TestSnapshot
authority = (record { time = pos 20; id = 1 }, record blank { time = pos 20; sum = pos 77 }) ∷ []

abbrev known : BTreeMap ContimeKey TestEvent
known = (from_event test_snapshot.event first, first) ∷ []

authority-IsSound : IsSound test_snapshot authority known
authority-IsSound = record { events_sorted = (tt, tt); checkpoints_sorted = (tt, tt) }

late_event_forgets_example :
    (r : Applied TestSnapshot TestEvent) × (apply_event_in_place test_snapshot late blank authority
        known 100
      ≡ some r)
    × ((k : ContimeKey)
        → from_event test_snapshot.event late ≺ k
        → contains_key k known ≡ false
        → contains_key k r.checkpoints ≡ false)
unfolding contains_key key_ord compare_key insert
late_event_forgets_example =
    late_event_forgets test_snapshot late blank authority known 100 (omega arith) authority-IsSound
      refl refl

-- the latest event, in front of the authoritative snapshot
abbrev earlier : BTreeMap ContimeKey TestEvent
earlier = (from_event test_snapshot.event late, late) ∷ []

late_authority_stored_example :
    (d : ℤ) × (apply_event_in_place test_snapshot first blank authority earlier 100
      ≡ some (record {
        checkpoints =
            insert
              (from_event test_snapshot.event first)
              (record blank { time = pos 20; sum = pos 77 })
              authority;
        events = insert (from_event test_snapshot.event first) first earlier;
        bytes_delta = d;
      }))
unfolding contains_key key_ord compare_key insert
late_authority_stored_example =
    late_authority_stored test_snapshot first blank authority earlier 100
      (record { time = pos 20; id = 1 }) (record blank { time = pos 20; sum = pos 77 })
      (omega arith) refl refl refl refl
