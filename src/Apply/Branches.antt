-- ===== src/Apply/Branches.antt =====
-- The three branches of `apply_event_in_place`: a key that is taken, the latest event, and an event
-- out of order.
use contime.Prelude.{ℕ, ◌≡◌, ◌⊎◌, true, false, some, Bool-cases, inl, inr}
use contime.Prelude.Int.{pos}
use contime.Prelude.Word.{to_i64}
use contime.Key.{ContimeKey, key_ord, from_event}
use contime.BTreeMap.{BTreeMap, contains_key, insert}
use contime.BTreeMap.Ranges.{behind}
use contime.Traits.{Snapshot}
use contime.Apply.{is_end, apply_latest, apply_out_of_order, apply_event_in_place}

module _ {ℓ κ} {S : Type ℓ} {E : Type κ} (T : Snapshot S E) where
  pub apply_event_in_place-cases :
      (event : E) (base : S) (cps : BTreeMap ContimeKey S) (events : BTreeMap ContimeKey E)
      (interval : ℕ)
      → let key = from_event T.event event in
        let d = to_i64 (T.event.conservative_size event) in
        let all_events = insert key event events in
        let result = apply_event_in_place T event base cps events interval in
        ((contains_key key events ≡ true)
          × (result ≡ some (record { checkpoints = cps; events = events; bytes_delta = pos 0 })))
        ⊎ ((contains_key key events ≡ false)
            × (((is_end (behind key all_events) ≡ true)
                  × (result ≡ apply_latest T key base cps all_events interval d))
                ⊎ ((is_end (behind key all_events) ≡ false)
                    × (result ≡ apply_out_of_order T key base cps all_events interval d))))
  unfolding apply_event_in_place
  apply_event_in_place-cases event base cps events interval =
      let key = from_event T.event event in
      elim (Bool-cases (contains_key key events)) [
        | inl held ↦ inl (held, rw held)
        | inr new ↦ inr (
          new,
          elim (Bool-cases (is_end (behind key (insert key event events)))) [
            | inl latest ↦ inl (latest, rw (new, latest))
            | inr earlier ↦ inr (earlier, rw (new, earlier))
          ],
        )
      ]
