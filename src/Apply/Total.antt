-- ===== src/Apply/Total.antt =====
-- `apply_event_in_place` on all of its branches.
use contime.Prelude.{ℕ, zero, suc, ◌<◌, ◌≡◌, ◌∙◌, refl, ap, false, some, arith, inl, inr}
use contime.Prelude.Int.{pos}
use contime.Prelude.Word.{to_i64, to_u64-to_i64}
use contime.Key.{ContimeKey, key_ord, from_event}
use contime.BTreeMap.{BTreeMap, contains_key, insert}
use contime.BTreeMap.Sorted.{insert-IsSorted, All-insert}
use contime.BTreeMap.Totals.{total, total-insert}
use contime.Sizes.{Accounts}
use contime.Traits.{Snapshot}
use contime.Apply.Branches.{apply_event_in_place-cases}
use contime.Apply.{Applied, apply_event_in_place}
use contime.Apply.Latest.{apply_latest-Settles}
use contime.Apply.OutOfOrder.{apply_out_of_order-Settles}
use contime.Apply.Invariant.{IsValid, Settles, tracked, insert_new}

module _ {ℓ κ} {S : Type ℓ} {E : Type κ} (T : Snapshot S E) where
  -- what `apply_event_in_place` promises of its result
  pub record AppliesWell (event : E) (base : S) (cps : BTreeMap ContimeKey S)
      (events : BTreeMap ContimeKey E) (r : Applied S E) : Type (ℓ ⊔ κ) where
    pub inserted : r.events ≡ insert_new T event events
    pub valid : IsValid T base r.checkpoints r.events
    pub accounts :
        Accounts (tracked T cps events) (pos 0) (tracked T r.checkpoints r.events) r.bytes_delta

  from_Settles :
      (event : E) (base : S) (cps : BTreeMap ContimeKey S) (events : BTreeMap ContimeKey E)
      (r : Applied S E)
      → contains_key (from_event T.event event) events ≡ false
      → IsValid T base cps events
      → Settles T base cps
          (insert (from_event T.event event) event events)
          (to_i64 (T.event.conservative_size event))
          r
      → AppliesWell event base cps events r
  from_Settles event base cps events r new v h = record {
    inserted = rw new h.same_events;
    valid = record {
      events_sorted = rw h.same_events (insert-IsSorted _ event events v.events_sorted);
      checkpoints_sorted = h.sorted;
      exact = rw h.same_events h.settled;
      keyed = rw h.same_events (All-insert _ _ event events refl v.keyed);
    };
    accounts = omega (
      arith,
      h.accounts,
      to_u64-to_i64 (T.event.conservative_size event),
      ap (total T.event.conservative_size) h.same_events,
      total-insert T.event.conservative_size (from_event T.event event) event events new,
    );
  }

  applied-AppliesWell :
      (event : E) (base : S) (cps : BTreeMap ContimeKey S) (events : BTreeMap ContimeKey E) (i : ℕ)
      → IsValid T base cps events
      → (r : Applied S E) × (apply_event_in_place T event base cps events (suc i) ≡ some r)
        × AppliesWell event base cps events r
  applied-AppliesWell event base cps events i v =
      let key = from_event T.event event in
      let d = to_i64 (T.event.conservative_size event) in
      elim (apply_event_in_place-cases T event base cps events (suc i)) [
        | inl (held, q) ↦ (
          record { checkpoints = cps; events = events; bytes_delta = pos 0 },
          q,
          record { inserted = rw held; valid = v; accounts = refl },
        )
        | inr (new, branch) ↦ elim branch [
          | inl (latest, q) ↦
              let (r, e, h) =
                apply_latest-Settles T base key event events cps new latest v.events_sorted v.exact
                  i d v.checkpoints_sorted in
              (r, q ∙ e, from_Settles event base cps events r new v h)
          | inr (earlier, q) ↦
              let (r, e, h) =
                apply_out_of_order-Settles T base key event events cps i d v.events_sorted
                  v.checkpoints_sorted v.exact in
              (r, q ∙ e, from_Settles event base cps events r new v h)
        ]
      ]

  -- On valid maps and with a positive interval `apply_event_in_place` does not panic: it returns
  -- the events with the new one put in (or unchanged, if its key is taken), a valid set of
  -- checkpoints for them, and a number that accounts for the change of all sizes.
  pub apply_event_in_place_total :
      (event : E) (base : S) (cps : BTreeMap ContimeKey S) (events : BTreeMap ContimeKey E)
      (interval : ℕ)
      → 0 < interval
      → IsValid T base cps events
      → (r : Applied S E) × (apply_event_in_place T event base cps events interval ≡ some r)
        × AppliesWell event base cps events r
  apply_event_in_place_total event base cps events zero h v = absurd (omega arith)
  apply_event_in_place_total event base cps events (suc i) h v =
      applied-AppliesWell event base cps events i v
