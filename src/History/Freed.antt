-- ===== src/History/Freed.antt =====
-- `advance`: the number of bytes that it returns, against what the history holds.
use contime.Prelude.{ℕ, ◌+◌, ◌≡◌, ap, Option, none, some, ◌⊎◌, inl, inr, last, Option-cases, arith}
use contime.Prelude.Int.{ℤ, pos}
use contime.Key.{ContimeKey, key_ord}
use contime.BTreeMap.Ranges.{before, from, before-from}
use contime.BTreeMap.Totals.{total, total-append}
use contime.Sizes.{Accounts, subtract_sizes, subtract_sizes-Accounts}
use contime.Traits.{Snapshot}
use contime.Channel.{Channel}
use contime.History.{History, promoted, drop_key, advance}
use contime.History.Valid.{IsValid, retained}

module _ {ℓ κ μ} {S : Type ℓ} {E : Type κ} {C : Type μ} (T : Snapshot S E) (F : Channel C) where
  -- the number that `advance` returns, against the checkpoints and events alone
  advance-Accounts :
      (time : ℤ) (h : History S E C)
      → IsValid T F h
      → Accounts
          (retained T F h)
          (pos 0)
          (retained T F (advance T F time h).0)
          (advance T F time h).1
  unfolding advance
  advance-Accounts time h v =
      let k = drop_key T F time h in
      let size = T.conservative_size in
      let event_size = T.event.conservative_size in
      let freed_events = subtract_sizes event_size (before k h.events) (pos 0) in
      let first =
        subtract_sizes-Accounts event_size
          (total size h.checkpoints + total event_size (from k h.events)) (before k h.events)
          (pos 0) in
      let second =
        subtract_sizes-Accounts size
          (total size (from k h.checkpoints) + total event_size (from k h.events))
          (before k h.checkpoints) freed_events in
      omega (
        arith,
        first,
        second,
        total-append event_size (before k h.events) (from k h.events),
        ap (total event_size) (before-from k h.events v.maps.events_sorted),
        total-append size (before k h.checkpoints) (from k h.checkpoints),
        ap (total size) (before-from k h.checkpoints v.maps.checkpoints_sorted),
      )

  -- the bytes of all that a history holds
  abbrev pub held : History S E C → ℕ
  held h = T.conservative_size h.base_snapshot + retained T F h

  -- what `advance` returns is the change of all that the history holds
  abbrev pub ReturnsChange : History S E C → History S E C → ℤ → Type ℓ
  ReturnsChange h h' d =
      (h'.base_snapshot ≡ h.base_snapshot) × Accounts (held h) (pos 0) (held h') d

  -- a checkpoint is the new base, and what `advance` returns is off by the sizes of the two
  abbrev pub ReturnsTooMuch : S → History S E C → History S E C → ℤ → Type ℓ
  ReturnsTooMuch c h h' d =
      (h'.base_snapshot ≡ c)
      × Accounts (held h + T.conservative_size c) (pos 0)
          (held h' + T.conservative_size h.base_snapshot) d

  base_of :
      (time : ℤ) (h : History S E C) (found : Option (ContimeKey × S))
      → last (before (drop_key T F time h) h.checkpoints) ≡ found
      → (advance T F time h).0.base_snapshot ≡ promoted h.base_snapshot found
  unfolding advance
  base_of time h found e = ap (promoted h.base_snapshot) e

  -- On a valid history: if `advance` drops no checkpoint, the base stays, and the number returned
  -- is, modulo 2^64, the change of the bytes of all that the history holds, its base included. If
  -- it drops one, the last of them is the new base, and the number is that change plus the size of
  -- the old base less the size of the new one.
  pub advance_drifts :
      (time : ℤ) (h : History S E C)
      → IsValid T F h
      → ((last (before (drop_key T F time h) h.checkpoints) ≡ none)
          × ReturnsChange h (advance T F time h).0 (advance T F time h).1)
        ⊎ ((k : ContimeKey) × (c : S) × (last (before (drop_key T F time h) h.checkpoints)
              ≡ some (k, c))
            × ReturnsTooMuch c h (advance T F time h).0 (advance T F time h).1)
  advance_drifts time h v =
      elim (Option-cases (last (before (drop_key T F time h) h.checkpoints))) [
        | inl none_dropped ↦
            let same = base_of time h none none_dropped in
            inl (
              none_dropped,
              (same, omega (arith, advance-Accounts time h v, ap T.conservative_size same)),
            )
        | inr ((k, c), dropped) ↦
            let promotes = base_of time h (some (k, c)) dropped in
            inr (
              k,
              c,
              dropped,
              (promotes, omega (arith, advance-Accounts time h v, ap T.conservative_size promotes)),
            )
      ]
