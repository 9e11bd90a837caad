-- ===== src/History/Ledger/Horizon.antt =====
-- `advance` on a history with several authoritative snapshots.
use contime.Prelude.{List, subst, some_injective, ◌≡◌, refl, sym, ap, ap₂, ◌∙◌, true, some}
use contime.Prelude.Int.{ℤ}
use contime.Key.{key_ord}
use contime.Ord.{is_le}
use contime.BTreeMap.{included, unbounded, in_range}
use contime.BTreeMap.Ranges.{from, not_contains_filter}
use contime.Traits.{Snapshot, SetsTime, IgnoresTime}
use contime.Channel.{Channel}
use contime.History.{History, new, drop_key, advance, snapshot_at}
use contime.History.Advance.{IsCovered}
use contime.History.Query.{query_key}
use contime.History.Ledger.{
  Ledger, Command, new_ledger, take_all, InFront, IsFree, answer_at, perform_all,
}
use contime.History.Ledger.Kept.{IsLayered-from, answer-from}
use contime.History.Ledger.Refines.{Represents, new-Represents, perform_all_refines, answers}

module _ {ℓ κ μ} {S : Type ℓ} {E : Type κ} {C : Type μ} (T : Snapshot S E) (F : Channel C) where
  -- the ledger of what a history keeps
  abbrev pub pruned : ℤ → History S E C → Ledger S E → Ledger S E
  pruned time h l =
      let key = drop_key T F time h in
      record l {
        base = (advance T F time h).0.base_snapshot;
        authorities = from key l.authorities;
        events = from key l.events;
      }

  pub advance_refines :
      (time : ℤ) (l : Ledger S E) (h : History S E C)
      → Represents T F l h
      → IsCovered T F time h
      → Represents T F (pruned time h l) (advance T F time h).0
  unfolding advance
  advance_refines time l h v gap = record {
    same_id = v.same_id;
    same_base = refl;
    same_events = ap (from (drop_key T F time h)) v.same_events;
    layered =
        IsLayered-from T h.base_snapshot l.authorities h.checkpoints h.events (drop_key T F time h)
          v.layered gap;
    interval = v.interval;
  }

  answer-pruned :
      SetsTime T
      → IgnoresTime T
      → (time t : ℤ) (l : Ledger S E) (h : History S E C) → Represents T F l h
      → IsCovered T F time h
      → is_le (key_ord.cmp (drop_key T F time h) (query_key t l.id)) ≡ true
      → answer_at T (pruned time h l) t ≡ answer_at T l t
  unfolding advance
  answer-pruned sets ignores time t l h v gap later =
      ap (λ m. answer_at T (record (pruned time h l) { events = from (drop_key T F time h) m }) t)
        (sym v.same_events)
      ∙ answer-from T h.base_snapshot l.authorities h.checkpoints h.events (drop_key T F time h)
          v.layered gap sets ignores l.id t later
      ∙ ap₂ (λ b m. answer_at T (record l { base = b; events = m }) t) v.same_base v.same_events

  snapshot_at-pruned :
      SetsTime T
      → IgnoresTime T
      → (time t : ℤ) (l : Ledger S E) (h : History S E C) → Represents T F l h
      → IsCovered T F time h
      → is_le (key_ord.cmp (drop_key T F time h) (query_key t l.id)) ≡ true
      → IsFree T l t
      → snapshot_at T F t (advance T F time h).0
        ≡ some (answer_at T l t, (advance T F time h).0.reconciliation)
  snapshot_at-pruned sets ignores time t l h v gap later free =
      let key = drop_key T F time h in
      answers T F sets ignores (pruned time h l) (advance T F time h).0 t
        (advance_refines time l h v gap)
        (
          not_contains_filter (in_range (included key) unbounded) (query_key t l.id) l.events
              (rw v.same_events at v.layered.events_sorted) free.0,
          not_contains_filter (in_range (included key) unbounded) (query_key t l.id) l.authorities
              v.layered.authorities_sorted free.1,
        )
      ∙ ap (λ s. some (s, (advance T F time h).0.reconciliation))
          (answer-pruned sets ignores time t l h v gap later)

  -- Where `set_time` sets only the time and the effect of an event ignores it: a new history takes
  -- a list of events and authoritative snapshots, each event that is the latest when it comes
  -- behind all authorities then in force. If the last checkpoint before the horizon of `advance`
  -- then covers the events before it, every query from the horizon on that has the key of no event
  -- and of no authority returns after `advance` the answer of the ledger, as before, and the
  -- history represents the ledger of what is kept.
  pub advance_keeps_answers :
      SetsTime T
      → IgnoresTime T
      → (s : S) (now delta : ℤ) (cs : List (Command S E)) → InFront T cs (new_ledger T s)
      → (h : History S E C) → perform_all T F cs (new T F s now delta).0 ≡ some h
      → (time : ℤ) → IsCovered T F time h
      → let l = take_all T cs (new_ledger T s) in
        Represents T F (pruned time h l) (advance T F time h).0
        × ((t : ℤ)
            → is_le (key_ord.cmp (drop_key T F time h) (query_key t l.id)) ≡ true
            → IsFree T l t
            → snapshot_at T F t (advance T F time h).0
              ≡ some (answer_at T l t, (advance T F time h).0.reconciliation))
  advance_keeps_answers sets ignores s now delta cs front h e time gap =
      let l = take_all T cs (new_ledger T s) in
      let (h', e', v') =
        perform_all_refines T F cs (new_ledger T s) (new T F s now delta).0
          (new-Represents T F s now delta) front in
      let v : Represents T F l h = subst (Represents T F l) (some_injective h' h (sym e' ∙ e)) v' in
      (
        advance_refines time l h v gap,
        λ t later free. snapshot_at-pruned sets ignores time t l h v gap later free,
      )
