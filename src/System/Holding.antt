-- ===== src/System/Holding.antt =====
-- The histories of the threads of src/worker.rs hold a store: a message at one thread changes what is
-- held there, and nothing elsewhere.
use contime.Prelude.{
  eq_of_same, ℕ, ◌%◌, ◌==◌, ◌≡◌, ◌≢◌, refl, sym, ap, ◌∙◌, subst, Bool-cases, some, some_injective,
  inl, inr, get_elem?, set, get_elem?-set_self, get_elem?-set_other, AllAt,
}
use contime.Prelude.Int.{ℤ}
use contime.Traits.{EventLanes}
use contime.Channel.{Channel}
use contime.Table.{Table, IsTable}
use contime.History.{History}
use contime.Worker.{
  WorkerState, WorkerInbound, event, snapshot, snapshot_at_time, advance_time, shutdown, Reply,
  completed, answered, stopped,
}
use contime.Worker.Store.{Store, entry_before, entry_with, set_entry, Represents}
use contime.History.Ledger.{Ledger, take_event}
use contime.Worker.Answers.{after, IsRequest, IsReply, IsAbout}
use contime.System.{Mailbox, IsFifo, Thread, System, settle, settle_result}
use contime.System.Calls.{IsHome, Belongs}
use native.Mathlib.Decide.{ℕ_discrete}

module _ {ℓ κ μ ν ξ} {S : Type ℓ} {E : Type κ} {C : Type μ} {M : Type ν} {Q : Type ξ}
    (L : EventLanes S E) (F : Channel C) (H : Table M (History S E C)) (table : IsTable H)
    (B : Mailbox Q (WorkerInbound S E)) (fifo : IsFifo B) (hash_one : ℕ → ℕ) (delta : ℤ)
    (n : ℕ) where
  -- what a thread holds at the ids that have their home there
  abbrev pub HoldsAt : Store L.lane → ℕ → Thread M → Type (ℓ ⊔ κ ⊔ μ)
  HoldsAt σ i thread = Represents L.lane F H (IsHome L B fifo hash_one n i) σ thread.history_by_id

  pub Belongs-IsAbout :
      (i : ℕ) (inbound : WorkerInbound S E)
      → Belongs L B fifo hash_one n i inbound
      → IsAbout L.lane C (IsHome L B fifo hash_one n i) inbound
  Belongs-IsAbout i (event k e s) b = b.1
  Belongs-IsAbout i (snapshot_at_time k t) b = b
  Belongs-IsAbout i (snapshot s) b = b
  Belongs-IsAbout i (advance_time t) b = tt
  Belongs-IsAbout i shutdown b = tt

  set_elsewhere :
      (i j k : ℕ) (l : Ledger S E) (σ : Store L.lane) (m : M)
      → i ≢ j
      → IsHome L B fifo hash_one n i k
      → Represents L.lane F H (IsHome L B fifo hash_one n j) σ m
      → Represents L.lane F H (IsHome L B fifo hash_one n j) (set_entry L.lane k l σ) m
  set_elsewhere i j k l σ m h here v = λ k' p. elim (Bool-cases (k == k')) [
    | inl same ↦ absurd (h (sym here ∙ ap (λ x. hash_one x % n) (eq_of_same k k' same) ∙ p))
    | inr other ↦ rw other (v k' p)
  ]

  -- a message at one thread does not concern the ids of another
  elsewhere :
      (i j : ℕ) (inbound : WorkerInbound S E) (σ : Store L.lane) (m : M)
      → i ≢ j
      → IsAbout L.lane C (IsHome L B fifo hash_one n i) inbound
      → Represents L.lane F H (IsHome L B fifo hash_one n j) σ m
      → Represents L.lane F H (IsHome L B fifo hash_one n j) (after L.lane C inbound σ) m
  elsewhere i j (event k e s) σ m h here v =
      set_elsewhere i j k (take_event L.lane e (entry_before L.lane s (σ k))) σ m h here v
  elsewhere i j (snapshot_at_time k t) σ m h here v = v
  elsewhere i j (snapshot s) σ m h here v =
      let k = L.lane.id s in set_elsewhere i j k (entry_with L.lane s (σ k)) σ m h here v
  elsewhere i j (advance_time t) σ m h here v = v
  elsewhere i j shutdown σ m h here v = v

  pub settled_with :
      (inbound : WorkerInbound S E) (σ : Store L.lane) (i : ℕ) (thread : Thread M) (q : Q)
      (w : WorkerState M) (r : Reply S C) (sys : System Q M)
      → IsRequest L.lane C inbound σ
      → IsReply L.lane C inbound σ r
      → settle_result L F H B hash_one delta i thread q (some (w, r)) sys
        ≡ (settle L F H B hash_one delta i thread q w sys, some r)
  unfolding settle_result
  settled_with inbound σ i thread q w completed sys a b = refl
  settled_with inbound σ i thread q w (answered x) sys a b = refl
  settled_with (event k e s) σ i thread q w stopped sys a b = cc
  settled_with (snapshot_at_time k t) σ i thread q w stopped sys a (x, e, b) = cc
  settled_with (snapshot s) σ i thread q w stopped sys a b = cc
  settled_with (advance_time t) σ i thread q w stopped sys a b = absurd a
  settled_with shutdown σ i thread q w stopped sys a b = absurd a

  pub settle-AllAt :
      (i : ℕ) (thread : Thread M) (q : Q) (w : WorkerState M) (inbound : WorkerInbound S E)
      (σ : Store L.lane) (sys : System Q M)
      → get_elem? sys.threads i ≡ some thread
      → IsAbout L.lane C (IsHome L B fifo hash_one n i) inbound
      → Represents L.lane F H
          (IsHome L B fifo hash_one n i)
          (after L.lane C inbound σ)
          w.history_by_id
      → AllAt (HoldsAt σ) sys.threads
      → AllAt
          (HoldsAt (after L.lane C inbound σ))
          (settle L F H B hash_one delta i thread q w sys).threads
  unfolding settle
  settle-AllAt i thread q w inbound σ sys e here new_holds v j other g = elim (ℕ_discrete i j) [
    | yes same ↦
        subst (λ x. HoldsAt (after L.lane C inbound σ) x other) same
          (subst (HoldsAt (after L.lane C inbound σ) i)
            (some_injective (record thread { history_by_id = w.history_by_id }) other
              (sym (
                  get_elem?-set_self sys.threads i thread
                    (record thread { history_by_id = w.history_by_id }) e)
                ∙ ap
                    (get_elem?
                      (set sys.threads i (record thread { history_by_id = w.history_by_id })))
                    same
                ∙ g))
            new_holds)
    | no differ ↦ elsewhere i j inbound σ other.history_by_id differ here (
        v j other (
          sym (
            get_elem?-set_other sys.threads i j (record thread { history_by_id = w.history_by_id })
              differ)
          ∙ g))
  ]
