-- ===== src/Traits.antt =====
-- src/traits.rs: what a program that uses the crate implements. A method that takes `&mut self`
-- returns the new value.
use contime.Prelude.{ℕ, ◌≡◌, List}
use contime.Prelude.Int.{ℤ}

-- `trait Event`
pub record Event {κ} (E : Type κ) : Type κ where
  pub id : E → ℕ
  pub time : E → ℤ
  pub conservative_size : E → ℕ

-- `trait ApplyEvent<S>`
pub record ApplyEvent {ℓ κ} (S : Type ℓ) (E : Type κ) : Type (ℓ ⊔ κ) where
  pub snapshot_id : E → ℕ
  pub apply_to : E → S → S

-- `trait Snapshot`, with `type Event: Event + ApplyEvent<Self>` as the type `E`
pub record Snapshot {ℓ κ} (S : Type ℓ) (E : Type κ) : Type (ℓ ⊔ κ) where
  pub event : Event E
  pub apply : ApplyEvent S E
  pub id : S → ℕ
  pub time : S → ℤ
  pub set_time : ℤ → S → S
  pub conservative_size : S → ℕ
  pub from_event : E → S

-- `trait EventLanes<SL>`: the snapshots that an event creates
pub record EventLanes {ℓ κ} (S : Type ℓ) (E : Type κ) : Type (ℓ ⊔ κ) where
  pub lane : Snapshot S E
  pub snapshots : E → List S

-- `set_time` sets the time, and nothing else.
pub record SetsTime {ℓ κ} {S : Type ℓ} {E : Type κ} (T : Snapshot S E) : Type ℓ where
  pub time-set_time : (t : ℤ) (s : S) → T.time (T.set_time t s) ≡ t
  pub id-set_time : (t : ℤ) (s : S) → T.id (T.set_time t s) ≡ T.id s
  pub set_time-set_time : (t u : ℤ) (s : S) → T.set_time t (T.set_time u s) ≡ T.set_time t s

-- The effect of an event does not depend on the time that its snapshot carries.
pub record IgnoresTime {ℓ κ} {S : Type ℓ} {E : Type κ} (T : Snapshot S E) : Type (ℓ ⊔ κ) where
  pub apply_to-set_time :
      (e : E) (t : ℤ) (s : S)
      → T.apply.apply_to e (T.set_time t s) ≡ T.set_time t (T.apply.apply_to e s)
