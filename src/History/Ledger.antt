-- ===== src/History/Ledger.antt =====
-- What a history means: a ledger of its events and of the authoritative snapshots that are in
-- force, and how events and snapshots change it. The ledger knows no checkpoints.
pub mod Refines
pub mod Answers
pub mod Kept
pub mod Horizon
use contime.Prelude.{
  ℕ, ◌≡◌, false, Option, some, List, [], ◌∷◌, ◌++◌, last, ◌==◌, ◌>>=◌, if◌then◌else◌,
}
use contime.Prelude.Int.{ℤ, pos}
use contime.Key.{ContimeKey, key_ord}
use contime.BTreeMap.{BTreeMap, contains_key, entries, excluded}
use contime.BTreeMap.Ranges.{upto, before}
use contime.Traits.{Snapshot}
use contime.Channel.{Channel}
use contime.Apply.{start_from}
use contime.Apply.Invariant.{insert_new}
use contime.Apply.Layers.Event.{IsInFront, authorities_after}
use contime.History.{History, def_deps, apply_all, apply_event, apply_snapshot}
use contime.History.Query.{query_key}

pub record Ledger {ℓ κ} (S : Type ℓ) (E : Type κ) : Type (ℓ ⊔ κ) where
  pub id : ℕ
  pub base : S
  pub authorities : BTreeMap ContimeKey S
  pub events : BTreeMap ContimeKey E

-- what a history is given
pub data Command {ℓ κ} (S : Type ℓ) (E : Type κ) : Type (ℓ ⊔ κ) where
  event : E → Command S E
  snapshot : S → Command S E

module _ {ℓ κ} {S : Type ℓ} {E : Type κ} (T : Snapshot S E) where
  abbrev pub take_event : E → Ledger S E → Ledger S E
  take_event e l = record l {
    authorities = authorities_after T e l.authorities l.events;
    events = insert_new T e l.events;
  }

  -- a snapshot with the ledger's id comes into force at its time, and ends those from then on
  abbrev pub take_authority : S → Ledger S E → Ledger S E
  take_authority s l =
      let key = query_key (T.time s) l.id in
      if T.id s == l.id
      then record l { authorities = before key l.authorities ++ (key, s) ∷ [] }
      else l

  abbrev pub take : Command S E → Ledger S E → Ledger S E
  take (event e) l = take_event e l
  take (snapshot s) l = take_authority s l

  abbrev pub take_all : List (Command S E) → Ledger S E → Ledger S E
  take_all [] l = l
  take_all (c ∷ cs) l = take_all cs (take c l)

  -- each event that is the latest when it comes lies behind all authorities in force
  abbrev pub InFront : List (Command S E) → Ledger S E → Type 0
  InFront [] l = Unit
  InFront (event e ∷ cs) l = IsInFront T e l.authorities l.events × InFront cs (take_event e l)
  InFront (snapshot s ∷ cs) l = InFront cs (take_authority s l)

  -- the ledger of a new history
  abbrev pub new_ledger : S → Ledger S E
  new_ledger s = record { id = T.id s; base = T.set_time (pos 0) s; authorities = []; events = [] }

  -- a query has the key of no event and of no authority
  abbrev pub IsFree : Ledger S E → ℤ → Type 0
  IsFree l t =
      (contains_key (query_key t l.id) l.events ≡ false)
      × (contains_key (query_key t l.id) l.authorities ≡ false)

  -- the answer to a query: the events before it that lie behind the last authority up to it,
  -- applied on top of that authority
  unfoldable pub answer_at : Ledger S E → ℤ → S
  answer_at l t =
      let query = query_key t l.id in
      let start = start_from T l.base (last (upto query l.authorities)) in
      T.set_time t (apply_all T start.0 (entries start.1 (excluded query) l.events))

module _ {ℓ κ μ} {S : Type ℓ} {E : Type κ} {C : Type μ} (T : Snapshot S E) (F : Channel C) where
  unfoldable pub perform : Command S E → History S E C → Option (History S E C × ℤ)
  perform (event e) h = apply_event T F (def_deps T) e h
  perform (snapshot s) h = apply_snapshot T F s h

  unfoldable pub perform_all : List (Command S E) → History S E C → Option (History S E C)
  perform_all [] h = some h
  perform_all (c ∷ cs) h = do r ← perform c h; perform_all cs r.0
