-- ===== src/Apply/Replay.antt =====
-- `replay_and_checkpoint`: with a positive interval it does not panic, every checkpoint that it
-- leaves is the state that the events up to its key give, and its result accounts for their sizes.
use contime.Prelude.{
  ℕ, suc, ◌+◌, ◌%◌, ◌==◌, ◌≡◌, refl, sym, ap, ◌∙◌, Bool, true, false, some, [], ◌∷◌, ◌++◌,
  append_assoc, All, All-imp, arith, if◌then◌else◌,
}
use contime.Prelude.Int.{ℤ}
use contime.Prelude.Word.{to_i64, add_i64, to_u64-to_i64, to_u64-add_i64}
use contime.Key.{ContimeKey, key_ord}
use contime.Ord.{◌≺◌}
use contime.BTreeMap.{BTreeMap, contains_key, insert}
use contime.BTreeMap.Sorted.{
  IsSorted, Precedes, All-insert, insert-IsSorted, insert-append, not_contains_before, KeysBefore,
  contains_key-insert_mono,
}
use contime.BTreeMap.Ranges.{upto}
use contime.BTreeMap.Totals.{total, total-insert}
use contime.Sizes.{Accounts, Accounts-trans}
use contime.Traits.{Snapshot}
use contime.Apply.{step, replay_loop, replay}

module _ {ℓ κ} {S : Type ℓ} {E : Type κ} (T : Snapshot S E) where
  pub replay-append :
      (s : S) (xs ys : BTreeMap ContimeKey E) → replay T s (xs ++ ys) ≡ replay T (replay T s xs) ys
  unfolding replay
  replay-append s [] ys = refl
  replay-append s ((k, e) ∷ xs) ys = replay-append (step T s e) xs ys

  -- a checkpoint is a state that a replay from the base reaches, at the key of an event
  abbrev pub IsCheckpoint : S → BTreeMap ContimeKey E → ContimeKey × S → Type ℓ
  IsCheckpoint base events (k, c) =
      (contains_key k events ≡ true) × (c ≡ replay T base (upto k events))

  -- the loop without the panic
  unfoldable pub walk :
      ℕ → BTreeMap ContimeKey E → ℕ → S → BTreeMap ContimeKey S → ℤ → BTreeMap ContimeKey S × ℤ
  walk i [] count s cps d = (cps, d)
  walk i ((k, e) ∷ rest) count s cps d =
      let due = (count + 1) % suc i == 0 in
      walk i rest (count + 1) (step T s e) (if due then insert k (step T s e) cps else cps)
        (if due then add_i64 d (to_i64 (T.conservative_size (step T s e))) else d)

  pub replay_loop-walk :
      (i : ℕ) (rest : BTreeMap ContimeKey E) (count : ℕ) (s : S) (cps : BTreeMap ContimeKey S)
      (d : ℤ)
      → replay_loop T (suc i) rest count s cps d ≡ some (walk i rest count s cps d)
  unfolding replay_loop walk
  replay_loop-walk i [] count s cps d = refl
  replay_loop-walk i ((k, e) ∷ rest) count s cps d = replay_loop-walk i rest (count + 1) _ _ _

  pub insert_if-All {μ} :
      (P : ContimeKey × S → Type μ) (b : Bool) (k : ContimeKey) (v : S) (m : BTreeMap ContimeKey S)
      → P (k, v)
      → All P m
      → All P (if b then insert k v m else m)
  insert_if-All P true k v m p a = All-insert P k v m p a
  insert_if-All P false k v m p a = a

  pub insert_if-IsSorted :
      (b : Bool) (k : ContimeKey) (v : S) (m : BTreeMap ContimeKey S)
      → IsSorted m
      → IsSorted (if b then insert k v m else m)
  insert_if-IsSorted true k v m s = insert-IsSorted k v m s
  insert_if-IsSorted false k v m s = s

  pub insert_if-contains :
      (b : Bool) (j k : ContimeKey) (v : S) (m : BTreeMap ContimeKey S)
      → IsSorted m
      → contains_key j m ≡ true
      → contains_key j (if b then insert k v m else m) ≡ true
  insert_if-contains true j k v m s h = contains_key-insert_mono j k v m h s
  insert_if-contains false j k v m s h = h

  pub walk-IsSorted :
      (i : ℕ) (rest : BTreeMap ContimeKey E) (count : ℕ) (s : S) (cps : BTreeMap ContimeKey S)
      (d : ℤ)
      → IsSorted cps
      → IsSorted (walk i rest count s cps d).0
  unfolding walk
  walk-IsSorted i [] count s cps d h = h
  walk-IsSorted i ((k, e) ∷ rest) count s cps d h =
      walk-IsSorted i rest (count + 1) _ _ _
        (insert_if-IsSorted ((count + 1) % suc i == 0) k _ cps h)

  -- a checkpoint stays, or is put in anew
  pub walk-contains :
      (i : ℕ) (rest : BTreeMap ContimeKey E) (count : ℕ) (s : S) (cps : BTreeMap ContimeKey S)
      (d : ℤ) (j : ContimeKey)
      → IsSorted cps
      → contains_key j cps ≡ true
      → contains_key j (walk i rest count s cps d).0 ≡ true
  unfolding walk
  walk-contains i [] count s cps d j h c = c
  walk-contains i ((k, e) ∷ rest) count s cps d j h c =
      let due = (count + 1) % suc i == 0 in
      walk-contains i rest (count + 1) _ _ _ j (insert_if-IsSorted due k _ cps h)
        (insert_if-contains due j k _ cps h c)

  -- what holds of the checkpoints before, and of each state that is reached, holds after
  pub walk-All {μ} :
      (P : ContimeKey × S → Type μ) (base : S) (whole : BTreeMap ContimeKey E) (i : ℕ)
      (pre rest : BTreeMap ContimeKey E) (count : ℕ) (s : S) (cps : BTreeMap ContimeKey S) (d : ℤ)
      → ((xs ys : BTreeMap ContimeKey E) (k : ContimeKey) (e : E)
          → xs ++ (k, e) ∷ ys ≡ whole
          → P (k, replay T base (xs ++ (k, e) ∷ [])))
      → pre ++ rest ≡ whole
      → s ≡ replay T base pre
      → All P cps
      → All P (walk i rest count s cps d).0
  unfolding walk replay
  walk-All P base whole i pre [] count s cps d f w r h = h
  walk-All P base whole i pre ((k, e) ∷ rest) count s cps d f w r h =
      walk-All P base whole i (pre ++ (k, e) ∷ []) rest (count + 1) (step T s e) _ _ f
        (append_assoc pre ((k, e) ∷ []) rest ∙ w) stepped
        (insert_if-All P ((count + 1) % suc i == 0) k _ cps (rw stepped (f pre rest k e w)) h)
    where
      stepped : step T s e ≡ replay T base (pre ++ (k, e) ∷ [])
      stepped = rw r (sym (replay-append base pre ((k, e) ∷ [])))

  fresh :
      (k : ContimeKey) (e : E) (rest : BTreeMap ContimeKey E) (cps : BTreeMap ContimeKey S)
      → Precedes cps ((k, e) ∷ rest)
      → contains_key k cps ≡ false
  fresh k e rest cps p = not_contains_before k cps (All-imp (λ x h. h.0) cps p)

  insert_if-Precedes :
      (b : Bool) (k : ContimeKey) (v : S) (e : E) (m : BTreeMap ContimeKey S)
      (rest : BTreeMap ContimeKey E)
      → IsSorted ((k, e) ∷ rest)
      → Precedes m ((k, e) ∷ rest)
      → Precedes (if b then insert k v m else m) rest
  insert_if-Precedes b k v e m rest s p =
      insert_if-All (λ x. All (λ y. x.0 ≺ y.0) rest) b k v m s.0 (All-imp (λ x h. h.1) m p)

  pub insert_if-Accounts :
      (b : Bool) (k : ContimeKey) (v : S) (m : BTreeMap ContimeKey S) (d : ℤ)
      → contains_key k m ≡ false
      → Accounts
          (total T.conservative_size m)
          d
          (total T.conservative_size (if b then insert k v m else m))
          (if b then add_i64 d (to_i64 (T.conservative_size v)) else d)
  insert_if-Accounts true k v m d n = omega (
    arith,
    total-insert T.conservative_size k v m n,
    to_u64-add_i64 d (to_i64 (T.conservative_size v)),
    to_u64-to_i64 (T.conservative_size v),
  )
  insert_if-Accounts false k v m d n = refl

  pub walk-Accounts :
      (i : ℕ) (rest : BTreeMap ContimeKey E) (count : ℕ) (s : S) (cps : BTreeMap ContimeKey S)
      (d : ℤ)
      → IsSorted rest
      → Precedes cps rest
      → Accounts
          (total T.conservative_size cps)
          d
          (total T.conservative_size (walk i rest count s cps d).0)
          (walk i rest count s cps d).1
  unfolding walk
  walk-Accounts i [] count s cps d so p = refl
  walk-Accounts i ((k, e) ∷ rest) count s cps d so p =
      let due = (count + 1) % suc i == 0 in
      Accounts-trans (total T.conservative_size cps) _ _ d _ _
        (insert_if-Accounts due k (step T s e) cps d (fresh k e rest cps p))
        (walk-Accounts i rest (count + 1) (step T s e) _ _ so.1
          (insert_if-Precedes due k (step T s e) e cps rest so p))

  -- checkpoints before all events that are replayed stay in front
  pub walk-append :
      (i : ℕ) (rest : BTreeMap ContimeKey E) (count : ℕ) (s : S) (lo cps : BTreeMap ContimeKey S)
      (d : ℤ)
      → Precedes lo rest
      → (walk i rest count s (lo ++ cps) d).0 ≡ lo ++ (walk i rest count s cps d).0
  unfolding walk
  walk-append i [] count s lo cps d p = refl
  walk-append i ((k, e) ∷ rest) count s lo cps d p =
      let due = (count + 1) % suc i == 0 in
      let d' = if due then add_i64 d (to_i64 (T.conservative_size (step T s e))) else d in
      ap (λ m. (walk i rest (count + 1) (step T s e) m d').0)
        (insert_if-append due k (step T s e) lo cps (All-imp (λ x h. h.0) lo p))
      ∙ walk-append i rest (count + 1) (step T s e) lo
          (if due then insert k (step T s e) cps else cps) d' (All-imp (λ x h. h.1) lo p)
    where
      insert_if-append :
          (b : Bool) (k : ContimeKey) (v : S) (xs ys : BTreeMap ContimeKey S)
          → KeysBefore k xs
          → (if b then insert k v (xs ++ ys) else xs ++ ys)
            ≡ xs ++ (if b then insert k v ys else ys)
      insert_if-append true k v xs ys h = insert-append k v xs ys h
      insert_if-append false k v xs ys h = refl
