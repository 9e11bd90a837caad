-- ===== src/History/Arrival.antt =====
-- Sequences of `apply_event`: neither the order in which events arrive nor how often each arrives
-- shows in what queries return.
use contime.Prelude.{
  ◌≡◌, refl, sym, ap, ◌∙◌, Bool, false, ◌||◌, Option, some, List, [], ◌∷◌, All, All-imp, All-both,
  arith, ◌>>=◌, Bool-cases, inl, inr,
}
use contime.Prelude.Int.{ℤ}
use contime.Key.{ContimeKey, key_ord, from_event}
use contime.BTreeMap.{BTreeMap, contains_key}
use contime.BTreeMap.Sorted.{All-insert, not_contains_after}
use contime.BTreeMap.Same.{same_key, contains_key-insert-eq, sorted_ext}
use contime.Traits.{Snapshot, SetsTime, IgnoresTime}
use contime.Channel.{Channel}
use contime.Apply.Invariant.{insert_new}
use contime.History.{History, def_deps, new, apply_event, snapshot_at}
use contime.History.Valid.{IsValid, new-IsValid, apply_event_total}
use contime.History.Query.{query_key, state_at, snapshot_at_exact}

module _ {ℓ κ} {S : Type ℓ} {E : Type κ} (T : Snapshot S E) where
  -- some event of the list has the key
  abbrev pub has_key : ContimeKey → List E → Bool
  has_key k [] = false
  has_key k (x ∷ xs) = same_key k (from_event T.event x) || has_key k xs

  -- the events that are left of a sequence: the first of each key
  abbrev pub insert_all : List E → BTreeMap ContimeKey E → BTreeMap ContimeKey E
  insert_all [] m = m
  insert_all (x ∷ xs) m = insert_all xs (insert_new T x m)

  contains_key-insert_new :
      (k : ContimeKey) (x : E) (m : BTreeMap ContimeKey E)
      → contains_key k (insert_new T x m) ≡ (same_key k (from_event T.event x) || contains_key k m)
  contains_key-insert_new k x m =
      let j = from_event T.event x in
      ground (arith, contains_key-insert-eq k j x m, key_ord.eq_of_cmp k j)

  contains_key-insert_all :
      (k : ContimeKey) (xs : List E) (m : BTreeMap ContimeKey E)
      → contains_key k (insert_all xs m) ≡ (has_key k xs || contains_key k m)
  contains_key-insert_all k [] m = refl
  contains_key-insert_all k (x ∷ xs) m =
      ground (arith, contains_key-insert_all k xs (insert_new T x m), contains_key-insert_new k x m)

  All-insert_new {ν} :
      (P : E → Type ν) (x : E) (m : BTreeMap ContimeKey E)
      → P x
      → All (λ e. P e.1) m
      → All (λ e. P e.1) (insert_new T x m)
  All-insert_new P x m p a = elim (Bool-cases (contains_key (from_event T.event x) m)) [
    | inl held ↦ rw held a
    | inr free ↦ rw free (All-insert (λ e. P e.1) _ x m p a)
  ]

  All-insert_all {ν} :
      (P : E → Type ν) (xs : List E) (m : BTreeMap ContimeKey E)
      → All P xs
      → All (λ e. P e.1) m
      → All (λ e. P e.1) (insert_all xs m)
  All-insert_all P [] m p a = a
  All-insert_all P (x ∷ xs) m p a =
      All-insert_all P xs (insert_new T x m) p.1 (All-insert_new P x m p.0 a)

  -- two events with one key are the same event
  abbrev pub Agree : E → E → Type κ
  Agree x y = from_event T.event x ≡ from_event T.event y → x ≡ y

module _ {ℓ κ μ} {S : Type ℓ} {E : Type κ} {C : Type μ} (T : Snapshot S E) (F : Channel C) where
  -- the events of a list, one call of `apply_event` after the other
  pub apply_events : List E → History S E C → Option (History S E C)
  apply_events [] h = some h
  apply_events (x ∷ xs) h = do r ← apply_event T F (def_deps T) x h; apply_events xs r.0

  -- what a sequence of calls makes of a history
  pub record TakesEvents (xs : List E) (h h' : History S E C) : Type (ℓ ⊔ κ) where
    pub inserted : h'.events ≡ insert_all T xs h.events
    pub same_base : h'.base_snapshot ≡ h.base_snapshot
    pub same_id : h'.snapshot_id ≡ h.snapshot_id
    pub valid : IsValid T F h'

  -- On a valid history a sequence of events goes in without a panic: the history that results is
  -- valid, has the same base and id, and has the first event of each key put in.
  pub apply_events_total :
      (xs : List E) (h : History S E C)
      → IsValid T F h
      → (h' : History S E C) × (apply_events xs h ≡ some h') × TakesEvents xs h h'
  unfolding apply_events
  apply_events_total [] h v =
      (h, refl, record { inserted = refl; same_base = refl; same_id = refl; valid = v })
  apply_events_total (x ∷ xs) h v =
      let (h₁, d, e, w) = apply_event_total T F x h v in
      let (h₂, e₂, w₂) = apply_events_total xs h₁ w.valid in
      (
        h₂,
        rw e e₂,
        record {
          inserted = w₂.inserted ∙ ap (insert_all T xs) w.inserted;
          same_base = w₂.same_base ∙ w.same_base;
          same_id = w₂.same_id ∙ w.same_id;
          valid = w₂.valid;
        },
      )

  -- at one key, entries at their own keys that agree have one value
  at_one :
      (k : ContimeKey) (x : E)
      → k ≡ from_event T.event x
      → (m : BTreeMap ContimeKey E) → All (λ e. e.0 ≡ from_event T.event e.1) m
      → All (λ b. Agree T x b.1) m
      → All (λ b. k ≡ b.0 → x ≡ b.1) m
  at_one k x own [] a b = tt
  at_one k x own ((j, y) ∷ m) a b = (λ same. b.0 (sym own ∙ same ∙ a.0), at_one k x own m a.1 b.1)

  -- the histories of two sequences hold the same events
  same_events :
      (xs ys : List E) (h₁ h₂ : History S E C)
      → IsValid T F h₁
      → IsValid T F h₂
      → h₁.events ≡ insert_all T xs []
      → h₂.events ≡ insert_all T ys []
      → ((k : ContimeKey) → has_key T k xs ≡ has_key T k ys)
      → All (λ x. All (Agree T x) ys) xs
      → h₁.events ≡ h₂.events
  same_events xs ys h₁ h₂ v₁ v₂ e₁ e₂ keys agree =
      sorted_ext h₁.events h₂.events v₁.maps.events_sorted v₂.maps.events_sorted same_keys (
        All-imp (λ a q. at_one a.0 a.1 q.0 h₂.events v₂.maps.keyed q.1) h₁.events
          (All-both _ _ h₁.events v₁.maps.keyed agree_maps))
    where
      same_keys : (k : ContimeKey) → contains_key k h₁.events ≡ contains_key k h₂.events
      same_keys k =
          rw (e₁, e₂)
            (contains_key-insert_all T k xs []
              ∙ ap (λ b. b || contains_key {V = E} k []) (keys k)
              ∙ sym (contains_key-insert_all T k ys []))

      agree_maps : All (λ a. All (λ b. Agree T a.1 b.1) h₂.events) h₁.events
      agree_maps = rw e₁ (
          All-insert_all T (λ x. All (λ b. Agree T x b.1) h₂.events) xs []
            (All-imp (λ x q. rw e₂ (All-insert_all T (λ y. Agree T x y) ys [] q tt)) xs agree) tt)

  -- a query on the history of a sequence, with the parts of that history put in
  queried :
      (sets : SetsTime T) (ignores : IgnoresTime T) (xs : List E) (t : ℤ) (h h' : History S E C)
      (w : TakesEvents xs h h')
      → h.events ≡ []
      → has_key T (query_key t h.snapshot_id) xs ≡ false
      → snapshot_at T F t h'
        ≡ some (state_at T h.base_snapshot h'.events h.snapshot_id t, h'.reconciliation)
  queried sets ignores xs t h h' w none free =
      rw (← w.same_base, ← w.same_id) (snapshot_at_exact T sets ignores F t h' w.valid not_held)
    where
      not_held : contains_key (query_key t h'.snapshot_id) h'.events ≡ false
      not_held =
          rw (w.same_id, w.inserted, none)
            (contains_key-insert_all T (query_key t h.snapshot_id) xs []
              ∙ rw free (not_contains_after {V = E} (query_key t h.snapshot_id) [] tt))

  from_empty :
      SetsTime T
      → IgnoresTime T
      → (h : History S E C) (xs ys : List E) (t : ℤ) → IsValid T F h
      → h.events ≡ []
      → ((k : ContimeKey) → has_key T k xs ≡ has_key T k ys)
      → All (λ x. All (Agree T x) ys) xs
      → has_key T (query_key t h.snapshot_id) xs ≡ false
      → (h₁ : History S E C) × (h₂ : History S E C) × (s : S) × (apply_events xs h ≡ some h₁)
        × (apply_events ys h ≡ some h₂)
        × (h₁.events ≡ h₂.events)
        × (snapshot_at T F t h₁ ≡ some (s, h₁.reconciliation))
        × (snapshot_at T F t h₂ ≡ some (s, h₂.reconciliation))
  from_empty sets ignores h xs ys t v none keys agree free =
      let (h₁, e₁, w₁) = apply_events_total xs h v in
      let (h₂, e₂, w₂) = apply_events_total ys h v in
      let start₁ : h₁.events ≡ insert_all T xs [] = w₁.inserted ∙ ap (insert_all T xs) none in
      let start₂ : h₂.events ≡ insert_all T ys [] = w₂.inserted ∙ ap (insert_all T ys) none in
      let same = same_events xs ys h₁ h₂ w₁.valid w₂.valid start₁ start₂ keys agree in
      let free₂ = sym (keys (query_key t h.snapshot_id)) ∙ free in
      (
        h₁,
        h₂,
        state_at T h.base_snapshot h₂.events h.snapshot_id t,
        e₁,
        e₂,
        same,
        queried sets ignores xs t h h₁ w₁ none free
            ∙ ap (λ m. some (state_at T h.base_snapshot m h.snapshot_id t, h₁.reconciliation)) same,
        queried sets ignores ys t h h₂ w₂ none free₂,
      )

  -- Where `set_time` sets only the time and the effect of an event ignores it: two sequences of
  -- events with the same keys, with one event at a key, both go into a new history without a
  -- panic and give the same events, whatever their order and however often an event comes. A
  -- query whose key no event has returns the same snapshot on both.
  pub arrival_order :
      SetsTime T
      → IgnoresTime T
      → (snapshot : S) (now delta : ℤ) (xs ys : List E) (t : ℤ)
      → ((k : ContimeKey) → has_key T k xs ≡ has_key T k ys)
      → All (λ x. All (Agree T x) ys) xs
      → has_key T (query_key t (T.id snapshot)) xs ≡ false
      → (h₁ : History S E C) × (h₂ : History S E C) × (s : S) × (apply_events xs
            (new T F snapshot now delta).0
          ≡ some h₁)
        × (apply_events ys (new T F snapshot now delta).0 ≡ some h₂)
        × (h₁.events ≡ h₂.events)
        × (snapshot_at T F t h₁ ≡ some (s, h₁.reconciliation))
        × (snapshot_at T F t h₂ ≡ some (s, h₂.reconciliation))
  unfolding new
  arrival_order sets ignores snapshot now delta xs ys t keys agree free =
      from_empty sets ignores (new T F snapshot now delta).0 xs ys t
        (new-IsValid T F snapshot now delta) refl keys agree free
