-- ===== src/Apply/Layers.antt =====
-- Histories with several authoritative snapshots: every checkpoint is the state that the events
-- give on top of the last authority up to it, and every authority is a checkpoint.
pub mod Resume
pub mod Event
pub mod Extend
use contime.Prelude.{
  ◌≡◌, ◌⊎◌, refl, sym, ap, ap₂, ◌∙◌, Bool, true, false, some, [], ◌∷◌, ◌++◌, append-nil, All,
  All-imp, All-both, All-filter, All-passes, All-append, filter, filter-append, filter-All,
  filter_none, filter_congr, last, inl, inr, arith,
}
use contime.Key.{ContimeKey, key_ord}
use contime.Ord.{◌≺◌, is_le, gt_of_lt}
use contime.BTreeMap.{
  BTreeMap, Bound, contains_key, insert, entries, included, excluded, unbounded, in_range, above,
  below,
}
use contime.BTreeMap.Sorted.{
  IsSorted, KeysBefore, filter-IsSorted, insert-IsSorted, contains_key-insert_mono, All-contains,
}
use contime.BTreeMap.Ranges.{
  upto, before, IsLower, contains_key-filter, narrow, upto-behind, filter-insert,
}
use contime.Traits.{Snapshot}
use contime.Apply.{start_from, replay}

module _ {ℓ κ} {S : Type ℓ} {E : Type κ} (T : Snapshot S E) where
  -- where the state of all authorities starts, and how the events up to a key go on from there
  abbrev pub resume_upto : S → BTreeMap ContimeKey S → BTreeMap ContimeKey E → ContimeKey → S
  resume_upto base authorities events k =
      let start = start_from T base (last authorities) in
      replay T start.0 (entries start.1 (included k) events)

  -- the state at a key: the events up to it, from the last authority up to it
  unfoldable pub state_upto : S → BTreeMap ContimeKey S → BTreeMap ContimeKey E → ContimeKey → S
  state_upto base authorities events k = resume_upto base (upto k authorities) events k

  abbrev pub IsLayer : S → BTreeMap ContimeKey S → BTreeMap ContimeKey E → ContimeKey × S → Type ℓ
  IsLayer base authorities events (k, c) =
      ((contains_key k events ≡ true) ⊎ (contains_key k authorities ≡ true))
      × (c ≡ state_upto base authorities events k)

  pub record IsLayered (base : S) (authorities checkpoints : BTreeMap ContimeKey S)
      (events : BTreeMap ContimeKey E) : Type ℓ where
    pub events_sorted : IsSorted events
    pub authorities_sorted : IsSorted authorities
    pub checkpoints_sorted : IsSorted checkpoints
    pub layers : All (IsLayer base authorities events) checkpoints
    pub held : All (λ a. contains_key a.0 checkpoints ≡ true) authorities

  -- maps that agree up to a key give one state at it
  pub state_upto-congr :
      (base : S) (a b : BTreeMap ContimeKey S) (m n : BTreeMap ContimeKey E) (k : ContimeKey)
      → upto k a ≡ upto k b
      → ((lo : Bound ContimeKey) → entries lo (included k) m ≡ entries lo (included k) n)
      → state_upto base a m k ≡ state_upto base b n k
  unfolding state_upto
  state_upto-congr base a b m n k h g =
      ap (λ r. resume_upto base r m k) h
      ∙ ap (replay T (start_from T base (last (upto k b))).0)
          (g (start_from T base (last (upto k b))).1)

  -- the checkpoints up to some place, with the authorities up to it
  pub IsLayered-cut :
      (p : ContimeKey → Bool) (base : S) (a cps : BTreeMap ContimeKey S)
      (events : BTreeMap ContimeKey E)
      → IsLower p
      → IsLayered base a cps events
      → IsLayered base (filter (λ x. p x.0) a) (filter (λ x. p x.0) cps) events
  IsLayered-cut p base a cps events l v = record {
    events_sorted = v.events_sorted;
    authorities_sorted = filter-IsSorted _ a v.authorities_sorted;
    checkpoints_sorted = filter-IsSorted _ cps v.checkpoints_sorted;
    layers =
        All-imp (λ x h. still x h.0 h.1) (filter (λ x. p x.0) cps)
          (All-both (λ x. p x.0 ≡ true) (IsLayer base a events) (filter (λ x. p x.0) cps)
            (All-passes (λ x. p x.0) cps)
            (All-filter (IsLayer base a events) (λ x. p x.0) cps v.layers));
    held =
        All-imp (λ x h. contains_key-filter p x.0 cps h.0 h.1) (filter (λ x. p x.0) a)
          (All-both (λ x. p x.0 ≡ true) (λ x. contains_key x.0 cps ≡ true) (filter (λ x. p x.0) a)
            (All-passes (λ x. p x.0) a)
            (All-filter (λ x. contains_key x.0 cps ≡ true) (λ x. p x.0) a v.held));
  }
    where
      same_upto : (k : ContimeKey) → p k ≡ true → upto k a ≡ upto k (filter (λ x. p x.0) a)
      same_upto k h =
          narrow (in_range unbounded (included k)) p (in_range unbounded (included k)) a
            (λ x. ground (arith, l x k, key_ord.eq_of_cmp x k, h))

      still :
          (x : ContimeKey × S)
          → p x.0 ≡ true
          → IsLayer base a events x
          → IsLayer base (filter (λ y. p y.0) a) events x
      still x h (inl e, q) =
          (inl e, q ∙ state_upto-congr base _ _ events events x.0 (same_upto x.0 h) (λ lo. refl))
      still x h (inr e, q) = (
        inr (contains_key-filter p x.0 a h e),
        q ∙ state_upto-congr base _ _ events events x.0 (same_upto x.0 h) (λ lo. refl),
      )

  -- the authorities lie where the checkpoints do
  pub authorities_within {ν} :
      (P : ContimeKey → Type ν) (base : S) (a cps : BTreeMap ContimeKey S)
      (events : BTreeMap ContimeKey E)
      → IsLayered base a cps events
      → All (λ x. P x.0) cps
      → All (λ x. P x.0) a
  authorities_within P base a cps events v h = All-imp (λ x e. All-contains P x.0 cps h e) a v.held

  -- a new event behind all checkpoints changes none of them
  pub IsLayered-insert :
      (base : S) (a cps : BTreeMap ContimeKey S) (events : BTreeMap ContimeKey E) (k : ContimeKey)
      (event : E)
      → KeysBefore k cps
      → IsLayered base a cps events
      → IsLayered base a cps (insert k event events)
  IsLayered-insert base a cps events k event b v = record {
    events_sorted = insert-IsSorted k event events v.events_sorted;
    authorities_sorted = v.authorities_sorted;
    checkpoints_sorted = v.checkpoints_sorted;
    layers =
        All-imp (λ x h. still x h.0 h.1) cps
          (All-both (λ x. x.0 ≺ k) (IsLayer base a events) cps b v.layers);
    held = v.held;
  }
    where
      same_state :
          (x : ContimeKey)
          → x ≺ k
          → state_upto base a events x ≡ state_upto base a (insert k event events) x
      same_state x h = state_upto-congr base a a events (insert k event events) x refl (λ lo. sym (
          filter-insert (in_range lo (included x)) k event events (ground (arith, gt_of_lt x k h))))

      still :
          (x : ContimeKey × S)
          → x.0 ≺ k
          → IsLayer base a events x
          → IsLayer base a (insert k event events) x
      still x h (inl e, q) = (
        inl (contains_key-insert_mono x.0 k event events e v.events_sorted),
        q ∙ same_state x.0 h,
      )
      still x h (inr e, q) = (inr e, q ∙ same_state x.0 h)
