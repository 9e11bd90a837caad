-- ===== src/Apply/Stale.antt =====
-- Removing the stale checkpoints: the keys come from the map, so that no `expect` fails, and what
-- is left is the map before the first of them.
use contime.Prelude.{◌≡◌, ap, subst, some, [], ◌∷◌, ◌++◌, append-nil, map, arith}
use contime.Prelude.Int.{ℤ}
use contime.Key.{ContimeKey, key_ord}
use contime.BTreeMap.{BTreeMap}
use contime.BTreeMap.Sorted.{IsSorted, get-append, remove-append, IsSorted-append_drop}
use contime.BTreeMap.Ranges.{before, from, before-from}
use contime.BTreeMap.Totals.{total, total-append}
use contime.Sizes.{Accounts, subtract_sizes, subtract_sizes-Accounts}
use contime.Traits.{Snapshot}
use contime.Apply.{remove_stale}

module _ {ℓ κ} {S : Type ℓ} {E : Type κ} (T : Snapshot S E) where
  -- the delta after the sizes of some checkpoints are taken off
  abbrev pub freed : BTreeMap ContimeKey S → ℤ → ℤ
  freed = subtract_sizes T.conservative_size

  remove_stale-append :
      (lo hi : BTreeMap ContimeKey S) (d : ℤ)
      → IsSorted (lo ++ hi)
      → remove_stale T (map (λ e. e.0) hi) (lo ++ hi) d ≡ some (lo, freed hi d)
  unfolding remove_stale subtract_sizes
  remove_stale-append lo [] d s = rw append-nil
  remove_stale-append lo ((k, c) ∷ hi) d s = rw (get-append k c lo hi s) (
      rw (remove-append k c lo hi s)
        (remove_stale-append lo hi _ (IsSorted-append_drop k c lo hi s)))

  -- the checkpoints from a key on are removed
  pub remove_stale_from :
      (k : ContimeKey) (m : BTreeMap ContimeKey S) (d : ℤ)
      → IsSorted m
      → remove_stale T (map (λ e. e.0) (from k m)) m d ≡ some (before k m, freed (from k m) d)
  remove_stale_from k m d s =
      let cut = before-from k m s in
      subst
        (λ whole.
          remove_stale T (map (λ e. e.0) (from k m)) whole d
          ≡ some (before k m, freed (from k m) d))
        cut (remove_stale-append (before k m) (from k m) d (rw cut s))

  pub remove_stale-Accounts :
      (k : ContimeKey) (m : BTreeMap ContimeKey S) (d : ℤ)
      → IsSorted m
      → Accounts
          (total T.conservative_size m)
          d
          (total T.conservative_size (before k m))
          (freed (from k m) d)
  remove_stale-Accounts k m d s =
      let parts = total-append T.conservative_size (before k m) (from k m) in
      let whole = ap (total T.conservative_size) (before-from k m s) in
      omega (
        arith,
        subtract_sizes-Accounts T.conservative_size (total T.conservative_size (before k m))
            (from k m) d,
        parts,
        whole,
      )
