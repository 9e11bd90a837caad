-- ===== src/Handle/Polling.antt =====
-- src/handle.rs: the loop of `try_recv`, which removes receivers from the list that it walks.
use contime.Prelude.{
  any, ℕ, zero, suc, ◌+◌, ◌≡◌, refl, sym, ap, ap₂, ◌∙◌, Bool, true, false, ◌||◌, Option, none, some,
  List, [], ◌∷◌, ◌++◌, append_assoc, append-nil, get_elem?, set, last, length, arith,
}
use contime.Handle.{
  worker_dropped, Result, ok, err, Polled, received, empty, disconnected, drop_last, swap_remove,
  try_recv_loop, is_done, try_recv,
}

pub get_elem?-append {ℓ} :
    {A : Type ℓ} (pre : List A) (x : A) (rest : List A)
    → get_elem? (pre ++ x ∷ rest) (length pre) ≡ some x
get_elem?-append [] x rest = refl
get_elem?-append (y ∷ pre) x rest = get_elem?-append pre x rest

set-append {ℓ} :
    {A : Type ℓ} (pre : List A) (x v : A) (rest : List A)
    → set (pre ++ x ∷ rest) (length pre) v ≡ pre ++ v ∷ rest
set-append [] x v rest = refl
set-append (y ∷ pre) x v rest = ap (λ l. y ∷ l) (set-append pre x v rest)

last_end {ℓ} : {A : Type ℓ} (init : List A) (z : A) → last (init ++ z ∷ []) ≡ some z
last_end [] z = refl
last_end (y ∷ init) z = rw (last_end init z) refl

drop_last_end {ℓ} : {A : Type ℓ} (init : List A) (z : A) → drop_last (init ++ z ∷ []) ≡ init
unfolding drop_last
drop_last_end [] z = refl
drop_last_end (y ∷ []) z = refl
drop_last_end (y ∷ x ∷ init) z = ap (λ l. y ∷ l) (drop_last_end (x ∷ init) z)

by_end {ℓ} :
    {A : Type ℓ} (x : A) (xs : List A) → (init : List A) × (z : A) × (x ∷ xs ≡ init ++ z ∷ [])
by_end x [] = ([], x, refl)
by_end x (y ∷ xs) = let (init, z, e) = by_end y xs in (x ∷ init, z, ap (λ l. x ∷ l) e)

pub length-end {ℓ} :
    {A : Type ℓ} (init : List A) (z : A) → length (init ++ z ∷ []) ≡ length init + 1
length-end [] z = refl
length-end (y ∷ init) z = omega (arith, length-end init z)

swap_remove_last {ℓ} :
    {A : Type ℓ} (pre : List A) (x : A) → swap_remove (length pre) (pre ++ x ∷ []) ≡ pre
unfolding swap_remove
swap_remove_last pre x =
    rw (swap_remove, last_end pre x, set-append pre x x [], drop_last_end pre x) refl

swap_remove_inner {ℓ} :
    {A : Type ℓ} (pre : List A) (x : A) (init : List A) (z : A)
    → swap_remove (length pre) (pre ++ x ∷ (init ++ z ∷ [])) ≡ pre ++ z ∷ init
unfolding swap_remove
swap_remove_inner pre x init z =
    rw (swap_remove, sym (append_assoc pre (x ∷ init) (z ∷ [])), last_end (pre ++ x ∷ init) z)
      (rw (set-append pre x z (init ++ z ∷ [])) (
        ap drop_last (sym (append_assoc pre (z ∷ init) (z ∷ [])))
        ∙ drop_last_end (pre ++ z ∷ init) z))

or_true : (b : Bool) → (b || true) ≡ true
or_true true = refl
or_true false = refl

module _ {ℓ} {R : Type ℓ} (poll : R → Polled (Unit {0})) where
  abbrev pub is_disconnected : R → Bool
  is_disconnected rx = elim (poll rx) [ received u ↦ false | empty ↦ false | disconnected ↦ true ]

  abbrev pub is_empty : R → Bool
  is_empty rx = elim (poll rx) [ received u ↦ false | empty ↦ true | disconnected ↦ false ]

  -- what the polls of all receivers amount to
  abbrev pub verdict : Bool → Bool → Result (Option (Unit {0}))
  verdict true waits = err worker_dropped
  verdict false true = ok none
  verdict false false = ok (some tt)

  any_end : (p : R → Bool) (init : List R) (z : R) → any p (init ++ z ∷ []) ≡ (p z || any p init)
  any_end p [] z = refl
  any_end p (y ∷ init) z = ground (arith, any_end p init z)

  pub swap_remove_view :
      (pre : List R) (x : R) (rest : List R)
      → (rest' : List R) × (swap_remove (length pre) (pre ++ x ∷ rest) ≡ pre ++ rest')
        × (length rest' ≡ length rest)
        × ((p : R → Bool) → any p rest' ≡ any p rest)
  swap_remove_view pre x [] = ([], swap_remove_last pre x ∙ sym (append-nil pre), refl, λ p. refl)
  swap_remove_view pre x (y ∷ ys) =
      let (init, z, e) = by_end y ys in
      (
        z ∷ init,
        rw e (swap_remove_inner pre x init z),
        omega (arith, ap length e, length-end init z),
        λ p. sym (ap (any p) e ∙ any_end p init z),
      )

  abbrev is_cons : List R → Bool
  is_cons [] = false
  is_cons (x ∷ xs) = true

  is_cons-append : (pre : List R) (x : R) → is_cons (pre ++ x ∷ []) ≡ true
  is_cons-append [] x = refl
  is_cons-append (y ∷ pre) x = refl

  abbrev outcome : ℕ → ℕ → List R → Result (Option (Unit {0}))
  outcome fuel i rxs = let r = try_recv_loop poll fuel i rxs in is_done poll r.0 r.1

  -- the loop with this much fuel gives the verdict of the receivers that are left, where those
  -- that it has passed have no message yet
  Decides : ℕ → Type ℓ
  Decides fuel =
      (pre rest : List R)
      → length rest ≡ fuel
      → outcome fuel (length pre) (pre ++ rest)
        ≡ verdict (any is_disconnected rest) (is_cons pre || any is_empty rest)

  by_head :
      (result : Result (Option (Unit {0}))) (pre : List R) (x : R) (rest : List R) (a b : Bool)
      → is_disconnected x ≡ a
      → is_empty x ≡ b
      → result ≡ verdict (a || any is_disconnected rest) (is_cons pre || (b || any is_empty rest))
      → result ≡ verdict (any is_disconnected (x ∷ rest)) (is_cons pre || any is_empty (x ∷ rest))
  by_head result pre x rest a b p q h =
      h
      ∙ ap₂
          (λ u v. verdict (u || any is_disconnected rest) (is_cons pre || (v || any is_empty rest)))
          (sym p) (sym q)

  polled_Decides :
      (fuel : ℕ)
      → Decides fuel
      → (pre : List R) (x : R) (rest : List R) → length rest ≡ fuel
      → (o : Polled (Unit {0})) → poll x ≡ o
      → outcome (suc fuel) (length pre) (pre ++ x ∷ rest)
        ≡ verdict (any is_disconnected (x ∷ rest)) (is_cons pre || any is_empty (x ∷ rest))
  unfolding try_recv_loop Decides
  polled_Decides fuel again pre x rest e (received u) q =
      let (rest', swapped, same_length, same_any) = swap_remove_view pre x rest in
      by_head _ pre x rest false false (rw (is_disconnected, q) refl) (rw (is_empty, q) refl) (
        rw (outcome, try_recv_loop, get_elem?-append pre x rest)
          (rw (q, swapped)
            (rw (same_any is_disconnected, same_any is_empty) at
              (again pre rest' (same_length ∙ e)))))
  polled_Decides fuel again pre x rest e empty q =
      by_head _ pre x rest false true (rw (is_disconnected, q) refl) (rw (is_empty, q) refl) (
        rw (outcome, try_recv_loop, get_elem?-append pre x rest)
          (rw (q, or_true (is_cons pre))
            (rw (length-end pre x, append_assoc pre (x ∷ []) rest, is_cons-append pre x) at
              (again (pre ++ x ∷ []) rest e))))
  polled_Decides fuel again pre x rest e disconnected q =
      by_head _ pre x rest true false (rw (is_disconnected, q) refl) (rw (is_empty, q) refl)
        (rw (outcome, try_recv_loop, get_elem?-append pre x rest) (rw q refl))

  decides : (fuel : ℕ) → Decides fuel
  unfolding try_recv_loop Decides
  decides zero [] [] e = refl
  decides zero (p ∷ pre) [] e = refl
  decides zero pre (x ∷ rest) e = absurd (omega (arith, e))
  decides (suc fuel) pre [] e = absurd (omega (arith, e))
  decides (suc fuel) pre (x ∷ rest) e =
      polled_Decides fuel (decides fuel) pre x rest (omega (arith, e)) (poll x) refl

  -- `try_recv` returns the error where any receiver has lost its worker, wherever it stands in the
  -- list; else it is done exactly where every receiver has a message.
  pub try_recv-verdict :
      (rxs : List R) → (try_recv poll rxs).0 ≡ verdict (any is_disconnected rxs) (any is_empty rxs)
  unfolding try_recv Decides
  try_recv-verdict rxs = decides (length rxs) [] rxs refl
