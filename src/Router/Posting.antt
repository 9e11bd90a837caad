-- ===== src/Router/Posting.antt =====
-- src/router.rs: what a call puts into the channels of the workers, and what it does where a
-- worker has gone.
use contime.Prelude.{
  ℕ, suc, ◌+◌, ◌%◌, ◌⊎◌, ◌≡◌, ◌≢◌, refl, ap, sym, ◌∙◌, false, Option, none, some, List, [], ◌∷◌,
  ◌++◌, append_assoc, append-nil, set, length-set, get_elem?, get_elem?-set_self,
  get_elem?-set_other, eq_of_same, ◌==◌, if◌then◌else◌, length, Bool-cases, inl, inr, arith,
}
use contime.Traits.{EventLanes}
use contime.Worker.{WorkerInbound}
use contime.Router.{Router, RouterError, Outcome, ok, err, error, Receiver}
use contime.System.{Mailbox, IsFifo}

differ : (i j : ℕ) → (i == j) ≡ false → j ≢ i
differ i j e p = ground arith

length-append {ℓ} : {A : Type ℓ} (xs ys : List A) → length (xs ++ ys) ≡ length xs + length ys
length-append [] ys = omega arith
length-append (x ∷ xs) ys = omega (arith, length-append xs ys)

module _ {ℓ κ} {S : Type ℓ} {E : Type κ} where
  -- the messages for the worker at an index, among messages with the workers they are for
  abbrev pub mail : ℕ → List (ℕ × WorkerInbound S E) → List (WorkerInbound S E)
  mail i [] = []
  mail i ((j, m) ∷ posts) = if i == j then m ∷ mail i posts else mail i posts

  -- the receivers of the replies: a channel of its own for each message, numbered from a start on
  abbrev pub receivers : ℕ → List (ℕ × WorkerInbound S E) → List (Receiver S E)
  receivers n [] = []
  receivers n ((j, m) ∷ posts) =
      record { number = n; worker = j; inbound = m } ∷ receivers (suc n) posts

  mail-append :
      (i : ℕ) (xs ys : List (ℕ × WorkerInbound S E)) → mail i (xs ++ ys) ≡ mail i xs ++ mail i ys
  mail-append i [] ys = refl
  mail-append i ((j, m) ∷ xs) ys = elim (Bool-cases (i == j)) [
    | inl e ↦ rw e (ap (λ l. m ∷ l) (mail-append i xs ys))
    | inr e ↦ rw e (mail-append i xs ys)
  ]

module _ {ℓ κ ν} {S : Type ℓ} {E : Type κ} {Q : Type ν} (L : EventLanes S E)
    (B : Mailbox Q (WorkerInbound S E)) (fifo : IsFifo B) (hash_one : ℕ → ℕ) where
  -- the same number of workers, budget and use of it
  pub record IsLike (r r' : Router Q) : Type 0 where
    pub workers : length r'.workers ≡ length r.workers
    pub budget : r'.memory_budget ≡ r.memory_budget
    pub usage : r'.memory_usage ≡ r.memory_usage

  -- the worker of an id
  abbrev pub home : Router Q → ℕ → ℕ
  home r snapshot_id = hash_one snapshot_id % length r.workers

  -- the messages that wait in a channel, where there is one
  abbrev waits : Option Q → List (WorkerInbound S E)
  waits none = []
  waits (some q) = B.waiting q

  abbrev pub waiting_at : ℕ → Router Q → List (WorkerInbound S E)
  waiting_at i r = waits (get_elem? r.workers i)

  -- every worker has got the messages that are for it, behind those that wait, and nothing else
  pub record Posted (posts : List (ℕ × WorkerInbound S E)) (r r' : Router Q) : Type (ℓ ⊔ κ) where
    pub like : IsLike r r'
    pub waiting : (i : ℕ) → waiting_at i r' ≡ waiting_at i r ++ mail i posts
    pub channels : r'.channels ≡ r.channels + length posts

  -- the channel of the worker does not take the message
  abbrev pub Refuses : ℕ × WorkerInbound S E → Router Q → Type ν
  Refuses post r = (q : Q) × (get_elem? r.workers post.0 ≡ some q) × (B.inbox.send post.1 q ≡ none)

  -- all messages up to the first that is refused are in the channels, and that one is refused
  abbrev pub Stops : List (ℕ × WorkerInbound S E) → Router Q → Router Q → Type (ℓ ⊔ κ ⊔ ν)
  Stops posts r r' =
      (pre : List (ℕ × WorkerInbound S E)) × (post : ℕ × WorkerInbound S E) × (more : List
        (ℕ × WorkerInbound S E))
      × (posts ≡ pre ++ post ∷ more)
      × Posted pre r r'
      × Refuses post r'

  -- all messages are in the channels, and the caller has a receiver for each; or one is refused,
  -- and the call fails there
  abbrev pub Posting :
      List (ℕ × WorkerInbound S E)
      → Router Q
      → Outcome RouterError (Router Q) (List (Receiver S E))
      → Type (ℓ ⊔ κ ⊔ ν)
  Posting posts r result =
      ((r' : Router Q) × (result ≡ ok (receivers r.channels posts) r') × Posted posts r r')
      ⊎ ((r' : Router Q) × (result ≡ err error r') × Stops posts r r')

  pub Posted-nil : (r : Router Q) → Posted [] r r
  Posted-nil r = record {
    like = record { workers = refl; budget = refl; usage = refl };
    waiting = λ i. sym (append-nil (waiting_at i r));
    channels = omega arith;
  }

  pub Posted-trans :
      {a b c : Router Q} (xs ys : List (ℕ × WorkerInbound S E))
      → Posted xs a b
      → Posted ys b c
      → Posted (xs ++ ys) a c
  Posted-trans {a} {b} {c} xs ys p q = record {
    like = record {
      workers = q.like.workers ∙ p.like.workers;
      budget = q.like.budget ∙ p.like.budget;
      usage = q.like.usage ∙ p.like.usage;
    };
    waiting = λ i.
        q.waiting i
        ∙ ap (λ l. l ++ mail i ys) (p.waiting i)
        ∙ append_assoc (waiting_at i a) (mail i xs) (mail i ys)
        ∙ ap (λ l. waiting_at i a ++ l) (sym (mail-append i xs ys));
    channels = omega (arith, p.channels, q.channels, length-append xs ys);
  }

  -- the router after a message that the worker has taken
  abbrev pub sent : ℕ → Q → Router Q → Router Q
  sent j q' r = record r { workers = set r.workers j q'; channels = suc r.channels }

  pub sent-Posted :
      (j : ℕ) (m : WorkerInbound S E) (r : Router Q) (q q' : Q)
      → get_elem? r.workers j ≡ some q
      → B.inbox.send m q ≡ some q'
      → Posted ((j, m) ∷ []) r (sent j q' r)
  sent-Posted j m r q q' found taken = record {
    like = record { workers = length-set r.workers j q'; budget = refl; usage = refl };
    waiting = λ i. elim (Bool-cases (i == j)) [
      | inl e ↦ rw e (
          ap (λ k. waits (get_elem? (set r.workers j q') k)) (eq_of_same i j e)
          ∙ ap waits (get_elem?-set_self r.workers j q q' found)
          ∙ fifo.waiting-send m q q' taken
          ∙ ap (λ o. waits o ++ m ∷ []) (sym found)
          ∙ ap (λ k. waiting_at k r ++ m ∷ []) (sym (eq_of_same i j e)))
      | inr e ↦ rw e (
          ap waits (get_elem?-set_other r.workers j i q' (differ i j e))
          ∙ sym (append-nil (waiting_at i r)))
    ];
    channels = omega arith;
  }
