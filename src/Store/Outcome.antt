-- ===== src/Store/Outcome.antt =====
-- Reasoning about actions: a postcondition of what is returned and of the session that is left, and
-- one of the errors, with a rule for each way to build an action.
use notification_system.Prelude.{
  ℕ, ◌+◌, String, ◌≡◌, refl, subst, Bool, true, false, Bool-cases, inl, inr, [], ◌∷◌, ◌++◌, none,
  some, Option, if◌then◌else◌,
}
use notification_system.Domain.Errors.{Error, other, Result, ok, err}
use notification_system.Effects.{Event}
use notification_system.Store.Session.{
  attempt, external, Db, Session, Action, or_fail, ◌>>=◌, statement, with_tx, roll_back,
}

pub data Outcome {A : Type 0} (Q : A → Session → Type 0) (E : Error → Session → Type 0)
    : Result A × Session → Type 0 where
  done : {a : A} {s : Session} → Q a s → Outcome Q E (ok a, s)
  failed : {e : Error} {s : Session} → E e s → Outcome Q E (err e, s)

-- Some statement of the session is going to fail.
abbrev pub Faulty : Session → Type 0
Faulty s = (n : ℕ) × (s.faults n ≡ true)

-- The session after one more statement.
abbrev pub stepped : Session → Db → Session
stepped s db = record s { tick = s.tick + 1; db = db }

module _ {A : Type 0} {Q : A → Session → Type 0} {E : Error → Session → Type 0} where
  pub statement_rule :
      (what : String) (read : Session → A) (write : Session → Db) (s : Session)
      → ((s.faults s.tick ≡ true) → E (other what) (stepped s s.db))
      → Q (read s) (stepped s (write s))
      → Outcome Q E (statement what read write s)
  unfolding statement
  statement_rule what read write s fails works = elim (Bool-cases (s.faults s.tick)) [
    | inl faulty ↦ rw faulty (failed (fails faulty))
    | inr fine ↦ rw fine (done works)
  ]

  -- Both ways that a statement may go, and which it was.
  pub statement_exact_rule :
      (what : String) (read : Session → A) (write : Session → Db) (s : Session)
      → ((s.faults s.tick ≡ true) → E (other what) (stepped s s.db))
      → ((s.faults s.tick ≡ false) → Q (read s) (stepped s (write s)))
      → Outcome Q E (statement what read write s)
  unfolding statement
  statement_exact_rule what read write s fails works = elim (Bool-cases (s.faults s.tick)) [
    | inl faulty ↦ rw faulty (failed (fails faulty))
    | inr fine ↦ rw fine (done (works fine))
  ]

  pub or_fail_rule :
      (o : Option A) (e : Error) (s : Session)
      → ((a : A) → o ≡ some a → Q a s)
      → ((o ≡ none) → E e s)
      → Outcome Q E (or_fail o e s)
  unfolding or_fail
  or_fail_rule none e s works fails = failed (fails refl)
  or_fail_rule (some a) e s works fails = done (works a refl)

  pub if_rule :
      (b : Bool) (m n : Action A) (s : Session)
      → ((b ≡ true) → Outcome Q E (m s))
      → ((b ≡ false) → Outcome Q E (n s))
      → Outcome Q E ((if b then m else n) s)
  if_rule true m n s yes_case no_case = yes_case refl
  if_rule false m n s yes_case no_case = no_case refl

module _ {A B : Type 0} {Q : B → Session → Type 0} {E : Error → Session → Type 0} where
  bind_result :
      (f : A → Action B) (x : Result A × Session)
      → Outcome (λ a t. Outcome Q E (f a t)) E x
      → Outcome Q E (elim x.0 [ ok a ↦ f a x.1 | err e ↦ (err e, x.1) ])
  bind_result f x (done h) = h
  bind_result f x (failed h) = failed h

  pub bind_rule :
      (m : Action A) (f : A → Action B) (s : Session)
      → Outcome (λ a t. Outcome Q E (f a t)) E (m s)
      → Outcome Q E ((m >>= f) s)
  unfolding ◌>>=◌
  bind_rule m f s h = bind_result f (m s) h

-- Postconditions may be weakened.
pub Outcome-mono :
    {A : Type 0} {Q Q' : A → Session → Type 0} {E E' : Error → Session → Type 0}
    (x : Result A × Session)
    → ((a : A) (t : Session) → Q a t → Q' a t)
    → ((e : Error) (t : Session) → E e t → E' e t)
    → Outcome Q E x
    → Outcome Q' E' x
Outcome-mono x q e (done h) = done (q _ _ h)
Outcome-mono x q e (failed h) = failed (e _ _ h)

module _ {A : Type 0} {Q : A → Session → Type 0} {E : Error → Session → Type 0} where
  roll_back_rule :
      (db : Db) (x : Result A × Session)
      → Outcome Q (λ e t. E e (record t { db = db })) x
      → Outcome Q E (roll_back db x)
  roll_back_rule db x (done h) = done h
  roll_back_rule db x (failed h) = failed h

  -- A transaction: the tables of an error are those of the start, and a fault may strike at the
  -- beginning, within and at the end.
  pub with_tx_rule :
      (body : Action A) (s : Session)
      → ((what : String) (t : Session) → Faulty s → t.db ≡ s.db → E (other what) t)
      → Outcome
          (λ a t. (t.faults ≡ s.faults) × Q a (stepped t t.db))
          (λ e t. E e (record t { db = s.db }))
          (body (stepped s s.db))
      → Outcome Q E (with_tx body s)
  unfolding with_tx
  with_tx_rule body s faulty h = roll_back_rule s.db _ (
      bind_rule _ _ s (
        statement_rule "begin" _ _ s (λ f. faulty "begin" _ (s.tick, f) refl)
          (bind_rule body _ _ (
            Outcome-mono (body (stepped s s.db))
              (λ a t k. bind_rule _ _ t (
                statement_rule "commit" _ _ t
                  (λ f. faulty "commit" _ (t.tick, subst (λ g. g t.tick ≡ true) k.0 f) refl)
                  (done k.1)))
              (λ e t k. k) h))))

-- A call whose error is looked at never fails.
pub attempt_rule :
    {A : Type 0} {Q : Result A → Session → Type 0} {E : Error → Session → Type 0} (m : Action A)
    (s : Session)
    → Outcome (λ a t. Q (ok a) t) (λ e t. Q (err e) t) (m s)
    → Outcome Q E (attempt m s)
unfolding attempt
attempt_rule m s h = settle (m s) h
  where
    settle :
        {A : Type 0} {Q : Result A → Session → Type 0} {E : Error → Session → Type 0}
        (x : Result A × Session)
        → Outcome (λ a t. Q (ok a) t) (λ e t. Q (err e) t) x
        → Outcome Q E (ok x.0, x.1)
    settle x (done h) = done h
    settle x (failed h) = done h

pub external_rule :
    {Q : Unit {0} → Session → Type 0} {E : Error → Session → Type 0} (what : String) (e : Event)
    (s : Session)
    → ((s.faults s.tick ≡ true) → E (other what) (stepped s s.db))
    → ((s.faults s.tick ≡ false)
        → Q tt (record s { tick = s.tick + 1; events = s.events ++ e ∷ [] }))
    → Outcome Q E (external what e s)
unfolding external
external_rule what e s fails works = elim (Bool-cases (s.faults s.tick)) [
  | inl faulty ↦ rw faulty (failed (fails faulty))
  | inr fine ↦ rw fine (done (works fine))
]

ok-injective : {A : Type 0} {a b : A} → ok a ≡ ok b → a ≡ b
ok-injective e = cc

err-injective : {A : Type 0} {a b : Error} → ◌≡◌ {A = Result A} (err a) (err b) → a ≡ b
err-injective e = cc

-- What holds of an action that has returned a value.
pub Outcome-ok :
    {A : Type 0} {Q : A → Session → Type 0} {E : Error → Session → Type 0} {x : Result A × Session}
    {a : A}
    → Outcome Q E x
    → x.0 ≡ ok a
    → Q a x.1
Outcome-ok {Q} (done {s = s} h) e = subst (λ b. Q b s) (ok-injective e) h
Outcome-ok (failed h) e = cc

pub Outcome-err :
    {A : Type 0} {Q : A → Session → Type 0} {E : Error → Session → Type 0} {x : Result A × Session}
    {e : Error}
    → Outcome Q E x
    → x.0 ≡ err e
    → E e x.1
Outcome-err (done h) p = cc
Outcome-err {E} (failed {s = s} h) p = subst (λ b. E b s) (err-injective p) h
