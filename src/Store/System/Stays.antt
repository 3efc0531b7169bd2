-- ===== src/Store/System/Stays.antt =====
-- Actions that keep a property of the tables, whether they return a value or an error.
use notification_system.Prelude.{
  String, Bool, true, false, Option, none, some, List, [], ◌∷◌, arith, if◌then◌else◌,
}
use notification_system.Domain.Errors.{Error, Result, ok, err}
use notification_system.Effects.{Event}
use notification_system.Store.Session.{
  Db, Session, Action, or_fail, query, statement, new_uuid, clock_now, ◌>>=◌, attempt, external,
  emit, each,
}

abbrev pub Holds : {A : Type 0} → (Db → Type 0) → Result A × Session → Type 0
Holds P x = P x.1.db

abbrev pub Stays : {A : Type 0} → (Db → Type 0) → Action A → Type 0
Stays P m = (s : Session) → P s.db → Holds P (m s)

module _ (P : Db → Type 0) where
  pub query-Stays : {A : Type 0} (what : String) (read : Session → A) → Stays P (query what read)
  unfolding statement
  query-Stays what read s h = ground (arith, h)

  after-Stays :
      {A B : Type 0} (f : A → Action B) (x : Result A × Session)
      → ((a : A) → Stays P (f a))
      → P x.1.db
      → P (elim x.0 as (λ _. Result B × Session) [ ok a ↦ f a x.1 | err e ↦ (err e, x.1) ]).1.db
  after-Stays f (ok a, t) k q = k a t q
  after-Stays f (err e, t) k q = q

  pub bind-Stays :
      {A B : Type 0} (m : Action A) (f : A → Action B)
      → Stays P m
      → ((a : A) → Stays P (f a))
      → Stays P (m >>= f)
  unfolding ◌>>=◌
  bind-Stays m f h k s p = after-Stays f (m s) k (h s p)

  pub new_uuid-Stays : Stays P new_uuid
  unfolding new_uuid
  new_uuid-Stays s h = h

  pub clock_now-Stays : Stays P clock_now
  unfolding clock_now
  clock_now-Stays s h = h

  pub emit-Stays : (e : Event) → Stays P (emit e)
  unfolding emit
  emit-Stays e s h = h

  pub external-Stays : (what : String) (e : Event) → Stays P (external what e)
  unfolding external
  external-Stays what e s h = ground (arith, h)

  pub or_fail-Stays : {A : Type 0} (o : Option A) (e : Error) → Stays P (or_fail o e)
  unfolding or_fail
  or_fail-Stays none e s h = h
  or_fail-Stays (some a) e s h = h

  pub attempt-Stays : {A : Type 0} (m : Action A) → Stays P m → Stays P (attempt m)
  unfolding attempt
  attempt-Stays m h s p = h s p

  pub if-Stays :
      {A : Type 0} (b : Bool) (m n : Action A)
      → Stays P m
      → Stays P n
      → Stays P (if b then m else n)
  if-Stays true m n h k = h
  if-Stays false m n h k = k

  pub each-Stays :
      {A : Type 0} (f : A → Action (Unit {0})) (xs : List A)
      → ((a : A) → Stays P (f a))
      → Stays P (each f xs)
  unfolding each
  each-Stays f [] h = λ s p. p
  each-Stays f (x ∷ xs) h = bind-Stays (f x) (λ _. each f xs) (h x) (λ _. each-Stays f xs h)

-- A property of the value, if one is returned.
abbrev pub IfOk : {A : Type 0} → (A → Type 0) → Result A → Type 0
IfOk Q (ok a) = Q a
IfOk Q (err e) = Unit

abbrev pub Gives : {A : Type 0} → (A → Type 0) → Action A → Type 0
Gives Q m = (s : Session) → IfOk Q (m s).0

module _ {B : Type 0} (Q : B → Type 0) where
  given_after :
      {A : Type 0} (f : A → Action B) (x : Result A × Session)
      → ((a : A) → Gives Q (f a))
      → IfOk Q (elim x.0 as (λ _. Result B × Session) [ ok a ↦ f a x.1 | err e ↦ (err e, x.1) ]).0
  given_after f (ok a, t) k = k a t
  given_after f (err e, t) k = tt

  pub bind-Gives :
      {A : Type 0} (m : Action A) (f : A → Action B) → ((a : A) → Gives Q (f a)) → Gives Q (m >>= f)
  unfolding ◌>>=◌
  bind-Gives m f k s = given_after f (m s) k

  pub if-Gives : (b : Bool) (m n : Action B) → Gives Q m → Gives Q n → Gives Q (if b then m else n)
  if-Gives true m n h k = h
  if-Gives false m n h k = k

module _ {A B : Type 0} (R : A → Type 0) (Q : B → Type 0) where
  known_after :
      (f : A → Action B) (x : Result A × Session)
      → ((a : A) → R a → Gives Q (f a))
      → IfOk R x.0
      → IfOk Q (elim x.0 as (λ _. Result B × Session) [ ok a ↦ f a x.1 | err e ↦ (err e, x.1) ]).0
  known_after f (ok a, t) k r = k a r t
  known_after f (err e, t) k r = tt

  pub bind-Gives_given :
      (m : Action A) (f : A → Action B)
      → Gives R m
      → ((a : A) → R a → Gives Q (f a))
      → Gives Q (m >>= f)
  unfolding ◌>>=◌
  bind-Gives_given m f g k s = known_after f (m s) k (g s)

module _ {A B : Type 0} (P : Db → Type 0) (Q : A → Type 0) where
  both_after :
      (f : A → Action B) (x : Result A × Session)
      → ((a : A) → Q a → Stays P (f a))
      → P x.1.db
      → IfOk Q x.0
      → P (elim x.0 as (λ _. Result B × Session) [ ok a ↦ f a x.1 | err e ↦ (err e, x.1) ]).1.db
  both_after f (ok a, t) k p q = k a q t p
  both_after f (err e, t) k p q = p

  -- What follows may rely on the value.
  pub bind-Stays_given :
      (m : Action A) (f : A → Action B)
      → Stays P m
      → Gives Q m
      → ((a : A) → Q a → Stays P (f a))
      → Stays P (m >>= f)
  unfolding ◌>>=◌
  bind-Stays_given m f h g k s p = both_after f (m s) k (h s p) (g s)
