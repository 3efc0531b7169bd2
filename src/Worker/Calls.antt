-- ===== src/Worker/Calls.antt =====
-- How often an action calls the provider: rules for the actions of the store.
use notification_system.Prelude.{
  ℕ, ◌+◌, ◌≤◌, ◌≡◌, refl, Bool, true, false, Option, none, some, [], ◌∷◌, arith, count,
  count-append, ite, String,
}
use notification_system.Domain.Errors.{Error, Result, ok, err}
use notification_system.Domain.Models.{Uuid, Time}
use notification_system.Domain.Enums.{RequestStatus}
use notification_system.Effects.{Event, called_provider}
use notification_system.Store.Session.{
  Db, Session, Action, pure, or_fail, ◌>>=◌, ◌>>◌, statement, exec, with_tx, roll_back, emit,
  external, attempt,
}
use notification_system.Store.Deliveries.{
  mark_sent, mark_failed, recompute_request_status, store_status, adjust_if,
}
use notification_system.Store.Batches.{adjust_batch_counters}

abbrev pub is_call : Event → Bool
is_call (called_provider r) = true
is_call _ = false

abbrev pub calls : Session → ℕ
calls s = count is_call s.events

-- An action that calls the provider at most so often.
unfoldable pub Calls : {A : Type 0} → ℕ → Action A → Type 0
Calls n m = (s : Session) → calls (m s).1 ≤ calls s + n

pub Calls-statement :
    {A : Type 0} (what : String) (read : Session → A) (write : Session → Db)
    → Calls 0 (statement what read write)
unfolding Calls statement
Calls-statement what read write s = ground arith

pub Calls-or_fail : {A : Type 0} (o : Option A) (e : Error) → Calls 0 (or_fail o e)
unfolding Calls or_fail
Calls-or_fail none e s = omega arith
Calls-or_fail (some a) e s = omega arith

call_step :
    {A B : Type 0} (n k c : ℕ) (f : A → Action B) (x : Result A × Session)
    → ((a : A) → Calls k (f a))
    → calls x.1 ≤ c + n
    → calls (elim x.0 as (λ r. Result B × Session) [ ok a ↦ f a x.1 | err e ↦ (err e, x.1) ]).1
      ≤ c + (n + k)
unfolding Calls
call_step n k c f (ok a, t) hf le = omega (arith, le, hf a t)
call_step n k c f (err e, t) hf le = omega (arith, le)

pub Calls-bind :
    {A B : Type 0} (n k : ℕ) (m : Action A) (f : A → Action B)
    → Calls n m
    → ((a : A) → Calls k (f a))
    → Calls (n + k) (m >>= f)
unfolding Calls ◌>>=◌
Calls-bind n k m f h hf s = call_step n k (calls s) f (m s) hf (h s)

-- A chain of actions that do not call the provider.
pub Calls-chain :
    {A B : Type 0} (m : Action A) (f : A → Action B)
    → Calls 0 m
    → ((a : A) → Calls 0 (f a))
    → Calls 0 (m >>= f)
Calls-chain m f = Calls-bind 0 0 m f

pub Calls-attempt : {A : Type 0} (n : ℕ) (m : Action A) → Calls n m → Calls n (attempt m)
unfolding Calls attempt
Calls-attempt n m h s = h s

pub Calls-pure : {A : Type 0} (a : A) → Calls 0 (pure a)
unfolding Calls
Calls-pure a s = omega arith

roll_back-calls :
    {A : Type 0} (db : Db) (x : Result A × Session) → calls (roll_back db x).1 ≡ calls x.1
roll_back-calls db (ok a, t) = refl
roll_back-calls db (err e, t) = refl

abbrev tx_body : {A : Type 0} → Action A → Action A
tx_body m = m >>= λ a. exec "commit" (λ t. t.db) >> pure a

pub Calls-tx_body : {A : Type 0} (m : Action A) → Calls 0 m → Calls 0 (tx_body m)
Calls-tx_body m h =
    Calls-chain m _ h (λ a. Calls-chain _ _ (Calls-statement "commit" _ _) (λ _. Calls-pure a))

pub Calls-with_tx : {A : Type 0} (m : Action A) → Calls 0 m → Calls 0 (with_tx m)
unfolding Calls with_tx
Calls-with_tx m h s =
    rw (roll_back-calls s.db (◌>>=◌ (exec "begin" (λ t. t.db)) (λ _. tx_body m) s)) (
      Calls-chain (exec "begin" (λ t. t.db)) (λ _. tx_body m) (Calls-statement "begin" _ _)
        (λ _. Calls-tx_body m h) s)

pub Calls-emit : (e : Event) → is_call e ≡ false → Calls 0 (emit e)
unfolding Calls emit
Calls-emit e h s = ground (arith, count-append is_call s.events (e ∷ []))

pub Calls-external : (what : String) (e : Event) → is_call e ≡ false → Calls 0 (external what e)
unfolding Calls external
Calls-external what e h s = ground (arith, count-append is_call s.events (e ∷ []))

pub Calls-ite :
    {P : Type 0} (d : Dec P) (m n : Action (Unit {0})) → Calls 0 m → Calls 0 n → Calls 0 (ite d m n)
Calls-ite (yes p) m n h k = h
Calls-ite (no p) m n h k = k

pub Calls-adjust_if : (b : Option Uuid) (from to : RequestStatus) → Calls 0 (adjust_if b from to)
unfolding adjust_if adjust_batch_counters
Calls-adjust_if none from to = Calls-pure tt
Calls-adjust_if (some b) from to =
    Calls-ite _ _ _ (Calls-pure tt) (Calls-statement "adjust batch counters" _ _)

pub Calls-recompute : (rid : Uuid) → Calls 0 (recompute_request_status rid)
unfolding recompute_request_status store_status
Calls-recompute rid = Calls-chain _ _ (Calls-statement _ _ _) (λ o.
    Calls-chain _ _ (Calls-or_fail o _) (λ r. Calls-chain _ _ (Calls-statement _ _ _) (λ ss.
      Calls-ite _ _ _ (Calls-pure tt)
        (Calls-chain _ _ (Calls-statement _ _ _) (λ _. Calls-adjust_if _ _ _)))))

pub Calls-mark_sent :
    (id : Uuid) (created : Time) (rid : Uuid) (mid : String)
    → Calls 0 (mark_sent id created rid mid)
unfolding mark_sent
Calls-mark_sent id created rid mid =
    Calls-with_tx _ (Calls-chain _ _ (Calls-statement _ _ _) (λ _. Calls-recompute rid))

pub Calls-mark_failed :
    (id : Uuid) (created : Time) (rid : Uuid) (n : ℕ) (e : String)
    → Calls 0 (mark_failed id created rid n e)
unfolding mark_failed
Calls-mark_failed id created rid n e =
    Calls-with_tx _ (Calls-chain _ _ (Calls-statement _ _ _) (λ _. Calls-recompute rid))
