-- ===== src/Worker/Pool/Drained.antt =====
-- The goroutines of the worker lose no message, and end once the channel is closed.
use notification_system.Prelude.{
  ℕ, ◌+◌, ◌≤◌, ◌<◌, Bool, true, false, List, [], ◌∷◌, ◌++◌, length, length-append, ap, ◌≢◌, count,
  ◌≡◌, refl, sym, ◌∙◌, ◌⊎◌, inl, inr, arith, count-append,
}
use notification_system.Domain.Models.{StreamMessage}
use notification_system.Worker.Defs.{Config}
use notification_system.Worker.Pool.Defs.{
  goroutines, goroutines-positive, ReadLoop, returned, feeding, Pool, opened, PoolStep, PoolRun,
  start, next, cancel_context, stop, read, reply, fail, fail_cancelled, resume, stop_paused, feed,
  stop_feeding, fed_all, close, take_job, finish, leave, IsOver,
}

pub record Sound (n : ℕ) (p : Pool) : Type 0 where
  pub room : length p.jobs ≤ n
  pub hands : p.idle + length p.busy + p.ended ≡ n
  pub left : (p.ended ≡ 0) ⊎ ((p.jobs ≡ []) × (p.closed ≡ true))
  pub shut : (p.closed ≡ false) ⊎ (p.loop ≡ returned)
  pub flow :
      (q : StreamMessage → Bool)
      → count q p.fed ≡ count q p.processed + count q p.busy + count q p.jobs

opened-Sound : (n : ℕ) → Sound n (opened n)
opened-Sound n = record {
  room = omega arith;
  hands = omega arith;
  left = inl refl;
  shut = inl refl;
  flow = λ q. refl;
}

-- A read loop that still has something to do shows that the channel is open.
open_at :
    {p : Pool} {l : ReadLoop} → p.loop ≡ l → ◌≢◌ l returned → {n : ℕ} → Sound n p → p.closed ≡ false
open_at at other h = elim h.shut [ inl c ↦ c | inr r ↦ absurd (other (sym at ∙ r)) ]

none_left : {p : Pool} {n : ℕ} → p.closed ≡ false → Sound n p → p.ended ≡ 0
none_left c h = elim h.left [ inl e ↦ e | inr x ↦ ground (arith, x.1, c) ]

feed-Sound :
    (n : ℕ) (p : Pool) (m : StreamMessage) (rest : List StreamMessage)
    → p.closed ≡ false
    → length p.jobs < n
    → Sound n p
    → Sound n (record p { loop = feeding rest; jobs = p.jobs ++ m ∷ []; fed = p.fed ++ m ∷ [] })
feed-Sound n p m rest o room h = record {
  room = omega (arith, length-append p.jobs (m ∷ []));
  hands = h.hands;
  left = inl (none_left o h);
  shut = inl o;
  flow =
      λ q. ground (arith, count-append q p.jobs (m ∷ []), count-append q p.fed (m ∷ []), h.flow q);
}

-- The read loop goes on, with the channel as it was.
moved-Sound :
    (n : ℕ) (p : Pool) (l : ReadLoop)
    → (p.closed ≡ false) ⊎ (l ≡ returned)
    → Sound n p
    → Sound n (record p { loop = l })
moved-Sound n p l c h = record {
  room = h.room;
  hands = h.hands;
  left = h.left;
  shut = c;
  flow = h.flow;
}

take-Sound :
    (n : ℕ) (p : Pool) (m : StreamMessage) (rest : List StreamMessage) (others : ℕ)
    → p.jobs ≡ m ∷ rest
    → p.idle ≡ others + 1
    → Sound n p
    → Sound n (record p { jobs = rest; idle = others; busy = m ∷ p.busy })
take-Sound n p m rest others e i h = record {
  room = ground (arith, h.room, ap length e);
  hands = omega (arith, h.hands, i);
  left = elim h.left [ inl z ↦ inl z | inr x ↦ ground (arith, e, x.0) ];
  shut = h.shut;
  flow = λ q. ground (arith, h.flow q, ap (count q) e);
}

finish-Sound :
    (n : ℕ) (p : Pool) (m : StreamMessage) (before after : List StreamMessage)
    → p.busy ≡ before ++ m ∷ after
    → Sound n p
    → Sound n (record p { busy = before ++ after; idle = p.idle + 1; processed = m ∷ p.processed })
finish-Sound n p m before after e h = record {
  room = h.room;
  hands =
      ground
        (arith, h.hands, ap length e, length-append before (m ∷ after), length-append before after);
  left = h.left;
  shut = h.shut;
  flow = λ q. ground (
    arith,
    h.flow q,
    ap (count q) e,
    count-append q before (m ∷ after),
    count-append q before after,
  );
}

step-Sound : {n : ℕ} {p q : Pool} → PoolStep n p q → Sound n p → Sound n q
step-Sound (cancel_context e) h = record {
  room = h.room;
  hands = h.hands;
  left = h.left;
  shut = h.shut;
  flow = h.flow;
}
step-Sound (stop at c) h = moved-Sound _ _ _ (inr refl) h
step-Sound (read at c) h = moved-Sound _ _ _ (inl (open_at at (λ w. ground (arith, w)) h)) h
step-Sound (reply at batch) h = moved-Sound _ _ _ (inl (open_at at (λ w. ground (arith, w)) h)) h
step-Sound (fail at c) h = moved-Sound _ _ _ (inl (open_at at (λ w. ground (arith, w)) h)) h
step-Sound (fail_cancelled at c) h = moved-Sound _ _ _ (inr refl) h
step-Sound (resume at) h = moved-Sound _ _ _ (inl (open_at at (λ w. ground (arith, w)) h)) h
step-Sound (stop_paused at c) h = moved-Sound _ _ _ (inr refl) h
step-Sound (feed at room) h = feed-Sound _ _ _ _ (open_at at (λ w. ground (arith, w)) h) room h
step-Sound (stop_feeding at c) h = moved-Sound _ _ _ (inr refl) h
step-Sound (fed_all at) h = moved-Sound _ _ _ (inl (open_at at (λ w. ground (arith, w)) h)) h
step-Sound (close at c) h = record {
  room = h.room;
  hands = h.hands;
  left = inl (none_left c h);
  shut = inr at;
  flow = h.flow;
}
step-Sound (take_job e i) h = take-Sound _ _ _ _ _ e i h
step-Sound (finish m before after e) h = finish-Sound _ _ m before after e h
step-Sound (leave c e i) h = record {
  room = h.room;
  hands = omega (arith, h.hands, i);
  left = inr (e, c);
  shut = h.shut;
  flow = h.flow;
}

pub run-Sound : {n : ℕ} {p : Pool} → PoolRun n p → Sound n p
run-Sound start = opened-Sound _
run-Sound (next r s) = step-Sound s (run-Sound r)

empty_of : {A : Type 0} (xs : List A) → length xs ≡ 0 → xs ≡ []
empty_of [] e = refl
empty_of (x ∷ xs) e = ground (arith, e)

emptied : {n : ℕ} {p : Pool} → 0 < n → Sound n p → p.ended ≡ n → p.jobs ≡ []
emptied lt h e = elim h.left [ inl z ↦ ground (arith, z, e, lt) | inr x ↦ x.0 ]

-- When `Run` returns, the buffer is empty, no message is in process, and every message that was ever
-- sent on the channel has been processed exactly as often as it was sent: a shutdown drops nothing
-- that the read loop has handed over. It holds of every configuration and every interleaving.
pub PoolRun-drained :
    (c : Config) {p : Pool}
    → PoolRun (goroutines c) p
    → IsOver (goroutines c) p
    → (p.jobs ≡ [])
      × (p.busy ≡ [])
      × ((q : StreamMessage → Bool) → count q p.processed ≡ count q p.fed)
PoolRun-drained c {p} r over =
    let h = run-Sound r in
    let none_waits = emptied (goroutines-positive c) h over.1 in
    let none_is_busy = empty_of p.busy (omega (arith, h.hands, over.1)) in
    (
      none_waits,
      none_is_busy,
      λ q. omega (arith, h.flow q, ap (count q) none_waits, ap (count q) none_is_busy),
    )
