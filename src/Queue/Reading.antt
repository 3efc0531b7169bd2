-- ===== src/Queue/Reading.antt =====
-- The decoding loop of `Queue.Read`, in redis/queue.go: what it returns and what it counts.
use notification_system.Prelude.{
  ℕ, suc, ◌+◌, ◌≡◌, refl, ap, ◌∙◌, inl, inr, Bool, true, false, Bool-cases, List, [], ◌∷◌, ◌++◌,
  arith, String, count, count-append, if◌then◌else◌,
}
use notification_system.Domain.Models.{StreamMessage, DlqMessage}
use notification_system.Effects.{Event, inc_poison, inc_dlq, dead_lettered, acknowledged}
use notification_system.Queue.Defs.{
  RawEntry, QueueConfig, Decoded, message, poison, decode_entry, message_of, poison_message,
  drop_poison, ack, read_entry, read_entries,
}
use notification_system.Store.Outcome.{
  Outcome, bind_rule, attempt_rule, external_rule, Outcome-mono, done,
}
use notification_system.Store.Session.{
  Session, Action, pure, ◌>>=◌, external, emit, clock_now, attempt,
}

-- The message of an entry that can be decoded.
abbrev pub message_in : RawEntry → Decoded → List StreamMessage
message_in e (message dm) = message_of e dm ∷ []
message_in e (poison r x) = []

-- The messages that the entries hold, in order.
abbrev pub messages : QueueConfig → List RawEntry → List StreamMessage
messages q [] = []
messages q (e ∷ es) = message_in e (decode_entry q e) ++ messages q es

abbrev pub unreadable : Decoded → Bool
unreadable (message dm) = false
unreadable (poison r x) = true

abbrev pub is_poison : QueueConfig → RawEntry → Bool
is_poison q e = unreadable (decode_entry q e)

abbrev pub counts_poison : Event → Bool
counts_poison inc_poison = true
counts_poison _ = false

abbrev pub poison_count : Session → ℕ
poison_count s = count counts_poison s.events

-- No error, no table touched, and so many poison pills counted.
abbrev pub Reads : {A : Type 0} → Action A → Session → A → ℕ → Type 0
Reads m s a n =
    Outcome (λ b t. (b ≡ a) × (t.db ≡ s.db) × (poison_count t ≡ poison_count s + n)) (λ e t. ⊥)
      (m s)

abbrev pub pills : QueueConfig → ℕ → ℕ
pills q n = if q.has_metrics then n else 0

metrics-Reads :
    (q : QueueConfig) (s : Session)
    → Reads
        (if q.has_metrics then (emit inc_poison >>= λ _. emit (inc_dlq "poison_pill")) else pure tt)
        s
        tt
        (pills q 1)
unfolding emit ◌>>=◌
metrics-Reads q s = elim (Bool-cases q.has_metrics) [
  | inl on ↦ rw on (
      done (
        refl,
        refl,
        ground (
          arith,
          count-append counts_poison (s.events ++ inc_poison ∷ []) (inc_dlq "poison_pill" ∷ []),
          count-append counts_poison s.events (inc_poison ∷ []),
        ),
      ))
  | inr off ↦ rw off (done (refl, refl, omega arith))
]

-- A call that is not counted as a poison pill.
quiet_external :
    (what : String) (e : Event) (s : Session)
    → counts_poison e ≡ false
    → Outcome
        (λ _ t. (t.db ≡ s.db) × (poison_count t ≡ poison_count s))
        (λ _ t. (t.db ≡ s.db) × (poison_count t ≡ poison_count s))
        (external what e s)
quiet_external what e s h =
    external_rule what e s (λ f. (refl, refl))
      (λ fine. (refl, ground (arith, count-append counts_poison s.events (e ∷ []))))

-- What keeps the tables and the count.
abbrev Quiet : {A : Type 0} → Action A → Session → Type 0
Quiet m s = Outcome (λ _ t. (t.db ≡ s.db) × (poison_count t ≡ poison_count s)) (λ e t. ⊥) (m s)

Quiet-attempt :
    (what : String) (e : Event) (s : Session)
    → counts_poison e ≡ false
    → Quiet (attempt (external what e)) s
Quiet-attempt what e s h =
    attempt_rule (external what e) s
      (Outcome-mono _ (λ _ t k. k) (λ _ t k. k) (quiet_external what e s h))

Quiet-dlq :
    (q : QueueConfig) (m : DlqMessage) (s : Session)
    → Quiet (attempt (if q.has_dlq then external "xadd dlq" (dead_lettered m) else pure tt)) s
unfolding attempt
Quiet-dlq q m s = elim (Bool-cases q.has_dlq) [
  | inl on ↦ rw on (Quiet-attempt "xadd dlq" (dead_lettered m) s refl)
  | inr off ↦ rw off (done (refl, refl))
]

drop_poison-Reads :
    (q : QueueConfig) (e : RawEntry) (reason error : String) (s : Session)
    → Reads (drop_poison q e reason error) s tt (pills q 1)
unfolding drop_poison clock_now ack
drop_poison-Reads q e reason error s = bind_rule clock_now _ s (
    done (
      bind_rule _ _ s (
        Outcome-mono _
          (λ _ t h. bind_rule _ _ t (
            Outcome-mono _
              (λ _ u k. bind_rule _ _ u (
                Outcome-mono _
                  (λ _ v l. done (refl, l.0 ∙ k.1 ∙ h.0, l.1 ∙ k.2 ∙ ap (λ n. n + pills q 1) h.1))
                  (λ _ v x. x) (Quiet-attempt "xack" (acknowledged e.stream e.id) u refl)))
              (λ _ u x. x) (metrics-Reads q t)))
          (λ _ t x. x) (Quiet-dlq q (poison_message e reason error s.now) s))))

entry-Reads :
    (q : QueueConfig) (e : RawEntry) (d : Decoded) (s : Session)
    → Reads
        (elim d as (λ _. Action (List StreamMessage)) [
          | message dm ↦ pure (message_of e dm ∷ [])
          | poison reason error ↦ drop_poison q e reason error >>= λ _. pure []
        ])
        s
        (message_in e d)
        (pills q (if unreadable d then 1 else 0))
entry-Reads q e (message dm) s = done (refl, refl, ground arith)
entry-Reads q e (poison reason error) s = bind_rule _ _ s (
    Outcome-mono _ (λ _ t h. done (refl, h.1, h.2)) (λ _ t x. x)
      (drop_poison-Reads q e reason error s))

pills_more :
    (q : QueueConfig) (b : Bool) (n k a c d : ℕ)
    → c ≡ a + pills q (if b then 1 else 0)
    → d ≡ c + pills q n
    → k ≡ (if b then suc n else n)
    → d ≡ a + pills q k
pills_more q b n k a c d h1 h2 h3 = ground arith

-- Reading a batch of entries never fails: it returns the messages of all entries that can be decoded,
-- in order, touches no table, and counts every entry that cannot be decoded, if there is a counter.
pub read_entries-Reads :
    (q : QueueConfig) (es : List RawEntry) (s : Session)
    → Reads (read_entries q es) s (messages q es) (pills q (count (is_poison q) es))
unfolding read_entries read_entry
read_entries-Reads q [] s = done (refl, refl, ground arith)
read_entries-Reads q (e ∷ es) s = bind_rule _ _ s (
    Outcome-mono _
      (λ a t h. bind_rule _ _ t (
        Outcome-mono _
          (λ b u k. done (
            ap (λ m. m ++ b) h.0 ∙ ap (λ m. message_in e (decode_entry q e) ++ m) k.0,
            k.1 ∙ h.1,
            pills_more q (is_poison q e) _ _ _ _ _ h.2 k.2 refl,
          ))
          (λ _ u x. x) (read_entries-Reads q es t)))
      (λ _ t x. x) (entry-Reads q e (decode_entry q e) s))
