-- ===== src/RateLimit/Laws.antt =====
-- What the limiters answer, and what an answer changes.
use text.Mathlib.TextEquality.{eq_iff}
use notification_system.Prelude.{
  ℤ, pos, String, Bool, true, false, Option, none, some, List, [], ◌∷◌, same_text, ltb_ℤ, leb_ℤ,
  if◌then◌else◌, ◌≡◌, ◌↔◌, ◌⊎◌, refl, arith, is_some, ap, ◌∙◌,
}
use notification_system.Domain.Enums.{Channel}
use notification_system.Domain.Models.{Time}
use notification_system.RateLimit.Defs.{
  Allowance, GcraReply, answered, redis_error, key, redis_allow, TokenBuckets, InProcess,
  bucket_for, set_bucket, limiter_for, settle, allow,
}

-- How the Redis limiter answers a reply of the script.
abbrev pub Answers : Bool → GcraReply → Allowance → Type 0
Answers fail_open (redis_error e) a =
    (a.allowed ≡ fail_open) × (a.retry_after ≡ pos 0) × (is_some a.problem ≡ true)
Answers fail_open (answered r) a =
    (a.problem ≡ none)
    × ((a.allowed ≡ true) ↔ (ltb_ℤ (pos 0) r.allowed ≡ true))
    × (((a.allowed ≡ true) × (a.retry_after ≡ pos 0))
        ⊎ ((a.allowed ≡ false) × (a.retry_after ≡ r.retry_after)))

redis_allow_cases :
    (fail_open : Bool) (reply : GcraReply) (script : String → GcraReply) (c : Channel)
    → script (key c) ≡ reply
    → Answers fail_open reply (redis_allow script fail_open c)
unfolding redis_allow
redis_allow_cases fail_open (redis_error e) script c h = ground arith
redis_allow_cases fail_open (answered r) script c h = ground arith

-- The Redis limiter allows a send exactly if the script does; when Redis fails, it allows it exactly
-- if it is to fail open, and says so in either case.
pub redis_allow-Answers :
    (script : String → GcraReply) (fail_open : Bool) (c : Channel)
    → Answers fail_open (script (key c)) (redis_allow script fail_open c)
redis_allow-Answers script fail_open c = redis_allow_cases fail_open (script (key c)) script c refl

module _ (tb : TokenBuckets) where
  open tb use {Bucket, reserve, give_back}

  -- The bucket of a channel, once that of one is set.
  bucket_for-set :
      (c d : Channel) (fresh b : Bucket) (entries : List (Channel × Bucket))
      → bucket_for tb d fresh (set_bucket tb c b entries)
        ≡ (if same_text c d then b else bucket_for tb d fresh entries)
  bucket_for-set c d fresh b [] = refl
  bucket_for-set c d fresh b (entry ∷ more) =
      ground
        (arith, eq_iff entry.0 c, eq_iff entry.0 d, eq_iff c d, bucket_for-set c d fresh b more)

  -- The answer that a reservation calls for: none can be made, or it is for now, or for later.
  abbrev pub Called : Option ℤ → Allowance → Type 0
  Called none a = (a.allowed ≡ false) × (a.retry_after ≡ pos 1000000000)
  Called (some delay) a =
      ((a.allowed ≡ true) ↔ (leb_ℤ delay (pos 0) ≡ true))
      × (a.retry_after ≡ (if a.allowed then pos 0 else delay))

  -- A reservation for later is given up.
  abbrev pub kept : Time → Option ℤ → Bucket → Bucket
  kept now none b = b
  kept now (some delay) b = if leb_ℤ delay (pos 0) then b else give_back now b

  settle-Called :
      (now : Time) (o : Option ℤ) (b : Bucket)
      → Called o (settle tb now (o, b)).0 × ((settle tb now (o, b)).1 ≡ kept now o b)
  unfolding settle
  settle-Called now none b = ground arith
  settle-Called now (some delay) b = ground arith

  -- A call of the in-process limiter for a channel answers as its bucket's reservation says. It leaves
  -- that bucket with the reservation, or with the reservation given up where the send has to wait, and
  -- the buckets of all other channels as they were.
  pub limiter_for-allow :
      (now : Time) (r : InProcess tb) (c d : Channel) (o : Option ℤ) (b : Bucket)
      → reserve now (limiter_for tb r c) ≡ (o, b)
      → let result = allow tb now r c in
        (Called o result.0
          × (limiter_for tb result.1 d
              ≡ (if same_text c d then kept now o b else limiter_for tb r d)))
  unfolding limiter_for allow
  limiter_for-allow now r c d o b e = rw e (
    (settle-Called now o b).0,
    bucket_for-set c d _ (settle tb now (o, b)).1 r.limiters
        ∙ ap (λ k. if same_text c d then k else limiter_for tb r d) (settle-Called now o b).1,
  )
