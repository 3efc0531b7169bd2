-- ===== src/Platform/Loaded.antt =====
-- What is known of a configuration that has been loaded.
use notification_system.Prelude.{
  ℤ, pos, String, true, false, Option, none, some, List, [], ◌∷◌, length, ◌≤◌, ◌≡◌, ◌⊎◌, refl, All,
  arith, leb_ℤ, same_text,
}
use notification_system.Domain.Enums.{Priority, priority_valid, all_priorities}
use notification_system.Platform.Settings.{Config}
use notification_system.Platform.Variables.{
  Environment, get_priorities, priorities_of, priorities_from, split_comma, get_duration_list,
  durations_from, unless_empty, read_list, value,
}
use notification_system.Platform.Checks.{
  Complaint, validate, worker_priorities, worker_lease_ttl, max_attempts, retry_backoff,
  rate_limiter,
}
use notification_system.Platform.Load.{Loading, loaded, complaint, checked, load, from_environment}

abbrev pub Valid : Priority → Type 0
Valid p = priority_valid p ≡ true

abbrev NonEmpty : {A : Type 0} → List A → Type 0
NonEmpty xs = 1 ≤ length xs

unless_empty_lem :
    {A : Type 0} (P : A → Type 0) (def xs : List A)
    → All P def × NonEmpty def
    → All P xs
    → All P (unless_empty def xs) × NonEmpty (unless_empty def xs)
unless_empty_lem P def [] h k = h
unless_empty_lem P def (x ∷ xs) h k = (k, omega arith)

All-Unit : {A : Type 0} (xs : List A) → All (λ x. Unit {0}) xs
All-Unit [] = tt
All-Unit (x ∷ xs) = (tt, All-Unit xs)

read_list-NonEmpty :
    {A : Type 0} (def : List A) (o : Option (List A)) → NonEmpty def → NonEmpty (read_list def o)
read_list-NonEmpty def none h = h
read_list-NonEmpty def (some xs) h =
    (unless_empty_lem (λ d. Unit {0}) def xs (All-Unit def, h) (All-Unit xs)).1

module _ {Float : Type 0} (env : Environment Float) where
  priorities_of-Valid : (ps : List String) → All Valid (priorities_of env ps)
  unfolding priorities_of
  priorities_of-Valid [] = tt
  priorities_of-Valid (p ∷ ps) = ground (arith, priorities_of-Valid ps)

  priorities_from-Valid :
      (def : List Priority) (v : Option String)
      → All Valid def × NonEmpty def
      → All Valid (priorities_from env def v) × NonEmpty (priorities_from env def v)
  priorities_from-Valid def none h = h
  priorities_from-Valid def (some v) h =
      unless_empty_lem Valid def _ h (priorities_of-Valid (split_comma v))

  durations_from-NonEmpty :
      (def : List ℤ) (v : Option String) → NonEmpty def → NonEmpty (durations_from env def v)
  durations_from-NonEmpty def none h = h
  durations_from-NonEmpty def (some v) h = read_list-NonEmpty def _ h

  from_environment-Valid :
      let c = from_environment env in
      (All Valid c.worker.priorities × NonEmpty c.worker.priorities × NonEmpty c.retry.backoff)
  unfolding from_environment get_priorities get_duration_list priority_valid
  from_environment-Valid =
      let ps =
        priorities_from-Valid all_priorities (value env "WORKER_PRIORITIES")
          ((refl, (refl, (refl, tt))), omega arith) in
      (ps.0, ps.1, durations_from-NonEmpty _ (value env "RETRY_BACKOFF") (omega arith))

-- What a configuration must be for the processes to run.
abbrev pub Sound : {Float : Type 0} → Config Float → Type 0
Sound c =
    All Valid c.worker.priorities
    × (1 ≤ length c.worker.priorities)
    × (leb_ℤ c.worker.lease_ttl c.provider.timeout ≡ false)
    × (leb_ℤ (pos 1) c.retry.max_attempts ≡ true)
    × (1 ≤ length c.retry.backoff)
    × ((same_text c.rate_limiter.kind "redis" ≡ true)
        ⊎ (same_text c.rate_limiter.kind "inproc" ≡ true))

-- The complaints that `Load` can make: of the lease, the attempts and the rate limiter.
abbrev pub Possible : Complaint → Type 0
Possible worker_priorities = ⊥
Possible worker_lease_ttl = Unit
Possible max_attempts = Unit
Possible retry_backoff = ⊥
Possible rate_limiter = Unit

abbrev pub LoadedOrRefused : {Float : Type 0} → Loading Float → Type 0
LoadedOrRefused (loaded c) = Sound c
LoadedOrRefused (complaint what) = Possible what

checked_lem :
    {Float : Type 0} (c : Config Float)
    → All Valid c.worker.priorities × NonEmpty c.worker.priorities × NonEmpty c.retry.backoff
    → LoadedOrRefused (checked c (validate c))
unfolding validate
checked_lem c h = ground arith

-- Whatever the environment holds, `Load` gives a sound configuration, or refuses it for its lease,
-- its number of attempts or its rate limiter: the lists of priorities and of backoffs are never empty,
-- and every priority is one of the three.
pub load-LoadedOrRefused : {Float : Type 0} (env : Environment Float) → LoadedOrRefused (load env)
unfolding load
load-LoadedOrRefused env = checked_lem (from_environment env) (from_environment-Valid env)
