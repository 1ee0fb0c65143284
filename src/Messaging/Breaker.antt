-- ===== src/Messaging/Breaker.antt =====
-- The circuit breaker of the delivery channels (src/modules/messaging/adapters/circuit-breaker.ts).
use wdc_backend.Prelude.{
  ℕ, ◌+◌, ◌<◌, Timestamp, ◌≡◌, refl, ◌∙◌, ◌⊎◌, inr, Bool, true, false, Option, none, some, List, [],
  ◌∷◌, leb, ltb, ◌==◌, not, ◌&&◌, if◌then◌else◌, arith, All, length,
}

pub data BreakerState : Type 0 where
  closed opened half_open : BreakerState

pub record CircuitBreaker : Type 0 where
  pub state : BreakerState
  pub failures : ℕ
  pub last_failure_time : Option Timestamp
  pub threshold : ℕ
  pub timeout_ms : ℕ

abbrev pub new_breaker : ℕ → ℕ → CircuitBreaker
new_breaker threshold timeout_ms = record {
  state = closed;
  failures = 0;
  last_failure_time = none;
  threshold = threshold;
  timeout_ms = timeout_ms;
}

unfoldable pub on_success : CircuitBreaker → CircuitBreaker
on_success b = record b { failures = 0; state = closed }

unfoldable pub on_failure : Timestamp → CircuitBreaker → CircuitBreaker
on_failure now b = record b {
  failures = b.failures + 1;
  last_failure_time = some now;
  state = if leb b.threshold (b.failures + 1) then opened else b.state;
}

-- `this.lastFailureTime && now - this.lastFailureTime > this.timeoutMs`: the time zero counts as
-- no time.
abbrev pub has_cooled : Timestamp → CircuitBreaker → Bool
has_cooled now b = elim b.last_failure_time [
  | none ↦ false
  | some at ↦ not (at == 0) && ltb (at + b.timeout_ms) now
]

-- What `execute` does with a call: refuse it, or run it; the call ends at a time of its own.
pub data Outcome : Type 0 where
  refused returned raised : Outcome

pub record Attempt : Type 0 where
  pub started : Timestamp
  pub ended : Timestamp
  pub succeeds : Bool

abbrev pub settle : Attempt → CircuitBreaker → Outcome × CircuitBreaker
settle a b = if a.succeeds then (returned, on_success b) else (raised, on_failure a.ended b)

unfoldable pub execute : Attempt → CircuitBreaker → Outcome × CircuitBreaker
execute a b = elim b.state [
  | opened ↦
      if has_cooled a.started b then settle a (record b { state = half_open }) else (refused, b)
  | _ ↦ settle a b
]

unfoldable pub execute_all : List Attempt → CircuitBreaker → CircuitBreaker
execute_all [] b = b
execute_all (a ∷ rest) b = execute_all rest (execute a b).1

abbrev has_failed : CircuitBreaker → Bool
has_failed b = elim b.last_failure_time [ none ↦ false | some _ ↦ true ]

-- Between calls the breaker is closed below the threshold, or open from it on with the time of a
-- failure; it is never half-open.
unfoldable pub is_settled : CircuitBreaker → Bool
is_settled b = ltb 0 b.threshold && elim b.state [
  | closed ↦ ltb b.failures b.threshold
  | opened ↦ leb b.threshold b.failures && has_failed b
  | half_open ↦ false
]

execute-settled :
    (a : Attempt) (b : CircuitBreaker) → is_settled b ≡ true → is_settled (execute a b).1 ≡ true
unfolding is_settled execute on_success on_failure
execute-settled a b h = ground arith

execute_all-settled_from :
    (attempts : List Attempt) (b : CircuitBreaker)
    → is_settled b ≡ true
    → is_settled (execute_all attempts b) ≡ true
unfolding execute_all
execute_all-settled_from [] b h = h
execute_all-settled_from (a ∷ attempts) b h =
    execute_all-settled_from attempts (execute a b).1 (execute-settled a b h)

-- Whatever calls go through a new breaker with a positive threshold, and however they end: between
-- calls it is closed with fewer failures than the threshold, or open with at least as many and the
-- time of one, and never half-open.
pub execute_all-settled :
    (threshold timeout_ms : ℕ) (attempts : List Attempt)
    → 0 < threshold
    → is_settled (execute_all attempts (new_breaker threshold timeout_ms)) ≡ true
unfolding is_settled
execute_all-settled threshold timeout_ms attempts positive =
    execute_all-settled_from attempts (new_breaker threshold timeout_ms) (ground arith)

-- Calls that all fail.
abbrev pub AllFail : List Attempt → Type 0
AllFail attempts = All (λ a. a.succeeds ≡ false) attempts

-- The end of the last of some calls, or a given time when there are none.
abbrev pub last_end : Timestamp → List Attempt → Timestamp
last_end now [] = now
last_end now (a ∷ attempts) = last_end a.ended attempts

-- Calls that all fail leave the settings, the count of failures, and the time of the last one.
execute_all-trips_from :
    (attempts : List Attempt) (now : Timestamp) (b : CircuitBreaker)
    → AllFail attempts
    → b.state ≡ closed
    → b.failures < b.threshold
    → b.failures + length attempts ≡ b.threshold
    → b.last_failure_time ≡ some now ⊎ (0 < length attempts)
    → let after = execute_all attempts b in
      (after.state ≡ opened)
      × (after.last_failure_time ≡ some (last_end now attempts))
      × (after.timeout_ms ≡ b.timeout_ms)
unfolding execute_all execute on_failure
execute_all-trips_from [] now b fails c below e at = ground arith
execute_all-trips_from (a ∷ []) now b (f, fails) c below e at = ground arith
execute_all-trips_from (a ∷ a' ∷ attempts) now b (f, fails) c below e at =
    let after = (execute a b).1 in
    let (o, l, t) =
      execute_all-trips_from (a' ∷ attempts) a.ended after fails (ground arith) (ground arith)
        (ground arith) (inr (ground arith)) in
    (o, l, t ∙ ground arith)

-- A new breaker that as many failing calls in a row as its threshold go through is open, and it
-- refuses the next call unless that starts more than the timeout after the end of the last failure;
-- a last failure at the time zero is never over.
pub execute_all-trips :
    (threshold timeout_ms : ℕ) (attempts : List Attempt) (next : Attempt)
    → 0 < threshold
    → AllFail attempts
    → length attempts ≡ threshold
    → let b = execute_all attempts (new_breaker threshold timeout_ms) in
      let last = last_end 0 attempts in
      (b.state ≡ opened)
      × (b.last_failure_time ≡ some last)
      × ((execute next b).0 ≡ (
          if not (last == 0) && ltb (last + timeout_ms) next.started
          then (if next.succeeds then returned else raised)
          else refused))
unfolding execute
execute_all-trips threshold timeout_ms attempts next positive fails e =
    let (trips, at, timeout) =
      execute_all-trips_from attempts 0 (new_breaker threshold timeout_ms) fails refl positive
        (omega (arith, e)) (inr (omega (arith, e, positive))) in
    (trips, at, ground (arith, trips, at, timeout))
