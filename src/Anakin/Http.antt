-- ===== src/Anakin/Http.antt =====
-- internal/anakin/http.go, do and pollJob: one request with its retries, and one asynchronous job
-- with its polls. The responses of the upstream are an argument: what the n-th attempt would meet.
pub mod Retries
pub mod Polls
use brand_pulse.Prelude.{
  ℕ, zero, suc, ◌+◌, ◌-◌, ◌*◌, ◌^◌, Bool, true, false, ◌&&◌, ◌||◌, String, List, [], ◌∷◌, Option,
  none, some, ltb, leb, ◌==◌, str_eq, if◌then◌else◌,
}

-- FetchReason
pub data FetchReason : Type 0 where
  dns tls timeout rate_limited blocked upstream : FetchReason

-- classifyStatus
unfoldable pub classify_status : ℕ → FetchReason
classify_status status =
    if status == 429 then rate_limited else if status == 403 then blocked else upstream

-- What a round trip meets: a transport error, classified, or a status with its body.
pub data RoundTrip : Type 0 where
  broken : FetchReason → RoundTrip
  answered : ℕ → String → RoundTrip

-- What `do` fails with: the context was cancelled, or a FetchError by its reason.
pub data HttpError : Type 0 where
  cancelled : HttpError
  failed : FetchReason → HttpError

pub data Reply (A : Type 0) : Type 0 where
  ok : A → Reply A
  err : HttpError → Reply A

-- The switch on one round trip: return it, or remember the error and go on.
pub data Verdict : Type 0 where
  return : Reply String → Verdict
  again : FetchReason → Verdict

unfoldable pub judge : RoundTrip → Verdict
unfolding classify_status
judge (broken reason) = again reason
judge (answered status body) =
    if leb 200 status && ltb status 300
    then return (ok body)
    else if status == 429 || leb 500 status
    then again (classify_status status)
    else return (err (failed (classify_status status)))

abbrev max_attempts : ℕ
max_attempts = 3

-- backoff, in milliseconds: 500 before the second attempt, doubled for each later one
unfoldable backoff : ℕ → ℕ
backoff attempt = 500 * 2 ^ (attempt - 2)

-- One run of `do`: its reply, the round trips made, and the milliseconds waited in full.
pub record Run : Type 0 where
  pub reply : Reply String
  pub trips : ℕ
  pub waited : ℕ

-- The loop from attempt `attempt` on, with `left` attempts to go. `meets n` is what the n-th
-- round trip meets, `stops n` whether the context is done before the n-th.
unfoldable attempt_from : (ℕ → RoundTrip) → (ℕ → Bool) → (left attempt : ℕ) → FetchReason → ℕ → Run
unfolding judge backoff
attempt_from meets stops zero attempt last waited = record {
  reply = err (failed last);
  trips = attempt - 1;
  waited = waited;
}
attempt_from meets stops (suc left) attempt last waited =
    let wait = if ltb 1 attempt then backoff attempt else 0 in
    let next = λ (reason : FetchReason).
      attempt_from meets stops left (attempt + 1) reason (waited + wait) in
    if ltb 1 attempt && stops attempt
    then record { reply = err cancelled; trips = attempt - 1; waited = waited }
    else elim (judge (meets attempt)) [
      | return r ↦ record { reply = r; trips = attempt; waited = waited + wait }
      | again reason ↦ next reason
    ]

-- httpClient.do; the reason that the loop starts with is never read
unfoldable pub request : (ℕ → RoundTrip) → (ℕ → Bool) → Run
unfolding attempt_from
request meets stops = attempt_from meets stops max_attempts 1 upstream 0

-- parseJobStatus: a body that is not JSON, or its status and whether the code's words match it
pub data JobState : Type 0 where
  finished broken_off : JobState
  running : JobState

unfoldable pub job_state : Option String → JobState
job_state none = running
job_state (some status) =
    if str_eq status "completed" || str_eq status "succeeded" || str_eq status "success"
    then finished
    else if str_eq status "failed" || str_eq status "error"
    then broken_off
    else running

abbrev max_poll_attempts : ℕ
max_poll_attempts = 40

-- What the n-th poll meets: the reply of its `do`, the status in the body that the JSON decoder
-- finds, and whether the context is done while the loop waits after it.
pub record Poll : Type 0 where
  pub reply : Reply String
  pub status : Option String
  pub cancelled_after : Bool

pub record PollRun : Type 0 where
  pub outcome : Reply String
  pub polls : ℕ

unfoldable pub poll_from : (ℕ → Poll) → (left n : ℕ) → PollRun
unfolding job_state
poll_from meets zero n = record { outcome = err (failed timeout); polls = n }
poll_from meets (suc left) n =
    let rest = poll_from meets left (n + 1) in
    elim (meets n).reply [
      | err e ↦ record { outcome = err e; polls = n + 1 }
      | ok body ↦ elim (job_state (meets n).status) [
        | finished ↦ record { outcome = ok body; polls = n + 1 }
        | broken_off ↦ record { outcome = err (failed upstream); polls = n + 1 }
        | running ↦
            if (meets n).cancelled_after
            then record { outcome = err cancelled; polls = n + 1 }
            else rest
      ]
    ]

-- httpClient.pollJob
unfoldable pub poll_job : (ℕ → Poll) → PollRun
unfolding poll_from
poll_job meets = poll_from meets max_poll_attempts 0
