-- ===== src/Tests/Http.antt =====
-- Retries and polls at concrete inputs.
use brand_pulse.Prelude.{ℕ, zero, suc, ◌<◌, ◌≡◌, refl, Bool, false, some, arith}
use brand_pulse.Anakin.Http.{
  RoundTrip, broken, answered, timeout, request, ok, Poll, poll_job, job_state,
}
use brand_pulse.Anakin.Http.Retries.{Course, request_takes_its_course}
use brand_pulse.Anakin.Http.Polls.{poll_job_completes, StillRunning}

-- a timeout, then a 503, then the body
abbrev meets : ℕ → RoundTrip
meets (suc zero) = broken timeout
meets (suc (suc zero)) = answered 503 ""
meets _ = answered 200 "{}"

abbrev never : ℕ → Bool
never _ = false

request_takes_its_course_example :
    Course meets never 1 (request meets never).reply (request meets never).trips
request_takes_its_course_example = request_takes_its_course meets never

-- running at first, completed from the second poll on
abbrev job : ℕ → Poll
job zero = record { reply = ok "{1}"; status = some "running"; cancelled_after = false }
job (suc _) = record { reply = ok "{2}"; status = some "success"; cancelled_after = false }

runs_at_first : (k : ℕ) → k < 1 → StillRunning (job k)
unfolding job_state
runs_at_first zero h = record { body = "{1}"; replied = refl; pending = refl; waits = refl }
runs_at_first (suc k) h = absurd (omega arith)

poll_job_completes_example : poll_job job ≡ record { outcome = ok "{2}"; polls = 2 }
unfolding job_state
poll_job_completes_example = poll_job_completes job 1 "{2}" (omega arith) runs_at_first refl refl
