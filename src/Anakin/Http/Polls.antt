-- ===== src/Anakin/Http/Polls.antt =====
-- How long a job is waited for.
use brand_pulse.Prelude.{ℕ, zero, suc, ◌+◌, ◌≤◌, ◌<◌, ◌≡◌, refl, false, String, arith}
use brand_pulse.Anakin.Http.{
  ok, err, failed, timeout, finished, running, job_state, Poll, poll_from, poll_job,
}

poll_from-polls :
    (meets : ℕ → Poll) (left n : ℕ)
    → (n ≤ (poll_from meets left n).polls) × ((poll_from meets left n).polls ≤ n + left)
unfolding poll_from
poll_from-polls meets zero n = omega arith
poll_from-polls meets (suc left) n = ground (arith, poll_from-polls meets left (n + 1))

-- A job is polled at most forty times.
poll_job-bounded : (meets : ℕ → Poll) → (poll_job meets).polls ≤ 40
unfolding poll_job
poll_job-bounded meets = omega (arith, poll_from-polls meets 40 0)

-- The poll finds the job still running.
pub record StillRunning (p : Poll) : Type 0 where
  pub body : String
  pub replied : p.reply ≡ ok body
  pub pending : job_state p.status ≡ running
  pub waits : p.cancelled_after ≡ false

poll_from-completed :
    (meets : ℕ → Poll) (wait left n last : ℕ) (body : String)
    → wait < left
    → last ≡ n + wait
    → ((k : ℕ) → k < last → StillRunning (meets k))
    → (meets last).reply ≡ ok body
    → job_state (meets last).status ≡ finished
    → poll_from meets left n ≡ record { outcome = ok body; polls = last + 1 }
unfolding poll_from
poll_from-completed meets wait zero n last body h e pending replied done = elim h [ ]
poll_from-completed meets zero (suc left) n last body h e pending replied done =
    let e' : n ≡ last = omega arith in rw e' (ground arith)
poll_from-completed meets (suc wait) (suc left) n last body h e pending replied done = ground (
  arith,
  (pending n (omega arith)).replied,
  (pending n (omega arith)).pending,
  (pending n (omega arith)).waits,
  poll_from-completed meets wait left (n + 1) last body (omega arith) (omega arith) pending replied
      done,
)

-- A job that is found running by every poll before the `last` and completed by the `last`, which
-- is among the first forty, returns that poll's body, after as many polls.
pub poll_job_completes :
    (meets : ℕ → Poll) (last : ℕ) (body : String)
    → last < 40
    → ((k : ℕ) → k < last → StillRunning (meets k))
    → (meets last).reply ≡ ok body
    → job_state (meets last).status ≡ finished
    → poll_job meets ≡ record { outcome = ok body; polls = last + 1 }
unfolding poll_job
poll_job_completes meets last body h pending replied done =
    poll_from-completed meets last 40 0 last body h (omega arith) pending replied done

poll_from-timeout :
    (meets : ℕ → Poll) (left n : ℕ)
    → ((k : ℕ) → k < n + left → StillRunning (meets k))
    → (poll_from meets left n).outcome ≡ err (failed timeout)
unfolding poll_from
poll_from-timeout meets zero n pending = refl
poll_from-timeout meets (suc left) n pending = ground (
  arith,
  (pending n (omega arith)).replied,
  (pending n (omega arith)).pending,
  (pending n (omega arith)).waits,
  poll_from-timeout meets left (n + 1) (λ k h. pending k (omega arith)),
)
