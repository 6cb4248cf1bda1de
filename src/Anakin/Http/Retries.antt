-- ===== src/Anakin/Http/Retries.antt =====
-- How often a request is tried, and with what result.
use brand_pulse.Prelude.{
  ℕ, zero, suc, ◌+◌, ◌-◌, ◌≤◌, ◌<◌, ◌≡◌, ◌≢◌, refl, ◌⊎◌, inl, inr, Bool, true, false, ◌&&◌, ltb,
  String, arith, Bool-cases,
}
use brand_pulse.Anakin.Http.{
  FetchReason, upstream, cancelled, RoundTrip, broken, Run, Verdict, attempt_from, answered, failed,
  Reply, ok, err, return, again, judge, request, classify_status,
}

-- A request makes one to three round trips and waits at most a second and a half between them.
pub request_bounds :
    (meets : ℕ → RoundTrip) (stops : ℕ → Bool)
    → (1 ≤ (request meets stops).trips)
      × ((request meets stops).trips ≤ 3)
      × ((request meets stops).waited ≤ 1500)
unfolding request
request_bounds meets stops = ground arith

-- A transport error, or a response with the status 429 or 5xx.
abbrev pub IsTransient : RoundTrip → FetchReason → Type 0
IsTransient (broken reason) r = r ≡ reason
IsTransient (answered status body) r =
    ((status ≡ 429) ⊎ (500 ≤ status)) × (r ≡ classify_status status)

-- A response with the status 2xx gives its body, and one with any other that is not transient
-- an error.
abbrev pub Settles : RoundTrip → Reply String → Type 0
Settles (broken reason) r = true ≡ false
Settles (answered status body) r =
    ((200 ≤ status) × (status < 300) × (r ≡ ok body))
    ⊎ ((status ≢ 429)
        × (status < 500)
        × ((status < 200) ⊎ (300 ≤ status))
        × (r ≡ err (failed (classify_status status))))

judge-return : (trip : RoundTrip) {r : Reply String} → judge trip ≡ return r → Settles trip r
unfolding judge
judge-return (broken reason) h = absurd (cc h)
judge-return (answered status body) h = ground arith

judge-again :
    (trip : RoundTrip) {reason : FetchReason} → judge trip ≡ again reason → IsTransient trip reason
unfolding judge
judge-again (broken reason) h = cc h
judge-again (answered status body) h = ground arith

Verdict-cases :
    (v : Verdict)
    → ((r : Reply String) × (v ≡ return r)) ⊎ ((reason : FetchReason) × (v ≡ again reason))
Verdict-cases (return r) = inl (r, refl)
Verdict-cases (again reason) = inr (reason, refl)

module _ (meets : ℕ → RoundTrip) (stops : ℕ → Bool) where
  -- What may come of a request from its n-th round trip on: its reply, and the trips it has made.
  pub data Course : ℕ → Reply String → ℕ → Type 0 where
    settled : (n : ℕ) {r : Reply String} → Settles (meets n) r → Course n r n
    retried :
        (n : ℕ) (reason : FetchReason) {r : Reply String} {m : ℕ}
        → n < 3
        → IsTransient (meets n) reason
        → stops (n + 1) ≡ false
        → Course (n + 1) r m
        → Course n r m
    interrupted :
        (n : ℕ) (reason : FetchReason)
        → n < 3
        → IsTransient (meets n) reason
        → stops (n + 1) ≡ true
        → Course n (err cancelled) n
    gave_up :
        (n : ℕ) (reason : FetchReason)
        → n ≡ 3
        → IsTransient (meets n) reason
        → Course n (err (failed reason)) n

  abbrev IsCourse : ℕ → Run → Type 0
  IsCourse n run = Course n run.reply run.trips

  -- from a trip before which the context is not done
  attempt_from-IsCourse :
      (left n : ℕ) (last : FetchReason) (waited : ℕ)
      → n + left ≡ 3
      → 1 ≤ n
      → (ltb 1 n && stops n) ≡ false
      → IsCourse n (attempt_from meets stops (suc left) n last waited)
  unfolding attempt_from
  attempt_from-IsCourse zero n last waited h k live = elim (Verdict-cases (judge (meets n))) [
    | inl (r, e) ↦ rw (live, e, attempt_from) (settled n (judge-return (meets n) e))
    | inr (reason, e) ↦
        let back : n + 1 - 1 ≡ n = omega arith in
        rw (live, e, attempt_from)
          (rw back (gave_up n reason (omega arith) (judge-again (meets n) e)))
  ]
  attempt_from-IsCourse (suc left) n last waited h k live = elim (Verdict-cases (judge (meets n))) [
    | inl (r, e) ↦ rw (live, e, attempt_from) (settled n (judge-return (meets n) e))
    | inr (reason, e) ↦
        let transient = judge-again (meets n) e in
        let later : ltb 1 (n + 1) ≡ true = ground arith in
        let back : n + 1 - 1 ≡ n = omega arith in
        elim (Bool-cases (stops (n + 1))) [
          | inl q ↦
              rw (live, e, attempt_from)
                (rw (later, q) (rw back (interrupted n reason (omega arith) transient q)))
          | inr q ↦
              rw (live, e, attempt_from)
                (retried n reason (omega arith) transient q (
                  attempt_from-IsCourse left (n + 1) reason _ (omega arith) (omega arith)
                    (ground arith)))
        ]
  ]

  -- Every request takes a course of at most three round trips: a transient failure is retried while
  -- fewer than three were made and the context is not done; what is not transient is its result; and
  -- the third transient failure, or the end of the context, is its error.
  pub request_takes_its_course : Course 1 (request meets stops).reply (request meets stops).trips
  unfolding request
  request_takes_its_course = attempt_from-IsCourse 2 1 upstream 0 refl (omega arith) refl

-- A response is tried again exactly when its status is 429 or 5xx, and is the result exactly when
-- its status is 2xx; any other is returned at once as an error.
pub judge_cases :
    (status : ℕ) (body : String)
    → (judge (answered status body) ≡ again (classify_status status))
        × ((status ≡ 429) ⊎ (500 ≤ status))
      ⊎ (judge (answered status body) ≡ return (ok body)) × (200 ≤ status) × (status < 300)
      ⊎ (judge (answered status body) ≡ return (err (failed (classify_status status))))
        × (status ≢ 429)
        × (status < 500)
        × ((status < 200) ⊎ (300 ≤ status))
unfolding judge
judge_cases status body = ground arith
