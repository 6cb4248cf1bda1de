-- ===== src/Orchestrator/Pipeline/Claims.antt =====
-- Which trigger runs the pipeline, and which only reads the record that is there.
use brand_pulse.Prelude.{
  ◌∙◌, is_empty_of_ne, ◌≡◌, false, String, Float, is_empty, some, Bool, refl, Option-cases,
  Reply-cases, Bool-cases, eq_iff, ◌⊎◌, inl, inr, arith,
}
use brand_pulse.Models.Labels.{RunKind, Time}
use brand_pulse.Models.Run.{RunRecord, new_run_record, validate_run}
use brand_pulse.Stats.Buckets.{hour_bucket, day_bucket, hour_bucket-ne-empty, day_bucket-ne-empty}
use brand_pulse.Orchestrator.Env.{Reply, ok, err, Env, Schedule, RunInput}
use brand_pulse.Orchestrator.Pipeline.{bucket_for, own_or_adopt, claim, handle_valid, handle}

-- A bucket is never the empty text.
bucket_for-ne-empty : (kind : RunKind) (now : Time) → is_empty (bucket_for kind now) ≡ false
unfolding bucket_for
bucket_for-ne-empty kind now = ground (
  arith,
  is_empty_of_ne (hour_bucket now) (hour_bucket-ne-empty now),
  is_empty_of_ne (day_bucket now) (day_bucket-ne-empty now),
)

module _ {R W : Type 0} ⦃f : Float R⦄ (env : Env R W) (schedule : Schedule R)
    (input : RunInput) where
  -- Input without a brand or a trigger is refused, and the world is as it was.
  malformed_input_changes_nothing :
      (w : W)
      → (input.brand_id ≡ "") ⊎ (input.trigger ≡ "")
      → (e : String) × (handle env schedule input w ≡ (err e, w))
  unfolding handle
  malformed_input_changes_nothing w (inl h) =
      ("bp-orchestrator: RunInput.brand_id is required", ground (arith, eq_iff input.brand_id ""))
  malformed_input_changes_nothing w (inr h) = elim (Bool-cases (is_empty input.brand_id)) [
    | inl e ↦ ("bp-orchestrator: RunInput.brand_id is required", rw e)
    | inr e ↦ (
      "bp-orchestrator: RunInput.trigger is required, it is half of the idempotency key",
      ground (arith, eq_iff input.trigger ""),
    )
  ]

module _ {R W : Type 0} ⦃f : Float R⦄ (env : Env R W) where
  -- Why a trigger is refused: its input, or an answer from outside.
  pub data Cause (input : RunInput) : Type 0 where
    no_brand : input.brand_id ≡ "" → Cause input
    no_trigger : input.trigger ≡ "" → Cause input
    no_profile : (w : W) (e : String) → (env.load_profile input.brand_id w).0 ≡ err e → Cause input
    no_run_id : (w : W) → (env.new_id "run" w).0 ≡ "" → Cause input
    no_claim :
        (run : RunRecord R) (w : W) (e : String) → (env.claim_run run w).0 ≡ err e → Cause input

  -- an error with its cause, or the row of another run as a claim gave it
  abbrev pub IsHeld : RunInput → Reply (RunRecord R) → Type 0
  IsHeld input (err e) = Cause input
  IsHeld input (ok run) =
      (asked : RunRecord R) × (w : W) × ((env.claim_run asked w).0 ≡ ok (run, false))

  abbrev IsHeldClaim : RunInput → Reply (RunRecord R × Bool) → Type 0
  IsHeldClaim input (err e) = Cause input
  IsHeldClaim input (ok (run, mine)) = (mine ≡ false) × IsHeld input (ok run)

  -- Where the bucket has a name, a new row is only refused for its id or its brand.
  validate_run-Cause :
      (input : RunInput) (bucket : String) (now : Time) (w : W) {e : String}
      → is_empty bucket ≡ false
      → validate_run {R = R}
          (new_run_record (env.new_id "run" w).0 input.brand_id input.trigger bucket now)
        ≡ some e
      → Cause input
  unfolding validate_run new_run_record
  validate_run-Cause input bucket now w named h =
      let id = (env.new_id "run" w).0 in
      elim (Bool-cases (is_empty id)) [
        | inl q ↦ no_run_id w ((eq_iff id "").0 q)
        | inr q ↦ elim (Bool-cases (is_empty input.brand_id)) [
          | inl r ↦ no_brand ((eq_iff input.brand_id "").0 r)
          | inr r ↦ absurd (ground arith)
        ]
      ]

module _ {R W : Type 0} ⦃f : Float R⦄ (env : Env R W) (schedule : Schedule R)
    (input : RunInput) where
  module _ (P : W → Type 0) (reads : (w : W) → P w → P (env.now w).1)
      (loads : (id : String) (w : W) → P w → P (env.load_profile id w).1)
      (draws : (kind : String) (w : W) → P w → P (env.new_id kind w).1)
      (claims : (run : RunRecord R) (w : W) → P w → P (env.claim_run run w).1)
      (taken : (run : RunRecord R) (w : W) (stored : RunRecord R) (mine : Bool)
        → (env.claim_run run w).0 ≡ ok (stored, mine)
        → mine ≡ false)
      (gentle : input.force ≡ false) where
    claim-IsHeldClaim :
        (bucket : String) (now : Time) (w : W)
        → P w
        → is_empty bucket ≡ false
        → P (claim env input bucket now w).1
          × IsHeldClaim env input (claim env input bucket now w).0
    unfolding claim
    claim-IsHeldClaim bucket now w h named =
        let (id, w₁) = env.new_id "run" w in
        let run : RunRecord R = new_run_record id input.brand_id input.trigger bucket now in
        let drawn = draws "run" w h in
        elim (Option-cases (validate_run run)) [
          | inr (e, q) ↦ rw (q, claim) (drawn, validate_run-Cause env input bucket now w named q)
          | inl q ↦ elim (Reply-cases (env.claim_run run w₁).0) [
            | inl (e, c) ↦
                rw (q, claim) (claims run w₁ drawn, rw (c, own_or_adopt) (no_claim run w₁ e c))
            | inr ((stored, mine), c) ↦
                let other = taken run w₁ stored mine c in
                rw (q, claim)
                  (
                    claims run w₁ drawn,
                    rw (c, own_or_adopt) (rw (other, gentle) (refl, (run, w₁, c ∙ rw other refl))),
                  )
          ]
        ]

    -- Where every claim finds the bucket held by another run, and without Force: whatever holds
    -- of the world and is kept by the clock, the profile's load, the id generator and the claim
    -- still holds after Handle; a record that Handle returns is one that a claim answered with,
    -- as it is; and an error has its cause: no brand or trigger in the input, a profile that does
    -- not load, an empty run id, or a claim that fails.
    pub handle_only_reads :
        (w : W)
        → P w
        → P (handle env schedule input w).1 × IsHeld env input (handle env schedule input w).0
    unfolding handle
    handle_only_reads w h =
        let (now, w₁) = env.now w in
        let seen = reads w h in
        let loaded = loads input.brand_id w₁ seen in
        let (profile, w₂) = env.load_profile input.brand_id w₁ in
        let bucket = bucket_for input.trigger now in
        let (kept, answer) =
          claim-IsHeldClaim bucket now w₂ loaded (bucket_for-ne-empty input.trigger now) in
        elim (Bool-cases (is_empty input.brand_id)) [
          | inl e ↦ rw (e, handle) (h, no_brand ((eq_iff input.brand_id "").0 e))
          | inr e ↦ elim (Bool-cases (is_empty input.trigger)) [
            | inl q ↦ rw (e, handle) (rw q (h, no_trigger ((eq_iff input.trigger "").0 q)))
            | inr q ↦ elim (Reply-cases profile) [
              | inl (why, r) ↦
                  rw (e, handle) (rw q (rw (r, handle_valid) (loaded, no_profile w₁ why r)))
              | inr (found, r) ↦ elim (Reply-cases (claim env input bucket now w₂).0) [
                | inl (_, c) ↦
                    rw (e, handle) (rw q (rw (r, handle_valid) (rw c (kept, rw c at answer))))
                | inr ((stored, mine), c) ↦
                    let (other, held) = rw c at answer in
                    rw (e, handle) (rw q (rw (r, handle_valid) (rw c (rw other (kept, held)))))
              ]
            ]
          ]
        ]
