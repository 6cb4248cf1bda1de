-- ===== src/Detector/Firing.antt =====
-- When the rules fire, and what becomes of their alerts.
use brand_pulse.Prelude.{
  ℕ, ◌≡◌, refl, sym, ap, ◌∙◌, inl, inr, String, List, [], ◌∷◌, Memᴰ, none, some, All, All-append,
  Float, Bool-cases, Option-cases, arith,
}
use mathlib.Core.List.Memᴰ
use brand_pulse.Models.Labels.{alert_spike, alert_crisis}
use brand_pulse.Models.Alert.{Alert, validate_alert}
use brand_pulse.Models.Wire.{DetectInput, AlertSet}
use brand_pulse.Detector.Groups.{Group, group_by_source_hour, every_mention, hourly_z_score}
use brand_pulse.Detector.Rules.{Verdict, spike_z}
use brand_pulse.Detector.Rules.Volume.{judge_spike, judge_crisis}
use brand_pulse.Detector.{
  Rule, dedupe_key, new_alert, admit, fire_each, run_rule, run_rules, evaluate, rule_spike,
  rule_crisis, rules,
}

module _ {R : Type 0} where
  abbrev pub IsValid : Alert R → Type 0
  IsValid a = validate_alert a ≡ none

  admit-IsValid :
      (fired : List (Alert R)) (out : AlertSet R)
      → All IsValid out.alerts
      → All IsValid (admit fired out).alerts
  unfolding admit
  admit-IsValid [] out h = h
  admit-IsValid (a ∷ rest) out h = elim (Option-cases (validate_alert a)) [
    | inl e ↦
        rw (e, admit) (admit-IsValid rest _ (All-append IsValid out.alerts (a ∷ []) h (e, tt)))
    | inr (_, e) ↦ rw (e, admit) (admit-IsValid rest _ h)
  ]

  admit-rules_evaluated :
      (fired : List (Alert R)) (out : AlertSet R)
      → (admit fired out).rules_evaluated ≡ out.rules_evaluated
  unfolding admit
  admit-rules_evaluated [] out = refl
  admit-rules_evaluated (a ∷ rest) out = elim (Option-cases (validate_alert a)) [
    | inl e ↦ rw (e, admit) (admit-rules_evaluated rest _)
    | inr (_, e) ↦ rw (e, admit) (admit-rules_evaluated rest _)
  ]

  pub admit-All :
      (fired : List (Alert R)) (out : AlertSet R)
      → All IsValid fired
      → (admit fired out).errors ≡ out.errors
  unfolding admit
  admit-All [] out h = refl
  admit-All (a ∷ rest) out h = rw (h.0, admit) (admit-All rest _ h.1)

module _ {R W : Type 0} (new_id : String → W → String × W) (input : DetectInput R) where
  run_rules-IsValid :
      (rs : List (Rule R)) (out : AlertSet R) (w : W)
      → All IsValid out.alerts
      → All IsValid (run_rules new_id input rs out w).0.alerts
  unfolding run_rules
  run_rules-IsValid [] out w h = h
  run_rules-IsValid (r ∷ rs) out w h =
      run_rules-IsValid rs _ _ (admit-IsValid (run_rule new_id input r w).0 out h)

  run_rules-rules_evaluated :
      (rs : List (Rule R)) (out : AlertSet R) (w : W)
      → (run_rules new_id input rs out w).0.rules_evaluated ≡ out.rules_evaluated
  unfolding run_rules
  run_rules-rules_evaluated [] out w = refl
  run_rules-rules_evaluated (r ∷ rs) out w =
      run_rules-rules_evaluated rs _ _ ∙ admit-rules_evaluated (run_rule new_id input r w).0 out

  -- An alert of a rule comes from a group at which the rule fires.
  fire_each-source :
      (rule : Rule R) (gs : List (Group R)) (w : W) (a : Alert R)
      → Memᴰ a (fire_each new_id input rule gs w).0
      → (g : Group R) × (v : Verdict R) × (id : String) × Memᴰ g gs
        × (rule.judge input g ≡ some v)
        × (a ≡ new_alert input rule.kind v id)
  unfolding fire_each
  fire_each-source rule [] w a m = elim m [ ]
  fire_each-source rule (g ∷ gs) w a m = elim (Option-cases (rule.judge input g)) [
    | inl e ↦
        let (g', v, id, i, q, r) = fire_each-source rule gs w a (rw (e, fire_each) at m) in
        (g', v, id, Memᴰ.tail i, q, r)
    | inr (v, e) ↦ elim (Memᴰ.cases_cons (rw (e, fire_each) at m)) [
      | inl p ↦ (g, v, (new_id "alr" w).0, Memᴰ.head refl, e, p)
      | inr m' ↦
          let (g', v', id, i, q, r) = fire_each-source rule gs (new_id "alr" w).1 a m' in
          (g', v', id, Memᴰ.tail i, q, r)
    ]
  ]

  -- Each group at which a rule fires has its alert.
  fire_each-covers :
      (rule : Rule R) (gs : List (Group R)) (w : W) (g : Group R) (v : Verdict R)
      → Memᴰ g gs
      → rule.judge input g ≡ some v
      → (id : String) × Memᴰ (new_alert input rule.kind v id) (fire_each new_id input rule gs w).0
  unfolding fire_each
  fire_each-covers rule [] w g v m q = elim m [ ]
  fire_each-covers rule (h ∷ gs) w g v m q = elim (Memᴰ.cases_cons m) [
    | inl p ↦ rw (ap (rule.judge input) (sym p) ∙ q, fire_each) ((new_id "alr" w).0, Memᴰ.head refl)
    | inr m' ↦ elim (Option-cases (rule.judge input h)) [
      | inl e ↦ rw (e, fire_each) (fire_each-covers rule gs w g v m' q)
      | inr (_, e) ↦
          rw (e, fire_each)
            (let (id, i) = fire_each-covers rule gs (new_id "alr" w).1 g v m' q in
              (id, Memᴰ.tail i))
    ]
  ]

module _ {R W : Type 0} ⦃f : Float R⦄ (fixed : ℕ → R → String)
    (new_id : String → W → String × W) where
  -- Whatever the input, Evaluate reports five rules, and each alert that it returns is valid.
  pub evaluate-IsValid :
      (input : DetectInput R) (w : W)
      → ((evaluate fixed new_id input w).0.rules_evaluated ≡ 5)
        × All IsValid (evaluate fixed new_id input w).0.alerts
  unfolding evaluate
  evaluate-IsValid input w = (
    run_rules-rules_evaluated new_id input (rules fixed) _ w,
    run_rules-IsValid new_id input (rules fixed) _ w tt,
  )

  judge_crisis-judge_spike :
      (input : DetectInput R) (g : Group R) (v : Verdict R)
      → judge_crisis fixed input g ≡ some v
      → (u : Verdict R) × (judge_spike fixed input g ≡ some u) × (u.shown ≡ g) × (v.shown ≡ g)
  unfolding judge_crisis judge_spike
  judge_crisis-judge_spike input g v h =
      elim (Bool-cases (f.lt (hourly_z_score input.baseline g) spike_z)) [
        | inl e ↦ absurd (ground arith)
        | inr e ↦ rw e (_, refl, refl, ground arith)
      ]

  -- Each crisis alert stands for a source and an hour at which the spike rule fires on the same
  -- input too.
  pub crisis_is_spike :
      (input : DetectInput R) (w w' : W) (a : Alert R)
      → Memᴰ a (run_rule new_id input (rule_crisis fixed) w).0
      → (g : Group R) × (b : Alert R) × Memᴰ b (run_rule new_id input (rule_spike fixed) w').0
        × (a.dedupe_key ≡ dedupe_key alert_crisis g)
        × (b.dedupe_key ≡ dedupe_key alert_spike g)
  unfolding run_rule new_alert
  crisis_is_spike input w w' a m =
      let groups = group_by_source_hour every_mention input.enriched in
      let (g, v, id, i, q, e) = fire_each-source new_id input (rule_crisis fixed) groups w a m in
      let (u, q', s, t) = judge_crisis-judge_spike input g v q in
      let (id', j) = fire_each-covers new_id input (rule_spike fixed) groups w' g u i q' in
      (
        g,
        new_alert input alert_spike u id',
        j,
        ap (λ x. x.dedupe_key) e ∙ ap (dedupe_key alert_crisis) t,
        ap (dedupe_key alert_spike) s,
      )
