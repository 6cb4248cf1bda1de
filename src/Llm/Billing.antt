-- ===== src/Llm/Billing.antt =====
-- What a call of the model is billed, and what it returns.
use brand_pulse.Prelude.{
  ℕ, zero, suc, ◌+◌, ◌<◌, ◌≤◌, ◌≡◌, refl, sym, ap, ◌∙◌, inl, inr, true, String, List, [], ◌∷◌, ◌++◌,
  Option, Dict, length, length-append, Float, is_empty, Reply, ok, err, Reply-cases, Bool-cases,
  arith,
}
use brand_pulse.Llm.Usage.{Usage, no_usage, Opt}
use brand_pulse.Llm.Prices.{UsdPerMtok}
use brand_pulse.Llm.Router.{
  Format, Message, user, assistant, json_nudge, Completion, only_choice, Router, add_usage,
  params_for, settle_attempt, attempt_from, response_format, chat_json,
}

-- What a list of completions costs: each that has a choice, at its own model's price.
abbrev pub bill :
    {R : Type 0} ⦃f : Float R⦄ → Dict (UsdPerMtok R) → Usage R → List Completion → Usage R
bill rows spent [] = spent
bill rows spent (c ∷ cs) =
    bill rows (elim (only_choice c) [ err _ ↦ spent | ok _ ↦ add_usage rows spent c ]) cs

bill-append :
    {R : Type 0} ⦃f : Float R⦄ (rows : Dict (UsdPerMtok R)) (spent : Usage R)
    (cs ds : List Completion)
    → bill rows spent (cs ++ ds) ≡ bill rows (bill rows spent cs) ds
bill-append rows spent [] ds = refl
bill-append rows spent (c ∷ cs) ds =
    bill-append rows (elim (only_choice c) [ err _ ↦ spent | ok _ ↦ add_usage rows spent c ]) cs ds

bill-refused :
    {R : Type 0} ⦃f : Float R⦄ (rows : Dict (UsdPerMtok R)) (spent : Usage R)
    (log : List Completion) (c : Completion) {e : String}
    → only_choice c ≡ err e
    → bill rows spent (log ++ c ∷ []) ≡ bill rows spent log
bill-refused rows spent log c q = bill-append rows spent log (c ∷ []) ∙ rw (q, bill) refl

bill-counted :
    {R : Type 0} ⦃f : Float R⦄ (rows : Dict (UsdPerMtok R)) (spent : Usage R)
    (log : List Completion) (c : Completion) {text : String}
    → only_choice c ≡ ok text
    → bill rows spent (log ++ c ∷ []) ≡ add_usage rows (bill rows spent log) c
bill-counted rows spent log c q = bill-append rows spent log (c ∷ []) ∙ rw (q, bill) refl

-- the log after one more answer
abbrev add_answer : Reply Completion → List Completion → List Completion
add_answer (err _) log = log
add_answer (ok c) log = log ++ c ∷ []

length-add_answer :
    (answer : Reply Completion) (log : List Completion)
    → length (add_answer answer log) ≤ length log + 1
length-add_answer (err _) log = omega arith
length-add_answer (ok c) log = omega (arith, length-append log (c ∷ []))

module _ {R F W : Type 0} ⦃f : Float R⦄ (r : Router R F W) where
  -- the same router on a world that keeps the completions it gave
  abbrev pub logged : Router R F (W × List Completion)
  logged = record {
    base_url = r.base_url;
    model_env = r.model_env;
    complete =
        λ params s. let (answer, w) = r.complete params s.0 in (answer, (w, add_answer answer s.1));
    is_json = r.is_json;
    rows = r.rows;
  }

  abbrev Outcome : Type 0
  Outcome = (Reply String × Usage R) × (W × List Completion)

  -- What was billed is what the log costs, the log is not long, and an answer is JSON.
  abbrev pub IsBilled : ℕ → Outcome → Type 0
  IsBilled limit ((answer, spent), (w, log)) =
      (spent ≡ bill r.rows no_usage log)
      × (length log ≤ limit)
      × ((reply : String) → answer ≡ ok reply → r.is_json reply ≡ true)

  IsBilled-mono : {m n : ℕ} (x : Outcome) → m ≤ n → IsBilled m x → IsBilled n x
  IsBilled-mono x h (b, l, j) = (b, omega arith, j)

  settle_attempt-IsBilled :
      (answer : Reply Completion) (spent : Usage R) (w : W) (log : List Completion) (limit : ℕ)
      (again : String → Usage R → Outcome)
      → spent ≡ bill r.rows no_usage log
      → length log < limit
      → ((reply : String) (spent' : Usage R)
          → spent' ≡ bill r.rows no_usage (add_answer answer log)
          → IsBilled limit (again reply spent'))
      → IsBilled limit (settle_attempt logged answer spent (w, add_answer answer log) again)
  unfolding settle_attempt
  settle_attempt-IsBilled (err e) spent w log limit again h l k = (h, omega arith, λ reply q. cc q)
  settle_attempt-IsBilled (ok c) spent w log limit again h l k =
      let size = length-append log (c ∷ []) in
      elim (Reply-cases (only_choice c)) [
        | inl (e, q) ↦
            rw (q, settle_attempt)
              (h ∙ sym (bill-refused r.rows no_usage log c q), omega arith, λ reply p. cc p)
        | inr (text, q) ↦ elim (Bool-cases (r.is_json text)) [
          | inl j ↦
              rw (q, settle_attempt)
                (rw j (
                  ap (λ s. add_usage r.rows s c) h ∙ sym (bill-counted r.rows no_usage log c q),
                  omega arith,
                  λ reply p. cc (j, p),
                ))
          | inr j ↦
              rw (q, settle_attempt)
                (rw j (
                  k text (add_usage r.rows spent c) (
                    ap (λ s. add_usage r.rows s c) h ∙ sym (bill-counted r.rows no_usage log c q))))
        ]
      ]

  attempt_from-IsBilled :
      (left : ℕ) (ms : List Message) (format : Format F) (opt : Opt) (spent : Usage R) (w : W)
      (log : List Completion)
      → spent ≡ bill r.rows no_usage log
      → IsBilled (length log + left) (attempt_from logged left ms format opt spent (w, log))
  unfolding attempt_from
  attempt_from-IsBilled zero ms format opt spent w log h = (h, omega arith, λ reply q. cc q)
  attempt_from-IsBilled (suc left) ms format opt spent w log h =
      let (answer, w') = r.complete (params_for logged ms format opt) w in
      let log' = add_answer answer log in
      let next = λ (reply : String) (spent' : Usage R).
        attempt_from logged left (ms ++ assistant reply ∷ user json_nudge ∷ []) format opt spent'
          (w', log') in
      settle_attempt-IsBilled answer spent w' log (length log + suc left) next h (omega arith)
        (λ reply spent' q.
          IsBilled-mono (next reply spent') (omega (arith, length-add_answer answer log)) (
            attempt_from-IsBilled left (ms ++ assistant reply ∷ user json_nudge ∷ []) format opt
              spent' w' log' q))

  -- Whatever the router answers, ChatJSON makes at most two calls that are answered, its usage is
  -- what all of them with a choice cost, and a reply that it returns is JSON.
  pub chat_json_bills :
      {S : Type 0} (type_name : S → String) (reflect : S → F) (prompt : String) (schema : Option S)
      (opt : Opt) (w : W)
      → IsBilled 2 (chat_json logged type_name reflect prompt schema opt (w, []))
  unfolding chat_json
  chat_json_bills type_name reflect prompt schema opt w = elim (Bool-cases (is_empty r.base_url)) [
    | inl e ↦ rw (e, chat_json) (refl, omega arith, λ reply q. cc q)
    | inr e ↦ elim (Reply-cases (response_format type_name reflect schema)) [
      | inl (_, q) ↦ rw (e, chat_json) (rw q (refl, omega arith, λ reply p. cc p))
      | inr (format, q) ↦
          rw (e, chat_json)
            (rw q (attempt_from-IsBilled 2 (user prompt ∷ []) format opt no_usage w [] refl))
    ]
  ]
