-- ===== src/Enricher/Privacy.antt =====
-- What of a mention reaches the model.
use brand_pulse.Prelude.{
  map, ap, ◌≡◌, refl, ◌∙◌, inl, inr, String, List, [], ◌∷◌, some, Dict, lookup, lookup_or,
  lookup_or-of_found, insert_key, lookup-insert_key, str_eq, Memᴰ, All, All-mem, ◌⊎◌, ◌≢◌,
  Bool-cases, arith, eq_iff,
}
use brand_pulse.Models.Mention.{Mention}
use brand_pulse.Enricher.{redacted_by_id}
use brand_pulse.Enricher.Batch.{prompt_mentions}

-- the mention with another text
abbrev pub reworded : {R : Type 0} → (String → String) → Mention R → Mention R
reworded change m = record m { text = change m.text }

module _ {R : Type 0} (redact : String → String) where
  -- the text is a mention's redacted text
  abbrev pub IsRedactionOf : List (Mention R) → String → String → Type 0
  IsRedactionOf ms id text = (m : Mention R) × Memᴰ m ms × (m.id ≡ id) × (text ≡ redact m.text)

  redacted_by_id-cases :
      (ms : List (Mention R)) (d : Dict String) (id : String)
      → ((text : String) × IsRedactionOf ms id text
          × (lookup id (redacted_by_id redact ms d) ≡ some text))
        ⊎ (All (λ m. m.id ≢ id) ms × (lookup id (redacted_by_id redact ms d) ≡ lookup id d))
  unfolding redacted_by_id
  redacted_by_id-cases [] d id = inr (tt, refl)
  redacted_by_id-cases (x ∷ xs) d id =
      elim (redacted_by_id-cases xs (insert_key x.id (redact x.text) d) id) [
        | inl (text, (m, i, q, r), found) ↦ inl (text, (m, Memᴰ.tail i, q, r), found)
        | inr (a, found) ↦ elim (Bool-cases (str_eq x.id id)) [
          | inl q ↦ inl (
            redact x.text,
            (x, Memᴰ.head refl, (eq_iff x.id id).0 q, refl),
            found ∙ ground (arith, lookup-insert_key x.id id (redact x.text) d),
          )
          | inr q ↦ inr (
            (λ same. cc (q, (eq_iff x.id id).1 same), a),
            found ∙ ground (arith, lookup-insert_key x.id id (redact x.text) d),
          )
        ]
      ]

  prompt_text-redacted :
      (ms : List (Mention R)) (m : Mention R)
      → Memᴰ m ms
      → IsRedactionOf ms m.id (lookup_or "" m.id (redacted_by_id redact ms []))
  prompt_text-redacted ms m i = elim (redacted_by_id-cases ms [] m.id) [
    | inl (text, (x, j, q, r), found) ↦
        (x, j, q, lookup_or-of_found "" m.id (redacted_by_id redact ms []) found ∙ r)
    | inr (fresh, _) ↦ absurd (All-mem (λ x. x.id ≢ m.id) ms fresh m i refl)
  ]

  prompt_mentions-IsRedacted :
      (ms batch : List (Mention R))
      → All (λ m. Memᴰ m ms) batch
      → All
          (λ q. IsRedactionOf ms q.mention_id q.text)
          (prompt_mentions batch (redacted_by_id redact ms []))
  unfolding prompt_mentions
  prompt_mentions-IsRedacted ms [] h = tt
  prompt_mentions-IsRedacted ms (m ∷ batch) h =
      (prompt_text-redacted ms m h.0, prompt_mentions-IsRedacted ms batch h.1)

  redacted_by_id-reworded :
      (change : String → String)
      → ((text : String) → redact (change text) ≡ redact text)
      → (ms : List (Mention R)) (d : Dict String)
      → redacted_by_id redact (map (reworded change) ms) d ≡ redacted_by_id redact ms d
  unfolding redacted_by_id
  redacted_by_id-reworded change h [] d = refl
  redacted_by_id-reworded change h (x ∷ xs) d =
      rw (h x.text, redacted_by_id)
        (redacted_by_id-reworded change h xs (insert_key x.id (redact x.text) d))

  prompt_mentions-reworded :
      (change : String → String) (batch : List (Mention R)) (d : Dict String)
      → prompt_mentions (map (reworded change) batch) d ≡ prompt_mentions batch d
  unfolding prompt_mentions
  prompt_mentions-reworded change [] d = refl
  prompt_mentions-reworded change (m ∷ ms) d =
      ap (λ l. record { mention_id = m.id; text = lookup_or "" m.id d } ∷ l)
        (prompt_mentions-reworded change ms d)

  -- Of any batch of the mentions of a request, each text that the prompt is made of is the redacted
  -- text of a mention of the request under that id; and a change of the texts that leaves each
  -- one's redaction as it is leaves what the prompt is made of as it is.
  pub prompt_mentions-redacted :
      (ms batch : List (Mention R)) (change : String → String)
      → All (λ m. Memᴰ m ms) batch
      → ((text : String) → redact (change text) ≡ redact text)
      → All
          (λ q. IsRedactionOf ms q.mention_id q.text)
          (prompt_mentions batch (redacted_by_id redact ms []))
        × (prompt_mentions
              (map (reworded change) batch)
              (redacted_by_id redact (map (reworded change) ms) [])
            ≡ prompt_mentions batch (redacted_by_id redact ms []))
  prompt_mentions-redacted ms batch change h k = (
    prompt_mentions-IsRedacted ms batch h,
    rw (redacted_by_id-reworded change k ms [])
        (prompt_mentions-reworded change batch (redacted_by_id redact ms [])),
  )
