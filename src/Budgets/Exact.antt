-- ===== src/Budgets/Exact.antt =====
-- Runs of calls and documents, and the exact sums that the counters keep.
use talaria_v.Base.{
  ℕ, ◌+◌, ◌%◌, ◌^◌, ◌≤◌, ◌<◌, ◌≡◌, refl, sym, ◌∙◌, ◌↔◌, inl, inr, ◌⊎◌, List, [], ◌∷◌, Option, none,
  some, ltb, if◌then◌else◌, All, arith, Bool-cases, true, false,
}
use talaria_v.Text.{Text, text_eq}
use talaria_v.Text.Equality.{text_eq_iff, text_eq_refl}
use talaria_v.Budgets.{
  IngestBudgets, BudgetCounters, BudgetExhausted, no_counts, count_of, add_one, record_call,
  record_document, record_bytes,
}

-- What an ingest reports to the counters.
pub data Report : Type 0 where
  call : Report
  document : Text → ℕ → Report

abbrev pub step : IngestBudgets → BudgetCounters → Report → BudgetCounters × Option BudgetExhausted
step b c call = record_call c b
step b c (document source bytes) = record_document c source b bytes

abbrev stop_or :
    BudgetCounters × Option BudgetExhausted
    → BudgetCounters × Option BudgetExhausted
    → BudgetCounters × Option BudgetExhausted
stop_or (c, none) rest = rest
stop_or (c, some e) rest = (c, some e)

stop_or-none :
    (after rest : BudgetCounters × Option BudgetExhausted)
    → after.1 ≡ none
    → stop_or after rest ≡ rest
stop_or-none (c, none) rest h = refl
stop_or-none (c, some e) rest h = cc h

stop_or-some :
    (after rest : BudgetCounters × Option BudgetExhausted) (e : BudgetExhausted)
    → after.1 ≡ some e
    → (stop_or after rest).1 ≡ some e
stop_or-some (c, none) rest e h = cc h
stop_or-some (c, some d) rest e h = h

-- The reports in order, up to the first that is refused.
unfoldable pub run :
    IngestBudgets → BudgetCounters → List Report → BudgetCounters × Option BudgetExhausted
run b c [] = (c, none)
run b c (r ∷ rs) = let after = step b c r in let rest = run b after.0 rs in stop_or after rest

abbrev pub calls : List Report → ℕ
calls [] = 0
calls (call ∷ rs) = 1 + calls rs
calls (document source bytes ∷ rs) = calls rs

abbrev pub bytes_of : List Report → ℕ
bytes_of [] = 0
bytes_of (call ∷ rs) = bytes_of rs
bytes_of (document source bytes ∷ rs) = bytes + bytes_of rs

abbrev pub documents : Text → List Report → ℕ
documents source [] = 0
documents source (call ∷ rs) = documents source rs
documents source (document s bytes ∷ rs) = (if text_eq s source then 1 else 0) + documents source rs

-- No counter can wrap: the limits leave room for one more, and so does each document's size.
abbrev pub HasRoom : IngestBudgets → Type 0
HasRoom b = (b.max_external_calls + 1 < 2 ^ 32) × (b.max_documents_per_source + 1 < 2 ^ 32)

abbrev pub Fitting : IngestBudgets → Report → Type 0
Fitting b call = Unit
Fitting b (document source bytes) = b.max_download_bytes + bytes < 2 ^ 64

-- The counters and the reports together are within the budgets.
abbrev pub Fits : IngestBudgets → BudgetCounters → List Report → Type 0
Fits b c rs =
    (c.external_calls + calls rs ≤ b.max_external_calls)
    × (c.download_bytes + bytes_of rs ≤ b.max_download_bytes)
    × ((source : Text)
        → count_of source c.documents_per_source + documents source rs ≤ b.max_documents_per_source)

apart :
    (t s source : Text) → text_eq t s ≡ true → text_eq t source ≡ false → text_eq source s ≡ false
apart t s source h k = elim (Bool-cases (text_eq source s)) [
  | inl e ↦
      let t_source = (text_eq_iff t s).0 h ∙ sym ((text_eq_iff source s).0 e) in
      absurd (cc (k, (text_eq_iff t source).1 t_source))
  | inr e ↦ e
]

count_of-add_one :
    (s source : Text) (docs : List (Text × ℕ))
    → count_of source docs + 1 < 2 ^ 32
    → count_of s docs + 1 < 2 ^ 32
    → count_of s (add_one source docs) ≡ count_of s docs + (if text_eq source s then 1 else 0)
unfolding count_of add_one
count_of-add_one s source [] h k = ground arith
count_of-add_one s source ((t, n) ∷ docs) h k = elim (Bool-cases (text_eq t source)) [
  | inl same ↦
      let e = (text_eq_iff t source).0 same in
      let room = rw same at h in rw (same, e) (ground (arith, room))
  | inr other ↦ elim (Bool-cases (text_eq t s)) [
    | inl at ↦ rw (other, at) (ground (arith, at, apart t s source at other))
    | inr behind ↦
        let ih = count_of-add_one s source docs (rw other at h) (rw behind at k) in
        rw (other, behind) ih
  ]
]

module _ (b : IngestBudgets) (room : HasRoom b) where
  -- What holds of a refused and of an accepted report.
  abbrev Refused : BudgetCounters → Report → Type 0
  Refused c r =
      (e : BudgetExhausted) × ((step b c r).1 ≡ some e)
      × ((rs : List Report) → Fits b c (r ∷ rs) → ⊥)

  abbrev Accepted : BudgetCounters → Report → Type 0
  Accepted c r =
      ((step b c r).1 ≡ none)
      × Fits b (step b c r).0 []
      × ((rs : List Report) → Fits b (step b c r).0 rs ↔ Fits b c (r ∷ rs))

  call-Fits : (c : BudgetCounters) → Fits b c [] → Accepted c call ⊎ Refused c call
  unfolding record_call
  call-Fits c h = elim (Bool-cases (ltb b.max_external_calls ((c.external_calls + 1) % 2 ^ 32))) [
    | inl over ↦ rw over (inr (_, refl, λ rs f. ground (arith, f.0)))
    | inr within ↦ rw within (
        inl (
          refl,
          (ground arith, h.1, h.2),
          λ rs. ((λ f. (ground (arith, f.0), f.1, f.2)), (λ f. (ground (arith, f.0), f.1, f.2))),
        ))
  ]

  module _ (c : BudgetCounters) (h : Fits b c []) (source : Text) where
    counted :
        (s : Text)
        → count_of s (add_one source c.documents_per_source)
          ≡ count_of s c.documents_per_source + (if text_eq source s then 1 else 0)
    counted s =
        count_of-add_one s source c.documents_per_source (ground (arith, h.2 source))
          (ground (arith, h.2 s))

    counted_self :
        count_of source (add_one source c.documents_per_source)
        ≡ count_of source c.documents_per_source + 1
    counted_self = ground (arith, counted source, text_eq_refl source)

    few_everywhere :
        ltb b.max_documents_per_source (count_of source (add_one source c.documents_per_source))
          ≡ false
        → (s : Text)
        → count_of s (add_one source c.documents_per_source) + 0 ≤ b.max_documents_per_source
    few_everywhere few s = elim (Bool-cases (text_eq source s)) [
      | inl same ↦ rw⁻¹ ((text_eq_iff source s).0 same) (ground arith)
      | inr other ↦ ground (arith, counted s, h.2 s)
    ]

    document_fits :
        (bytes : ℕ)
        → Fitting b (document source bytes)
        → Accepted c (document source bytes) ⊎ Refused c (document source bytes)
    unfolding record_document record_bytes
    document_fits bytes ok =
        elim (Bool-cases (
          ltb b.max_documents_per_source
            (count_of source (add_one source c.documents_per_source)))) [
              | inl many ↦ rw many (
                  inr (
                    _,
                    refl,
                    λ rs f. ground (arith, f.2 source, counted_self, text_eq_refl source),
                  ))
              | inr few ↦
                  elim (Bool-cases
                    (ltb b.max_download_bytes ((c.download_bytes + bytes) % 2 ^ 64))) [
                      | inl over ↦ rw (few, over) (inr (_, refl, λ rs f. ground (arith, f.1)))
                      | inr within ↦
                          rw (few, within)
                            (inl (
                              refl,
                              (h.0, ground arith, few_everywhere few),
                              λ rs. (
                                (λ f. (
                                  f.0,
                                  ground (arith, f.1),
                                  λ s. ground (arith, f.2 s, counted s),
                                )),
                                (λ f. (
                                  f.0,
                                  ground (arith, f.1),
                                  λ s. ground (arith, f.2 s, counted s),
                                )),
                              ),
                            ))
                    ]
            ]

  step-Fits :
      (c : BudgetCounters) (r : Report) → Fitting b r → Fits b c [] → Accepted c r ⊎ Refused c r
  step-Fits c call ok h = call-Fits c h
  step-Fits c (document source bytes) ok h = document_fits c h source bytes ok

  run-Fits :
      (rs : List Report) (c : BudgetCounters)
      → All (Fitting b) rs
      → Fits b c []
      → ((run b c rs).1 ≡ none) ↔ Fits b c rs
  unfolding run
  run-Fits [] c ok h = (λ e. h, λ f. refl)
  run-Fits (r ∷ rs) c ok h = elim (step-Fits c r ok.0 h) [
    | inl (done, within, same) ↦
        let ih = run-Fits rs (step b c r).0 ok.1 within in
        rw (stop_or-none (step b c r) (run b (step b c r).0 rs) done)
          ((λ e. (same rs).0 (ih.0 e)), (λ f. ih.1 ((same rs).1 f)))
    | inr (e, refused, over) ↦
        rw (stop_or-some (step b c r) (run b (step b c r).0 rs) e refused)
          ((λ k. cc k), (λ f. absurd (over rs f)))
  ]

  -- Where no counter can wrap, a run of reports is accepted to its end exactly when its calls, its
  -- bytes and the documents of each source are within the budgets.
  pub run-none_iff :
      (rs : List Report)
      → All (Fitting b) rs
      → ((run b no_counts rs).1 ≡ none) ↔ (
          (calls rs ≤ b.max_external_calls)
          × (bytes_of rs ≤ b.max_download_bytes)
          × ((source : Text) → documents source rs ≤ b.max_documents_per_source))
  unfolding count_of
  run-none_iff rs ok =
      let fits = run-Fits rs no_counts ok (omega arith, omega arith, λ s. omega arith) in
      (
        (λ e.
            let f = fits.0 e in
            (omega (arith, f.0), omega (arith, f.1), λ s. omega (arith, f.2 s))),
        (λ g. fits.1 (omega (arith, g.0), omega (arith, g.1), λ s. omega (arith, g.2 s))),
      )
