-- ===== src/Judge/Verdict/Accepted.antt =====
-- Which claims are accepted, and with what confidence.
use Prim.Native.Nat.{min}
use talaria_v.Base.{
  ℕ, ◌≤◌, ◌≡◌, refl, ◌≢◌, ◌↔◌, Option, none, some, ℤ, arith, if◌then◌else◌, ltb, inl, inr,
  Bool-cases, unwrap_or, [],
}
use talaria_v.Text.{Text, trim}
use talaria_v.Text.Unicode.{Unicode}
use talaria_v.Explorer.{trimmed}
use talaria_v.Dates.{ParsedTime, parse_time_surface}
use talaria_v.Judge.Place.{ParsedPlace, parse_place_surface}
use talaria_v.Judge.Classes.{Classified, classify}
use talaria_v.Judge.Epistemic.{infer_epistemic_status}
use talaria_v.Judge.Verdict.{
  CandidateInput, JudgeVerdict, accept, epistemic_score, score_of, scored, judge_candidate,
  rejected, with_time_surface, with_place_surface, with_time,
}

-- Whatever the status, at most 8 hundredths are taken away.
epistemic_score-lower :
    (epistemic : Text) (score : ℕ) → 75 ≤ score → 67 ≤ epistemic_score epistemic score
unfolding epistemic_score
epistemic_score-lower epistemic score h = ground (arith, h)

kept_or_rejected :
    {A : Type 0} (P : A → Type 0) (n : ℕ) (x y : A) → 67 ≤ n → P y → P (if ltb n 55 then x else y)
kept_or_rejected P n x y h k = elim (Bool-cases (ltb n 55)) [
  | inl low ↦ absurd (ground (arith, h))
  | inr high ↦ rw high k
]

score_of-lower :
    (input : CandidateInput) (place : ParsedPlace) (classified : Classified) (verb : Text)
    → 75 ≤ score_of input place classified verb
unfolding score_of
score_of-lower input place classified verb = omega arith

module _ {Date : Type 0} (june_15 : ℤ → Option Date) (u : Unicode) where
  -- Accepted, with a confidence of 0.67 to 1.
  abbrev IsSure : JudgeVerdict Date → Type 0
  IsSure v = (v.label ≡ accept) × (67 ≤ v.confidence) × (v.confidence ≤ 100)

  scored-IsSure :
      (input : CandidateInput) (place : ParsedPlace) (time : ParsedTime june_15)
      → IsSure (scored june_15 u input place time)
  unfolding scored
  scored-IsSure input place time =
      let verb = u.to_lowercase (trim (unwrap_or input.verb_pivot [])) in
      let sentence = u.to_lowercase input.sentence_text in
      let classified = classify u verb sentence input.person_surface in
      let epistemic = infer_epistemic_status sentence classified.family in
      let score = score_of input place classified verb in
      let enough =
        epistemic_score-lower epistemic score (score_of-lower input place classified verb) in
      kept_or_rejected IsSure (min (epistemic_score epistemic score) 100) _ _
        (omega (arith, enough)) (refl, omega (arith, enough), omega arith)

  -- The verdict accepts exactly under the condition, and is then sure.
  abbrev Decided : JudgeVerdict Date → Type 0 → Type 0
  Decided v Condition =
      ((v.label ≡ accept) ↔ Condition)
      × (v.label ≡ accept → (67 ≤ v.confidence) × (v.confidence ≤ 100))

  accepted-Decided :
      (v : JudgeVerdict Date) (Condition : Type 0) → IsSure v → Condition → Decided v Condition
  accepted-Decided v Condition sure holds = ((λ h. holds, λ f. sure.0), λ h. (sure.1, sure.2))

  rejected-Decided :
      (input : CandidateInput) (score : ℕ) (reason : Text) (Condition : Type 0)
      → ¬ Condition
      → Decided (rejected input score reason) Condition
  unfolding rejected
  rejected-Decided input score reason Condition fails =
      ((λ h. absurd (cc h), λ f. absurd (fails f)), λ h. absurd (cc h))

  with_time-Decided :
      (input : CandidateInput) (place_surface : Text) (time : Option (ParsedTime june_15))
      (Other : Type 0)
      → Other
      → Decided (with_time june_15 u input place_surface time) ((time ≢ none) × Other)
  with_time-Decided input place_surface none Other other =
      rejected-Decided input 20 _ _ (λ f. f.0 refl)
  with_time-Decided input place_surface (some time) Other other =
      accepted-Decided (scored june_15 u input (parse_place_surface u place_surface) time) _
        (scored-IsSure input (parse_place_surface u place_surface) time) ((λ e. cc e), other)

  with_place_surface-Decided :
      (input : CandidateInput) (time_surface : Text) (place : Option Text)
      → Decided
          (with_place_surface june_15 u input time_surface place)
          ((parse_time_surface june_15 time_surface ≢ none) × (place ≢ none))
  with_place_surface-Decided input time_surface none = rejected-Decided input 10 _ _ (λ f. f.1 refl)
  with_place_surface-Decided input time_surface (some place_surface) =
      with_time-Decided input place_surface (parse_time_surface june_15 time_surface) _ (λ e. cc e)

  -- The text of a time is readable.
  abbrev pub IsReadable : Option Text → Type 0
  IsReadable none = ⊥
  IsReadable (some surface) = parse_time_surface june_15 surface ≢ none

  with_time_surface-Decided :
      (input : CandidateInput) (time : Option Text)
      → Decided
          (with_time_surface june_15 u input time)
          (IsReadable time × (trimmed input.place_surface ≢ none))
  with_time_surface-Decided input none = rejected-Decided input 10 _ _ (λ f. absurd f.0)
  with_time_surface-Decided input (some surface) =
      with_place_surface-Decided input surface (trimmed input.place_surface)

  -- A claim is accepted exactly when its time is given and readable and its place is given, both up to
  -- white space; what is accepted has a confidence of 0.67 to 1.
  pub judge_candidate-accept_iff :
      (input : CandidateInput)
      → (((judge_candidate june_15 u input).label ≡ accept)
          ↔ (IsReadable (trimmed input.time_surface) × (trimmed input.place_surface ≢ none)))
        × ((judge_candidate june_15 u input).label ≡ accept
            → (67 ≤ (judge_candidate june_15 u input).confidence)
              × ((judge_candidate june_15 u input).confidence ≤ 100))
  unfolding judge_candidate
  judge_candidate-accept_iff input = with_time_surface-Decided input (trimmed input.time_surface)
