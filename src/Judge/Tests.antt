-- ===== src/Judge/Tests.antt =====
-- Tests and witnesses on the judge; a year stands for its date.
use talaria_v.Base.{◌≡◌, refl, ◌≢◌, ◌≤◌, ◌↔◌, ℕ, ℤ, [], ◌∷◌, Option, none, some}
use talaria_v.Text.{Text, codes, to_ascii_lowercase}
use talaria_v.Text.Sample.{ascii_tables}
use talaria_v.Explorer.{trimmed}
use talaria_v.Dates.{parse_time_surface}
use talaria_v.Judge.Gazetteer.{gazetteer}
use talaria_v.Judge.Place.{
  find_place_in_text, titled, locality, parse_place_surface, gazetteer_lookup,
}
use talaria_v.Judge.Place.Best.{IsBest, find_place_in_text-IsBest}
use talaria_v.Judge.Verdict.{CandidateInput, judge_candidate, scored, accept}
use talaria_v.Judge.Verdict.Accepted.{IsReadable, judge_candidate-accept_iff}

abbrev as_it_is : ℤ → Option ℤ
as_it_is year = some year

abbrev same_character : ℕ → Text
same_character c = c ∷ []

abbrev a_claim : CandidateInput
a_claim = record {
  person_surface = codes "Ney";
  time_surface = some (codes " 1805 ");
  place_surface = some (codes "Ulm.");
  verb_pivot = some (codes "Fought");
  sentence_text = codes "He fought at Ulm in 1805.";
}

find_place_in_text_test :
    find_place_in_text same_character (codes "in Ulm, France") ≡ some (codes "ulm")
unfolding find_place_in_text codes locality
find_place_in_text_test = refl

-- Only the first occurrence is looked at: the one in "nicest" hides the city.
hidden_place_test : find_place_in_text same_character (codes "his nicest year in Nice") ≡ none
unfolding find_place_in_text codes
hidden_place_test = refl

judge_candidate_test : (judge_candidate as_it_is ascii_tables a_claim).confidence ≡ 100
unfolding judge_candidate codes trimmed parse_time_surface scored parse_place_surface
    gazetteer_lookup
judge_candidate_test = refl

find_place_in_text-IsBest_example :
    (r : Option Text) × (find_place_in_text same_character (codes "in Ulm, France")
      ≡ titled same_character r)
    × IsBest (to_ascii_lowercase (codes "in Ulm, France")) gazetteer r
find_place_in_text-IsBest_example =
    find_place_in_text-IsBest same_character (codes "in Ulm, France")

judge_candidate-accept_iff_example :
    (((judge_candidate as_it_is ascii_tables a_claim).label ≡ accept) ↔ (
      IsReadable as_it_is ascii_tables (trimmed (a_claim.time_surface))
      × (trimmed (a_claim.place_surface) ≢ none)))
    × ((judge_candidate as_it_is ascii_tables a_claim).label ≡ accept
        → (67 ≤ (judge_candidate as_it_is ascii_tables a_claim).confidence)
          × ((judge_candidate as_it_is ascii_tables a_claim).confidence ≤ 100))
judge_candidate-accept_iff_example = judge_candidate-accept_iff as_it_is ascii_tables a_claim
