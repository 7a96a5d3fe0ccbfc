-- ===== src/Lifecycle/Tests.antt =====
-- Tests on candidates around the gates.
use talaria_v.Base.{◌≡◌, refl, [], ◌∷◌, none, some, pos, true}
use talaria_v.Text.{codes}
use talaria_v.Time.{range}
use talaria_v.Gates.Candidate.{needs_review, assembled}
use talaria_v.Lifecycle.{
  existing_candidate_action, status_as_str, skip_terminal, resume_from_gates, place_query,
}
use talaria_v.Lifecycle.Labels.{display_label}

assembled_test : existing_candidate_action (status_as_str assembled) ≡ skip_terminal
unfolding existing_candidate_action status_as_str
assembled_test = refl

review_test : existing_candidate_action (status_as_str needs_review) ≡ resume_from_gates
unfolding existing_candidate_action status_as_str
review_test = refl

place_query_test :
    (place_query (codes " The Hague ")).search_keys ≡ codes "The Hague" ∷ codes "Hague" ∷ []
unfolding place_query codes
place_query_test = refl

display_label_test :
    display_label record {
      subject_label = codes "Ney";
      event_type = codes "battle";
      predicate = codes "fought";
      time = range (pos 1805) (pos 1807) none;
      place_label = some (codes "Ulm");
      map_eligible = true;
    }
    ≡ codes "Ney — battle (1805–1807) @ Ulm"
unfolding display_label codes
display_label_test = refl
