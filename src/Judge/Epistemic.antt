-- ===== src/Judge/Epistemic.antt =====
-- The epistemic status of a claim: crates/talaria-judge/src/rules.rs (lines 398 to 459).
use talaria_v.Base.{Bool, ◌||◌, [], ◌∷◌, if◌then◌else◌}
use talaria_v.Text.{Text, codes, is, contains_any}

unfoldable pub has_rumor : Text → Bool
unfolding contains_any
has_rumor sentence = contains_any sentence (
    "allegedly" ∷ "reportedly" ∷ "rumor" ∷ "rumour" ∷ "supposedly" ∷ "purportedly" ∷ "it is said"
    ∷ "some claim" ∷ "unconfirmed" ∷ [])

unfoldable pub has_theory : Text → Bool
unfolding contains_any
has_theory sentence = contains_any sentence (
    "according to legend" ∷ "legend has it" ∷ "historians debate" ∷ "it has been theorized"
    ∷ "one theory" ∷ "hypothesized" ∷ "possibly" ∷ "perhaps" ∷ "may have" ∷ "might have" ∷ [])

unfoldable pub has_uncertain : Text → Bool
unfolding contains_any
has_uncertain sentence = contains_any sentence (
    "around " ∷ "circa " ∷ "c. " ∷ "approximately" ∷ "about the year" ∷ "uncertain" ∷ "unknown date"
    ∷ "date unknown" ∷ [])

unfoldable pub infer_epistemic_status : Text → Text → Text
unfolding has_rumor has_theory has_uncertain is codes
infer_epistemic_status sentence family =
    if is family "anecdote"
    then (if has_rumor sentence
        then codes "rumor"
        else if has_theory sentence
        then codes "theory"
        else codes "attested")
    else if has_rumor sentence
    then codes "rumor"
    else if has_theory sentence
    then codes "theory"
    else if has_uncertain sentence
    then codes "uncertain"
    else if is family "legacy"
    then codes "attested"
    else if is family "bio" || is family "work"
    then codes "established"
    else codes "attested"
