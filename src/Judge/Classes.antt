-- ===== src/Judge/Classes.antt =====
-- What a claim tells: the classification of crates/talaria-judge/src/rules.rs (lines 150 to 396).
use talaria_v.Base.{
  String, Bool, true, false, not, ◌&&◌, ◌||◌, List, [], ◌∷◌, Option, none, some, leb, if◌then◌else◌,
  is_empty, any,
}
use talaria_v.Text.{
  Text, codes, is, text_eq, contains, contains_any, trim, byte_len, split, split_whitespace,
  is_ascii_alphabetic,
}
use talaria_v.Text.Unicode.{Unicode}
use talaria_v.Judge.Deaths.{death_refers_to_other_person}

pub record Classified : Type 0 where
  pub event_type : Text
  pub verb_label : Text
  pub family : Text

-- Needles, and the type, label and family that they stand for.
pub data Rule : Type 0 where
  rule : List String → String → String → String → Rule

unfoldable pub classified_as : String → String → String → Classified
unfolding codes
classified_as event_type verb_label family = record {
  event_type = codes event_type;
  verb_label = codes verb_label;
  family = codes family;
}

-- The first rule with a needle that the test finds.
unfoldable pub first_rule : (List String → Bool) → List Rule → Option Classified
unfolding classified_as
first_rule found [] = none
first_rule found (rule needles event_type label family ∷ rules) =
    let rest = first_rule found rules in
    if found needles then some (classified_as event_type label family) else rest

unfoldable pub classify_anecdote : Text → Text → Option Classified
unfolding is contains_any classified_as
classify_anecdote verb sentence =
    let verb_anecdote = is verb "anecdoted" || is verb "anecdote" in
    let cue = contains_any sentence (
      "anecdote" ∷ "according to legend" ∷ "legend has it" ∷ "the story goes" ∷ "popular story"
      ∷ "apocryphal" ∷ "once told" ∷ "is said to have" ∷ "it is said that" ∷ "reputed to have"
      ∷ "tradition holds" ∷ "an apocryphal" ∷ "learned about" ∷ "learnt about" ∷ "learned of"
      ∷ "learnt of" ∷ "from a newspaper" ∷ "newspaper that he read" ∷ "newspaper that she read"
      ∷ "read in a café" ∷ "read in a cafe" ∷ []) in
    if verb_anecdote || cue then some (classified_as "anecdote" "anecdote" "anecdote") else none

unfoldable pub commemorative_rules : List Rule
commemorative_rules =
    rule ("statue" ∷ "monument" ∷ "bust of" ∷ []) "statue" "statue unveiled" "legacy"
    ∷ rule ("museum" ∷ []) "museum" "museum opened" "legacy"
    ∷ rule
        ("street named" ∷ "avenue named" ∷ "boulevard named" ∷ "square named" ∷ "renamed"
          ∷ "named after" ∷ [])
        "street_naming" "named" "legacy"
    ∷ rule ("memorial" ∷ []) "memorial" "memorial dedicated" "legacy"
    ∷ rule ("plaque" ∷ []) "memorial" "plaque unveiled" "legacy"
    ∷ []

unfoldable pub classify_commemorative : Text → Option Classified
unfolding first_rule contains_any commemorative_rules
classify_commemorative sentence = first_rule (contains_any sentence) commemorative_rules

unfoldable pub verb_rules : List Rule
verb_rules =
    rule ("born" ∷ "birth" ∷ []) "birth" "born" "bio"
    ∷ rule ("died" ∷ "death" ∷ "deceased" ∷ "killed" ∷ []) "death" "died" "bio"
    ∷ rule ("grieved" ∷ []) "life_event" "grieved" "bio"
    ∷ rule ("married" ∷ "marriage" ∷ "wed" ∷ []) "marriage" "married" "bio"
    ∷ rule ("divorced" ∷ "divorce" ∷ "annulled" ∷ []) "divorce" "divorced" "bio"
    ∷ rule ("studied" ∷ "graduated" ∷ "enrolled" ∷ "educated" ∷ []) "education" "studied" "bio"
    ∷ rule ("worked" ∷ "employed" ∷ "served" ∷ "appointed" ∷ []) "employment" "worked" "bio"
    ∷ rule ("moved" ∷ "relocated" ∷ "emigrated" ∷ "immigrated" ∷ "settled" ∷ "arrived" ∷ [])
        "relocation" "moved" "bio"
    ∷ rule ("visited" ∷ "travelled" ∷ "traveled" ∷ "toured" ∷ "journeyed" ∷ []) "travel" "visited"
        "bio"
    ∷ rule ("lived" ∷ "resided" ∷ "stayed" ∷ []) "residence" "lived" "bio"
    ∷ rule ("exiled" ∷ "fled" ∷ "abdicated" ∷ []) "exile" "exiled" "bio"
    ∷ rule ("imprisoned" ∷ "arrested" ∷ "jailed" ∷ []) "imprisonment" "imprisoned" "bio"
    ∷ rule ("fought" ∷ "defeated" ∷ "besieged" ∷ "invaded" ∷ "commanded" ∷ []) "battle" "fought"
        "bio"
    ∷ rule ("associated" ∷ []) "life_event" "associated" "other"
    ∷ rule ("signed" ∷ "negotiated" ∷ "treaty" ∷ "alliance" ∷ "concordat" ∷ []) "diplomatic"
        "signed" "bio"
    ∷ rule ("met" ∷ "received" ∷ "audience" ∷ "congress" ∷ []) "meeting" "met" "bio"
    ∷ rule ("crowned" ∷ "elected" ∷ "proclaimed" ∷ "reigned" ∷ []) "office" "took office" "bio"
    ∷ rule ("spoke" ∷ "speech" ∷ "addressed" ∷ "lectured" ∷ []) "speech" "spoke" "bio"
    ∷ rule ("published" ∷ "wrote" ∷ "authored" ∷ []) "publication" "published" "work"
    ∷ rule ("painted" ∷ "composed" ∷ "sculpted" ∷ "filmed" ∷ "directed" ∷ []) "creation" "created"
        "work"
    ∷ rule ("discovered" ∷ "invented" ∷ "proved" ∷ "demonstrated" ∷ []) "discovery" "discovered"
        "work"
    ∷ rule ("awarded" ∷ "received" ∷ "won" ∷ "nobel" ∷ []) "award" "awarded" "bio"
    ∷ rule ("unveiled" ∷ []) "statue" "statue unveiled" "legacy"
    ∷ []

-- Whole tokens, so that "studied" has no "died".
unfoldable pub verb_token_match : Text → Text → Bool
unfolding text_eq split is_ascii_alphabetic
verb_token_match verb needle =
    if text_eq verb needle
    then true
    else any (λ token. text_eq token needle) (split (λ c. not (is_ascii_alphabetic c)) verb)

-- `needles.iter().any(|n| verb_token_match(verb, n))`
unfoldable pub any_verb : Text → List String → Bool
unfolding verb_token_match codes
any_verb verb [] = false
any_verb verb (needle ∷ needles) = verb_token_match verb (codes needle) || any_verb verb needles

unfoldable pub classify_verb : Text → Option Classified
unfolding first_rule any_verb verb_rules
classify_verb verb = first_rule (any_verb verb) verb_rules

unfoldable pub cue_rules : List Rule
cue_rules =
    rule ("was born" ∷ "were born" ∷ []) "birth" "born" "bio"
    ∷ rule ("died in" ∷ " died " ∷ "was killed" ∷ []) "death" "died" "bio"
    ∷ rule ("married" ∷ []) "marriage" "married" "bio"
    ∷ rule ("studied at" ∷ "graduated from" ∷ "educated at" ∷ []) "education" "studied" "bio"
    ∷ rule ("lived in exile" ∷ "went into exile" ∷ "was exiled" ∷ []) "exile" "exiled" "bio"
    ∷ rule ("was crowned" ∷ "became emperor" ∷ "became king" ∷ "became president" ∷ []) "office"
        "took office" "bio"
    ∷ rule ("battle of" ∷ "fought at" ∷ "defeated at" ∷ []) "battle" "fought" "bio"
    ∷ rule ("published" ∷ "principia" ∷ "wrote " ∷ []) "publication" "published" "work"
    ∷ rule ("discovered" ∷ "invented" ∷ []) "discovery" "discovered" "work"
    ∷ rule ("moved to" ∷ "settled in" ∷ "emigrated to" ∷ "returned to" ∷ "arrived in" ∷ [])
        "relocation" "moved" "bio"
    ∷ rule ("visited" ∷ "travelled to" ∷ "traveled to" ∷ []) "travel" "visited" "bio"
    ∷ rule ("lived in" ∷ "resided in" ∷ []) "residence" "lived" "bio"
    ∷ rule ("worked at" ∷ "worked in" ∷ "served as" ∷ []) "employment" "worked" "bio"
    ∷ rule ("imprisoned" ∷ "arrested in" ∷ []) "imprisonment" "imprisoned" "bio"
    ∷ rule ("awarded" ∷ "nobel prize" ∷ "received the" ∷ []) "award" "awarded" "bio"
    ∷ rule ("signed the" ∷ "treaty of" ∷ "concordat" ∷ "alliance with" ∷ []) "diplomatic" "signed"
        "bio"
    ∷ rule ("divorced" ∷ "annulled" ∷ []) "divorce" "divorced" "bio"
    ∷ rule ("met with" ∷ "congress of" ∷ []) "meeting" "met" "bio"
    ∷ []

unfoldable pub classify_sentence_cues : Text → Option Classified
unfolding first_rule contains_any cue_rules
classify_sentence_cues sentence = first_rule (contains_any sentence) cue_rules

abbrev last_word : List Text → Option Text
last_word [] = none
last_word (w ∷ []) = some w
last_word (v ∷ w ∷ ws) = last_word (w ∷ ws)

abbrev with_last : Text → Option Text → List Text
with_last lower none = lower ∷ []
with_last lower (some last) =
    if leb 3 (byte_len last) && not (text_eq last lower) then lower ∷ last ∷ [] else lower ∷ []

abbrev or_class : Option Classified → Classified → Classified
or_class none other = other
or_class (some c) other = c

module _ (u : Unicode) where
  unfoldable pub person_aliases : Text → List Text
  unfolding trim split_whitespace byte_len text_eq
  person_aliases person =
      let lower = u.to_lowercase (trim person) in
      with_last lower (last_word (split_whitespace lower))

  -- The death of another person is told.
  unfoldable pub tells_other_death : Text → Text → Text → Bool
  unfolding person_aliases death_refers_to_other_person verb_token_match contains codes
  tells_other_death verb sentence person_surface =
      death_refers_to_other_person sentence (person_aliases person_surface)
      && (verb_token_match verb (codes "died")
          || verb_token_match verb (codes "death")
          || contains sentence (codes "drowned")
          || contains sentence (codes " died")
          || contains sentence (codes "'s death"))

  unfoldable pub classify : Text → Text → Text → Classified
  unfolding classify_anecdote classify_commemorative tells_other_death classify_verb
      classify_sentence_cues classified_as codes
  classify verb sentence person_surface =
      let fallback : Classified = record {
        event_type = codes "life_event";
        verb_label = if is_empty verb then codes "associated" else verb;
        family = codes "other";
      } in
      let grieved = classified_as "life_event" "grieved" "bio" in
      or_class (classify_anecdote verb sentence) (
        or_class (classify_commemorative sentence) (
          if tells_other_death verb sentence person_surface
          then grieved
          else or_class (classify_verb verb) (or_class (classify_sentence_cues sentence) fallback)))
