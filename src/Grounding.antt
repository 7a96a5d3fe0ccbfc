-- ===== src/Grounding.antt =====
-- Grounding of extracted items in the stored document: crates/talaria-quality/src/grounding.rs and
-- crates/talaria-api/src/person_ingest/grounding.rs. A confidence, of type `f64`, is its IEEE 754 bit
-- pattern.
pub mod Names
pub mod Soundness
mod Tests
use talaria_v.Base.{
  ℕ, ltb, leb, Bool, true, false, not, ◌&&◌, ◌||◌, List, [], ◌∷◌, Option, none, some, ℤ, ◌==◌, any,
  if◌then◌else◌, first, is_empty, is_some, unwrap_or, keep, length, map,
}
use talaria_v.Text.{
  Text, codes, text_eq, is_one_of, is_ascii_digit, to_ascii_lowercase, trim_start_matches,
  trim_end_matches, trim, contains, split, split_whitespace, join,
}
use talaria_v.Text.Decimal.{parse_i32}
use talaria_v.Text.Unicode.{Unicode}
use talaria_v.Grounding.Names.{agent_is_other_person}

abbrev pub F64 : Type 0
F64 = ℕ

-- `x.clamp(0.0, 1.0)`: below zero, above one, and else (with NaN and -0.0) unchanged.
unfoldable pub clamp_unit : F64 → F64
clamp_unit x =
    if ltb 0x8000000000000000 x && leb x 0xfff0000000000000
    then 0
    else if ltb 0x3ff0000000000000 x && leb x 0x7ff0000000000000
    then 0x3ff0000000000000
    else x

pub data Lane : Type 0 where
  fact debate : Lane

pub record RawExtractItem : Type 0 where
  pub lane : Text
  pub event_type : Text
  pub role : Text
  pub year : Option ℤ
  pub place_surface : Option Text
  pub summary : Text
  pub quoted_text : Text
  pub confidence : F64

pub record GroundedItem : Type 0 where
  pub lane : Lane
  pub event_type : Text
  pub role : Text
  pub year : Option ℤ
  pub place_surface : Option Text
  pub summary : Text
  pub quoted_text : Text
  pub confidence : F64

pub data RejectReason : Type 0 where
  quote_not_in_document other_person_agent empty_quote : RejectReason

-- The `Result` of a validation.
pub data Validated : Type 0 where
  valid : GroundedItem → Validated
  refused : RejectReason → Validated

-- `parse_lane`
unfoldable pub parse_lane : Text → Lane
unfolding is_one_of trim to_ascii_lowercase
parse_lane raw =
    if is_one_of (to_ascii_lowercase (trim raw))
      ("debate" ∷ "agora" ∷ "theory" ∷ "controversy" ∷ [])
    then debate
    else fact

unfoldable pub is_fact : Lane → Bool
is_fact fact = true
is_fact debate = false

-- The valid ones of the results, in order: `filter_map(|item| … .ok())`.
unfoldable pub valid_only : List Validated → List GroundedItem
valid_only [] = []
valid_only (valid g ∷ vs) = g ∷ valid_only vs
valid_only (refused r ∷ vs) = valid_only vs

-- A statement id that is not blank.
unfoldable pub has_statement : Option Text → Bool
unfolding trim
has_statement none = false
has_statement (some s) = not (is_empty (trim s))

-- The item that both paths build.
unfoldable pub grounded_of : RawExtractItem → GroundedItem
unfolding parse_lane trim codes clamp_unit
grounded_of item = record {
  lane = parse_lane item.lane;
  event_type = if is_empty (trim item.event_type) then codes "historical_fact" else item.event_type;
  role = if is_empty (trim item.role) then codes "direct" else item.role;
  year = item.year;
  place_surface = item.place_surface;
  summary = item.summary;
  quoted_text = item.quoted_text;
  confidence = clamp_unit item.confidence;
}

module _ (u : Unicode) where
  unfoldable pub fold_ws : Text → Text
  unfolding split_whitespace join
  fold_ws s = u.to_lowercase (join (split_whitespace s) (b' ' ∷ []))

  unfoldable pub quote_is_grounded : Text → Text → Bool
  unfolding fold_ws contains
  quote_is_grounded document quote =
      let q = fold_ws quote in not (is_empty q) && contains (fold_ws document) q

  unfoldable pub validate_item : RawExtractItem → Text → Text → Validated
  unfolding trim quote_is_grounded parse_lane is_fact agent_is_other_person grounded_of
  validate_item item document subject =
      if is_empty (trim item.quoted_text)
      then refused empty_quote
      else if not (quote_is_grounded document item.quoted_text)
      then refused quote_not_in_document
      else if is_fact (parse_lane item.lane) && agent_is_other_person u item.quoted_text subject
      then refused other_person_agent
      else valid (grounded_of item)

  unfoldable pub accept_items : Text → Text → List RawExtractItem → List GroundedItem
  unfolding validate_item valid_only
  accept_items subject document raw =
      valid_only (map (λ item. validate_item item document subject) raw)

  unfoldable pub ground_prose : Text → Text → List RawExtractItem → List GroundedItem
  unfolding accept_items
  ground_prose subject document raw = accept_items subject document raw

  unfoldable pub structured_item : RawExtractItem → Text → Validated
  unfolding trim parse_lane is_fact agent_is_other_person grounded_of
  structured_item item subject =
      if is_empty (trim item.quoted_text)
      then refused empty_quote
      else if is_fact (parse_lane item.lane) && agent_is_other_person u item.quoted_text subject
      then refused other_person_agent
      else valid (grounded_of item)

  unfoldable pub ground_structured :
      Text → Text → List RawExtractItem → Option Text → List GroundedItem
  unfolding has_statement accept_items structured_item valid_only
  ground_structured subject document raw statement_id =
      if not (has_statement statement_id)
      then accept_items subject document raw
      else valid_only (map (λ item. structured_item item subject) raw)
