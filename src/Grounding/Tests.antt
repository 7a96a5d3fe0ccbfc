-- ===== src/Grounding/Tests.antt =====
-- Grounded items, and the theorems at a concrete input.
use talaria_v.Base.{◌≡◌, refl, ◌↔◌, inl, [], ◌∷◌, some, pos, Any, true}
use talaria_v.Text.{Text, codes, is_ascii_alphabetic, to_ascii_lowercase}
use talaria_v.Text.Sample.{ascii_tables}
use talaria_v.Grounding.Names.{agent_is_other_person}
use talaria_v.Grounding.{
  RawExtractItem, grounded_of, accept_items, ground_prose, ground_structured, agent_is_other_person,
}
use talaria_v.Grounding.Soundness.{Fits, accept_items-holds_iff, ground_prose-ground_structured}

abbrev document : Text
document = codes "In 1815, Napoleon was  defeated at Waterloo."

abbrev raw_item : RawExtractItem
raw_item = record {
  lane = codes "fact";
  event_type = codes "battle";
  role = codes " ";
  year = some (pos 1815);
  place_surface = some (codes "Waterloo");
  summary = codes "defeat";
  quoted_text = codes "napoleon was defeated";
  confidence = 0x3ff0000000000001;
}

-- White space and case do not count; the blank role is `direct`.
accepted :
    accept_items ascii_tables (codes "Napoleon") document (raw_item ∷ [])
    ≡ grounded_of raw_item ∷ []
unfolding accept_items grounded_of codes is_ascii_alphabetic
accepted = refl

-- "Blucher" is another person than the subject.
other_agent :
    agent_is_other_person ascii_tables (codes "In June Blucher marched on Paris") (codes "Napoleon")
    ≡ true
unfolding agent_is_other_person codes to_ascii_lowercase is_ascii_alphabetic
other_agent = refl

accept_items-holds_iff_example :
    Any
      (λ h. h ≡ grounded_of raw_item)
      (accept_items ascii_tables (codes "Napoleon") document (raw_item ∷ []))
    ↔ Any
        (λ item.
          Fits ascii_tables (codes "Napoleon") document item
          × (grounded_of item ≡ grounded_of raw_item))
        (raw_item ∷ [])
accept_items-holds_iff_example =
    accept_items-holds_iff ascii_tables (codes "Napoleon") document (raw_item ∷ [])
      (grounded_of raw_item)

holds :
    Any
      (λ h. h ≡ grounded_of raw_item)
      (ground_prose ascii_tables (codes "Napoleon") document (raw_item ∷ []))
unfolding ground_prose accept_items codes grounded_of is_ascii_alphabetic
holds = inl refl

ground_prose-ground_structured_example :
    Any
      (λ h. h ≡ grounded_of raw_item)
      (ground_structured ascii_tables
        (codes "Napoleon")
        document
        (raw_item ∷ [])
        (some (codes "Q517")))
ground_prose-ground_structured_example =
    ground_prose-ground_structured ascii_tables (codes "Napoleon") document (raw_item ∷ [])
      (some (codes "Q517")) (grounded_of raw_item) holds
