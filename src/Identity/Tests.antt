-- ===== src/Identity/Tests.antt =====
-- The theorem on occurrences at a concrete input.
use talaria_v.Base.{◌≡◌, refl, ◌↔◌, none, some, pos}
use talaria_v.Text.{Text, codes, to_ascii_lowercase}
use talaria_v.Text.Sample.{ascii_tables}
use talaria_v.Time.{exact}
use talaria_v.Identity.{normalize_surface, occurrence_input, occurrence_parts}
use talaria_v.Identity.Occurrence.{
  Occurrence, BarFree, SameOccurrence, key_input, occurrence_input_iff, tested-Lacks_bar,
}

abbrev battle_at : Text → Occurrence
battle_at place = record {
  subject = codes "Napoleon";
  event_type = codes "battle";
  action_role = codes "commander";
  time = exact (pos 1805) (some 12) (some 2) none;
  place = some place;
  primary_object = none;
  primary_document = none;
  marker = none;
}

austerlitz-BarFree : BarFree ascii_tables (battle_at (codes "Austerlitz"))
unfolding normalize_surface codes to_ascii_lowercase
austerlitz-BarFree = (
  tested-Lacks_bar (codes "napoleon") refl,
  tested-Lacks_bar (codes "battle") refl,
  tested-Lacks_bar (codes "commander") refl,
  tested-Lacks_bar (codes "austerlitz") refl,
  tt,
  tt,
  tt,
)

spaced-BarFree : BarFree ascii_tables (battle_at (codes " austerlitz "))
unfolding normalize_surface codes to_ascii_lowercase
spaced-BarFree = austerlitz-BarFree

-- White space and case do not tell places apart.
same_input :
    key_input ascii_tables (battle_at (codes "Austerlitz"))
    ≡ key_input ascii_tables (battle_at (codes " austerlitz "))
unfolding occurrence_input occurrence_parts normalize_surface codes to_ascii_lowercase
same_input = refl

occurrence_input_iff_example :
    (key_input ascii_tables (battle_at (codes "Austerlitz"))
      ≡ key_input ascii_tables (battle_at (codes " austerlitz ")))
    ↔ SameOccurrence ascii_tables
        (battle_at (codes "Austerlitz"))
        (battle_at (codes " austerlitz "))
occurrence_input_iff_example =
    occurrence_input_iff ascii_tables (battle_at (codes "Austerlitz"))
      (battle_at (codes " austerlitz ")) austerlitz-BarFree spaced-BarFree
