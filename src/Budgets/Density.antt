-- ===== src/Budgets/Density.antt =====
-- The targets of a dense timeline: crates/talaria-sources/src/density.rs.
use talaria_v.Base.{ℕ, Bool, ◌&&◌, leb, if◌then◌else◌}
use talaria_v.Text.{Text, codes}

pub record DensityTargets : Type 0 where
  pub target_timeline_events : ℕ
  pub target_map_events : ℕ
  pub max_documents : ℕ
  pub max_linked_entities : ℕ
  pub max_depth : ℕ
  pub max_documents_per_source : ℕ

-- `DensityTargets::default`
abbrev pub default_targets : DensityTargets
default_targets = record {
  target_timeline_events = 500;
  target_map_events = 500;
  max_documents = 10000;
  max_linked_entities = 5000;
  max_depth = 3;
  max_documents_per_source = 2500;
}

pub record DensityProgress : Type 0 where
  pub timeline_events : ℕ
  pub map_events : ℕ
  pub documents_processed : ℕ
  pub target_reached : Bool
  pub status : Text

unfoldable pub evaluate : DensityProgress → DensityTargets → DensityProgress
unfolding codes
evaluate p targets =
    let reached =
      leb targets.target_timeline_events p.timeline_events
      && leb targets.target_map_events p.map_events in
    record p {
      target_reached = reached;
      status = if reached then codes "target_reached" else codes "target_not_reached";
    }
