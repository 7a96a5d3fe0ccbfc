-- ===== src/Budgets.antt =====
-- Budgets of an ingest: crates/talaria-sources/src/budgets.rs. The hash map of documents is an
-- association list; the counters are machine integers that wrap as in a release build, and the
-- relevance is the bit pattern of an `f32`. `Ok(())` is `none`.
pub mod Exact
pub mod Density
mod Tests
use talaria_v.Base.{ℕ, ◌+◌, ◌%◌, ◌^◌, ◌≡◌, List, [], ◌∷◌, Option, none, some, ltb, if◌then◌else◌}
use talaria_v.Text.{Text, text_eq}

pub record IngestBudgets : Type 0 where
  pub max_depth : ℕ
  pub max_documents_per_source : ℕ
  pub max_linked_entities : ℕ
  pub max_pages_per_collection : ℕ
  pub max_external_calls : ℕ
  pub max_download_bytes : ℕ
  pub min_relevance : ℕ
  pub time_budget_secs : ℕ

-- `IngestBudgets::default`; the relevance is 0.35.
abbrev pub default : IngestBudgets
default = record {
  max_depth = 2;
  max_documents_per_source = 40;
  max_linked_entities = 80;
  max_pages_per_collection = 20;
  max_external_calls = 200;
  max_download_bytes = 52428800;
  min_relevance = 0x3eb33333;
  time_budget_secs = 300;
}

pub record BudgetCounters : Type 0 where
  pub external_calls : ℕ
  pub download_bytes : ℕ
  pub documents_per_source : List (Text × ℕ)
  pub linked_entities : ℕ

-- `BudgetCounters::default`
abbrev pub no_counts : BudgetCounters
no_counts = record {
  external_calls = 0;
  download_bytes = 0;
  documents_per_source = [];
  linked_entities = 0;
}

pub data BudgetExhausted : Type 0 where
  documents_per_source : Text → BudgetExhausted
  external_calls download_bytes linked_entities : BudgetExhausted

-- The count of a source, 0 where it has none yet.
unfoldable pub count_of : Text → List (Text × ℕ) → ℕ
count_of source [] = 0
count_of source ((s, n) ∷ docs) = if text_eq s source then n else count_of source docs

-- `*entry(source).or_insert(0) += 1`
unfoldable pub add_one : Text → List (Text × ℕ) → List (Text × ℕ)
add_one source [] = (source, 1) ∷ []
add_one source ((s, n) ∷ docs) =
    let rest = add_one source docs in
    if text_eq s source then (s, (n + 1) % 2 ^ 32) ∷ docs else (s, n) ∷ rest

unfoldable pub record_call :
    BudgetCounters → IngestBudgets → BudgetCounters × Option BudgetExhausted
record_call c budgets =
    let n = (c.external_calls + 1) % 2 ^ 32 in
    (
      record c { external_calls = n },
      if ltb budgets.max_external_calls n then some external_calls else none,
    )

-- The part of `record_document` behind the test on the documents of the source.
unfoldable pub record_bytes :
    BudgetCounters → IngestBudgets → ℕ → BudgetCounters × Option BudgetExhausted
record_bytes c budgets bytes =
    let n = (c.download_bytes + bytes) % 2 ^ 64 in
    (
      record c { download_bytes = n },
      if ltb budgets.max_download_bytes n then some download_bytes else none,
    )

unfoldable pub record_document :
    BudgetCounters → Text → IngestBudgets → ℕ → BudgetCounters × Option BudgetExhausted
unfolding add_one count_of record_bytes
record_document c source budgets bytes =
    let docs = add_one source c.documents_per_source in
    let counted = record c { documents_per_source = docs } in
    if ltb budgets.max_documents_per_source (count_of source docs)
    then (counted, some (documents_per_source source))
    else record_bytes counted budgets bytes
