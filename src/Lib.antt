-- ===== src/Lib.antt =====
-- Talaria: the quality gate between extraction and canonical events, and the crawl queue that feeds it.
--
-- The program is a pipeline. Sources are fetched as documents, extractors propose event candidates,
-- and a candidate becomes a canonical event on the timeline or the map only if the quality gates accept
-- it. This library models the logic of that path; the database, HTTP and LLM layers are not modelled.
--
-- Which file models which part (paths from the repository's root):
--   Base             numbers, lists, signed integers with the wrap-around of `i32`, and the stable
--                    `sort_by` of the standard library as insertion sort
--   Text             `&str` and `String` as lists of Unicode scalar values, with the methods of `str`
--                    and `char` that the program calls; what rests on the Unicode tables is the record
--                    `Unicode`, a parameter of every function that uses it
--   Time             crates/talaria-quality/src/model.rs (`TypedTime`) and its projections to JSON and
--                    to `start_time` in crates/talaria-quality/src/time_typed.rs; the calendar of the
--                    crate chrono is the record `Calendar`
--   Gates            crates/talaria-quality/src/gates.rs over the candidate of model.rs
--   Queue            crawl_queue.rs of crates/talaria-api/src/person_ingest, and the loop over the follow
--                    pages of mod.rs beside it
--   Identity         crates/talaria-quality/src/fingerprint.rs and occurrence.rs beside it, up to the
--                    texts that are hashed; SHA-256 in hexadecimal is a parameter
--   Grounding        crates/talaria-quality/src/grounding.rs and
--                    crates/talaria-api/src/person_ingest/grounding.rs; an `f64` is its bit pattern
--   Attribution      crates/talaria-quality/src/attribution.rs and
--                    crates/talaria-api/src/person_ingest/gating.rs, which joins it with the gates
--   ContextYear      crates/talaria-quality/src/context_year.rs
--   Assertion        crates/talaria-quality/src/assertion.rs: competing places
--   Claims           crates/talaria-judge/src/claims.rs; a confidence is the bit pattern of its `f64`
--   Interactions     crates/talaria-store/src/interaction_types.rs
--   Intuition        canon.rs, plan.rs and fact.rs of crates/talaria-intuition/src; the transliteration
--                    of the crate deunicode is the record `Transliteration`, and the SHA-256 of the
--                    text of a JSON value is a parameter
--   Budgets          crates/talaria-sources/src/budgets.rs, and density.rs beside it
--   PlaceQuality     crates/talaria-sources/src/place_quality.rs
--   Matching         crates/talaria-sources/src/matching.rs, up to the score of a document
--   Explorer         crates/talaria-quality/src/explorer.rs
--   Agora            crates/talaria-api/src/agora_stance.rs
--   Lifecycle        resume.rs, overlay.rs, places.rs, projections.rs and the names of kinds and
--                    statuses in model.rs, all in crates/talaria-quality/src
--   Judge            rules.rs, place.rs and dump_mine.rs of crates/talaria-judge/src: sentences of a dump
--                    are mined for candidates (Mine) and the candidates are judged (Verdict); scores
--                    are hundredths, coordinates ten-thousandths of a degree, and the upper case of a
--                    character is a parameter
--   Wiki             wikitext.rs (Plain), sections.rs, sentences.rs, infobox.rs (Links, Infobox) and
--                    fragments.rs of crates/talaria-text/src; an offset that is only used to slice is
--                    the text behind it, and a slice that would panic makes the result `none`
--   Resolve          crates/talaria-quality/src/resolve.rs; the resolver of the trait is a function
--   Dates            the parsers of dates of crates/talaria-quality/src/time_typed.rs (lines 5 to 178)
--                    and crates/talaria-judge/src/time.rs; the date that chrono makes of 15 June of a
--                    year is a parameter
--
-- The ingest of a person runs these in a row: an extracted item is grounded in its document (Grounding),
-- becomes a candidate (`event_candidate_from_item` of Attribution), is classified and judged
-- (`classify_item`, `judge_item`), and its occurrence and fingerprint are hashed (Identity); an undated
-- item may be given a year from its context (ContextYear). The events shown by the explorer (Explorer)
-- use the gates' list of types with a locus. Conflicts and soft claims become debates (Intuition), whose
-- atoms and triples go to a knowledge graph. The loop over the crawl queue is `follow_pages` of
-- Queue/Follow, where the test of titles and the ingest of a page are parameters.
--
-- Whole texts are compared with the literals of the source by `is` and `is_one_of`. Loops over
-- collections are recursions on lists. Fuel is used in `show_nat`, where n + 1 is more than the digits of
-- n, in `follow_pages`, where a round for each item that remains is enough, in `chunks_from` of
-- Judge/Mine/Chunks, the loop over the headings of a text, and in the loops of Wiki that look for the next
-- comment, template, link, heading or reference, where a round for each character is enough. The loops of
-- Wiki/Plain that take off tags (`strip_block_from`, `strip_self_closing_from`) are given a round for each
-- character as well, since every round puts one space for a tag of two characters or more; there is no
-- theorem on their number of rounds.
--
-- Not modelled: the database (crates/talaria-store, but for the vocabulary of interactions), the HTTP
-- routes, the LLM client, the connectors to remote catalogues, the scores of documents (Matching),
-- and the readers of dumps. The hash set of the crawl queue is the list of its keys.
pub mod Base
pub mod Text
pub mod Time
pub mod Gates
pub mod Queue
pub mod Identity
pub mod Grounding
pub mod Attribution
pub mod ContextYear
pub mod Resolve
pub mod Dates
pub mod Assertion
pub mod Interactions
pub mod Claims
pub mod Intuition
pub mod Budgets
pub mod Explorer
pub mod Judge
pub mod Agora
pub mod Lifecycle
pub mod PlaceQuality
pub mod Matching
pub mod Wiki
