-- ===== src/Queue/Follow.antt =====
-- The loop over the follow pages: crates/talaria-api/src/person_ingest/mod.rs (lines 361 to 418).
-- The test of titles and the ingest of a page are parameters; progress reports are left out.
use talaria_v.Base.{
  ℕ, zero, suc, ◌+◌, ◌-◌, ◌%◌, ◌^◌, ◌≡◌, refl, sym, ◌∙◌, ap, ◌≤◌, ◌<◌, ◌⊎◌, inl, inr, Bool, true,
  false, not, List, [], ◌∷◌, ◌++◌, Option, none, some, leb, ltb, if◌then◌else◌, length, is_some,
  first, tail, keep, arith, Bool-cases,
}
use mathlib.Core.List.{append_assoc, append-nil}
use talaria_v.Text.{Text}
use talaria_v.Text.Unicode.{Unicode}
use talaria_v.Queue.{CrawlItem, PriorityCrawlQueue, pop, remaining, iter_remaining}
use talaria_v.Queue.Invariant.{IsValid, pop-IsValid}
use talaria_v.Queue.Push.{pop-iter_remaining, remaining-iter_remaining}

-- The counters of the loop, and the items whose pages were tried, in order.
pub record Following : Type 0 where
  pub followed : ℕ
  pub wiki_pages : ℕ
  pub facts_inserted : ℕ
  pub facts_reinforced : ℕ
  pub visited : List CrawlItem

-- `follow_cap.saturating_sub(wiki_pages)`
abbrev pub extra_pages : ℕ → ℕ → ℕ
extra_pages follow_cap wiki_pages = follow_cap - wiki_pages

-- The arms of `match ingest_follow_page(…)`; `none` is an error. The counters are `u32` and wrap.
unfoldable pub tally_page : CrawlItem → Option (ℕ × ℕ) → Following → Following
tally_page item none x = record x { visited = x.visited ++ item ∷ [] }
tally_page item (some (ins, re)) x = record {
  followed = (x.followed + 1) % 2 ^ 32;
  wiki_pages = if ltb 0 (ins + re) then (x.wiki_pages + 1) % 2 ^ 32 else x.wiki_pages;
  facts_inserted = (x.facts_inserted + ins) % 2 ^ 32;
  facts_reinforced = (x.facts_reinforced + re) % 2 ^ 32;
  visited = x.visited ++ item ∷ [];
}

-- `pins` is `should_pin_follow_title`; the outcome of a page may depend on the pages before it.
module _ (pins : Text → Bool) (ingest : List CrawlItem → CrawlItem → Option (ℕ × ℕ))
    (extra : ℕ) where
  unfoldable pub at_page : CrawlItem → Following → Following
  unfolding tally_page
  at_page item x = if not (pins item.title) then x else tally_page item (ingest x.visited item) x

  -- On fuel: each round pops an item. The queue that is left is part of the result.
  unfoldable pub follow_pages : ℕ → PriorityCrawlQueue → Following → Following × PriorityCrawlQueue
  unfolding at_page
  follow_pages zero q x = (x, q)
  follow_pages (suc fuel) q x = elim (pop q).1 [
    | none ↦ (x, (pop q).0)
    | some item ↦ elim (leb extra x.followed) [
      | true ↦ (x, (pop q).0)
      | false ↦ follow_pages fuel (pop q).0 (at_page item x)
    ]
  ]

  -- How many of the pages that are tried answer.
  unfoldable pub answered : List CrawlItem → List CrawlItem → ℕ
  answered visited [] = 0
  answered visited (item ∷ taken) =
      let skipped = answered visited taken in
      let tried = answered (visited ++ item ∷ []) taken in
      if pins item.title then (if is_some (ingest visited item) then 1 else 0) + tried else skipped

  -- How the loop ends: with nothing left, or with the budget used up and one more item popped.
  abbrev pub EndsWith : List CrawlItem → List CrawlItem → ℕ → Type 0
  EndsWith lost left followed =
      ((lost ≡ []) × (left ≡ [])) ⊎ ((length lost ≡ 1) × (followed ≡ extra))

  -- What the loop makes of the items that remain.
  pub record Followed (items : List CrawlItem) (x : Following) (r : Following × PriorityCrawlQueue)
      : Type 0 where
    pub taken : List CrawlItem
    pub lost : List CrawlItem
    pub splits : items ≡ taken ++ (lost ++ iter_remaining r.1)
    pub visits : r.0.visited ≡ x.visited ++ keep (λ item. pins item.title) taken
    pub counts : r.0.followed ≡ x.followed + answered x.visited taken
    pub within : r.0.followed ≤ extra
    pub ends : EndsWith lost (iter_remaining r.1) r.0.followed

  tally_page-followed :
      (item : CrawlItem) (o : Option (ℕ × ℕ)) (x : Following)
      → ((tally_page item o x).followed ≤ x.followed + 1)
        × ((tally_page item o x).visited ≡ x.visited ++ item ∷ [])
  unfolding tally_page
  tally_page-followed item none x = (omega arith, refl)
  tally_page-followed item (some (ins, re)) x = (ground arith, refl)

  at_page-visited :
      (item : CrawlItem) (taken : List CrawlItem) (x : Following)
      → (at_page item x).visited ++ keep (λ i. pins i.title) taken
        ≡ x.visited ++ keep (λ i. pins i.title) (item ∷ taken)
  unfolding at_page
  at_page-visited item taken x = elim (Bool-cases (pins item.title)) [
    | inl e ↦
        rw (at_page, e, (tally_page-followed item (ingest x.visited item) x).1)
          (append_assoc x.visited (item ∷ []) (keep (λ i. pins i.title) taken))
    | inr e ↦ rw (at_page, e) refl
  ]

  tally_page-counts :
      (item : CrawlItem) (o : Option (ℕ × ℕ)) (x : Following)
      → x.followed + 1 < 2 ^ 32
      → (tally_page item o x).followed ≡ x.followed + (if is_some o then 1 else 0)
  unfolding tally_page
  tally_page-counts item none x h = omega arith
  tally_page-counts item (some (ins, re)) x h = ground (arith, h)

  answered_none : (x : Following) → x.followed ≡ x.followed + answered x.visited []
  unfolding answered
  answered_none x = omega arith

  at_page-counts :
      (item : CrawlItem) (taken : List CrawlItem) (x : Following)
      → x.followed + 1 < 2 ^ 32
      → (at_page item x).followed + answered (at_page item x).visited taken
        ≡ x.followed + answered x.visited (item ∷ taken)
  unfolding at_page answered
  at_page-counts item taken x h =
      let one = tally_page-counts item (ingest x.visited item) x h in
      elim (Bool-cases (pins item.title)) [
        | inl e ↦
            rw (at_page, answered, e, (tally_page-followed item (ingest x.visited item) x).1)
              (omega (arith, one))
        | inr e ↦ rw (at_page, answered, e) refl
      ]

  at_page-followed : (item : CrawlItem) (x : Following) → (at_page item x).followed ≤ x.followed + 1
  unfolding at_page
  at_page-followed item x = elim (Bool-cases (pins item.title)) [
    | inl e ↦ rw (at_page, e) ((tally_page-followed item (ingest x.visited item) x).0)
    | inr e ↦ rw (at_page, e) (omega arith)
  ]

  stops :
      (q : PriorityCrawlQueue) (x : Following)
      → x.followed ≤ extra
      → iter_remaining q ≡ []
      → Followed [] x (x, q)
  stops q x l e = record {
    taken = [];
    lost = [];
    splits = sym e;
    visits = sym (append-nil x.visited);
    counts = answered_none x;
    within = l;
    ends = inl (refl, e);
  }

  breaks :
      (q : PriorityCrawlQueue) (x : Following) (i : CrawlItem) (items : List CrawlItem)
      → x.followed ≤ extra
      → extra ≤ x.followed
      → iter_remaining q ≡ items
      → Followed (i ∷ items) x (x, q)
  breaks q x i items l m e = record {
    taken = [];
    lost = i ∷ [];
    splits = ap (◌∷◌ i) (sym e);
    visits = sym (append-nil x.visited);
    counts = answered_none x;
    within = l;
    ends = inr (refl, omega arith);
  }

  passes :
      (i : CrawlItem) (items : List CrawlItem) (x : Following) (r : Following × PriorityCrawlQueue)
      → x.followed + 1 < 2 ^ 32
      → Followed items (at_page i x) r
      → Followed (i ∷ items) x r
  passes i items x r room f = record {
    taken = i ∷ f.taken;
    lost = f.lost;
    splits = ap (◌∷◌ i) f.splits;
    visits = f.visits ∙ at_page-visited i f.taken x;
    counts = f.counts ∙ at_page-counts i f.taken x room;
    within = f.within;
    ends = f.ends;
  }

  module _ (u : Unicode) (small : extra < 2 ^ 32) where
    follow-Followed :
        (fuel : ℕ) (items : List CrawlItem) (q : PriorityCrawlQueue) (x : Following)
        → IsValid u q
        → iter_remaining q ≡ items
        → length items ≤ fuel
        → x.followed ≤ extra
        → Followed items x (follow_pages fuel q x)
    unfolding follow_pages
    follow-Followed zero [] q x v h k l = stops q x l h
    follow-Followed zero (i ∷ items) q x v h k l = absurd (omega arith)
    follow-Followed (suc fuel) [] q x v h k l =
        let (answer, left, peeked) = pop-iter_remaining u v in
        rw (follow_pages, answer ∙ ap first h) (stops (pop q).0 x l (left ∙ ap tail h))
    follow-Followed (suc fuel) (i ∷ items) q x v h k l =
        let (answer, left, peeked) = pop-iter_remaining u v in
        elim (Bool-cases (leb extra x.followed)) [
          | inl full ↦
              rw (follow_pages, answer ∙ ap first h, full)
                (breaks (pop q).0 x i items l (ground (arith, full)) (left ∙ ap tail h))
          | inr room ↦
              let one = at_page-followed i x in
              rw (follow_pages, answer ∙ ap first h, room)
                (passes i items x _ (ground (arith, room, small)) (
                  follow-Followed fuel items (pop q).0 (at_page i x) (pop-IsValid u v)
                    (left ∙ ap tail h) (omega arith) (ground (arith, one, room))))
        ]

-- From a valid queue, with a round for each item that remains, the loop over the follow pages ends by
-- its own tests, where the budget is a `u32` and the count of pages begins within it. The loop takes
-- items in order and tries exactly those of them whose titles pass the test, whatever the outcomes of
-- the pages; it counts those that answer, never more than the budget; and it ends with nothing left,
-- or with the budget used up, and then the one item popped last is neither tried nor left in the queue.
pub follow_pages-Followed :
    (u : Unicode) (pins : Text → Bool) (ingest : List CrawlItem → CrawlItem → Option (ℕ × ℕ))
    (extra fuel : ℕ) (q : PriorityCrawlQueue) (x : Following)
    → IsValid u q
    → remaining q ≤ fuel
    → x.followed ≤ extra
    → extra < 2 ^ 32
    → Followed pins ingest extra (iter_remaining q) x (follow_pages pins ingest extra fuel q x)
follow_pages-Followed u pins ingest extra fuel q x v k l small =
    follow-Followed pins ingest extra u small fuel (iter_remaining q) q x v refl
      (omega (arith, remaining-iter_remaining q)) l
