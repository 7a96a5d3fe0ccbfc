-- ===== src/Queue.antt =====
-- The prioritized crawl queue: crates/talaria-api/src/person_ingest/crawl_queue.rs. The hash set of
-- seen titles is the list of its keys, the lower-cased titles; `next_index` counts the items that
-- were handed out, which stay in `items`. The loop over the queue is in Follow.
pub mod Invariant
pub mod Push
pub mod Order
pub mod Follow
pub mod History
mod Tests
use talaria_v.Base.{
  ℕ, zero, suc, ◌+◌, ◌-◌, ◌<◌, Bool, true, false, not, ◌&&◌, ◌||◌, List, [], ◌∷◌, ◌++◌, Option,
  none, some, ltb, leb, ◌==◌, if◌then◌else◌, length, get_elem?, take, drop,
}
use talaria_v.Base.Sort.{sort_by}
use talaria_v.Text.{Text, text_eq}
use talaria_v.Text.Unicode.{Unicode}

pub data CrawlPriority : Type 0 where
  core high medium low : CrawlPriority

unfoldable pub as_u8 : CrawlPriority → ℕ
as_u8 core = 0
as_u8 high = 1
as_u8 medium = 2
as_u8 low = 3

unfoldable pub from_u8 : ℕ → CrawlPriority
from_u8 v = if v == 0 then core else if v == 1 then high else if v == 2 then medium else low

pub data CrawlSource : Type 0 where
  subject_wikipedia wikidata wdqs_events : CrawlSource
  page_link : Text → CrawlSource
  seed_list : CrawlSource

-- The depth is a `u8`.
pub record CrawlItem : Type 0 where
  pub title : Text
  pub priority : CrawlPriority
  pub source : CrawlSource
  pub depth : ℕ

-- `CrawlItem::new`
unfoldable pub new_item : Text → CrawlPriority → CrawlSource → CrawlItem
new_item title priority source = record {
  title = title;
  priority = priority;
  source = source;
  depth = 0;
}

unfoldable pub with_depth : CrawlItem → ℕ → CrawlItem
with_depth item depth = record item { depth = depth }

pub record PriorityCrawlQueue : Type 0 where
  pub items : List CrawlItem
  pub seen : List Text
  pub next_index : ℕ

-- `PriorityCrawlQueue::new`
unfoldable pub new : PriorityCrawlQueue
new = record { items = []; seen = []; next_index = 0 }

-- `seen.contains(&key)`
unfoldable pub has_key : List Text → Text → Bool
has_key [] key = false
has_key (k ∷ ks) key = text_eq k key || has_key ks key

-- `seen.insert(key)`
unfoldable pub insert_key : List Text → Text → List Text
unfolding has_key
insert_key seen key = if has_key seen key then seen else key ∷ seen

-- The comparison of `sort_by_priority` is not `Greater`: by priority, then by depth.
unfoldable pub goes_before : CrawlItem → CrawlItem → Bool
unfolding as_u8
goes_before a b =
    ltb (as_u8 a.priority) (as_u8 b.priority)
    || as_u8 a.priority == as_u8 b.priority && leb a.depth b.depth

unfoldable pub sort_by_priority : PriorityCrawlQueue → PriorityCrawlQueue
unfolding sort_by goes_before
sort_by_priority q = record q {
  items = take q.next_index q.items ++ sort_by goes_before (drop q.next_index q.items);
}

unfoldable pub peek : PriorityCrawlQueue → Option CrawlItem
peek q = get_elem? q.items q.next_index

unfoldable pub advance : PriorityCrawlQueue → PriorityCrawlQueue
advance q =
    if ltb q.next_index (length q.items) then record q { next_index = q.next_index + 1 } else q

-- `self.items[self.next_index].clone()` stands under the same test as the step, so the index is
-- within bounds.
unfoldable pub pop : PriorityCrawlQueue → PriorityCrawlQueue × Option CrawlItem
pop q =
    if ltb q.next_index (length q.items)
    then (record q { next_index = q.next_index + 1 }, get_elem? q.items q.next_index)
    else (q, none)

unfoldable pub remaining : PriorityCrawlQueue → ℕ
remaining q = length q.items - q.next_index

unfoldable pub total_added : PriorityCrawlQueue → ℕ
total_added q = length q.items

unfoldable pub processed : PriorityCrawlQueue → ℕ
processed q = q.next_index

unfoldable pub is_empty_queue : PriorityCrawlQueue → Bool
unfolding remaining
is_empty_queue q = remaining q == 0

unfoldable pub current_priority : PriorityCrawlQueue → Option CrawlPriority
unfolding peek
current_priority q = elim (peek q) [ none ↦ none | some item ↦ some item.priority ]

unfoldable pub iter_remaining : PriorityCrawlQueue → List CrawlItem
iter_remaining q = drop q.next_index q.items

-- The entry of `count_by_priority` at a tier.
unfoldable pub count_tier : CrawlPriority → List CrawlItem → ℕ
unfolding as_u8
count_tier p [] = 0
count_tier p (item ∷ items) =
    let rest = count_tier p items in if as_u8 item.priority == as_u8 p then suc rest else rest

unfoldable pub count_by_priority : PriorityCrawlQueue → List ℕ
unfolding count_tier
count_by_priority q =
    let rest = drop q.next_index q.items in
    count_tier core rest ∷ count_tier high rest ∷ count_tier medium rest ∷ count_tier low rest ∷ []

module _ (u : Unicode) where
  unfoldable pub push : PriorityCrawlQueue → CrawlItem → PriorityCrawlQueue × Bool
  unfolding has_key
  push q item =
      let key = u.to_lowercase item.title in
      if has_key q.seen key
      then (q, false)
      else (record q { items = q.items ++ item ∷ []; seen = key ∷ q.seen }, true)

  unfoldable pub extend : PriorityCrawlQueue → List CrawlItem → PriorityCrawlQueue
  unfolding push
  extend q [] = q
  extend q (item ∷ items) = extend (push q item).0 items

  unfoldable pub mark_seen : PriorityCrawlQueue → Text → PriorityCrawlQueue
  unfolding insert_key
  mark_seen q title = record q { seen = insert_key q.seen (u.to_lowercase title) }

  unfoldable pub is_seen : PriorityCrawlQueue → Text → Bool
  unfolding has_key
  is_seen q title = has_key q.seen (u.to_lowercase title)
