-- ===== src/Queue/Order.antt =====
-- The order of the queue after a sort, and the counts of its tiers.
use talaria_v.Base.{
  ℕ, ◌+◌, ◌≡◌, refl, Bool, true, false, ◌&&◌, ◌==◌, List, [], ◌∷◌, some, arith, length, All, keep,
  subst, first, tail, sym, ◌∙◌,
}
use talaria_v.Base.Sort.{IsSorted, sort_by-IsSorted, keep-sort_by}
use talaria_v.Text.Unicode.{Unicode}
use talaria_v.Queue.{
  CrawlPriority, core, high, medium, low, as_u8, from_u8, CrawlItem, PriorityCrawlQueue,
  goes_before, pop, iter_remaining, sort_by_priority, count_tier, count_by_priority, remaining,
}
use talaria_v.Queue.Invariant.{IsValid, sort_by_priority-IsValid}
use talaria_v.Queue.Push.{
  pop-iter_remaining, sort_by_priority-iter_remaining, remaining-iter_remaining,
}

goes_before_total : (x y : CrawlItem) → goes_before x y ≡ false → goes_before y x ≡ true
unfolding goes_before
goes_before_total x y h = ground arith

goes_before_trans :
    (x y z : CrawlItem) → goes_before x y ≡ true → goes_before y z ≡ true → goes_before x z ≡ true
unfolding goes_before
goes_before_trans x y z h k = ground arith

-- The items of one tier and one depth.
abbrev pub at_level : CrawlPriority → ℕ → CrawlItem → Bool
at_level p d item = as_u8 item.priority == as_u8 p && item.depth == d

at_level-goes_before :
    (p : CrawlPriority) (d : ℕ) (x y : CrawlItem)
    → at_level p d x ≡ true
    → at_level p d y ≡ true
    → goes_before x y ≡ true
unfolding goes_before
at_level-goes_before p d x y h k = ground arith

module _ (u : Unicode) {q : PriorityCrawlQueue} (v : IsValid u q) where
  -- After a sort what remains is in order: no item goes after a later one by tier and depth.
  pub sort_by_priority-IsSorted : IsSorted goes_before (iter_remaining (sort_by_priority q))
  sort_by_priority-IsSorted =
      rw (sort_by_priority-iter_remaining u v)
        (sort_by-IsSorted goes_before goes_before_total goes_before_trans (iter_remaining q))

  -- Popping after a sort answers an item that goes before, or level with, each one that is left.
  pub pop-sort_by_priority :
      (item : CrawlItem)
      → (pop (sort_by_priority q)).1 ≡ some item
      → All (λ other. goes_before item other ≡ true) (iter_remaining (pop (sort_by_priority q)).0)
  pop-sort_by_priority item h =
      let (answer, rest, peeked) = pop-iter_remaining u (sort_by_priority-IsValid u v) in
      rw rest (
        head_first (iter_remaining (sort_by_priority q)) (sym answer ∙ h) sort_by_priority-IsSorted)
    where
      head_first :
          (items : List CrawlItem)
          → first items ≡ some item
          → IsSorted goes_before items
          → All (λ other. goes_before item other ≡ true) (tail items)
      head_first [] e s = tt
      head_first (x ∷ xs) e s =
          let same : x ≡ item = cc in
          subst (λ i. All (λ other. goes_before i other ≡ true) xs) same s.0

  -- Sorting keeps the order of discovery within each tier and depth.
  pub sort_by_priority-stable :
      (p : CrawlPriority) (d : ℕ)
      → keep (at_level p d) (iter_remaining (sort_by_priority q))
        ≡ keep (at_level p d) (iter_remaining q)
  sort_by_priority-stable p d =
      rw (sort_by_priority-iter_remaining u v)
        (keep-sort_by goes_before (at_level p d) (at_level-goes_before p d) (iter_remaining q))

abbrev pub sum : List ℕ → ℕ
sum [] = 0
sum (n ∷ ns) = n + sum ns

tiers-length :
    (items : List CrawlItem)
    → count_tier core items + count_tier high items + count_tier medium items + count_tier low items
      ≡ length items
unfolding count_tier as_u8
tiers-length [] = refl
tiers-length (item ∷ items) = ground (arith, tiers-length items)

-- The four counts add up to the number of items that remain.
pub count_by_priority-remaining : (q : PriorityCrawlQueue) → sum (count_by_priority q) ≡ remaining q
unfolding count_by_priority iter_remaining
count_by_priority-remaining q =
    omega (arith, tiers-length (iter_remaining q), remaining-iter_remaining q)

-- A tier is read back from its number.
pub from_u8-as_u8 : (p : CrawlPriority) → from_u8 (as_u8 p) ≡ p
unfolding from_u8 as_u8
from_u8-as_u8 core = refl
from_u8-as_u8 _ = refl
