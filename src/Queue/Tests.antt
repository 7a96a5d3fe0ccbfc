-- ===== src/Queue/Tests.antt =====
-- Runs of the queue, and its theorems at a concrete input.
use mathlib.Core.List.{Nodup}
use talaria_v.Base.{
  ℕ, Bool, Option, ◌≤◌, ◌≡◌, refl, arith, true, not, List, [], ◌∷◌, ◌++◌, some, map, if◌then◌else◌,
  All, first, tail,
}
use talaria_v.Text.{Text, codes, to_ascii_lowercase, text_eq}
use talaria_v.Text.Sample.{ascii_tables}
use talaria_v.Queue.{
  remaining, CrawlItem, PriorityCrawlQueue, core, low, seed_list, wikidata, new, push, pop, peek,
  is_seen, iter_remaining, goes_before, sort_by_priority,
}
use talaria_v.Queue.Invariant.{IsValid, key_of, new-IsValid, push-IsValid}
use talaria_v.Queue.Follow.{Following, Followed, follow_pages, follow_pages-Followed}
use talaria_v.Queue.Push.{push-iter_remaining, pop-iter_remaining}
use talaria_v.Queue.Order.{pop-sort_by_priority}
use talaria_v.Queue.History.{Op, pushing, sorting, popping, run, run-Nodup}

abbrev paris : CrawlItem
paris = record { title = codes "Paris"; priority = low; source = seed_list; depth = 1 }

abbrev subject : CrawlItem
subject = record { title = codes "Napoleon"; priority = core; source = wikidata; depth = 0 }

abbrev two_items : PriorityCrawlQueue
two_items = (push ascii_tables (push ascii_tables new paris).0 subject).0

two_items-IsValid : IsValid ascii_tables two_items
two_items-IsValid =
    push-IsValid ascii_tables (push-IsValid ascii_tables (new-IsValid ascii_tables) paris) subject

subject_first : (pop (sort_by_priority two_items)).1 ≡ some subject
unfolding pop sort_by_priority push new codes to_ascii_lowercase text_eq
subject_first = refl

push-iter_remaining_example :
    ((push ascii_tables two_items paris).1 ≡ not (is_seen ascii_tables two_items paris.title))
    × (iter_remaining (push ascii_tables two_items paris).0 ≡ (
        if is_seen ascii_tables two_items paris.title
        then iter_remaining two_items
        else iter_remaining two_items ++ paris ∷ []))
    × (is_seen ascii_tables (push ascii_tables two_items paris).0 paris.title ≡ true)
push-iter_remaining_example = push-iter_remaining ascii_tables two_items-IsValid paris

pop-iter_remaining_example :
    ((pop two_items).1 ≡ first (iter_remaining two_items))
    × (iter_remaining (pop two_items).0 ≡ tail (iter_remaining two_items))
    × (peek two_items ≡ (pop two_items).1)
pop-iter_remaining_example = pop-iter_remaining ascii_tables two_items-IsValid

pop-sort_by_priority_example :
    All
      (λ other. goes_before subject other ≡ true)
      (iter_remaining (pop (sort_by_priority two_items)).0)
pop-sort_by_priority_example =
    pop-sort_by_priority ascii_tables two_items-IsValid subject subject_first

abbrev script : List Op
script = pushing paris ∷ popping ∷ pushing paris ∷ pushing subject ∷ sorting ∷ popping ∷ []

run-Nodup_example : Nodup (map (key_of ascii_tables) (run ascii_tables new script).1)
run-Nodup_example = run-Nodup ascii_tables script

two_left : remaining two_items ≤ 5
unfolding remaining push new text_eq to_ascii_lowercase codes
two_left = omega arith

abbrev not_yet : Following
not_yet = record {
  followed = 0;
  wiki_pages = 0;
  facts_inserted = 0;
  facts_reinforced = 0;
  visited = [];
}

abbrev every_title : Text → Bool
every_title title = true

-- Every page answers with one fact.
abbrev one_fact : List CrawlItem → CrawlItem → Option (ℕ × ℕ)
one_fact visited item = some (1, 0)

-- With a budget of one page, the second item is popped and lost.
lost_item : iter_remaining (follow_pages every_title one_fact 1 5 two_items not_yet).1 ≡ []
unfolding follow_pages iter_remaining pop push new codes to_ascii_lowercase text_eq
lost_item = refl

follow_pages-Followed_example :
    Followed every_title one_fact 1
      (iter_remaining two_items)
      not_yet
      (follow_pages every_title one_fact 1 5 two_items not_yet)
follow_pages-Followed_example =
    follow_pages-Followed ascii_tables every_title one_fact 1 5 two_items not_yet two_items-IsValid
      two_left (omega arith) (omega arith)
