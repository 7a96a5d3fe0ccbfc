-- ===== src/Queue/Invariant.antt =====
-- The invariant of the queue, and that every operation keeps it.
use mathlib.Core.Logic.Or
use mathlib.Core.HLevel.{⊥_prop}
use mathlib.Core.Bool.{or-true}
use mathlib.Core.List.{
  Mem, Nodup, Perm, map-append, mem-cons, not-mem-nil, Nodup-append, Nodup-cons, Nodup-nil,
}
use mathlib.Core.List.Perm
use talaria_v.Base.{
  ◌≤◌, ◌≡◌, true, false, List, [], ◌∷◌, ◌++◌, arith, length, All, map, take, drop, All-append,
  All-mono, All-take, All-drop, length-append, take-append-drop, ap, subst, inl, inr, Bool-cases,
  ltb,
}
use talaria_v.Base.Sort.{sort_by, sort_by-perm, sort_by-All, length-sort_by}
use talaria_v.Text.{Text}
use talaria_v.Text.Equality.{text_eq_refl}
use talaria_v.Text.Unicode.{Unicode}
use talaria_v.Queue.{
  CrawlItem, PriorityCrawlQueue, has_key, insert_key, goes_before, new, push, mark_seen, pop,
  advance, sort_by_priority,
}

-- The key under which an item is seen.
abbrev pub key_of : Unicode → CrawlItem → Text
key_of u item = u.to_lowercase item.title

-- Not more was handed out than was added; each item that was added is seen; and no two items have
-- the same title up to case.
pub record IsValid (u : Unicode) (q : PriorityCrawlQueue) : Type 0 where
  pub within : q.next_index ≤ length q.items
  pub items_seen : All (λ item. has_key q.seen (key_of u item) ≡ true) q.items
  pub distinct : Nodup (map (key_of u) q.items)

unseen_not_mem :
    (u : Unicode) (seen : List Text) (key : Text) (items : List CrawlItem)
    → All (λ item. has_key seen (key_of u item) ≡ true) items
    → has_key seen key ≡ false
    → ¬ Mem key (map (key_of u) items)
unseen_not_mem u seen key [] h fresh m = not-mem-nil m
unseen_not_mem u seen key (item ∷ items) h fresh m =
    Or.elim ⊥_prop (mem-cons.0 m) (λ same. cc (h.0, fresh, ap (has_key seen) same))
      (unseen_not_mem u seen key items h.1 fresh)

Nodup-snoc : {A : Type 0} (xs : List A) (x : A) → Nodup xs → ¬ Mem x xs → Nodup (xs ++ x ∷ [])
Nodup-snoc xs x h new_item = Nodup-append.1 (
  h,
  Nodup-cons.1 (not-mem-nil, Nodup-nil),
  λ a m n. Or.elim ⊥_prop (mem-cons.0 n) (λ same. new_item (rw same at m)) not-mem-nil,
)

has_key-cons :
    (k : Text) (seen : List Text) (key : Text)
    → has_key seen key ≡ true
    → has_key (k ∷ seen) key ≡ true
unfolding has_key
has_key-cons k seen key h = rw (h, or-true)

has_key-insert_key :
    (k : Text) (seen : List Text) (key : Text)
    → has_key seen key ≡ true
    → has_key (insert_key seen k) key ≡ true
unfolding insert_key
has_key-insert_key k seen key h = elim (Bool-cases (has_key seen k)) [
  | inl old ↦ rw old h
  | inr fresh ↦ rw fresh (has_key-cons k seen key h)
]

has_key_self : (key : Text) (seen : List Text) → has_key (key ∷ seen) key ≡ true
unfolding has_key
has_key_self key seen = rw (text_eq_refl key)

-- Sorting permutes the items, and what was handed out stays in front.
pub sort_by_priority-perm : (q : PriorityCrawlQueue) → Perm (sort_by_priority q).items q.items
unfolding sort_by_priority
sort_by_priority-perm q =
    subst (λ xs. Perm (sort_by_priority q).items xs) (take-append-drop q.next_index q.items)
      (Perm.append_left (take q.next_index q.items)
        (sort_by-perm goes_before (drop q.next_index q.items)))

length-sort_by_priority :
    (q : PriorityCrawlQueue) → length (sort_by_priority q).items ≡ length q.items
unfolding sort_by_priority
length-sort_by_priority q = omega (
  arith,
  length-append (take q.next_index q.items) (sort_by goes_before (drop q.next_index q.items)),
  length-sort_by goes_before (drop q.next_index q.items),
  length-append (take q.next_index q.items) (drop q.next_index q.items),
  ap length (take-append-drop q.next_index q.items),
)

module _ (u : Unicode) where
  pub new-IsValid : IsValid u new
  unfolding new
  new-IsValid = record { within = omega arith; items_seen = tt; distinct = Nodup-nil }

  module _ {q : PriorityCrawlQueue} (v : IsValid u q) where
    pub push-IsValid : (item : CrawlItem) → IsValid u (push u q item).0
    push-IsValid item = elim (Bool-cases (has_key q.seen (key_of u item))) [
      | inl old ↦ unfold push in rw old v
      | inr fresh ↦
          unfold push in
          rw fresh (record {
            within = omega (arith, v.within, length-append q.items (item ∷ []));
            items_seen =
                All-append _ q.items (item ∷ [])
                  (All-mono q.items (λ i h. has_key-cons (key_of u item) q.seen (key_of u i) h)
                    v.items_seen)
                  (has_key_self (key_of u item) q.seen, tt);
            distinct = rw map-append (
                Nodup-snoc (map (key_of u) q.items) (key_of u item) v.distinct
                  (unseen_not_mem u q.seen (key_of u item) q.items v.items_seen fresh));
          })
    ]

    pub mark_seen-IsValid : (title : Text) → IsValid u (mark_seen u q title)
    unfolding mark_seen
    mark_seen-IsValid title = record {
      within = v.within;
      items_seen =
          All-mono q.items (λ i h. has_key-insert_key (u.to_lowercase title) q.seen (key_of u i) h)
            v.items_seen;
      distinct = v.distinct;
    }

    pub pop-IsValid : IsValid u (pop q).0
    unfolding pop
    pop-IsValid = elim (Bool-cases (ltb q.next_index (length q.items))) [
      | inl more ↦
          rw more
            (record { within = ground arith; items_seen = v.items_seen; distinct = v.distinct })
      | inr done ↦ rw done v
    ]

    pub advance-IsValid : IsValid u (advance q)
    unfolding advance
    advance-IsValid = elim (Bool-cases (ltb q.next_index (length q.items))) [
      | inl more ↦
          rw more
            (record { within = ground arith; items_seen = v.items_seen; distinct = v.distinct })
      | inr done ↦ rw done v
    ]

    pub sort_by_priority-IsValid : IsValid u (sort_by_priority q)
    sort_by_priority-IsValid = record {
      within = rw length-sort_by_priority (unfold sort_by_priority in v.within);
      items_seen =
          unfold sort_by_priority in
          All-append _ (take q.next_index q.items) _ (All-take _ q.next_index q.items v.items_seen)
            (sort_by-All goes_before _ (drop q.next_index q.items)
              (All-drop _ q.next_index q.items v.items_seen));
      distinct = Perm.nodup (Perm.map (key_of u) (Perm.symm (sort_by_priority-perm q))) v.distinct;
    }
