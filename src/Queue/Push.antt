-- ===== src/Queue/Push.antt =====
-- The queue as a plain list: what remains is a list to which an unseen item is appended and from
-- which the first item is taken.
use native.Mathlib.Numerals.{add-one}
use talaria_v.Base.{
  ◌≡◌, refl, true, [], ◌∷◌, ◌++◌, arith, length, inl, inr, Bool-cases, ltb, if◌then◌else◌, first,
  tail, take, drop, drop-append_le, drop-append_eq, drop-eq-cons, get_elem?-none, drop-nil,
  length-drop, length-take, ap, not, sym, ◌∙◌,
}
use talaria_v.Base.Sort.{sort_by}
use talaria_v.Text.Equality.{text_eq_refl}
use talaria_v.Text.Unicode.{Unicode}
use talaria_v.Queue.{
  CrawlItem, PriorityCrawlQueue, has_key, goes_before, push, pop, peek, is_seen, remaining,
  iter_remaining, sort_by_priority,
}
use talaria_v.Queue.Invariant.{IsValid, key_of}

-- The number that remains is the length of what remains.
pub remaining-iter_remaining : (q : PriorityCrawlQueue) → remaining q ≡ length (iter_remaining q)
unfolding remaining iter_remaining
remaining-iter_remaining q = omega (arith, length-drop q.next_index q.items)

module _ (u : Unicode) {q : PriorityCrawlQueue} (v : IsValid u q) where
  -- A push answers whether the title was unseen up to case, appends the item exactly then, and
  -- leaves the title seen.
  pub push-iter_remaining :
      (item : CrawlItem)
      → ((push u q item).1 ≡ not (is_seen u q item.title))
        × (iter_remaining (push u q item).0
            ≡ (if is_seen u q item.title then iter_remaining q else iter_remaining q ++ item ∷ []))
        × (is_seen u (push u q item).0 item.title ≡ true)
  unfolding push iter_remaining is_seen has_key
  push-iter_remaining item = elim (Bool-cases (has_key q.seen (key_of u item))) [
    | inl old ↦ rw old (refl, refl, old)
    | inr fresh ↦ rw fresh (
      refl,
      drop-append_le q.next_index q.items (item ∷ []) v.within,
      rw (text_eq_refl (key_of u item)) refl,
    )
  ]

  -- A pop answers the first item that remains and leaves the others; peeking answers the same item.
  pub pop-iter_remaining :
      ((pop q).1 ≡ first (iter_remaining q))
      × (iter_remaining (pop q).0 ≡ tail (iter_remaining q))
      × (peek q ≡ (pop q).1)
  unfolding pop peek iter_remaining
  pop-iter_remaining = elim (Bool-cases (ltb q.next_index (length q.items))) [
    | inl more ↦
        let (x, at, split, taken) = drop-eq-cons q.next_index q.items (ground arith) in
        rw more (
          at ∙ sym (ap first split),
          ap (λ k. drop k q.items) (add-one q.next_index) ∙ sym (ap tail split),
          refl,
        )
    | inr done ↦
        let empty = drop-nil q.next_index q.items (ground arith) in
        let none_left = get_elem?-none q.next_index q.items (ground arith) in
        rw done (rw (empty, none_left) (refl, refl, refl))
  ]

  -- Sorting sorts what remains and nothing else.
  pub sort_by_priority-iter_remaining :
      iter_remaining (sort_by_priority q) ≡ sort_by goes_before (iter_remaining q)
  unfolding sort_by_priority iter_remaining
  sort_by_priority-iter_remaining =
      drop-append_eq q.next_index (take q.next_index q.items) _
        (omega (arith, length-take q.next_index q.items, v.within))
