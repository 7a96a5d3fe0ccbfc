-- ===== src/Queue/History.antt =====
-- Whole runs of the queue, in any order of operations: no title is handed out twice.
use mathlib.Core.List.{Nodup, map-append, append_assoc, append-nil}
use mathlib.Core.List.Nodup
use native.Mathlib.Numerals.{add-one}
use talaria_v.Base.{
  ℕ, ◌≡◌, sym, ◌∙◌, ap, subst, List, [], ◌∷◌, ◌++◌, Option, none, some, arith, map, take, drop,
  length, take-append-drop, get_elem?-none, take-append_le, take-take, length-take, drop-eq-cons,
  Bool-cases, ltb, inl, inr,
}
use talaria_v.Text.{Text}
use talaria_v.Text.Unicode.{Unicode}
use talaria_v.Queue.{
  CrawlItem, PriorityCrawlQueue, has_key, new, push, mark_seen, sort_by_priority, pop, peek,
  advance,
}
use talaria_v.Queue.Invariant.{
  IsValid, key_of, new-IsValid, push-IsValid, mark_seen-IsValid, sort_by_priority-IsValid,
  pop-IsValid, advance-IsValid,
}

-- An operation that changes the queue.
pub data Op : Type 0 where
  pushing : CrawlItem → Op
  marking : Text → Op
  sorting popping advancing : Op

abbrev pub as_list : Option CrawlItem → List CrawlItem
as_list none = []
as_list (some item) = item ∷ []

module _ (u : Unicode) where
  -- The queue after an operation, and the items that it hands out; `advance` hands out the item that
  -- `peek` showed.
  pub exec : PriorityCrawlQueue → Op → PriorityCrawlQueue × List CrawlItem
  exec q (pushing item) = ((push u q item).0, [])
  exec q (marking title) = (mark_seen u q title, [])
  exec q sorting = (sort_by_priority q, [])
  exec q popping = ((pop q).0, as_list (pop q).1)
  exec q advancing = (advance q, as_list (peek q))

  pub run : PriorityCrawlQueue → List Op → PriorityCrawlQueue × List CrawlItem
  run q [] = (q, [])
  run q (op ∷ ops) =
      let (q', handed) = exec q op in let (end, later) = run q' ops in (end, handed ++ later)

  exec-IsValid : {q : PriorityCrawlQueue} (op : Op) → IsValid u q → IsValid u (exec q op).0
  unfolding exec
  exec-IsValid (pushing item) v = push-IsValid u v item
  exec-IsValid (marking title) v = mark_seen-IsValid u v title
  exec-IsValid sorting v = sort_by_priority-IsValid u v
  exec-IsValid popping v = pop-IsValid u v
  exec-IsValid advancing v = advance-IsValid u v

  -- What has been handed out: the items before the index.
  handed_out : PriorityCrawlQueue → List CrawlItem
  handed_out q = take q.next_index q.items

  exec-handed_out :
      {q : PriorityCrawlQueue} (op : Op)
      → IsValid u q
      → handed_out (exec q op).0 ≡ handed_out q ++ (exec q op).1
  unfolding exec handed_out
  exec-handed_out {q} (pushing item) v = elim (Bool-cases (has_key q.seen (key_of u item))) [
    | inl old ↦ unfold push in rw old (sym (append-nil _))
    | inr fresh ↦
        unfold push in
        rw fresh (take-append_le q.next_index q.items (item ∷ []) v.within ∙ sym (append-nil _))
  ]
  exec-handed_out (marking title) v = unfold mark_seen in sym (append-nil _)
  exec-handed_out {q} sorting v =
      unfold sort_by_priority in
      take-append_le q.next_index (take q.next_index q.items) _
        (omega (arith, length-take q.next_index q.items, v.within))
      ∙ take-take q.next_index q.items
      ∙ sym (append-nil _)
  exec-handed_out {q} popping v = elim (Bool-cases (ltb q.next_index (length q.items))) [
    | inl more ↦
        let (x, at, split, taken) = drop-eq-cons q.next_index q.items (ground arith) in
        unfold pop in rw (more, at) (ap (λ k. take k q.items) (add-one q.next_index) ∙ taken)
    | inr done ↦ unfold pop in rw done (sym (append-nil _))
  ]
  exec-handed_out {q} advancing v = elim (Bool-cases (ltb q.next_index (length q.items))) [
    | inl more ↦
        let (x, at, split, taken) = drop-eq-cons q.next_index q.items (ground arith) in
        unfold advance peek in
        rw (more, at) (ap (λ k. take k q.items) (add-one q.next_index) ∙ taken)
    | inr done ↦
        unfold advance peek in
        rw (done, get_elem?-none q.next_index q.items (ground arith)) (sym (append-nil _))
  ]

  run-handed_out :
      (ops : List Op) {q : PriorityCrawlQueue}
      → IsValid u q
      → IsValid u (run q ops).0 × (handed_out (run q ops).0 ≡ handed_out q ++ (run q ops).1)
  unfolding run
  run-handed_out [] v = (v, sym (append-nil _))
  run-handed_out (op ∷ ops) {q} v =
      let (valid, later) = run-handed_out ops (exec-IsValid op v) in
      (
        valid,
        later
            ∙ ap (λ xs. xs ++ (run (exec q op).0 ops).1) (exec-handed_out op v)
            ∙ append_assoc (handed_out q) _ _,
      )

  run-new-handed_out :
      (ops : List Op)
      → IsValid u (run new ops).0
        × (take (run new ops).0.next_index (run new ops).0.items ≡ (run new ops).1)
  unfolding handed_out new
  run-new-handed_out ops = run-handed_out ops (new-IsValid u)

  Nodup-take :
      (n : ℕ) (xs : List CrawlItem) → Nodup (map (key_of u) xs) → Nodup (map (key_of u) (take n xs))
  Nodup-take n xs h = Nodup.of_append_left (map (key_of u) (drop n xs)) (
      subst Nodup (map-append (key_of u) (take n xs) (drop n xs))
        (subst (λ ys. Nodup (map (key_of u) ys)) (sym (take-append-drop n xs)) h))

  -- Whatever the operations on a new queue, and whatever their order, the titles of the items that it
  -- hands out are pairwise distinct, also up to case.
  pub run-Nodup : (ops : List Op) → Nodup (map (key_of u) (run new ops).1)
  run-Nodup ops =
      let (valid, handed) = run-new-handed_out ops in
      subst (λ xs. Nodup (map (key_of u) xs)) handed (Nodup-take _ _ valid.distinct)
