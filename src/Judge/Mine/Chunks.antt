-- ===== src/Judge/Mine/Chunks.antt =====
-- Cutting a text at its wiki headings: `split_heading_chunks` and `find_wiki_heading` of
-- crates/talaria-judge/src/dump_mine.rs. A position is the text from there on; the source's test
-- `i + 4 < bytes.len()` is on the bytes from there on.
use talaria_v.Base.{
  ℕ, zero, suc, ◌-◌, ◌≤◌, ◌<◌, ◌≡◌, refl, ap, Bool, true, false, not, ◌&&◌, List, [], ◌∷◌, ◌++◌,
  Option, none, some, ltb, leb, ◌==◌, if◌then◌else◌, is_empty, length, arith, inl, inr, Bool-cases,
}
use talaria_v.Text.{Text, trim, trim_start_matches, byte_len, is_whitespace}

abbrev is_equals : ℕ → Bool
is_equals c = c == b'='

abbrev no_equals : ℕ → Bool
no_equals c = not (c == b'=')

-- The text behind a heading that begins here: two `=` or more, other characters, two `=` or more.
unfoldable pub heading_at : Text → Option Text
unfolding trim_start_matches
heading_at s =
    let title = trim_start_matches is_equals s in
    let closing = trim_start_matches no_equals title in
    let behind = trim_start_matches is_equals closing in
    if ltb (length s - length title) 2
    then none
    else if leb 2 (length closing - length behind) && ltb (length closing) (length title)
    then some behind
    else none

abbrev move_on : ℕ → Option Text → Option (Text × Text) → Option (Text × Text)
move_on c (some behind) later = some ([], behind)
move_on c none none = none
move_on c none (some (before, behind)) = some (c ∷ before, behind)

-- The texts before and behind the first heading.
unfoldable pub find_wiki_heading : Text → Option (Text × Text)
unfolding heading_at byte_len
find_wiki_heading [] = none
find_wiki_heading (c ∷ s) =
    let later = find_wiki_heading s in
    if ltb 4 (byte_len (c ∷ s)) then move_on c (heading_at (c ∷ s)) later else none

abbrev push_chunk : Text → List Text → List Text
push_chunk before chunks = if is_empty (trim before) then chunks else trim before ∷ chunks

abbrev one_chunk : Option (Text × Text) → Text → List Text × Text → List Text × Text
one_chunk none s others = ([], s)
one_chunk (some (before, behind)) s others = (push_chunk before others.0, others.1)

abbrev rest_of : Option (Text × Text) → Text
rest_of none = []
rest_of (some (before, behind)) = trim_start_matches is_whitespace behind

-- The chunks before the headings, and the text behind the last, in at most as many rounds as given.
unfoldable pub chunks_from : ℕ → Text → List Text × Text
unfolding find_wiki_heading trim trim_start_matches is_whitespace
chunks_from zero s = ([], s)
chunks_from (suc n) s =
    let others = chunks_from n (rest_of (find_wiki_heading s)) in
    one_chunk (find_wiki_heading s) s others

unfoldable pub split_heading_chunks : Text → List Text
unfolding chunks_from trim
split_heading_chunks text =
    let (chunks, tail) = chunks_from (length text) text in
    let all_chunks = if is_empty (trim tail) then chunks else chunks ++ trim tail ∷ [] in
    if is_empty all_chunks then trim text ∷ [] else all_chunks

length-trim_start : (p : ℕ → Bool) (s : Text) → length (trim_start_matches p s) ≤ length s
unfolding trim_start_matches
length-trim_start p [] = omega arith
length-trim_start p (c ∷ s) = ground (arith, length-trim_start p s)

-- What the tests of a heading say of its answer.
heading_tests :
    (w behind : Text) (x y : Bool)
    → (if x then none else if y then some w else none) ≡ some behind
    → (x ≡ false) × (y ≡ true) × (behind ≡ w)
heading_tests w behind true y h = absurd (cc h)
heading_tests w behind false true h = (refl, refl, cc h)
heading_tests w behind false false h = absurd (cc h)

-- A heading is not empty.
heading_at-length : (s behind : Text) → heading_at s ≡ some behind → length behind < length s
unfolding heading_at
heading_at-length s behind h =
    let title = trim_start_matches is_equals s in
    let closing = trim_start_matches no_equals title in
    let rest = trim_start_matches is_equals closing in
    let (opened, closed, same) = heading_tests rest behind _ _ h in
    let opening = length-trim_start is_equals s in
    let middle = length-trim_start is_equals closing in
    rw same (ground (arith, opened, closed, opening, middle))

move_on-length :
    (c : ℕ) (s before behind : Text) (here : Option Text) (later : Option (Text × Text))
    → ((b : Text) → here ≡ some b → length b < suc (length s))
    → ((a b : Text) → later ≡ some (a, b) → length b < length s)
    → move_on c here later ≡ some (before, behind)
    → length behind < suc (length s)
move_on-length c s before behind (some b) later f g h =
    let same : b ≡ behind = cc h in rw⁻¹ same (f b refl)
move_on-length c s before behind none none f g h = absurd (cc h)
move_on-length c s before behind none (some (a, b)) f g h =
    let same : b ≡ behind = cc h in omega (arith, g a behind (rw same refl))

find_wiki_heading-length :
    (s before behind : Text)
    → find_wiki_heading s ≡ some (before, behind)
    → length behind < length s
unfolding find_wiki_heading
find_wiki_heading-length [] before behind h = absurd (cc h)
find_wiki_heading-length (c ∷ s) before behind h = elim (Bool-cases (ltb 4 (byte_len (c ∷ s)))) [
  | inl long ↦
      move_on-length c s before behind (heading_at (c ∷ s)) (find_wiki_heading s)
        (λ b e. heading_at-length (c ∷ s) b e) (λ a b e. find_wiki_heading-length s a b e)
        (rw long at h)
  | inr short ↦ absurd (cc (rw short at h))
]

rest_of-length :
    (s : Text) (found : Option (Text × Text))
    → find_wiki_heading s ≡ found
    → length (rest_of found) ≤ length s - 1
rest_of-length s none h = omega arith
rest_of-length s (some (before, behind)) h =
    omega
      (arith, length-trim_start is_whitespace behind, find_wiki_heading-length s before behind h)

tail_step :
    (s : Text) (found : Option (Text × Text)) (others : List Text × Text)
    → find_wiki_heading s ≡ found
    → find_wiki_heading others.1 ≡ none
    → find_wiki_heading (one_chunk found s others).1 ≡ none
tail_step s none others h k = h
tail_step s (some b) others h k = k

chunks_from-tail : (n : ℕ) (s : Text) → length s ≤ n → find_wiki_heading (chunks_from n s).1 ≡ none
unfolding chunks_from
chunks_from-tail zero [] h = refl
chunks_from-tail zero (c ∷ s) h = absurd (omega arith)
chunks_from-tail (suc n) s h = tail_step s (find_wiki_heading s) _ refl (
    chunks_from-tail n (rest_of (find_wiki_heading s))
      (omega (arith, rest_of-length s (find_wiki_heading s) refl)))

-- Rounds beyond the length change nothing.
chunks_from-rounds :
    (n m : ℕ) (s : Text) → length s ≤ n → length s ≤ m → chunks_from n s ≡ chunks_from m s
unfolding chunks_from
chunks_from-rounds zero zero s h k = refl
chunks_from-rounds zero (suc m) [] h k = refl
chunks_from-rounds zero (suc m) (c ∷ s) h k = absurd (omega arith)
chunks_from-rounds (suc n) zero [] h k = refl
chunks_from-rounds (suc n) zero (c ∷ s) h k = absurd (omega arith)
chunks_from-rounds (suc n) (suc m) s h k =
    let shorter = rest_of-length s (find_wiki_heading s) refl in
    ap (one_chunk (find_wiki_heading s) s) (
      chunks_from-rounds n m (rest_of (find_wiki_heading s)) (omega (arith, shorter))
        (omega (arith, shorter)))

-- The loop over the headings ends by its own test: after a round for each character no heading is left
-- in the tail, and further rounds change neither the chunks nor the tail.
pub chunks_from-terminates :
    (text : Text) (n : ℕ)
    → length text ≤ n
    → (find_wiki_heading (chunks_from n text).1 ≡ none)
      × (chunks_from n text ≡ chunks_from (length text) text)
chunks_from-terminates text n h =
    (chunks_from-tail n text h, chunks_from-rounds n (length text) text h (omega arith))
