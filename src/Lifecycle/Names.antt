-- ===== src/Lifecycle/Names.antt =====
-- The names of kinds and statuses, read back.
use talaria_v.Base.{◌≡◌, refl, sym, ap, ◌∙◌, true, [], ◌∷◌, ◌<◌, ltb, all, All, arith}
use talaria_v.Text.{Text, codes, trim, to_ascii_lowercase}
use talaria_v.Text.Unicode.{Unicode}
use talaria_v.Gates.Candidate.{EntityKind, person, place, object, organization, unknown}
use talaria_v.Lifecycle.{kind_as_str, kind_of, parse_kind}

ascii_All : (s : Text) → all (λ c. ltb c 128) s ≡ true → All (λ c. c < 128) s
ascii_All [] h = tt
ascii_All (c ∷ s) h = (ground (arith, h), ascii_All s (ground (arith, h)))

kind_is_ascii : (k : EntityKind) → all (λ c. ltb c 128) (kind_as_str k) ≡ true
unfolding kind_as_str codes
kind_is_ascii person = refl
kind_is_ascii place = refl
kind_is_ascii object = refl
kind_is_ascii organization = refl
kind_is_ascii unknown = refl

trim_kind : (k : EntityKind) → to_ascii_lowercase (trim (kind_as_str k)) ≡ kind_as_str k
unfolding kind_as_str codes trim to_ascii_lowercase
trim_kind person = refl
trim_kind place = refl
trim_kind object = refl
trim_kind organization = refl
trim_kind unknown = refl

trimmed_kind : (k : EntityKind) → trim (kind_as_str k) ≡ kind_as_str k
unfolding kind_as_str codes trim
trimmed_kind person = refl
trimmed_kind place = refl
trimmed_kind object = refl
trimmed_kind organization = refl
trimmed_kind unknown = refl

lower_kind : (u : Unicode) (k : EntityKind) → u.to_lowercase (trim (kind_as_str k)) ≡ kind_as_str k
lower_kind u k =
    ap (λ s. u.to_lowercase s) (trimmed_kind k)
    ∙ (u.to_lowercase_ascii (kind_as_str k) (ascii_All (kind_as_str k) (kind_is_ascii k))
        ∙ (ap to_ascii_lowercase (sym (trimmed_kind k)) ∙ trim_kind k))

-- What a kind is read as, by its folded text.
read_kind :
    (u : Unicode) (raw s : Text) → u.to_lowercase (trim raw) ≡ s → parse_kind u raw ≡ kind_of s
unfolding parse_kind
read_kind u raw s h = rw h refl

kind_of-kind_as_str : (k : EntityKind) → kind_of (kind_as_str k) ≡ k
unfolding kind_of kind_as_str codes
kind_of-kind_as_str person = refl
kind_of-kind_as_str place = refl
kind_of-kind_as_str object = refl
kind_of-kind_as_str organization = refl
kind_of-kind_as_str unknown = refl

-- Each kind is read back from its name.
pub parse_kind-kind_as_str : (u : Unicode) (k : EntityKind) → parse_kind u (kind_as_str k) ≡ k
parse_kind-kind_as_str u k =
    read_kind u (kind_as_str k) (kind_as_str k) (lower_kind u k) ∙ kind_of-kind_as_str k
