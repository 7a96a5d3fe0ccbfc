-- ===== src/Text/Separator.antt =====
-- Fields behind separators can be told apart where no field holds the separator.
use talaria_v.Base.{ℕ, ◌≡◌, refl, ◌≢◌, [], ◌∷◌, ◌++◌, All}
use talaria_v.Text.{Text}

abbrev pub Lacks : ℕ → Text → Type 0
Lacks sep = All (λ c. c ≢ sep)

-- The first separator ends the first field.
pub append_sep-injective :
    (sep : ℕ) (s t : Text) {rest others : Text}
    → Lacks sep s
    → Lacks sep t
    → s ++ sep ∷ rest ≡ t ++ sep ∷ others
    → (s ≡ t) × (rest ≡ others)
append_sep-injective sep [] [] h k e = (refl, cc)
append_sep-injective sep [] (b ∷ t) h k e = absurd (k.0 (cc))
append_sep-injective sep (a ∷ s) [] h k e = absurd (h.0 (cc))
append_sep-injective sep (a ∷ s) (b ∷ t) {rest} {others} h k e =
    let tails = append_sep-injective sep s t {rest = rest} {others = others} h.1 k.1 (cc) in
    (cc (tails.0), tails.1)
