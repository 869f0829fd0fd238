-- ===== src/Text/Parts.antt =====
-- Texts cut at a separator.
use titus_isolate.Prelude.{
  ℕ, ◌≡◌, ◌≢◌, refl, ◌∙◌, ap, List, [], ◌∷◌, ◌++◌, All, nat_eq, beq_ne, beq_refl,
}
use titus_isolate.Text.{Text, split, join}

abbrev pub Lacks : ℕ → Text → Type 0
Lacks sep = All (λ c. c ≢ sep)

pub split-Lacks : (sep : ℕ) (s : Text) → Lacks sep s → split sep s ≡ s ∷ []
split-Lacks sep [] h = refl
split-Lacks sep (c ∷ s) h = rw (beq_ne c sep h.0, split-Lacks sep s h.1)

pub split-append : (sep : ℕ) (s t : Text) → Lacks sep s → split sep (s ++ sep ∷ t) ≡ s ∷ split sep t
split-append sep [] t h = rw (beq_refl sep)
split-append sep (c ∷ s) t h = rw (beq_ne c sep h.0, split-append sep s t h.1)

-- A join of at least one part, none of which holds the separator, is split into these parts.
pub split-join :
    (sep : ℕ) (p : Text) (ps : List Text)
    → All (Lacks sep) (p ∷ ps)
    → split sep (join sep (p ∷ ps)) ≡ p ∷ ps
split-join sep p [] h = split-Lacks sep p h.0
split-join sep p (q ∷ ps) h =
    split-append sep p (join sep (q ∷ ps)) h.0 ∙ ap (◌∷◌ p) (split-join sep q ps h.1)
