-- ===== src/Output/Quay/Severity.antt =====
-- `getMostSevereEnrichment` of output/quay.go: which enrichment it returns.
use cvetool.Prelude.{
  Bool-cases, All, In, All_In, ◌≡◌, refl, ap, ◌∙◌, ◌⊎◌, inl, inr, Bool, true, false, List, [], ◌∷◌,
  ◌++◌, arith,
}
use cvetool.Output.Quay.{returns, Enrichment, severer, most_severe_from, get_most_severe_enrichment}

module _ {Score : Type 0} (gt : Score → Score → Bool) where
  -- `>` on scores: a strict order whose negation is transitive, as on the float64 values without NaN.
  pub record IsStrict : Type 0 where
    pub asym : (a b : Score) → gt a b ≡ true → gt b a ≡ false
    pub trans : (a b c : Score) → gt a b ≡ false → gt b c ≡ false → gt a c ≡ false

module _ {Score : Type 0} (gt : Score → Score → Bool) (strict : IsStrict gt) where
  -- No entry scores more than `best`.
  abbrev pub NoneAbove : List (Enrichment Score) → Enrichment Score → Type 0
  NoneAbove es best = All (λ e. gt e.base_score best.base_score ≡ false) es

  not_above_self : (e : Enrichment Score) → gt e.base_score e.base_score ≡ false
  not_above_self e = ground (arith, strict.asym e.base_score e.base_score)

  -- The entry that a loop over all entries would return.
  severest : Enrichment Score → List (Enrichment Score) → Enrichment Score
  severest best [] = best
  severest best (e ∷ es) = severest (severer gt best e) es

  most_severe_from-severest :
      (best y : Enrichment Score) (es : List (Enrichment Score))
      → most_severe_from gt best (es ++ (y ∷ [])) ≡ severest best es
  unfolding most_severe_from severest
  most_severe_from-severest best y [] = refl
  most_severe_from-severest best y (e ∷ []) = refl
  most_severe_from-severest best y (e ∷ f ∷ es) =
      most_severe_from-severest (severer gt best e) y (f ∷ es)

  severer-bound :
      (best e : Enrichment Score)
      → (gt best.base_score (severer gt best e).base_score ≡ false)
        × (gt e.base_score (severer gt best e).base_score ≡ false)
  unfolding severer
  severer-bound best e =
      ground
        (arith, strict.asym e.base_score best.base_score, not_above_self e, not_above_self best)

  severest-bound :
      (best x : Enrichment Score) (es : List (Enrichment Score))
      → gt x.base_score best.base_score ≡ false
      → (gt x.base_score (severest best es).base_score ≡ false) × NoneAbove es (severest best es)
  unfolding severest
  severest-bound best x [] h = (h, tt)
  severest-bound best x (e ∷ es) h =
      let b = severer gt best e in
      let (above, own) = severer-bound best e in
      (
        (severest-bound b x es (strict.trans x.base_score best.base_score b.base_score h above)).0,
        severest-bound b e es own,
      )

  severer-cases : (best e : Enrichment Score) → (best ≡ severer gt best e) ⊎ (e ≡ severer gt best e)
  unfolding severer
  severer-cases best e = elim (Bool-cases (gt e.base_score best.base_score)) [
    | inl t ↦ rw t (inr refl)
    | inr f ↦ rw f (inl refl)
  ]

  In-severest :
      (best : Enrichment Score) (es : List (Enrichment Score)) → In (severest best es) (best ∷ es)
  unfolding severest
  In-severest best [] = inl refl
  In-severest best (e ∷ es) = elim (In-severest (severer gt best e) es) [
    | inl p ↦ elim (severer-cases best e) [ inl q ↦ inl (q ∙ p) | inr q ↦ inr (inl (q ∙ p)) ]
    | inr i ↦ inr (inr i)
  ]

  -- Of two entries or more, the result is one whose score no entry but perhaps the last exceeds, and it is
  -- the same whatever the last entry is.
  pub get_most_severe_enrichment-bound :
      (e : Enrichment Score) (es : List (Enrichment Score))
      → (r : Enrichment Score) × ((y : Enrichment Score)
          → get_most_severe_enrichment gt (e ∷ (es ++ (y ∷ []))) ≡ returns r)
        × In r (e ∷ es)
        × NoneAbove (e ∷ es) r
  unfolding get_most_severe_enrichment
  get_most_severe_enrichment-bound e es = (
    severest e es,
    λ y. ap returns (most_severe_from-severest e y es),
    In-severest e es,
    severest-bound e e es (not_above_self e),
  )

  -- If the last of two entries or more scores above all others, it is not the result: the result scores
  -- below it.
  pub get_most_severe_enrichment_misses_last :
      (e y : Enrichment Score) (es : List (Enrichment Score))
      → All (λ x. gt y.base_score x.base_score ≡ true) (e ∷ es)
      → (r : Enrichment Score) × (get_most_severe_enrichment gt (e ∷ (es ++ (y ∷ []))) ≡ returns r)
        × (gt y.base_score r.base_score ≡ true)
  get_most_severe_enrichment_misses_last e y es h =
      let (r, returned, i, _) = get_most_severe_enrichment-bound e es in
      (r, returned y, All_In (λ x. gt y.base_score x.base_score ≡ true) (e ∷ es) r h i)
