-- ===== src/Monitor/ResourceUsage/RoundTrip.antt =====
-- Usages as texts, and back.
use titus_isolate.Prelude.{
  ℕ, ◌-◌, ◌≡◌, refl, sym, ap, ap₂, ◌∙◌, ◌⊎◌, inl, inr, String, List, [], ◌∷◌, ◌++◌, map, length,
  length-map, All, Dict, subst, arith,
}
use titus_isolate.Monitor.ResourceUsage.{
  Usage, drop, repeat, pad_values, map_values, pad_usage, serialize, last_length, last_lengths,
  deserialize,
}
use titus_isolate.Monitor.ResourceUsage.Padded.{AllLength, pad_values_lem}

module _ {Value : Type 0} (nan : Value) where
  abbrev Uniform : ℕ → Usage nan → Type 0
  Uniform n = All (λ (e : String × Dict String (List Value)). AllLength nan n e.1)

  pad_values-same : (n : ℕ) (vs : List Value) → length vs ≡ n → pad_values nan n vs ≡ vs
  pad_values-same n vs h =
      let none_missing : n - length vs ≡ 0 = omega arith in
      let none_over : length vs - n ≡ 0 = omega arith in
      (pad_values_lem nan n vs).0
      ∙ ap₂ (λ k j. repeat nan k ++ drop nan j vs) none_missing none_over

  usages-same :
      (n : ℕ) (us : Dict String (List Value))
      → AllLength nan n us
      → map_values nan (pad_values nan n) us ≡ us
  usages-same n [] h = refl
  usages-same n ((w, vs) ∷ us) h =
      ap₂ (λ x xs. (w, x) ∷ xs) (pad_values-same n vs h.0) (usages-same n us h.1)

  pad_usage-same : (n : ℕ) (p : Usage nan) → Uniform n p → pad_usage nan p n ≡ p
  unfolding pad_usage
  pad_usage-same n [] h = refl
  pad_usage-same n ((r, us) ∷ p) h =
      ap₂ (λ x xs. (r, x) ∷ xs) (usages-same n us h.0) (pad_usage-same n p h.1)

  usages-Uniform :
      (n : ℕ) (us : Dict String (List Value))
      → AllLength nan n (map_values nan (pad_values nan n) us)
  usages-Uniform n [] = tt
  usages-Uniform n ((w, vs) ∷ us) = ((pad_values_lem nan n vs).1, usages-Uniform n us)

  pad_usage-Uniform : (n : ℕ) (p : Usage nan) → Uniform n (pad_usage nan p n)
  unfolding pad_usage
  pad_usage-Uniform n [] = tt
  pad_usage-Uniform n ((r, us) ∷ p) = (usages-Uniform n us, pad_usage-Uniform n p)

  module _ (print : Value → String) (parse : String → Value)
      (parse-print : (v : Value) → parse (print v) ≡ v) where
    abbrev texts : Dict String (List Value) → Dict String (List String)
    texts us = map_values nan (λ vs. map print vs) us

    values-back : (vs : List Value) → map parse (map print vs) ≡ vs
    values-back [] = refl
    values-back (v ∷ vs) = ap₂ ◌∷◌ (parse-print v) (values-back vs)

    usages-back :
        (us : Dict String (List Value))
        → map_values nan (λ vs. map parse vs) (map_values nan (λ vs. map print vs) us) ≡ us
    usages-back [] = refl
    usages-back ((w, vs) ∷ us) = ap₂ (λ x xs. (w, x) ∷ xs) (values-back vs) (usages-back us)

    usage-back :
        (p : Usage nan)
        → map_values nan
            (λ us. map_values nan (λ vs. map parse vs) us)
            (serialize nan print parse p)
          ≡ p
    unfolding serialize
    usage-back [] = refl
    usage-back ((r, us) ∷ p) = ap₂ (λ x xs. (r, x) ∷ xs) (usages-back us) (usage-back p)

    last_length-same :
        (n k : ℕ) (us : Dict String (List Value))
        → AllLength nan n us
        → k ≡ n
        → last_length nan print parse k (map_values nan (λ vs. map print vs) us) ≡ n
    unfolding last_length
    last_length-same n k [] h e = e
    last_length-same n k ((w, vs) ∷ us) h e =
        last_length-same n (length (map print vs)) us h.1 (length-map vs print ∙ h.0)

    last_lengths-same :
        (n k : ℕ) (p : Usage nan)
        → Uniform n p
        → k ≡ n
        → last_lengths nan print parse k (serialize nan print parse p) ≡ n
    unfolding last_lengths serialize
    last_lengths-same n k [] h e = e
    last_lengths-same n k ((r, us) ∷ p) h e =
        last_lengths-same n (last_length nan print parse k (texts us)) p h.1
          (last_length-same n k us h.0 e)

    -- Without any list every length fits.
    last_lengths-Uniform :
        (n k : ℕ) (p : Usage nan)
        → Uniform n p
        → (last_lengths nan print parse k (serialize nan print parse p) ≡ n)
          ⊎ ((m : ℕ) → Uniform m p)
    unfolding last_lengths serialize last_length
    last_lengths-Uniform n k [] h = inr (λ m. tt)
    last_lengths-Uniform n k ((r, []) ∷ p) h = elim (last_lengths-Uniform n k p h.1) [
      | inl e ↦ inl e
      | inr any ↦ inr (λ m. (tt, any m))
    ]
    last_lengths-Uniform n k ((r, (w, vs) ∷ us) ∷ p) h =
        inl (
          last_lengths-same n _ p h.1 (last_length-same n _ us h.0.1 (length-map vs print ∙ h.0.0)))

    -- Where the text of a float reads back as the float, a GlobalResourceUsage that is serialized and
    -- deserialized is what it was, whatever its usage length.
    pub deserialize-serialize :
        (usage : Usage nan) (usage_length : ℕ)
        → let map_of = pad_usage nan usage usage_length in
          deserialize nan print parse (serialize nan print parse map_of) ≡ map_of
    unfolding deserialize
    deserialize-serialize usage usage_length =
        let map_of = pad_usage nan usage usage_length in
        let n = last_lengths nan print parse 60 (serialize nan print parse map_of) in
        let h = pad_usage-Uniform usage_length usage in
        ap (λ p. pad_usage nan p n) (usage-back map_of)
        ∙ pad_usage-same n map_of (elim (last_lengths-Uniform usage_length 60 map_of h) [
          | inl e ↦ subst (λ m. Uniform m map_of) (sym e) h
          | inr any ↦ any n
        ])
