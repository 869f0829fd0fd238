-- ===== src/Config/Changes.antt =====
-- What the watcher notices.
use titus_isolate.Prelude.{
  ℕ, ◌≡◌, refl, sym, ap, ◌∙◌, String, Bool, not, List, [], ◌∷◌, Option, none, some, ◌==◌, string_eq,
  beq_refl, All, All-map, map, keep_if, Bool-cases, inl, inr, Option-cases,
}
use titus_isolate.Config.{PropertyProvider}
use titus_isolate.Config.Manager.{Cache, get_str, get_cached_str, remember, or_none, same_text}
use titus_isolate.Config.Watcher.{new_watcher, detect_changes, generic_property_change_exit}

-- A call of `get_cached_str` in between: the answers of its moment, a key, a default.
pub record Call : Type 0 where
  pub provider : PropertyProvider
  pub key : String
  pub default : Option (Option String)

abbrev pub run_calls : List Call → Cache → Cache
run_calls [] cache = cache
run_calls (c ∷ calls) cache = run_calls calls (get_cached_str c.provider c.key c.default cache).1

-- The cache has, for a property asked for without a default, this value.
abbrev Kept : String → Option String → Cache → Type 0
Kept p value cache = cache p none ≡ some value

remember-Kept :
    (p : String) (value : Option String) (key : String) (default : Option (Option String))
    (v : Option String) (cache : Cache)
    → cache key default ≡ none
    → Kept p value cache
    → Kept p value (remember key default v cache)
remember-Kept p value key (some d) v cache absent kept = elim (Bool-cases (p == key)) [
  | inl same ↦ rw same kept
  | inr other ↦ rw other kept
]
remember-Kept p value key none v cache absent kept = elim (Bool-cases (p == key)) [
  | inl same ↦
      let e : cache p none ≡ none =
        ap (λ k. cache k none) ((string_eq.beq_iff p key).0 same) ∙ absent in
      absurd (let clash : some value ≡ none = sym kept ∙ e in cc)
  | inr other ↦ rw other kept
]

cached_present :
    (provider : PropertyProvider) (key : String) (default : Option (Option String)) (cache : Cache)
    (value : Option String)
    → cache key default ≡ some value
    → get_cached_str provider key default cache ≡ (value, cache)
unfolding get_cached_str
cached_present provider key default cache value e = rw (get_cached_str, e) refl

cached_absent :
    (provider : PropertyProvider) (key : String) (default : Option (Option String)) (cache : Cache)
    → cache key default ≡ none
    → let value = get_str provider key (or_none default) in
      get_cached_str provider key default cache ≡ (value, remember key default value cache)
unfolding get_cached_str
cached_absent provider key default cache e =
    ap
      (λ (o : Option (Option String)). elim o as (λ o. Option String × Cache) [
        | some value ↦ (value, cache)
        | none ↦
            let value = get_str provider key (or_none default) in
            (value, remember key default value cache)
      ])
      e

get_cached_str-Kept :
    (p : String) (value : Option String) (c : Call) (cache : Cache)
    → Kept p value cache
    → Kept p value (get_cached_str c.provider c.key c.default cache).1
get_cached_str-Kept p value c cache kept = elim (Option-cases (cache c.key c.default)) [
  | inl absent ↦
      rw (cached_absent c.provider c.key c.default cache absent)
        (remember-Kept p value c.key c.default _ cache absent kept)
  | inr (v, present) ↦ rw (cached_present c.provider c.key c.default cache v present) kept
]

run_calls-Kept :
    (p : String) (value : Option String) (calls : List Call) (cache : Cache)
    → Kept p value cache
    → Kept p value (run_calls calls cache)
run_calls-Kept p value [] cache kept = kept
run_calls-Kept p value (c ∷ calls) cache kept =
    run_calls-Kept p value calls _ (get_cached_str-Kept p value c cache kept)

-- What a property is taken to be: its cached value, if there is one, else the answer of the moment.
abbrev pub original : PropertyProvider → Cache → String → Option String
original provider cache p = elim (cache p none) [
  | some value ↦ value
  | none ↦ get_str provider p none
]

original_absent :
    (provider : PropertyProvider) (cache : Cache) (p : String)
    → cache p none ≡ none
    → original provider cache p ≡ get_str provider p none
original_absent provider cache p e = rw (original, e) refl

original_present :
    (provider : PropertyProvider) (cache : Cache) (p : String) (v : Option String)
    → cache p none ≡ some v
    → original provider cache p ≡ v
original_present provider cache p v e = rw (original, e) refl

get_cached_str-original :
    (provider : PropertyProvider) (p : String) (cache : Cache)
    → Kept p (original provider cache p) (get_cached_str provider p none cache).1
get_cached_str-original provider p cache = elim (Option-cases (cache p none)) [
  | inl absent ↦
      rw
        (
          cached_absent provider p none cache absent,
          original_absent provider cache p absent,
          beq_refl p,
        )
        refl
  | inr (v, present) ↦
      rw
        (
          cached_present provider p none cache v present,
          original_present provider cache p v present,
        )
        present
]

original-same :
    (provider : PropertyProvider) (p q : String) (cache : Cache)
    → original provider (get_cached_str provider p none cache).1 q ≡ original provider cache q
original-same provider p q cache = elim (Option-cases (cache p none)) [
  | inr (v, present) ↦
      ap (λ (r : Option String × Cache). original provider r.1 q)
        (cached_present provider p none cache v present)
  | inl absent ↦
      ap (λ (r : Option String × Cache). original provider r.1 q)
        (cached_absent provider p none cache absent)
      ∙ elim (Bool-cases (q == p)) [
        | inl same ↦
            let e = (string_eq.beq_iff q p).0 same in
            let at_q : cache q none ≡ none = ap (λ k. cache k none) e ∙ absent in
            original_present provider (remember p none (get_str provider p none) cache) q
              (get_str provider p none) (rw same refl)
            ∙ (ap (λ k. get_str provider k none) (sym e)
                ∙ sym (original_absent provider cache q at_q))
        | inr other ↦ rw (original, other) refl
      ]
]

new_watcher-keeps :
    (provider : PropertyProvider) (properties : List String) (q : String) (value : Option String)
    (cache : Cache)
    → Kept q value cache
    → Kept q value (new_watcher provider properties cache)
unfolding new_watcher
new_watcher-keeps provider [] q value cache kept = kept
new_watcher-keeps provider (p ∷ properties) q value cache kept =
    new_watcher-keeps provider properties q value _ (
      get_cached_str-Kept q value (record { provider = provider; key = p; default = none }) cache
        kept)

new_watcher-Kept :
    (provider : PropertyProvider) (properties : List String) (cache : Cache)
    → All
        (λ p. Kept p (original provider cache p) (new_watcher provider properties cache))
        properties
unfolding new_watcher
new_watcher-Kept provider [] cache = tt
new_watcher-Kept provider (p ∷ properties) cache =
    let next = (get_cached_str provider p none cache).1 in
    let last = new_watcher provider properties next in
    (
      new_watcher-keeps provider properties p _ next (get_cached_str-original provider p cache),
      All-map (λ q. Kept q (original provider next q) last)
          (λ q. Kept q (original provider cache q) last)
          (λ q h. h ∙ ap some (original-same provider p q cache)) properties
          (new_watcher-Kept provider properties next),
    )

-- Whether a property is another one now than it was taken to be.
abbrev pub has_changed : (String → Option String) → PropertyProvider → String → Bool
has_changed was now p = not (same_text (was p) (get_str now p none))

detect_changes-Kept :
    (now : PropertyProvider) (was : String → Option String) (properties : List String)
    (cache : Cache)
    → All (λ p. Kept p (was p) cache) properties
    → detect_changes now properties cache
      ≡ (map (λ p. generic_property_change_exit) (keep_if (has_changed was now) properties), cache)
unfolding detect_changes
detect_changes-Kept now was [] cache h = refl
detect_changes-Kept now was (p ∷ properties) cache h =
    rw
      (
        cached_present now p none cache (was p) h.0,
        detect_changes-Kept now was properties cache h.1,
      )
      (elim (Bool-cases (has_changed was now p)) [
        | inl changed ↦ rw changed refl
        | inr same ↦ rw same refl
      ])

-- The watcher exits, with the code of a property change, once for each of its properties that is now
-- another one than it was when the watcher was made (or when its value was cached before that), and not
-- otherwise, whatever is asked of the config manager in between.
pub detect_changes_lem :
    (before now : PropertyProvider) (properties : List String) (calls : List Call) (cache : Cache)
    → (detect_changes now properties (run_calls calls (new_watcher before properties cache))).0
      ≡ map
          (λ p. generic_property_change_exit)
          (keep_if (has_changed (original before cache) now) properties)
detect_changes_lem before now properties calls cache =
    let started = new_watcher before properties cache in
    ap (λ (r : List ℕ × Cache). r.0)
      (detect_changes-Kept now (original before cache) properties (run_calls calls started) (
        All-map (λ p. Kept p (original before cache p) started)
          (λ p. Kept p (original before cache p) (run_calls calls started))
          (λ p h. run_calls-Kept p (original before cache p) calls started h) properties
          (new_watcher-Kept before properties cache)))
