-- ===== src/Prelude/Dict.antt =====
-- Python's `dict` as an association list in insertion order, over keys with `==`.
use veil_python_stack.Prelude.{
  ◌≡◌, refl, ◌∙◌, if-true, true, Option, none, some, List, [], ◌∷◌, arith, Eq, ◌==◌, if◌then◌else◌,
}

abbrev pub Dict {ℓ κ} : Type ℓ → Type κ → Type (ℓ ⊔ κ)
Dict K V = List (K × V)

pub beq_refl {ℓ} : {K : Type ℓ} ⦃e : Eq K⦄ (k : K) → (k == k) ≡ true
beq_refl ⦃e⦄ k = (e.beq_iff k k).1 refl

module _ {ℓ κ} {K : Type ℓ} ⦃e : Eq K⦄ {V : Type κ} where
  -- d.get(k)
  unfoldable pub lookup : K → Dict K V → Option V
  lookup k [] = none
  lookup k ((j, v) ∷ d) = if j == k then some v else lookup k d

  -- d[k] = v: a key that is there keeps its place.
  unfoldable pub insert : K → V → Dict K V → Dict K V
  insert k v [] = (k, v) ∷ []
  insert k v ((j, w) ∷ d) = if j == k then (j, v) ∷ d else (j, w) ∷ insert k v d

  -- d.pop(k, None)
  unfoldable pub remove : K → Dict K V → Dict K V
  remove k [] = []
  remove k ((j, w) ∷ d) = let rest = remove k d in if j == k then rest else (j, w) ∷ rest

  -- {**a, **b}
  unfoldable pub merge : Dict K V → Dict K V → Dict K V
  unfolding insert
  merge a [] = a
  merge a ((j, w) ∷ d) = merge (insert j w a) d

  pub lookup-insert :
      (k j : K) (v : V) (d : Dict K V)
      → lookup j (insert k v d) ≡ (if k == j then some v else lookup j d)
  unfolding lookup insert
  lookup-insert k j v [] = refl
  lookup-insert k j v ((i, w) ∷ d) =
      ground (arith, e.beq_iff k j, e.beq_iff i k, e.beq_iff i j, lookup-insert k j v d)

  pub lookup-remove :
      (k j : K) (d : Dict K V) → lookup j (remove k d) ≡ (if k == j then none else lookup j d)
  unfolding lookup remove
  lookup-remove k j [] = ground arith
  lookup-remove k j ((i, w) ∷ d) =
      ground (arith, e.beq_iff k j, e.beq_iff i k, e.beq_iff i j, lookup-remove k j d)

  -- Keys that `d` does not have keep their value.
  pub lookup-merge :
      (k : K) (a d : Dict K V) → lookup k d ≡ none → lookup k (merge a d) ≡ lookup k a
  unfolding lookup merge
  lookup-merge k a [] h = refl
  lookup-merge k a ((j, w) ∷ d) h =
      ground (arith, h, lookup-insert j k w a, lookup-merge k (insert j w a) d, e.beq_iff j k)

  pub lookup-merge_first :
      (k : K) (v : V) (a d : Dict K V)
      → lookup k d ≡ none
      → lookup k (merge a ((k, v) ∷ d)) ≡ some v
  unfolding merge
  lookup-merge_first k v a d h =
      lookup-merge k (insert k v a) d h
      ∙ (lookup-insert k k v a ∙ if-true (some v) (lookup k a) (beq_refl k))

pub ruleset dict_laws = (lookup-insert, lookup-remove)
