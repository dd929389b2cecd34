-- ===== src/Base/Maps.antt =====
-- Go's maps and sync.Map as association lists over keys with a Boolean equality.
use Prim.Native.Nat.{◌+◌, ◌≤◌}
use mathlib.Core.Path.{◌≡◌, refl, subst, ◌∙◌}
use mathlib.Core.Logic.{inl, inr}
use mathlib.Core.Bool.{Bool}
use mathlib.Core.Option.{Option, none, some}
use mathlib.Core.List.{List, [], ◌∷◌}
use native.Mathlib.Omega.{arith}
use yunzes_node.Base.Tests.{Eq, ◌==◌, ==_refl, if◌then◌else◌, Bool-cases}
use yunzes_node.Base.Lists.{length, All, filter}

abbrev pub Map {ℓ κ} : Type ℓ → Type κ → Type (ℓ ⊔ κ)
Map K V = List (K × V)

module _ {ℓ κ} {K : Type ℓ} {V : Type κ} ⦃e : Eq K⦄ where
  unfoldable pub lookup : K → Map K V → Option V
  lookup key [] = none
  lookup key ((other, found) ∷ rest) = if other == key then some found else lookup key rest

  unfoldable pub erase : K → Map K V → Map K V
  erase key [] = []
  erase key ((other, found) ∷ rest) =
      if other == key then erase key rest else (other, found) ∷ erase key rest

  -- A write to a key that is there keeps its place.
  unfoldable pub insert : K → V → Map K V → Map K V
  insert key new [] = (key, new) ∷ []
  insert key new ((other, old) ∷ rest) =
      if other == key then (key, new) ∷ rest else (other, old) ∷ insert key new rest

  pub lookup-nil : (k : K) → ◌≡◌ {A = Option V} (lookup k []) none
  unfolding lookup
  lookup-nil k = refl

  pub lookup-erase :
      (k j : K) (m : Map K V) → lookup j (erase k m) ≡ (if k == j then none else lookup j m)
  unfolding lookup erase
  lookup-erase k j [] = ground arith
  lookup-erase k j ((i, w) ∷ m) =
      ground (arith, e.beq_iff k j, e.beq_iff i k, e.beq_iff i j, lookup-erase k j m)

  pub lookup-insert :
      (written asked : K) (new : V) (m : Map K V)
      → lookup asked (insert written new m)
        ≡ (if written == asked then some new else lookup asked m)
  unfolding insert lookup
  lookup-insert written asked new [] = refl
  lookup-insert written asked new ((i, old) ∷ m) = ground (
    arith,
    lookup-insert written asked new m,
    e.beq_iff i asked,
    e.beq_iff i written,
    e.beq_iff written asked,
  )

  pub lookup-insert_self : (k : K) (v : V) (m : Map K V) → lookup k (insert k v m) ≡ some v
  lookup-insert_self k v m = simp (lookup-insert, ==_refl)

  pub lookup-erase_self : (k : K) (m : Map K V) → lookup k (erase k m) ≡ none
  lookup-erase_self k m = simp (lookup-erase, ==_refl)

  erase-absent : (k : K) (m : Map K V) → lookup k m ≡ none → erase k m ≡ m
  unfolding lookup erase
  erase-absent k [] h = refl
  erase-absent k ((j, w) ∷ m) h = ground (arith, erase-absent k m)

  -- A key that is new leaves nothing behind.
  pub erase-insert : (k : K) (v : V) (m : Map K V) → lookup k m ≡ none → erase k (insert k v m) ≡ m
  unfolding lookup insert erase
  erase-insert k v [] h = ground (arith, ==_refl k)
  erase-insert k v ((j, w) ∷ m) h = ground (arith, erase-insert k v m)

  pub length-insert_new :
      (k : K) (v : V) (m : Map K V) → lookup k m ≡ none → length (insert k v m) ≡ length m + 1
  unfolding lookup insert
  length-insert_new k v [] h = omega arith
  length-insert_new k v ((j, w) ∷ m) h = ground (arith, length-insert_new k v m)

  pub length-insert_old :
      (k : K) (v w : V) (m : Map K V) → lookup k m ≡ some w → length (insert k v m) ≡ length m
  unfolding lookup insert
  length-insert_old k v w [] h = ground arith
  length-insert_old k v w ((j, u) ∷ m) h = ground (arith, length-insert_old k v w m)

  pub length-erase-le : (k : K) (m : Map K V) → length (erase k m) ≤ length m
  unfolding erase
  length-erase-le k [] = omega arith
  length-erase-le k ((j, w) ∷ m) = ground (arith, length-erase-le k m)

-- Every value of the map satisfies the predicate.
module _ {ℓ κ μ} {K : Type ℓ} {V : Type κ} where
  abbrev pub Values : (V → Type μ) → Map K V → Type μ
  Values P = All (λ e. P e.1)

module _ {ℓ κ μ} {K : Type ℓ} {V : Type κ} ⦃e : Eq K⦄ (P : V → Type μ) where
  pub Values-lookup : (k : K) (v : V) (m : Map K V) → Values P m → lookup k m ≡ some v → P v
  unfolding lookup
  Values-lookup k v [] h q = absurd (ground arith)
  Values-lookup k v ((j, w) ∷ m) h q = elim (Bool-cases (j == k)) [
    | inl hit ↦ let same : w ≡ v = ground (arith, hit, q) in subst P same h.0
    | inr miss ↦ Values-lookup k v m h.1 (rw miss at q)
  ]

  pub Values-insert : (k : K) (v : V) (m : Map K V) → Values P m → P v → Values P (insert k v m)
  unfolding insert
  Values-insert k v [] h p = (p, tt)
  Values-insert k v ((j, w) ∷ m) h p = elim (Bool-cases (j == k)) [
    | inl hit ↦ rw hit (p, h.1)
    | inr miss ↦ rw miss (h.0, Values-insert k v m h.1 p)
  ]

  pub Values-erase : (k : K) (m : Map K V) → Values P m → Values P (erase k m)
  unfolding erase
  Values-erase k [] h = tt
  Values-erase k ((j, w) ∷ m) h = elim (Bool-cases (j == k)) [
    | inl hit ↦ rw hit (Values-erase k m h.1)
    | inr miss ↦ rw miss (h.0, Values-erase k m h.1)
  ]

abbrev pub or_else {κ} : {V : Type κ} → Option V → Option V → Option V
or_else none o = o
or_else (some v) o = some v

module _ {ℓ κ} {K : Type ℓ} {V : Type κ} ⦃e : Eq K⦄ where
  -- No key has two entries: what Go's maps give.
  abbrev pub Distinct : Map K V → Type κ
  Distinct [] = Unit
  Distinct ((k, v) ∷ m) = (lookup k m ≡ none) × Distinct m

  -- `for k, v := range m { s[k] = v }`
  unfoldable pub fill : Map K V → Map K V → Map K V
  fill s [] = s
  fill s ((k, v) ∷ m) = fill (insert k v s) m

  pub lookup-fill :
      (j : K) (s m : Map K V) → Distinct m → lookup j (fill s m) ≡ or_else (lookup j m) (lookup j s)
  unfolding fill lookup
  lookup-fill j s [] d = refl
  lookup-fill j s ((k, v) ∷ m) d =
      lookup-fill j (insert k v s) m d.1 ∙ ground (arith, d.0, lookup-insert k j v s, e.beq_iff k j)

  -- Dropping entries by their values.
  pub lookup-filter :
      (p : V → Bool) (j : K) (m : Map K V)
      → Distinct m
      → lookup j (filter (λ x. p x.1) m)
        ≡ elim (lookup j m) [ none ↦ none | some v ↦ if p v then some v else none ]
  unfolding lookup
  lookup-filter p j [] d = refl
  lookup-filter p j ((k, v) ∷ m) d = ground (arith, d.0, lookup-filter p j m d.1, e.beq_iff k j)
