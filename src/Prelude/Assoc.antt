-- ===== src/Prelude/Assoc.antt =====
-- A keyed container (std::unordered_map, std::map) as an association list in iteration order.
-- The libraries leave the place of a new key open; here it goes to the end.
use Prim.Native.Nat.{ℕ, ◌+◌}
use mathlib.Core.Path.{◌≡◌, refl, ◌∙◌, subst}
use mathlib.Core.Logic.{inl, inr}
use mathlib.Core.Bool.{Bool, false}
use mathlib.Core.List.{List, [], ◌∷◌}
use mathlib.Core.Option.{Option, none, some, some-injective}
use native.Mathlib.Omega.{arith}
use xrdcl_pelican.Prelude.Tests.{if◌then◌else◌, Bool-cases}
use xrdcl_pelican.Prelude.Lists.{All}
use xrdcl_pelican.Prelude.Bytes.{Bytes, beq, beq_iff, beq_refl}

module _ {ℓ} {V : Type ℓ} where
  unfoldable pub lookup : Bytes → List (Bytes × V) → Option V
  lookup k [] = none
  lookup k ((j, v) ∷ m) = if beq j k then some v else lookup k m

  -- `m[k] = v`.
  unfoldable pub insert : Bytes → V → List (Bytes × V) → List (Bytes × V)
  insert k v [] = (k, v) ∷ []
  insert k v ((j, w) ∷ m) = if beq j k then (j, v) ∷ m else (j, w) ∷ insert k v m

  -- `m.erase(k)`.
  unfoldable pub erase : Bytes → List (Bytes × V) → List (Bytes × V)
  erase k [] = []
  erase k ((j, w) ∷ m) = if beq j k then m else (j, w) ∷ erase k m

  -- No key stands twice.
  abbrev pub IsDistinct : List (Bytes × V) → Type ℓ
  IsDistinct [] = Unit
  IsDistinct ((k, v) ∷ m) = (lookup k m ≡ none) × IsDistinct m

  -- The sum of a measure of the values.
  unfoldable pub total : (V → ℕ) → List (Bytes × V) → ℕ
  total f [] = 0
  total f ((k, v) ∷ m) = f v + total f m

  -- The measure of the value under a key, 0 where there is none.
  abbrev pub measure_of : (V → ℕ) → Option V → ℕ
  measure_of f none = 0
  measure_of f (some v) = f v

  pub lookup-insert :
      (k j : Bytes) (v : V) (m : List (Bytes × V))
      → lookup j (insert k v m) ≡ (if beq k j then some v else lookup j m)
  unfolding lookup insert
  lookup-insert k j v [] = refl
  lookup-insert k j v ((i, w) ∷ m) =
      ground (arith, beq_iff k j, beq_iff i k, beq_iff i j, lookup-insert k j v m)

  pub lookup-insert_self :
      (k : Bytes) (v : V) (m : List (Bytes × V)) → lookup k (insert k v m) ≡ some v
  lookup-insert_self k v m = lookup-insert k k v m ∙ rw (beq_refl k)

  pub insert-IsDistinct :
      (k : Bytes) (v : V) (m : List (Bytes × V)) → IsDistinct m → IsDistinct (insert k v m)
  unfolding insert lookup
  insert-IsDistinct k v [] d = (refl, tt)
  insert-IsDistinct k v ((j, w) ∷ m) d =
      ground (arith, beq_iff j k, beq_iff k j, insert-IsDistinct k v m d.1, lookup-insert k j v m)

  -- Erasing leaves every other key alone.
  pub lookup-erase_ne :
      (k j : Bytes) (m : List (Bytes × V)) → beq k j ≡ false → lookup j (erase k m) ≡ lookup j m
  unfolding lookup erase
  lookup-erase_ne k j [] h = refl
  lookup-erase_ne k j ((i, w) ∷ m) h =
      ground (arith, beq_iff i k, beq_iff i j, beq_iff k j, lookup-erase_ne k j m h)

  pub lookup-erase_self :
      (k : Bytes) (m : List (Bytes × V)) → IsDistinct m → lookup k (erase k m) ≡ none
  unfolding lookup erase
  lookup-erase_self k [] d = refl
  lookup-erase_self k ((i, w) ∷ m) d = ground (arith, beq_iff i k, lookup-erase_self k m d.1)

  pub lookup-erase :
      (k j : Bytes) (m : List (Bytes × V))
      → IsDistinct m
      → lookup j (erase k m) ≡ (if beq k j then none else lookup j m)
  lookup-erase k j m d = elim (Bool-cases (beq k j)) [
    | inl e ↦ rw (e, ← (beq_iff k j).0 e) (lookup-erase_self k m d)
    | inr e ↦ rw e (lookup-erase_ne k j m e)
  ]

  lookup-erase-none :
      (k j : Bytes) (m : List (Bytes × V)) → lookup j m ≡ none → lookup j (erase k m) ≡ none
  unfolding lookup erase
  lookup-erase-none k j [] h = refl
  lookup-erase-none k j ((i, w) ∷ m) h = ground (arith, lookup-erase-none k j m)

  pub erase-IsDistinct : (k : Bytes) (m : List (Bytes × V)) → IsDistinct m → IsDistinct (erase k m)
  unfolding erase
  erase-IsDistinct k [] d = tt
  erase-IsDistinct k ((j, w) ∷ m) d =
      ground (arith, erase-IsDistinct k m d.1, lookup-erase-none k j m d.0)

  pub total-insert :
      (f : V → ℕ) (k : Bytes) (v : V) (m : List (Bytes × V))
      → total f (insert k v m) + measure_of f (lookup k m) ≡ total f m + f v
  unfolding total insert lookup
  total-insert f k v [] = omega arith
  total-insert f k v ((j, w) ∷ m) = ground (arith, total-insert f k v m)

  pub total-erase :
      (f : V → ℕ) (k : Bytes) (m : List (Bytes × V))
      → total f (erase k m) + measure_of f (lookup k m) ≡ total f m
  unfolding total erase lookup
  total-erase f k [] = omega arith
  total-erase f k ((j, w) ∷ m) = ground (arith, total-erase f k m)

module _ {ℓ} {V : Type ℓ} where
  Listed-cons :
      (k : Bytes) (v : V) (m rest : List (Bytes × V))
      → lookup k m ≡ none
      → All (λ e. lookup e.0 m ≡ some e.1) rest
      → All (λ e. lookup e.0 ((k, v) ∷ m) ≡ some e.1) rest
  unfolding lookup
  Listed-cons k v m [] h a = tt
  Listed-cons k v m ((j, w) ∷ rest) h a =
      (ground (arith, beq_iff k j, a.0), Listed-cons k v m rest h a.1)

  -- In a container with distinct keys every entry is found under its key.
  pub IsDistinct-Listed :
      (m : List (Bytes × V)) → IsDistinct m → All (λ e. lookup e.0 m ≡ some e.1) m
  unfolding lookup
  IsDistinct-Listed [] d = tt
  IsDistinct-Listed ((k, v) ∷ m) d =
      (rw (beq_refl k), Listed-cons k v m m d.0 (IsDistinct-Listed m d.1))

  -- What holds of every value holds of one that is found.
  pub All-lookup {κ} :
      (P : V → Type κ) (k : Bytes) (v : V) (m : List (Bytes × V))
      → All (λ e. P e.1) m
      → lookup k m ≡ some v
      → P v
  unfolding lookup
  All-lookup P k v [] a h = absurd (cc h)
  All-lookup P k v ((j, w) ∷ m) a h = elim (Bool-cases (beq j k)) [
    | inl e ↦ subst P (some-injective _ _ (rw (e, lookup) at h)) a.0
    | inr e ↦ All-lookup P k v m a.1 (rw (e, lookup) at h)
  ]

module _ {ℓ} {V : Type ℓ} where
  -- Erasing every entry whose value fails a test: the iterator loops of the caches.
  unfoldable pub retain : (V → Bool) → List (Bytes × V) → List (Bytes × V)
  retain keep [] = []
  retain keep ((k, v) ∷ m) = let rest = retain keep m in if keep v then (k, v) ∷ rest else rest

  lookup-retain-none :
      (keep : V → Bool) (k : Bytes) (m : List (Bytes × V))
      → lookup k m ≡ none
      → lookup k (retain keep m) ≡ none
  unfolding lookup retain
  lookup-retain-none keep k [] h = refl
  lookup-retain-none keep k ((j, w) ∷ m) h = ground (arith, lookup-retain-none keep k m)

  pub retain-IsDistinct :
      (keep : V → Bool) (m : List (Bytes × V)) → IsDistinct m → IsDistinct (retain keep m)
  unfolding retain
  retain-IsDistinct keep [] d = tt
  retain-IsDistinct keep ((j, w) ∷ m) d =
      ground (arith, retain-IsDistinct keep m d.1, lookup-retain-none keep j m d.0)

  -- The value that passes the test.
  abbrev pub kept : (V → Bool) → Option V → Option V
  kept keep none = none
  kept keep (some v) = if keep v then some v else none

  pub lookup-retain :
      (keep : V → Bool) (k : Bytes) (m : List (Bytes × V))
      → IsDistinct m
      → lookup k (retain keep m) ≡ kept keep (lookup k m)
  unfolding lookup retain
  lookup-retain keep k [] d = refl
  lookup-retain keep k ((j, w) ∷ m) d =
      ground (arith, beq_iff j k, lookup-retain keep k m d.1, lookup-retain-none keep k m)
