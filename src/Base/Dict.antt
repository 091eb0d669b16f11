-- ===== src/Base/Dict.antt =====
-- A Go map over keys with a decidable equality: the entries in no particular order (a new key goes
-- to the front), each key at most once.
use Prim.Native.Nat.{◌+◌}
use mathlib.Core.Path.{◌≡◌, refl}
use mathlib.Core.List.{List, [], ◌∷◌, lookup}
use mathlib.Core.Logic.{ite, inl, inr}
use mathlib.Core.Option.{none, some}
use native.Mathlib.Omega.{arith}
use testigo.Base.Tests.{if◌then◌else◌, is_some, Option-cases}
use testigo.Base.Lists.{length}

module _ {ℓ} {K V : Type ℓ} (dec : Discrete K) where
  -- Replaces the value of a key that is there.
  pub replace : K → V → List (K × V) → List (K × V)
  replace k v [] = []
  replace k v ((j, w) ∷ m) = ite (dec k j) ((j, v) ∷ m) ((j, w) ∷ replace k v m)

  -- `m[k] = v`
  unfoldable pub store : K → V → List (K × V) → List (K × V)
  unfolding replace lookup
  store k v m = if is_some (lookup dec k m) then replace k v m else (k, v) ∷ m

  -- `delete(m, k)`
  unfoldable pub discard : K → List (K × V) → List (K × V)
  discard k [] = []
  discard k ((j, w) ∷ m) = ite (dec k j) m ((j, w) ∷ discard k m)

  -- Each key stands once.
  abbrev pub Distinct : List (K × V) → Type ℓ
  Distinct [] = Unit
  Distinct ((k, v) ∷ m) = (lookup dec k m ≡ none) × Distinct m

  lookup-replace :
      (k j : K) (v w : V) (m : List (K × V))
      → lookup dec k m ≡ some w
      → lookup dec j (replace k v m) ≡ ite (dec j k) (some v) (lookup dec j m)
  unfolding lookup replace
  lookup-replace k j v w [] h = cc
  lookup-replace k j v w ((i, u) ∷ m) h = ground (arith, lookup-replace k j v w m)

  pub lookup-store :
      (k j : K) (v : V) (m : List (K × V))
      → lookup dec j (store k v m) ≡ ite (dec j k) (some v) (lookup dec j m)
  unfolding store
  lookup-store k j v m = elim (Option-cases (lookup dec k m)) [
    | inl new ↦ rw new refl
    | inr (w, old) ↦ rw old (lookup-replace k j v w m old)
  ]

  -- An entry is gone for every reader, and no other key is touched.
  pub lookup-discard :
      (k j : K) (m : List (K × V))
      → Distinct m
      → lookup dec j (discard k m) ≡ ite (dec j k) none (lookup dec j m)
  unfolding lookup discard
  lookup-discard k j [] d = ground arith
  lookup-discard k j ((i, u) ∷ m) d = ground (arith, lookup-discard k j m)

  length-replace : (k : K) (v : V) (m : List (K × V)) → length (replace k v m) ≡ length m
  unfolding replace
  length-replace k v [] = refl
  length-replace k v ((i, u) ∷ m) = ground (arith, length-replace k v m)

  pub length-store :
      (k : K) (v : V) (m : List (K × V))
      → length (store k v m) ≡ (if is_some (lookup dec k m) then length m else length m + 1)
  unfolding store
  length-store k v m = elim (Option-cases (lookup dec k m)) [
    | inl new ↦ rw new (omega arith)
    | inr (w, old) ↦ rw old (length-replace k v m)
  ]

  pub length-discard :
      (k : K) (m : List (K × V)) (v : V)
      → lookup dec k m ≡ some v
      → length (discard k m) + 1 ≡ length m
  unfolding lookup discard
  length-discard k [] v h = cc
  length-discard k ((i, u) ∷ m) v h = ground (arith, length-discard k m v)

  Distinct-replace :
      (k : K) (v w : V) (m : List (K × V))
      → lookup dec k m ≡ some w
      → Distinct m
      → Distinct (replace k v m)
  unfolding replace lookup
  Distinct-replace k v w [] h d = tt
  Distinct-replace k v w ((i, u) ∷ m) h d =
      ground (arith, Distinct-replace k v w m, lookup-replace k i v w m)

  pub Distinct-store : (k : K) (v : V) (m : List (K × V)) → Distinct m → Distinct (store k v m)
  unfolding store
  Distinct-store k v m d = elim (Option-cases (lookup dec k m)) [
    | inl new ↦ rw new (new, d)
    | inr (w, old) ↦ rw old (Distinct-replace k v w m old d)
  ]

  pub Distinct-discard : (k : K) (m : List (K × V)) → Distinct m → Distinct (discard k m)
  unfolding discard lookup
  Distinct-discard k [] d = tt
  Distinct-discard k ((i, u) ∷ m) d = ground (arith, Distinct-discard k m, lookup-discard k i m)
