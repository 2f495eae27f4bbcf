-- ===== src/Common/Dicts.antt =====
-- JavaScript's `Map` and plain objects with text keys: entries in the order of insertion.
use Prim.Native.Nat.{◌≤◌, ◌<◌}
use mathlib.Core.Path.{◌≡◌, refl}
use mathlib.Core.List.{List, [], ◌∷◌, ◌++◌}
use mathlib.Core.Logic.{inl, inr}
use mathlib.Core.Bool.{false}
use mathlib.Core.Option.{Option, none, some}
use native.Mathlib.Omega.{arith}
use libsignal_node.Common.Tests.{KeyEq, ◌==◌, if◌then◌else◌, Bool-cases}
use libsignal_node.Common.Lists.{length}

abbrev pub Dict {ℓ κ} : Type ℓ → Type κ → Type (ℓ ⊔ κ)
Dict K V = List (K × V)

module _ {ℓ κ} {K : Type ℓ} {V : Type κ} ⦃e : KeyEq K⦄ where
  -- `m[k]`, `m.get(k)`
  unfoldable pub lookup : K → Dict K V → Option V
  lookup k [] = none
  lookup k ((j, v) ∷ d) = if j == k then some v else lookup k d

  -- `m[k] = v`, `m.set(k, v)`: an entry that exists keeps its place, a new one comes last.
  unfoldable pub put : K → V → Dict K V → Dict K V
  put k v [] = (k, v) ∷ []
  put k v ((j, w) ∷ d) = if j == k then (j, v) ∷ d else (j, w) ∷ put k v d

  -- `delete m[k]`, `m.delete(k)`
  unfoldable pub delete : K → Dict K V → Dict K V
  delete k [] = []
  delete k ((j, w) ∷ d) = let rest = delete k d in if j == k then rest else (j, w) ∷ rest

  pub lookup-put :
      (k j : K) (v : V) (d : Dict K V)
      → lookup j (put k v d) ≡ (if k == j then some v else lookup j d)
  unfolding lookup put
  lookup-put k j v [] = refl
  lookup-put k j v ((i, w) ∷ d) =
      ground (arith, e.same_iff i k, e.same_iff i j, e.same_iff k j, lookup-put k j v d)

  pub lookup-delete :
      (k j : K) (d : Dict K V) → lookup j (delete k d) ≡ (if k == j then none else lookup j d)
  unfolding lookup delete
  lookup-delete k j [] = ground arith
  lookup-delete k j ((i, w) ∷ d) =
      ground (arith, e.same_iff i k, e.same_iff i j, e.same_iff k j, lookup-delete k j d)

  pub lookup-put_self : (k : K) (v : V) (d : Dict K V) → lookup k (put k v d) ≡ some v
  lookup-put_self k v d = ground (arith, lookup-put k k v d, e.same_iff k k)

  pub lookup-delete_self : (k : K) (d : Dict K V) → lookup k (delete k d) ≡ none
  lookup-delete_self k d = ground (arith, lookup-delete k k d, e.same_iff k k)

  pub length-delete-le : (k : K) (d : Dict K V) → length (delete k d) ≤ length d
  unfolding delete
  length-delete-le k [] = omega arith
  length-delete-le k ((i, w) ∷ d) = ground (arith, length-delete-le k d)

  pub length-delete-lt :
      (k : K) (d : Dict K V) (v : V) → lookup k d ≡ some v → length (delete k d) < length d
  unfolding lookup delete
  length-delete-lt k [] v h = ground arith
  length-delete-lt k ((i, w) ∷ d) v h = ground (arith, length-delete-le k d, length-delete-lt k d v)

  -- A key that is not there is appended.
  pub put-absent : (k : K) (v : V) (d : Dict K V) → lookup k d ≡ none → put k v d ≡ d ++ (k, v) ∷ []
  unfolding lookup put
  put-absent k v [] h = refl
  put-absent k v ((i, w) ∷ d) h = ground (arith, put-absent k v d)

  pub lookup-append_last :
      (k j : K) (v : V) (d : Dict K V)
      → lookup k d ≡ none
      → lookup j (d ++ (k, v) ∷ []) ≡ (if k == j then some v else lookup j d)
  lookup-append_last k j v d h = rw (← put-absent k v d h) (lookup-put k j v d)

  pub delete-append : (k : K) (d d' : Dict K V) → delete k (d ++ d') ≡ delete k d ++ delete k d'
  unfolding delete
  delete-append k [] d' = refl
  delete-append k ((i, w) ∷ d) d' = ground (arith, delete-append k d d')

  -- Two keys under which different things are found are not the same.
  pub ==-lookup :
      (k j : K) (v : V) (d : Dict K V) → lookup k d ≡ none → lookup j d ≡ some v → (k == j) ≡ false
  ==-lookup k j v d h g = elim (Bool-cases (k == j)) [
    | inl same ↦ absurd (let e' : k ≡ j = (e.same_iff k j).0 same in cc)
    | inr differ ↦ differ
  ]
