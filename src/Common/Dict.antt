-- ===== src/Common/Dict.antt =====
-- A Go map with string keys, as an association list. Reading is `lookup`, writing `insert`, and
-- the builtin `delete` is `delete`.
use mathlib.Core.Path.{◌≡◌}
use mathlib.Core.List.{List, [], ◌∷◌}
use mathlib.Core.Option.{Option, none, some}
use mathlib.Core.Logic.{◌⊎◌}
use mathlib.Core.Bool.{false}
use Prim.Native.String.{String}
use native.Mathlib.Omega.{arith}
use llm_request_balancer.Common.Tests.{if◌then◌else◌, str_eq, str_eq_iff, str_eq_refl}

abbrev pub Dict {ℓ} : Type ℓ → Type ℓ
Dict V = List (String × V)

module _ {ℓ} {V : Type ℓ} where
  unfoldable pub lookup : String → Dict V → Option V
  lookup k [] = none
  lookup k ((j, v) ∷ m) = let rest = lookup k m in if str_eq j k then some v else rest

  unfoldable pub delete : String → Dict V → Dict V
  delete k [] = []
  delete k ((j, v) ∷ m) = let rest = delete k m in if str_eq j k then rest else (j, v) ∷ rest

  unfoldable pub insert : String → V → Dict V → Dict V
  unfolding delete
  insert k v m = (k, v) ∷ delete k m

  pub lookup-delete :
      (k j : String) (m : Dict V)
      → lookup j (delete k m) ≡ (if str_eq k j then none else lookup j m)
  unfolding lookup delete
  lookup-delete k j [] = ground arith
  lookup-delete k j ((i, w) ∷ m) =
      ground (arith, str_eq_iff k j, str_eq_iff i k, str_eq_iff i j, lookup-delete k j m)

  pub lookup-insert :
      (k j : String) (v : V) (m : Dict V)
      → lookup j (insert k v m) ≡ (if str_eq k j then some v else lookup j m)
  unfolding lookup insert
  lookup-insert k j v m = ground (arith, lookup-delete k j m)

  pub lookup-insert_self : (k : String) (v : V) (m : Dict V) → lookup k (insert k v m) ≡ some v
  lookup-insert_self k v m = simp (lookup-insert, str_eq_refl)

  pub lookup-delete_self : (k : String) (m : Dict V) → lookup k (delete k m) ≡ none
  lookup-delete_self k m = simp (lookup-delete, str_eq_refl)

  -- Where a value that is read comes from.
  pub lookup-insert_cases :
      (k j : String) (v w : V) (m : Dict V)
      → lookup j (insert k v m) ≡ some w
      → ((k ≡ j) × (v ≡ w)) ⊎ ((str_eq k j ≡ false) × (lookup j m ≡ some w))
  lookup-insert_cases k j v w m h = ground (arith, lookup-insert k j v m, str_eq_iff k j)

  pub lookup-delete_inv :
      (k j : String) (w : V) (m : Dict V)
      → lookup j (delete k m) ≡ some w
      → (str_eq k j ≡ false) × (lookup j m ≡ some w)
  lookup-delete_inv k j w m h = ground (arith, lookup-delete k j m)
