-- ===== src/Base/Maps.antt =====
-- A Go map as an association list. The order of the entries stands for the order in which `range`
-- happens to visit them: theorems about loops over a map hold for every list, so for every order.
use Prim.Native.Nat.{ℕ, suc}
use Prim.Native.String.{String}
use mathlib.Core.Path.{◌≡◌, refl, subst}
use mathlib.Core.Logic.{ite, ◌≢◌, inl, inr}
use mathlib.Core.Bool.{false}
use mathlib.Core.List.{List, [], ◌∷◌}
use mathlib.Core.Option.{Option, none, some}
use native.Mathlib.Decide.{ℕ_discrete}
use native.Mathlib.Omega.{arith}
use text.Mathlib.Text.{◌==◌}
use text.Mathlib.TextEquality.{eq_iff}
use webpa_common.Base.Tests.{Bool-cases, Option-cases}
use webpa_common.Base.Lists.{length}

-- A type of keys: Go's `==` on it is an equality test.
pub record Key {ℓ} (K : Type ℓ) : Type ℓ where
  pub same? : Discrete K

pub ne_of_test : (s t : String) → (s == t) ≡ false → s ≢ t
ne_of_test s t e p = ground (arith, (eq_iff s t).1 p)

unfoldable pub String_discrete : Discrete String
String_discrete s t = elim (Bool-cases (s == t)) [
  | inl e ↦ yes ((eq_iff s t).0 e)
  | inr e ↦ no (ne_of_test s t e)
]

instance abbrev pub nat_key : Key ℕ
nat_key = record { same? = ℕ_discrete }

instance abbrev pub string_key : Key String
string_key = record { same? = String_discrete }

abbrev pub GoMap {ℓ} : Type ℓ → Type ℓ → Type ℓ
GoMap K V = List (K × V)

module _ {ℓ} {K V : Type ℓ} ⦃k : Key K⦄ where
  -- `v, ok := m[key]`
  unfoldable pub lookup : K → GoMap K V → Option V
  lookup key [] = none
  lookup key ((j, v) ∷ m) = ite (k.same? j key) (some v) (lookup key m)

  -- `m[key] = v`
  unfoldable pub insert : K → V → GoMap K V → GoMap K V
  insert key v [] = (key, v) ∷ []
  insert key v ((j, w) ∷ m) = ite (k.same? j key) ((key, v) ∷ m) ((j, w) ∷ insert key v m)

  -- `delete(m, key)`
  unfoldable pub delete : K → GoMap K V → GoMap K V
  delete key [] = []
  delete key ((j, w) ∷ m) = ite (k.same? j key) (delete key m) ((j, w) ∷ delete key m)

  -- Each key has one entry.
  abbrev pub UniqueKeys : GoMap K V → Type ℓ
  UniqueKeys [] = Unit
  UniqueKeys ((j, w) ∷ m) = (lookup j m ≡ none) × UniqueKeys m

  pub lookup-insert :
      (key j : K) (v : V) (m : GoMap K V)
      → lookup j (insert key v m) ≡ ite (k.same? key j) (some v) (lookup j m)
  unfolding lookup insert
  lookup-insert key j v [] = refl
  lookup-insert key j v ((i, w) ∷ m) = ground (arith, lookup-insert key j v m)

  pub lookup-delete :
      (key j : K) (m : GoMap K V) → lookup j (delete key m) ≡ ite (k.same? key j) none (lookup j m)
  unfolding lookup delete
  lookup-delete key j [] = ground arith
  lookup-delete key j ((i, w) ∷ m) = ground (arith, lookup-delete key j m)

  -- `len` after an insertion.
  pub length-insert :
      (key : K) (v : V) (m : GoMap K V)
      → length (insert key v m) ≡ elim (lookup key m) [ none ↦ suc (length m) | some _ ↦ length m ]
  unfolding lookup insert
  length-insert key v [] = refl
  length-insert key v ((i, w) ∷ m) =
      ground (arith, length-insert key v m, Option-cases (lookup key m))

  pub delete_absent : (key : K) (m : GoMap K V) → lookup key m ≡ none → delete key m ≡ m
  unfolding lookup delete
  delete_absent key [] h = refl
  delete_absent key ((i, w) ∷ m) h = ground (arith, delete_absent key m)

  -- `len` after a deletion: a key has one entry at most.
  pub length-delete :
      (key : K) (m : GoMap K V)
      → UniqueKeys m
      → length m ≡ elim (lookup key m) [
        | none ↦ length (delete key m)
        | some _ ↦ suc (length (delete key m))
      ]
  unfolding lookup delete
  length-delete key [] u = refl
  length-delete key ((i, w) ∷ m) u = elim (k.same? i key) [
    | yes e ↦ ground (arith, delete_absent key m, subst (λ x. lookup x m ≡ none) e u.0)
    | no e ↦ ground (arith, length-delete key m u.1, Option-cases (lookup key m))
  ]

  pub insert-UniqueKeys :
      (key : K) (v : V) (m : GoMap K V) → UniqueKeys m → UniqueKeys (insert key v m)
  unfolding insert lookup
  insert-UniqueKeys key v [] u = (refl, tt)
  insert-UniqueKeys key v ((i, w) ∷ m) u =
      ground (arith, insert-UniqueKeys key v m u.1, lookup-insert key i v m)

  pub delete-UniqueKeys : (key : K) (m : GoMap K V) → UniqueKeys m → UniqueKeys (delete key m)
  unfolding delete
  delete-UniqueKeys key [] u = tt
  delete-UniqueKeys key ((i, w) ∷ m) u =
      ground (arith, delete-UniqueKeys key m u.1, lookup-delete key i m)
