-- ===== src/Base/Maps.antt =====
-- A Go map with string keys: an association list in which the first entry of a key counts.
use Prim.Native.Nat.{suc}
use mathlib.Core.Path.{◌≡◌, refl}
use mathlib.Core.Logic.{◌≢◌}
use mathlib.Core.List.{List, [], ◌∷◌, map}
use mathlib.Core.Option.{Option, none, some}
use native.Mathlib.Omega.{arith}
use wait.Base.Tests.{if◌then◌else◌, is_some}
use wait.Base.Lists.{length}
use wait.Base.Text.{member, Str, str_eq, str_eq_iff}

abbrev pub Dict {ℓ} : Type ℓ → Type ℓ
Dict V = List (Str × V)

module _ {ℓ} {V : Type ℓ} where
  unfoldable pub lookup : Str → Dict V → Option V
  lookup k [] = none
  lookup k ((j, v) ∷ m) = if str_eq j k then some v else lookup k m

  -- m[k] = v
  unfoldable pub insert : Str → V → Dict V → Dict V
  insert k v [] = (k, v) ∷ []
  insert k v ((j, w) ∷ m) = if str_eq j k then (k, v) ∷ m else (j, w) ∷ insert k v m

  -- delete(m, k)
  unfoldable pub delete : Str → Dict V → Dict V
  delete k [] = []
  delete k ((j, w) ∷ m) = if str_eq j k then delete k m else (j, w) ∷ delete k m

  abbrev pub keys : Dict V → List Str
  keys = map (λ e. e.0)

  pub member-keys : (k : Str) (m : Dict V) → member k (keys m) ≡ is_some (lookup k m)
  unfolding member lookup
  member-keys k [] = refl
  member-keys k ((j, v) ∷ m) = ground (arith, member-keys k m)

  pub lookup-insert :
      (k j : Str) (v : V) (m : Dict V)
      → lookup j (insert k v m) ≡ (if str_eq k j then some v else lookup j m)
  unfolding lookup insert
  lookup-insert k j v [] = refl
  lookup-insert k j v ((i, w) ∷ m) =
      ground (arith, str_eq_iff k j, str_eq_iff i k, str_eq_iff i j, lookup-insert k j v m)

  pub lookup-delete :
      (k j : Str) (m : Dict V) → lookup j (delete k m) ≡ (if str_eq k j then none else lookup j m)
  unfolding lookup delete
  lookup-delete k j [] = ground arith
  lookup-delete k j ((i, w) ∷ m) =
      ground (arith, str_eq_iff k j, str_eq_iff i k, str_eq_iff i j, lookup-delete k j m)

  pub lookup-delete-some :
      (k j : Str) (m : Dict V) (v : V)
      → lookup j (delete k m) ≡ some v
      → (lookup j m ≡ some v) × (k ≢ j)
  lookup-delete-some k j m v e = ground (arith, lookup-delete k j m, str_eq_iff k j)

  pub lookup-delete_ne : (k j : Str) (m : Dict V) → k ≢ j → lookup j (delete k m) ≡ lookup j m
  lookup-delete_ne k j m h = ground (arith, lookup-delete k j m, str_eq_iff k j, h)

  pub lookup-insert_self : (k : Str) (v : V) (m : Dict V) → lookup k (insert k v m) ≡ some v
  lookup-insert_self k v m = ground (arith, lookup-insert k k v m, str_eq_iff k k)

  pub lookup-insert_ne :
      (k j : Str) (v : V) (m : Dict V) → k ≢ j → lookup j (insert k v m) ≡ lookup j m
  lookup-insert_ne k j v m h = ground (arith, lookup-insert k j v m, str_eq_iff k j, h)

module _ {V : Type 0} where
  -- No key stands twice in the map.
  abbrev pub Unique : Dict V → Type 0
  Unique [] = Unit
  Unique ((k, a) ∷ m) = (lookup k m ≡ none) × Unique m

  pub lookup-delete-none :
      (k j : Str) (m : Dict V) → lookup j m ≡ none → lookup j (delete k m) ≡ none
  lookup-delete-none k j m e = ground (arith, lookup-delete k j m)

  pub delete-Unique : (k : Str) (m : Dict V) → Unique m → Unique (delete k m)
  unfolding delete
  delete-Unique k [] u = tt
  delete-Unique k ((j, a) ∷ m) u = ground (arith, delete-Unique k m, lookup-delete-none k j m)

  pub delete_absent : (k : Str) (m : Dict V) → lookup k m ≡ none → delete k m ≡ m
  unfolding delete lookup
  delete_absent k [] e = refl
  delete_absent k ((j, a) ∷ m) e = ground (arith, delete_absent k m)

  pub length-delete :
      (k : Str) (a : V) (m : Dict V)
      → Unique m
      → lookup k m ≡ some a
      → suc (length (delete k m)) ≡ length m
  unfolding delete lookup
  length-delete k a [] u e = cc
  length-delete k a ((j, b) ∷ m) u e =
      ground (arith, length-delete k a m, delete_absent k m, str_eq_iff j k)

  pub insert-Unique :
      (k : Str) (a : V) (m : Dict V) → lookup k m ≡ none → Unique m → Unique (insert k a m)
  unfolding insert lookup
  insert-Unique k a [] e u = (refl, tt)
  insert-Unique k a ((j, b) ∷ m) e u =
      ground (arith, insert-Unique k a m, lookup-insert k j a m, str_eq_iff k j, str_eq_iff j k)

  pub length-insert :
      (k : Str) (a : V) (m : Dict V) → lookup k m ≡ none → length (insert k a m) ≡ suc (length m)
  unfolding insert lookup
  length-insert k a [] e = refl
  length-insert k a ((j, b) ∷ m) e = ground (arith, length-insert k a m)
