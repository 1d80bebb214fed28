-- ===== src/Prelude/Assoc.antt =====
-- Go maps as lists of pairs. A new key goes to the end, so the order of the list is one of the orders
-- in which Go may walk the map.
use Prim.Native.Nat.{suc, ◌≤◌}
use mathlib.Core.Path.{◌≡◌, refl, ap}
use mathlib.Core.Logic.{inl, inr}
use mathlib.Core.Bool.{true, false}
use mathlib.Core.Option.{Option, none, some}
use mathlib.Core.List.{List, [], ◌∷◌}
use native.Mathlib.Omega.{arith}
use at_gateway.Prelude.Equality.{HasTest, ◌==◌, ==_iff, ==_refl}
use at_gateway.Prelude.Tests.{if◌then◌else◌, Bool-cases}
use at_gateway.Prelude.Lists.{length}

pub ==_differs :
    {K : Type 0} ⦃e : HasTest K⦄ (j k l : K) → (j == k) ≡ true → (k == l) ≡ false → (j == l) ≡ false
==_differs j k l h n = let same : j ≡ k = (==_iff j k).0 h in rw same n

module _ {K V : Type 0} ⦃e : HasTest K⦄ where
  -- `m[k]`.
  abbrev pub find_key : K → List (K × V) → Option V
  find_key k [] = none
  find_key k ((j, v) ∷ m) = let rest = find_key k m in if j == k then some v else rest

  -- `m[k] = v`.
  abbrev pub put_key : K → V → List (K × V) → List (K × V)
  put_key k v [] = (k, v) ∷ []
  put_key k v ((j, u) ∷ m) =
      let rest = put_key k v m in if j == k then (j, v) ∷ m else (j, u) ∷ rest

  -- `delete(m, k)`.
  abbrev pub drop_key : K → List (K × V) → List (K × V)
  drop_key k [] = []
  drop_key k ((j, v) ∷ m) = let rest = drop_key k m in if j == k then rest else (j, v) ∷ rest

  pub find-put : (k : K) (v : V) (m : List (K × V)) → find_key k (put_key k v m) ≡ some v
  find-put k v [] = rw (==_refl k) refl
  find-put k v ((j, u) ∷ m) = elim (Bool-cases (j == k)) [
    | inl h ↦ rw (h, find_key, h) refl
    | inr h ↦ rw (h, find_key, h) (find-put k v m)
  ]

  pub find-put-other :
      (l k : K) (v : V) (m : List (K × V))
      → (k == l) ≡ false
      → find_key l (put_key k v m) ≡ find_key l m
  find-put-other l k v [] n = rw n refl
  find-put-other l k v ((j, u) ∷ m) n = elim (Bool-cases (j == k)) [
    | inl h ↦ rw (h, find_key, ==_differs j k l h n) refl
    | inr h ↦ rw (h, find_key, find-put-other l k v m n) refl
  ]

  pub find-drop : (k : K) (m : List (K × V)) → find_key k (drop_key k m) ≡ none
  find-drop k [] = refl
  find-drop k ((j, u) ∷ m) = elim (Bool-cases (j == k)) [
    | inl h ↦ rw h (find-drop k m)
    | inr h ↦ rw (h, find_key, h) (find-drop k m)
  ]

  pub find-drop-other :
      (l k : K) (m : List (K × V)) → (k == l) ≡ false → find_key l (drop_key k m) ≡ find_key l m
  find-drop-other l k [] n = refl
  find-drop-other l k ((j, u) ∷ m) n = elim (Bool-cases (j == k)) [
    | inl h ↦ rw (h, find_key, ==_differs j k l h n) (find-drop-other l k m n)
    | inr h ↦ rw (h, find_key, find-drop-other l k m n) refl
  ]

  pub length-drop : (k : K) (m : List (K × V)) → length (drop_key k m) ≤ length m
  length-drop k [] = omega arith
  length-drop k ((j, u) ∷ m) = ground (arith, length-drop k m)

  -- Dropping a key that is there makes the map smaller.
  pub length-drop-known :
      (k : K) (v : V) (m : List (K × V))
      → find_key k m ≡ some v
      → suc (length (drop_key k m)) ≤ length m
  length-drop-known k v [] h = cc
  length-drop-known k v ((j, u) ∷ m) h = elim (Bool-cases (j == k)) [
    | inl e ↦ rw e (omega (arith, length-drop k m))
    | inr e ↦ rw e (omega (arith, length-drop-known k v m (rw e at h)))
  ]

  pub length-put-known :
      (k : K) (v u : V) (m : List (K × V))
      → find_key k m ≡ some u
      → length (put_key k v m) ≡ length m
  length-put-known k v u [] h = cc
  length-put-known k v u ((j, x) ∷ m) h = elim (Bool-cases (j == k)) [
    | inl e ↦ rw e refl
    | inr e ↦ rw e (ap suc (length-put-known k v u m (rw e at h)))
  ]

  pub length-put : (k : K) (v : V) (m : List (K × V)) → length (put_key k v m) ≤ suc (length m)
  length-put k v [] = omega arith
  length-put k v ((j, x) ∷ m) = ground (arith, length-put k v m)
