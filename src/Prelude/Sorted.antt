-- ===== src/Prelude/Sorted.antt =====
-- Sorting by a number: the result is in ascending order and is a rearrangement of the list.
use Prim.Native.Nat.{ℕ, ◌≤◌}
use mathlib.Core.Bool.{Bool}
use mathlib.Core.List
use mathlib.Core.List.{List, [], ◌∷◌, Perm}
use mathlib.Core.Logic.{inl, inr}
use native.Mathlib.Omega.{arith}
use wdc_backend.Prelude.Tests.{leb, leb→le, Bool-cases}
use wdc_backend.Prelude.Lists.{insert_by, sort_by, All, All-mono, All-insert_by}

module _ {ℓ} {A : Type ℓ} (before : A → A → Bool) where
  pub insert_by-perm : (x : A) (xs : List A) → Perm (insert_by before x xs) (x ∷ xs)
  insert_by-perm x [] = List.Perm.refl _
  insert_by-perm x (y ∷ ys) = elim (Bool-cases (before x y)) [
    | inl here ↦ rw here (List.Perm.refl _)
    | inr later ↦
        rw later (List.Perm.trans (List.Perm.cons y (insert_by-perm x ys)) (List.Perm.swap x y ys))
  ]

  pub sort_by-perm : (xs : List A) → Perm (sort_by before xs) xs
  sort_by-perm [] = List.Perm.refl _
  sort_by-perm (x ∷ xs) =
      List.Perm.trans (insert_by-perm x (sort_by before xs)) (List.Perm.cons x (sort_by-perm xs))

module _ {ℓ} {A : Type ℓ} (key : A → ℕ) where
  abbrev pub by_key : A → A → Bool
  by_key x y = leb (key x) (key y)

  abbrev pub IsSortedBy : List A → Type 0
  IsSortedBy [] = Unit
  IsSortedBy (x ∷ xs) = All (λ y. key x ≤ key y) xs × IsSortedBy xs

  insert_by-IsSortedBy : (x : A) (xs : List A) → IsSortedBy xs → IsSortedBy (insert_by by_key x xs)
  insert_by-IsSortedBy x [] h = (tt, tt)
  insert_by-IsSortedBy x (y ∷ ys) (p, h) = elim (Bool-cases (by_key x y)) [
    | inl here ↦
        let first : key x ≤ key y = leb→le _ _ here in
        rw here ((first, All-mono _ _ ys (λ z q. omega (arith, first, q)) p), (p, h))
    | inr later ↦
        rw later (All-insert_by _ by_key x ys (ground arith) p, insert_by-IsSortedBy x ys h)
  ]

  pub sort_by-IsSortedBy : (xs : List A) → IsSortedBy (sort_by by_key xs)
  sort_by-IsSortedBy [] = tt
  sort_by-IsSortedBy (x ∷ xs) = insert_by-IsSortedBy x (sort_by by_key xs) (sort_by-IsSortedBy xs)
