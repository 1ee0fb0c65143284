-- ===== src/Prelude/Lists.antt =====
-- Lists over native numbers, predicates on lists by recursion, and the array methods of the source.
use Prim.Native.Nat.{ℕ, zero, suc, ◌+◌, ◌≤◌}
use mathlib.Core.Path.{◌≡◌, subst}
use mathlib.Core.Logic.{inl, inr}
use mathlib.Core.Bool.{Bool, true, false, ◌||◌}
use mathlib.Core.Option.{Option, none, some}
use mathlib.Core.List.{List, [], ◌∷◌, ◌++◌, map}
use native.Mathlib.Omega.{arith}
use wdc_backend.Prelude.Tests.{if◌then◌else◌, Bool-cases}

module _ {ℓ} {A : Type ℓ} where
  abbrev pub length : List A → ℕ
  length [] = 0
  length (x ∷ xs) = suc (length xs)

  abbrev pub take : ℕ → List A → List A
  take zero xs = []
  take (suc n) [] = []
  take (suc n) (x ∷ xs) = x ∷ take n xs

  -- `WHERE test`, and the method `filter`.
  abbrev pub select : (A → Bool) → List A → List A
  select p [] = []
  select p (x ∷ xs) = if p x then x ∷ select p xs else select p xs

  -- The first row of a result, `rows[0]`.
  abbrev pub find : (A → Bool) → List A → Option A
  find p [] = none
  find p (x ∷ xs) = if p x then some x else find p xs

  abbrev pub any : (A → Bool) → List A → Bool
  any p [] = false
  any p (x ∷ xs) = p x || any p xs

  -- `UPDATE … SET f WHERE test`.
  abbrev pub update_where : (A → Bool) → (A → A) → List A → List A
  update_where p f [] = []
  update_where p f (x ∷ xs) = (if p x then f x else x) ∷ update_where p f xs

  pub length-append : (xs ys : List A) → length (xs ++ ys) ≡ length xs + length ys
  length-append [] ys = omega arith
  length-append (x ∷ xs) ys = omega (arith, length-append xs ys)

  pub length-take-le : (n : ℕ) (xs : List A) → length (take n xs) ≤ n
  length-take-le zero xs = omega arith
  length-take-le (suc n) [] = omega arith
  length-take-le (suc n) (x ∷ xs) = omega (arith, length-take-le n xs)

  pub any_of_find :
      (test : A → Bool) (xs : List A) {x : A} → find test xs ≡ some x → any test xs ≡ true
  any_of_find test [] e = cc
  any_of_find test (y ∷ xs) {x} e = ground (arith, any_of_find test xs {x = x})

  -- `ORDER BY`, stable: `before x y` says that `x` may stand before a later `y`.
  abbrev pub insert_by : (A → A → Bool) → A → List A → List A
  insert_by before x [] = x ∷ []
  insert_by before x (y ∷ ys) = if before x y then x ∷ y ∷ ys else y ∷ insert_by before x ys

  abbrev pub sort_by : (A → A → Bool) → List A → List A
  sort_by before [] = []
  sort_by before (x ∷ xs) = insert_by before x (sort_by before xs)

module _ {ℓ κ} {A : Type ℓ} (P : A → Type κ) where
  abbrev pub All : List A → Type κ
  All [] = Unit
  All (x ∷ xs) = P x × All xs

  pub All-append : (xs ys : List A) → All xs → All ys → All (xs ++ ys)
  All-append [] ys h k = k
  All-append (x ∷ xs) ys (p, h) k = (p, All-append xs ys h k)

  pub All-update_where :
      (test : A → Bool) (f : A → A) (xs : List A)
      → ((x : A) → P x → test x ≡ true → P (f x))
      → All xs
      → All (update_where test f xs)
  All-update_where test f [] k h = tt
  All-update_where test f (x ∷ xs) k (p, h) = (ground (arith, k x), All-update_where test f xs k h)

  pub All-find : (test : A → Bool) (xs : List A) {x : A} → find test xs ≡ some x → All xs → P x
  All-find test [] e h = cc
  All-find test (x ∷ xs) e (p, h) = elim (Bool-cases (test x)) [
    | inl here ↦ subst P (ground arith) p
    | inr later ↦ All-find test xs (ground arith) h
  ]

module _ {ℓ κ μ} {A : Type ℓ} (P : A → Type κ) (Q : A → Type μ) where
  pub All-mono : (xs : List A) → ((x : A) → P x → Q x) → All P xs → All Q xs
  All-mono [] f h = tt
  All-mono (x ∷ xs) f (p, h) = (f x p, All-mono xs f h)

module _ {ℓ κ} {A : Type ℓ} (P : A → Type κ) where
  pub All-insert_by :
      (before : A → A → Bool) (x : A) (xs : List A) → P x → All P xs → All P (insert_by before x xs)
  All-insert_by before x [] p h = (p, tt)
  All-insert_by before x (y ∷ ys) p (q, h) = elim (Bool-cases (before x y)) [
    | inl here ↦ rw here (p, (q, h))
    | inr later ↦ rw later (q, All-insert_by before x ys p h)
  ]

  pub All-sort_by : (before : A → A → Bool) (xs : List A) → All P xs → All P (sort_by before xs)
  All-sort_by before [] h = tt
  All-sort_by before (x ∷ xs) (p, h) =
      All-insert_by before x (sort_by before xs) p (All-sort_by before xs h)

  pub All-take : (n : ℕ) (xs : List A) → All P xs → All P (take n xs)
  All-take zero xs h = tt
  All-take (suc n) [] h = tt
  All-take (suc n) (x ∷ xs) (p, h) = (p, All-take n xs h)

  pub All-select :
      (test : A → Bool) (xs : List A) → ((x : A) → test x ≡ true → P x) → All P (select test xs)
  All-select test [] k = tt
  All-select test (x ∷ xs) k = elim (Bool-cases (test x)) [
    | inl holds ↦ rw holds (k x holds, All-select test xs k)
    | inr fails ↦ rw fails (All-select test xs k)
  ]

pub All-map {ℓ κ μ} :
    {A : Type ℓ} {B : Type μ} (P : B → Type κ) (f : A → B) (xs : List A)
    → All (λ x. P (f x)) xs
    → All P (map f xs)
All-map P f [] h = tt
All-map P f (x ∷ xs) (p, h) = (p, All-map P f xs h)
