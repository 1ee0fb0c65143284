-- ===== src/Prelude/Keys.antt =====
-- Unique keys of a table: `same x y` says that two rows have one key.
use mathlib.Core.Path.{◌≡◌, refl, sym, ◌∙◌}
use Prim.Native.Nat.{ℕ}
use mathlib.Core.Bool.{Bool, true, false, ◌||◌, ◌&&◌}
use mathlib.Core.List.{List, [], ◌∷◌, ◌++◌}
use mathlib.Core.Logic.{inl, inr}
use mathlib.Core.Option.{none, some}
use native.Mathlib.Omega.{arith}
use wdc_backend.Prelude.Tests.{Bool-cases, ◌==◌}
use wdc_backend.Prelude.Lists.{any, find, All, insert_by, sort_by, select, update_where}

module _ {ℓ} {A : Type ℓ} where
  pub any-snoc :
      (test : A → Bool) (xs : List A) (y : A) → any test (xs ++ (y ∷ [])) ≡ any test xs || test y
  any-snoc test [] y = ground arith
  any-snoc test (x ∷ xs) y = ground (arith, any-snoc test xs y)

  pub any-update_where :
      (test where_test : A → Bool) (f : A → A) (xs : List A)
      → ((x : A) → test (f x) ≡ test x)
      → any test (update_where where_test f xs) ≡ any test xs
  any-update_where test where_test f [] k = ground arith
  any-update_where test where_test f (x ∷ xs) k =
      ground (arith, any-update_where test where_test f xs k, k x)

  pub any-select :
      (test where_test : A → Bool) (xs : List A)
      → any test xs ≡ false
      → any test (select where_test xs) ≡ false
  any-select test where_test [] h = ground arith
  any-select test where_test (x ∷ xs) h = ground (arith, any-select test where_test xs)

  pub any_congr :
      (test test' : A → Bool) (xs : List A)
      → ((x : A) → test x ≡ test' x)
      → any test xs ≡ any test' xs
  any_congr test test' [] h = ground arith
  any_congr test test' (x ∷ xs) h = ground (arith, any_congr test test' xs h, h x)

  -- A row that is found satisfies the test.
  pub find-true : (test : A → Bool) (xs : List A) {x : A} → find test xs ≡ some x → test x ≡ true
  find-true test [] h = cc
  find-true test (y ∷ xs) {x} h = ground (arith, find-true test xs {x = x})

  pub find_of_none : (test : A → Bool) (xs : List A) → find test xs ≡ none → any test xs ≡ false
  find_of_none test [] h = ground arith
  find_of_none test (x ∷ xs) h = ground (arith, find_of_none test xs)

module _ {ℓ} {A : Type ℓ} (same : A → A → Bool) where
  abbrev pub IsUnique : List A → Type 0
  IsUnique [] = Unit
  IsUnique (x ∷ xs) = (any (same x) xs ≡ false) × IsUnique xs

  pub IsUnique-snoc :
      (xs : List A) (y : A)
      → any (λ x. same x y) xs ≡ false
      → IsUnique xs
      → IsUnique (xs ++ (y ∷ []))
  IsUnique-snoc [] y h u = ground arith
  IsUnique-snoc (x ∷ xs) y h (p, u) =
      (ground (arith, any-snoc (same x) xs y), IsUnique-snoc xs y (ground arith) u)

  pub IsUnique-select : (test : A → Bool) (xs : List A) → IsUnique xs → IsUnique (select test xs)
  IsUnique-select test [] u = tt
  IsUnique-select test (x ∷ xs) (p, u) = elim (Bool-cases (test x)) [
    | inl kept ↦ rw kept (any-select (same x) test xs p, IsUnique-select test xs u)
    | inr gone ↦ rw gone (IsUnique-select test xs u)
  ]

  pub IsUnique-update_where :
      (test : A → Bool) (f : A → A) (xs : List A)
      → ((x y : A) → same (f x) y ≡ same x y)
      → ((x y : A) → same x (f y) ≡ same x y)
      → IsUnique xs
      → IsUnique (update_where test f xs)
  IsUnique-update_where test f [] k l u = tt
  IsUnique-update_where test f (x ∷ xs) k l (p, u) = (
    ground (
      arith,
      any-update_where (same x) test f xs (l x),
      any-update_where (same (f x)) test f xs (l (f x)),
      any_congr (same (f x)) (same x) xs (k x),
    ),
    IsUnique-update_where test f xs k l u,
  )

pub All-select_of {ℓ κ} :
    {A : Type ℓ} (P : A → Type κ) (test : A → Bool) (xs : List A)
    → All P xs
    → All P (select test xs)
All-select_of P test [] h = tt
All-select_of P test (x ∷ xs) (p, h) = elim (Bool-cases (test x)) [
  | inl kept ↦ rw kept (p, All-select_of P test xs h)
  | inr gone ↦ rw gone (All-select_of P test xs h)
]

module _ {ℓ} {A : Type ℓ} where
  pub update_where_none :
      (test : A → Bool) (f : A → A) (xs : List A)
      → any test xs ≡ false
      → update_where test f xs ≡ xs
  update_where_none test f [] h = refl
  update_where_none test f (x ∷ xs) h = ground (arith, update_where_none test f xs)

  -- A test that holds of some row of a selection, or of a sorted list, holds of some row.
  pub any-insert_by :
      (test : A → Bool) (before : A → A → Bool) (x : A) (xs : List A)
      → any test (insert_by before x xs) ≡ test x || any test xs
  any-insert_by test before x [] = refl
  any-insert_by test before x (y ∷ xs) = ground (arith, any-insert_by test before x xs)

  pub any-sort_by :
      (test : A → Bool) (before : A → A → Bool) (xs : List A)
      → any test (sort_by before xs) ≡ any test xs
  any-sort_by test before [] = refl
  any-sort_by test before (x ∷ xs) =
      ground (arith, any-insert_by test before x (sort_by before xs), any-sort_by test before xs)

  pub any-select_both :
      (test where_test : A → Bool) (xs : List A)
      → any test (select where_test xs) ≡ any (λ x. test x && where_test x) xs
  any-select_both test where_test [] = refl
  any-select_both test where_test (x ∷ xs) = ground (arith, any-select_both test where_test xs)

  pub any_mono :
      (test test' : A → Bool) (xs : List A)
      → ((x : A) → test x ≡ true → test' x ≡ true)
      → any test xs ≡ true
      → any test' xs ≡ true
  any_mono test test' [] k h = cc
  any_mono test test' (x ∷ xs) k h = ground (arith, any_mono test test' xs k, k x)

  pub any-update_mono :
      (test where_test : A → Bool) (f : A → A) (xs : List A)
      → ((x : A) → test x ≡ true → test (f x) ≡ true)
      → any test xs ≡ true
      → any test (update_where where_test f xs) ≡ true
  any-update_mono test where_test f [] k h = cc
  any-update_mono test where_test f (x ∷ xs) k h =
      ground (arith, any-update_mono test where_test f xs k, k x)

module _ {ℓ κ} {A : Type ℓ} (P : A → Type κ) (key : A → ℕ) where
  -- An update of the row of a unique key: what it makes of that row is all that matters.
  pub All-update_found :
      (id : ℕ) (f : A → A) (xs : List A) {x : A}
      → IsUnique (λ y z. key y == key z) xs
      → find (λ y. key y == id) xs ≡ some x
      → P (f x)
      → All P xs
      → All P (update_where (λ y. key y == id) f xs)
  All-update_found id f [] u h p all = cc
  All-update_found id f (y ∷ xs) {x} (fresh, u) h p (q, all) = elim (Bool-cases (key y == id)) [
    | inl here ↦
        let alone : any (λ z. key z == id) xs ≡ false =
          sym (any_congr (λ z. key y == key z) (λ z. key z == id) xs (λ z. ground arith)) ∙ fresh in
        let same : y ≡ x = ground arith in
        rw here (rw (update_where_none (λ z. key z == id) f xs alone) (rw same p, all))
    | inr later ↦ rw later (q, All-update_found id f xs {x = x} u (ground arith) p all)
  ]

module _ {ℓ} {A : Type ℓ} where
  -- An update that makes no test true that was false.
  pub any-update_less :
      (test where_test : A → Bool) (f : A → A) (xs : List A)
      → ((x : A) → test (f x) ≡ true → test x ≡ true)
      → any test xs ≡ false
      → any test (update_where where_test f xs) ≡ false
  any-update_less test where_test f [] k h = refl
  any-update_less test where_test f (x ∷ xs) k h =
      ground (arith, any-update_less test where_test f xs k, k x)

  pub any-false :
      (test test' : A → Bool) (xs : List A)
      → ((x : A) → test x ≡ true → test' x ≡ true)
      → any test' xs ≡ false
      → any test xs ≡ false
  any-false test test' [] k h = refl
  any-false test test' (x ∷ xs) k h = ground (arith, any-false test test' xs k, k x)

  pub IsUnique-update_less :
      (same : A → A → Bool) (where_test : A → Bool) (f : A → A) (xs : List A)
      → ((x y : A) → same (f x) y ≡ true → same x y ≡ true)
      → ((x y : A) → same x (f y) ≡ true → same x y ≡ true)
      → IsUnique same xs
      → IsUnique same (update_where where_test f xs)
  IsUnique-update_less same where_test f [] k l u = tt
  IsUnique-update_less same where_test f (x ∷ xs) k l (p, u) =
      let rest = any-update_less (same x) where_test f xs (l x) p in
      (
        ground (arith, rest, any-false (same (f x)) (same x) _ (k x) rest),
        IsUnique-update_less same where_test f xs k l u,
      )
