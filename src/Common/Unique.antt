-- ===== src/Common/Unique.antt =====
-- The unique key through the queries of a table.
use Prim.Native.Nat.{ℕ, zero, suc}
use mathlib.Core.Path.{◌≡◌, refl, ap, ◌∙◌}
use mathlib.Core.Bool.{Bool, true, false, ◌||◌}
use mathlib.Core.Logic.{inl, inr}
use mathlib.Core.List.{List, [], ◌∷◌, Memᴰ}
use native.Mathlib.Omega.{arith}
use maim.Common.Tests.{◌==◌, leb, Bool-cases}
use maim.Common.Lists.{All, take}
use maim.Common.Tables.{exists, select, update, insert_by, sort_by}
use maim.Common.Keys.{UniqueKeys}

module _ {ℓ} {A : Type ℓ} where
  pub mem-of_exists :
      (test : A → Bool) (xs : List A)
      → exists test xs ≡ true
      → (a : A) × Memᴰ a xs × (test a ≡ true)
  mem-of_exists test [] h = cc
  mem-of_exists test (x ∷ xs) h = elim (Bool-cases (test x)) [
    | inl e ↦ (x, Memᴰ.head refl, e)
    | inr e ↦ let (a, m, t) = mem-of_exists test xs (ground arith) in (a, Memᴰ.tail m, t)
  ]

  pub All-of_not_exists :
      (test : A → Bool) (xs : List A) → exists test xs ≡ false → All (λ a. test a ≡ false) xs
  All-of_not_exists test [] h = tt
  All-of_not_exists test (x ∷ xs) h = (ground arith, All-of_not_exists test xs (ground arith))

  pub mem-update_hit :
      (where_ : A → Bool) (f : A → A) (xs : List A) (a : A)
      → where_ a ≡ true
      → Memᴰ a xs
      → Memᴰ (f a) (update where_ f xs)
  mem-update_hit where_ f [] a e m = elim m [ ]
  mem-update_hit where_ f (x ∷ xs) a e (Memᴰ.head p) = rw (← p, e) (Memᴰ.head refl)
  mem-update_hit where_ f (x ∷ xs) a e (Memᴰ.tail m) = Memᴰ.tail (mem-update_hit where_ f xs a e m)

  exists-insert_by :
      (test : A → Bool) (key : A → ℕ) (a : A) (xs : List A)
      → exists test (insert_by key a xs) ≡ (test a || exists test xs)
  exists-insert_by test key a [] = refl
  exists-insert_by test key a (x ∷ xs) = ground (arith, exists-insert_by test key a xs)

  pub exists-sort_by :
      (test : A → Bool) (key : A → ℕ) (xs : List A) → exists test (sort_by key xs) ≡ exists test xs
  exists-sort_by test key [] = refl
  exists-sort_by test key (x ∷ xs) =
      exists-insert_by test key x (sort_by key xs)
      ∙ ap (λ b. test x || b) (exists-sort_by test key xs)

  exists-select-false :
      (test chosen : A → Bool) (xs : List A)
      → exists test xs ≡ false
      → exists test (select chosen xs) ≡ false
  exists-select-false test chosen [] h = refl
  exists-select-false test chosen (x ∷ xs) h = ground (arith, exists-select-false test chosen xs)

  exists-take-false :
      (test : A → Bool) (n : ℕ) (xs : List A)
      → exists test xs ≡ false
      → exists test (take n xs) ≡ false
  exists-take-false test zero xs h = refl
  exists-take-false test (suc n) [] h = refl
  exists-take-false test (suc n) (x ∷ xs) h = ground (arith, exists-take-false test n xs)

  -- A query with no order or limit asks for one row at most, when the row is the only one.
  pub UniqueKeys-select :
      (id : A → ℕ) (chosen : A → Bool) (xs : List A)
      → UniqueKeys id xs
      → UniqueKeys id (select chosen xs)
  UniqueKeys-select id chosen [] u = tt
  UniqueKeys-select id chosen (x ∷ xs) u = elim (Bool-cases (chosen x)) [
    | inl e ↦
        rw e (
          exists-select-false (λ a. id a == id x) chosen xs u.0,
          UniqueKeys-select id chosen xs u.1,
        )
    | inr e ↦ rw e (UniqueKeys-select id chosen xs u.1)
  ]

  UniqueKeys-insert_by :
      (id key : A → ℕ) (a : A) (xs : List A)
      → exists (λ b. id b == id a) xs ≡ false
      → UniqueKeys id xs
      → UniqueKeys id (insert_by key a xs)
  UniqueKeys-insert_by id key a [] h u = (refl, tt)
  UniqueKeys-insert_by id key a (x ∷ xs) h u = elim (Bool-cases (leb (key a) (key x))) [
    | inl e ↦ rw e (h, u)
    | inr e ↦ rw e (
      ground (arith, u.0, exists-insert_by (λ b. id b == id x) key a xs),
      UniqueKeys-insert_by id key a xs (ground arith) u.1,
    )
  ]

  pub UniqueKeys-sort_by :
      (id key : A → ℕ) (xs : List A) → UniqueKeys id xs → UniqueKeys id (sort_by key xs)
  UniqueKeys-sort_by id key [] u = tt
  UniqueKeys-sort_by id key (x ∷ xs) u =
      UniqueKeys-insert_by id key x (sort_by key xs)
        (exists-sort_by (λ b. id b == id x) key xs ∙ u.0) (UniqueKeys-sort_by id key xs u.1)

  pub UniqueKeys-take :
      (id : A → ℕ) (n : ℕ) (xs : List A) → UniqueKeys id xs → UniqueKeys id (take n xs)
  UniqueKeys-take id zero xs u = tt
  UniqueKeys-take id (suc n) [] u = tt
  UniqueKeys-take id (suc n) (x ∷ xs) u =
      (exists-take-false (λ a. id a == id x) n xs u.0, UniqueKeys-take id n xs u.1)
