-- ===== src/Common/Deletes.antt =====
-- What a deletion leaves of a query.
use Prim.Native.Nat.{ℕ, ◌≤◌}
use mathlib.Core.Path.{◌≡◌, refl}
use mathlib.Core.Bool.{Bool, true, false}
use mathlib.Core.Logic.{inl, inr}
use mathlib.Core.List.{List, [], ◌∷◌, Memᴰ}
use mathlib.Core.Option.{none, some}
use native.Mathlib.Omega.{arith}
use maim.Common.Tests.{◌==◌, Bool-cases}
use maim.Common.Lists.{All}
use maim.Common.Keys.{UniqueKeys}
use maim.Common.Tables.{select, exists, delete, find, update, max_of}

module _ {ℓ} {A : Type ℓ} where
  -- Rows that a query asks for, and the deletion spares, are all still there.
  pub select-delete :
      (test doomed : A → Bool) (xs : List A)
      → ((a : A) → test a ≡ true → doomed a ≡ false)
      → select test (delete doomed xs) ≡ select test xs
  select-delete test doomed [] h = refl
  select-delete test doomed (x ∷ xs) h = ground (arith, h x, select-delete test doomed xs h)

  pub exists-delete :
      (test doomed : A → Bool) (xs : List A)
      → ((a : A) → test a ≡ true → doomed a ≡ false)
      → exists test (delete doomed xs) ≡ exists test xs
  exists-delete test doomed [] h = refl
  exists-delete test doomed (x ∷ xs) h = ground (arith, h x, exists-delete test doomed xs h)

  pub max_of-delete :
      (key : A → ℕ) (test doomed : A → Bool) (xs : List A)
      → max_of key (select test (delete doomed xs)) ≤ max_of key (select test xs)
  max_of-delete key test doomed [] = omega arith
  max_of-delete key test doomed (x ∷ xs) = ground (arith, max_of-delete key test doomed xs)

  pub find-update_miss :
      (test where_ : A → Bool) (f : A → A) (xs : List A)
      → ((a : A) → test a ≡ true → where_ a ≡ false)
      → ((a : A) → test (f a) ≡ test a)
      → find test (update where_ f xs) ≡ find test xs
  find-update_miss test where_ f [] h k = refl
  find-update_miss test where_ f (x ∷ xs) h k =
      ground (arith, h x, k x, find-update_miss test where_ f xs h k)

  pub find-update_hit :
      (test : A → Bool) (f : A → A) (xs : List A) (a : A)
      → find test xs ≡ some a
      → ((b : A) → test (f b) ≡ test b)
      → find test (update test f xs) ≡ some (f a)
  find-update_hit test f [] a h k = cc
  find-update_hit test f (x ∷ xs) a h k = ground (arith, k x, find-update_hit test f xs a)

  -- A query for rows that are all deleted finds none.
  pub find-delete-none :
      (test doomed : A → Bool) (xs : List A)
      → ((a : A) → test a ≡ true → doomed a ≡ true)
      → find test (delete doomed xs) ≡ none
  find-delete-none test doomed [] h = refl
  find-delete-none test doomed (x ∷ xs) h = ground (arith, h x, find-delete-none test doomed xs h)

  -- A query for rows that are all spared is not changed.
  pub find-delete :
      (test doomed : A → Bool) (xs : List A)
      → ((a : A) → test a ≡ true → doomed a ≡ false)
      → find test (delete doomed xs) ≡ find test xs
  find-delete test doomed [] h = refl
  find-delete test doomed (x ∷ xs) h = ground (arith, h x, find-delete test doomed xs h)

  pub All-delete {κ} :
      (P : A → Type κ) (doomed : A → Bool) (xs : List A)
      → ((a : A) → Memᴰ a xs → doomed a ≡ false → P a)
      → All P (delete doomed xs)
  All-delete P doomed [] h = tt
  All-delete P doomed (x ∷ xs) h =
      let rest = All-delete P doomed xs (λ a m. h a (Memᴰ.tail m)) in
      elim (Bool-cases (doomed x)) [
        | inl e ↦ rw e rest
        | inr e ↦ rw e (h x (Memᴰ.head refl) e, rest)
      ]

  pub exists-delete-false :
      (test doomed : A → Bool) (xs : List A)
      → ((a : A) → test a ≡ true → doomed a ≡ true)
      → exists test (delete doomed xs) ≡ false
  exists-delete-false test doomed [] h = refl
  exists-delete-false test doomed (x ∷ xs) h =
      ground (arith, h x, exists-delete-false test doomed xs h)

  pub exists-delete_le :
      (test doomed : A → Bool) (xs : List A)
      → exists test xs ≡ false
      → exists test (delete doomed xs) ≡ false
  exists-delete_le test doomed [] h = refl
  exists-delete_le test doomed (x ∷ xs) h = ground (arith, exists-delete_le test doomed xs)

  pub UniqueKeys-delete :
      (key : A → ℕ) (doomed : A → Bool) (xs : List A)
      → UniqueKeys key xs
      → UniqueKeys key (delete doomed xs)
  UniqueKeys-delete key doomed [] u = tt
  UniqueKeys-delete key doomed (x ∷ xs) u = elim (Bool-cases (doomed x)) [
    | inl e ↦ rw e (UniqueKeys-delete key doomed xs u.1)
    | inr e ↦
        rw e (
          exists-delete_le (λ a. key a == key x) doomed xs u.0,
          UniqueKeys-delete key doomed xs u.1,
        )
  ]
