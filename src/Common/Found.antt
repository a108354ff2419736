-- ===== src/Common/Found.antt =====
-- The rows that a query finds, and those that a deletion spares.
use Prim.Native.Nat.{ℕ, suc}
use mathlib.Core.Path.{◌≡◌, refl, ap, sym, subst}
use mathlib.Core.Bool.{Bool, true, false}
use mathlib.Core.Logic.{inl, inr}
use mathlib.Core.List.{List, [], ◌∷◌, ◌++◌, Memᴰ}
use mathlib.Core.Option.{none, some}
use native.Mathlib.Omega.{arith}
use maim.Common.Tests.{◌==◌, ==_refl, Bool-cases}
use maim.Common.Lists.{length}
use maim.Common.Tables.{exists, delete, find, update}
use maim.Common.Keys.{UniqueKeys, exists-mem}

module _ {ℓ} {A : Type ℓ} where
  -- What a query finds is a row, and passes the test.
  pub find-mem : (test : A → Bool) (xs : List A) {a : A} → find test xs ≡ some a → Memᴰ a xs
  find-mem test [] h = cc
  find-mem test (x ∷ xs) {a} h = elim (Bool-cases (test x)) [
    | inl e ↦ let same : a ≡ x = ground arith in Memᴰ.head same
    | inr e ↦ Memᴰ.tail (find-mem test xs (ground arith))
  ]

  pub find_passes : (test : A → Bool) (xs : List A) {a : A} → find test xs ≡ some a → test a ≡ true
  find_passes test [] h = cc
  find_passes test (x ∷ xs) {a} h = elim (Bool-cases (test x)) [
    | inl e ↦ let same : a ≡ x = ground arith in rw same e
    | inr e ↦ find_passes test xs (ground arith)
  ]

  pub mem-delete_miss :
      (test : A → Bool) (xs : List A) (a : A) → test a ≡ false → Memᴰ a xs → Memᴰ a (delete test xs)
  mem-delete_miss test [] a e m = elim m [ ]
  mem-delete_miss test (x ∷ xs) a e (Memᴰ.head p) =
      rw (subst (λ z. test z ≡ false) p e) (Memᴰ.head p)
  mem-delete_miss test (x ∷ xs) a e (Memᴰ.tail m) = elim (Bool-cases (test x)) [
    | inl t ↦ rw t (mem-delete_miss test xs a e m)
    | inr t ↦ rw t (Memᴰ.tail (mem-delete_miss test xs a e m))
  ]

  delete_miss : (test : A → Bool) (xs : List A) → exists test xs ≡ false → delete test xs ≡ xs
  delete_miss test [] h = refl
  delete_miss test (x ∷ xs) h = ground (arith, delete_miss test xs)

  -- The deletion of a row by its key takes that row alone.
  pub length-delete :
      (key : A → ℕ) (xs : List A) (a : A)
      → UniqueKeys key xs
      → Memᴰ a xs
      → suc (length (delete (λ b. key b == key a) xs)) ≡ length xs
  length-delete key [] a u m = elim m [ ]
  length-delete key (x ∷ xs) a u (Memᴰ.head p) =
      subst (λ z. suc (length (delete (λ b. key b == key z) (x ∷ xs))) ≡ suc (length xs)) (sym p)
        (rw (==_refl (key x)) (ap (λ ys. suc (length ys)) (delete_miss _ xs u.0)))
  length-delete key (x ∷ xs) a u (Memᴰ.tail m) =
      ground (arith, length-delete key xs a u.1 m, exists-mem key (key x) xs a m)

  pub length-update :
      (test : A → Bool) (f : A → A) (xs : List A) → length (update test f xs) ≡ length xs
  length-update test f [] = refl
  length-update test f (x ∷ xs) = ap suc (length-update test f xs)

  pub find-append :
      (test : A → Bool) (xs ys : List A) {a : A}
      → find test xs ≡ some a
      → find test (xs ++ ys) ≡ some a
  find-append test [] ys h = cc
  find-append test (x ∷ xs) ys {a} h = ground (arith, find-append test xs ys {a = a})

  pub find-append-none :
      (test : A → Bool) (xs ys : List A) → find test xs ≡ none → find test (xs ++ ys) ≡ find test ys
  find-append-none test [] ys h = refl
  find-append-none test (x ∷ xs) ys h = elim (Bool-cases (test x)) [
    | inl e ↦ ground arith
    | inr e ↦ rw e (find-append-none test xs ys (rw e at h))
  ]
