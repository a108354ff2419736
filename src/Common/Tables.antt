-- ===== src/Common/Tables.antt =====
-- A table is the list of its rows, oldest first. These are the queries of the program over it.
use Prim.Native.Nat.{ℕ, zero, suc, ◌≤◌, max}
use mathlib.Core.Path.{◌≡◌, refl, subst}
use mathlib.Core.Bool.{Bool, true, false, ◌||◌}
use mathlib.Core.Logic.{◌⊎◌, inl, inr}
use mathlib.Core.List.{List, [], ◌∷◌, Memᴰ}
use mathlib.Core.Option.{Option, none, some}
use native.Mathlib.Omega.{arith}
use maim.Common.Tests.{leb, if◌then◌else◌, Bool-cases}
use maim.Common.Lists.{All, All-map, All-mem, Memᴰ-cons_mono, take}

module _ {ℓ} {A : Type ℓ} where
  -- SELECT ... WHERE test.
  abbrev pub select : (A → Bool) → List A → List A
  select test [] = []
  select test (x ∷ xs) = if test x then x ∷ select test xs else select test xs

  -- SELECT ... WHERE test LIMIT 1.
  abbrev pub find : (A → Bool) → List A → Option A
  find test [] = none
  find test (x ∷ xs) = if test x then some x else find test xs

  -- EXISTS (SELECT ... WHERE test).
  abbrev pub exists : (A → Bool) → List A → Bool
  exists test [] = false
  exists test (x ∷ xs) = test x || exists test xs

  -- UPDATE ... SET f WHERE test.
  abbrev pub update : (A → Bool) → (A → A) → List A → List A
  update test f [] = []
  update test f (x ∷ xs) = (if test x then f x else x) ∷ update test f xs

  -- DELETE ... WHERE test.
  abbrev pub delete : (A → Bool) → List A → List A
  delete test [] = []
  delete test (x ∷ xs) = if test x then delete test xs else x ∷ delete test xs

  -- A stable insertion by an ascending key, behind the rows with the same key.
  abbrev pub insert_by : (A → ℕ) → A → List A → List A
  insert_by key a [] = a ∷ []
  insert_by key a (x ∷ xs) = if leb (key a) (key x) then a ∷ x ∷ xs else x ∷ insert_by key a xs

  -- ORDER BY key ASC, and slices.SortStableFunc.
  abbrev pub sort_by : (A → ℕ) → List A → List A
  sort_by key [] = []
  sort_by key (x ∷ xs) = insert_by key x (sort_by key xs)

  -- COALESCE(MAX(key), 0).
  abbrev pub max_of : (A → ℕ) → List A → ℕ
  max_of key [] = 0
  max_of key (x ∷ xs) = max (key x) (max_of key xs)

  -- Ascending by the key.
  abbrev pub IsSorted : (A → ℕ) → List A → Type 0
  IsSorted key [] = Unit
  IsSorted key (x ∷ xs) = All (λ y. key x ≤ key y) xs × IsSorted key xs

  pub All-select {κ} :
      (P : A → Type κ) (test : A → Bool) (xs : List A) → All P xs → All P (select test xs)
  All-select P test [] h = tt
  All-select P test (x ∷ xs) h = elim (Bool-cases (test x)) [
    | inl e ↦ rw e (h.0, All-select P test xs h.1)
    | inr e ↦ rw e (All-select P test xs h.1)
  ]

  pub All-select_test : (test : A → Bool) (xs : List A) → All (λ x. test x ≡ true) (select test xs)
  All-select_test test [] = tt
  All-select_test test (x ∷ xs) = elim (Bool-cases (test x)) [
    | inl e ↦ rw e (e, All-select_test test xs)
    | inr e ↦ rw e (All-select_test test xs)
  ]

  pub select-mem :
      (test : A → Bool) (xs : List A) (a : A) → test a ≡ true → Memᴰ a xs → Memᴰ a (select test xs)
  select-mem test [] a t m = elim m [ ]
  select-mem test (x ∷ xs) a t (Memᴰ.head e) = rw (subst (λ z. test z ≡ true) e t) (Memᴰ.head e)
  select-mem test (x ∷ xs) a t (Memᴰ.tail m) = elim (Bool-cases (test x)) [
    | inl e ↦ rw e (Memᴰ.tail (select-mem test xs a t m))
    | inr e ↦ rw e (select-mem test xs a t m)
  ]

  mem_if : (b : Bool) {x a : A} {ys : List A} → Memᴰ a (if b then x ∷ ys else ys) → Memᴰ a (x ∷ ys)
  mem_if true m = m
  mem_if false m = Memᴰ.tail m

  pub mem-of_select : (test : A → Bool) (xs : List A) (a : A) → Memᴰ a (select test xs) → Memᴰ a xs
  mem-of_select test [] a m = elim m [ ]
  mem-of_select test (x ∷ xs) a m = Memᴰ-cons_mono (mem-of_select test xs a) (mem_if (test x) m)

  pub select-test_mem :
      (test : A → Bool) (xs : List A) (a : A) → Memᴰ a (select test xs) → test a ≡ true
  select-test_mem test xs a m =
      All-mem (λ x. test x ≡ true) (select test xs) a (All-select_test test xs) m

  -- A member of a list behind two heads, when the tail under the second absorbs the first.
  pub mem_behind :
      {a b x : A} {xs ys : List A}
      → (Memᴰ b (a ∷ xs) → Memᴰ b ys)
      → Memᴰ b (a ∷ x ∷ xs)
      → Memᴰ b (x ∷ ys)
  mem_behind f (Memᴰ.head e) = Memᴰ.tail (f (Memᴰ.head e))
  mem_behind f (Memᴰ.tail (Memᴰ.head e)) = Memᴰ.head e
  mem_behind f (Memᴰ.tail (Memᴰ.tail m)) = Memᴰ.tail (f (Memᴰ.tail m))

  pub mem_before :
      {a b x : A} {xs ys : List A}
      → (Memᴰ b ys → Memᴰ b (a ∷ xs))
      → Memᴰ b (x ∷ ys)
      → Memᴰ b (a ∷ x ∷ xs)
  mem_before f (Memᴰ.head e) = Memᴰ.tail (Memᴰ.head e)
  mem_before {a} {b} {x} {xs} f (Memᴰ.tail m) = under (f m)
    where
      under : Memᴰ b (a ∷ xs) → Memᴰ b (a ∷ x ∷ xs)
      under (Memᴰ.head e) = Memᴰ.head e
      under (Memᴰ.tail k) = Memᴰ.tail (Memᴰ.tail k)

module _ {ℓ} {A : Type ℓ} (key : A → ℕ) where
  mem-insert_by : (a b : A) (xs : List A) → Memᴰ b (a ∷ xs) → Memᴰ b (insert_by key a xs)
  mem-insert_by a b [] m = m
  mem-insert_by a b (x ∷ xs) m = elim (Bool-cases (leb (key a) (key x))) [
    | inl e ↦ rw e m
    | inr e ↦ rw e (mem_behind (mem-insert_by a b xs) m)
  ]

  mem-of_insert_by : (a b : A) (xs : List A) → Memᴰ b (insert_by key a xs) → Memᴰ b (a ∷ xs)
  mem-of_insert_by a b [] m = m
  mem-of_insert_by a b (x ∷ xs) m = elim (Bool-cases (leb (key a) (key x))) [
    | inl e ↦ rw e at m
    | inr e ↦ mem_before (mem-of_insert_by a b xs) (rw e at m)
  ]

  pub mem-sort_by : (b : A) (xs : List A) → Memᴰ b xs → Memᴰ b (sort_by key xs)
  mem-sort_by b [] m = m
  mem-sort_by b (x ∷ xs) m =
      mem-insert_by x b (sort_by key xs) (Memᴰ-cons_mono (mem-sort_by b xs) m)

  pub mem-of_sort_by : (b : A) (xs : List A) → Memᴰ b (sort_by key xs) → Memᴰ b xs
  mem-of_sort_by b [] m = m
  mem-of_sort_by b (x ∷ xs) m =
      Memᴰ-cons_mono (mem-of_sort_by b xs) (mem-of_insert_by x b (sort_by key xs) m)

  All-insert_by {κ} :
      (P : A → Type κ) (a : A) (xs : List A) → P a → All P xs → All P (insert_by key a xs)
  All-insert_by P a [] p h = (p, tt)
  All-insert_by P a (x ∷ xs) p h = elim (Bool-cases (leb (key a) (key x))) [
    | inl e ↦ rw e (p, h)
    | inr e ↦ rw e (h.0, All-insert_by P a xs p h.1)
  ]

  insert_by-IsSorted : (a : A) (xs : List A) → IsSorted key xs → IsSorted key (insert_by key a xs)
  insert_by-IsSorted a [] h = (tt, tt)
  insert_by-IsSorted a (x ∷ xs) h = elim (Bool-cases (leb (key a) (key x))) [
    | inl e ↦ rw e (
      (
        ground arith,
        All-map (λ y. key x ≤ key y) (λ y. key a ≤ key y) xs (λ y le. ground arith) h.0,
      ),
      h,
    )
    | inr e ↦
        rw e
          (All-insert_by (λ y. key x ≤ key y) a xs (ground arith) h.0, insert_by-IsSorted a xs h.1)
  ]

  pub sort_by-IsSorted : (xs : List A) → IsSorted key (sort_by key xs)
  sort_by-IsSorted [] = tt
  sort_by-IsSorted (x ∷ xs) = insert_by-IsSorted x (sort_by key xs) (sort_by-IsSorted xs)

  -- A sorted list is its own sort.
  pub sort_by-eq : (xs : List A) → IsSorted key xs → sort_by key xs ≡ xs
  sort_by-eq [] h = refl
  sort_by-eq (x ∷ xs) h = rw (sort_by-eq xs h.1) (first xs h.0)
    where
      first : (ys : List A) → All (λ y. key x ≤ key y) ys → insert_by key x ys ≡ x ∷ ys
      first [] k = refl
      first (y ∷ ys) k = ground arith

  -- A page of a sorted list holds each member, or only rows with keys up to that member's.
  pub take_cover :
      (n : ℕ) (xs : List A) (a : A)
      → IsSorted key xs
      → Memᴰ a xs
      → Memᴰ a (take n xs) ⊎ All (λ y. key y ≤ key a) (take n xs)
  take_cover zero xs a h m = inr tt
  take_cover (suc n) [] a h m = elim m [ ]
  take_cover (suc n) (x ∷ xs) a h (Memᴰ.head e) = inl (Memᴰ.head e)
  take_cover (suc n) (x ∷ xs) a h (Memᴰ.tail m) = elim (take_cover n xs a h.1 m) [
    | inl k ↦ inl (Memᴰ.tail k)
    | inr k ↦ inr (All-mem (λ y. key x ≤ key y) xs a h.0 m, k)
  ]
