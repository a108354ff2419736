-- ===== src/Common/Keys.antt =====
-- Tables with a unique key: what appending and updating rows keeps.
use Prim.Native.Nat.{ℕ}
use mathlib.Core.Path.{◌≡◌, refl, ap, sym, ◌∙◌}
use mathlib.Core.Bool.{Bool, true, false, ◌||◌}
use mathlib.Core.List.{List, [], ◌∷◌, ◌++◌, Memᴰ}
use native.Mathlib.Omega.{arith}
use mathlib.Core.Logic.{inl, inr}
use maim.Common.Tests.{◌==◌, ==_refl, Bool-cases}
use maim.Common.Lists.{All}
use maim.Common.Tables.{exists, update}

module _ {ℓ} {A : Type ℓ} where
  pub exists-append :
      (test : A → Bool) (xs ys : List A)
      → exists test (xs ++ ys) ≡ (exists test xs || exists test ys)
  exists-append test [] ys = refl
  exists-append test (x ∷ xs) ys = ground (arith, exists-append test xs ys)

  -- An update that leaves the test's value alone leaves the answer alone.
  pub exists-update :
      (test where_ : A → Bool) (f : A → A) (xs : List A)
      → ((a : A) → test (f a) ≡ test a)
      → exists test (update where_ f xs) ≡ exists test xs
  exists-update test where_ f [] keep = refl
  exists-update test where_ f (x ∷ xs) keep =
      ground (arith, keep x, exists-update test where_ f xs keep)

  pub update_miss :
      (test : A → Bool) (f : A → A) (xs : List A) → exists test xs ≡ false → update test f xs ≡ xs
  update_miss test f [] h = refl
  update_miss test f (x ∷ xs) h = ground (arith, update_miss test f xs)

  -- An update of the rows `where_` that no row of it makes pass the test.
  pub exists-update-false :
      (test where_ : A → Bool) (f : A → A) (xs : List A)
      → ((a : A) → Memᴰ a xs → where_ a ≡ true → test (f a) ≡ true → test a ≡ true)
      → exists test xs ≡ false
      → exists test (update where_ f xs) ≡ false
  exists-update-false test where_ f [] h e = refl
  exists-update-false test where_ f (x ∷ xs) h e =
      ground (
        arith,
        h x (Memᴰ.head refl),
        exists-update-false test where_ f xs (λ a m. h a (Memᴰ.tail m)),
      )

  -- An update that lets the rows that pass the test pass it still.
  pub exists-update-true :
      (test where_ : A → Bool) (f : A → A) (xs : List A)
      → ((a : A) → Memᴰ a xs → where_ a ≡ true → test a ≡ true → test (f a) ≡ true)
      → exists test xs ≡ true
      → exists test (update where_ f xs) ≡ true
  exists-update-true test where_ f [] h e = e
  exists-update-true test where_ f (x ∷ xs) h e =
      ground (
        arith,
        h x (Memᴰ.head refl),
        exists-update-true test where_ f xs (λ a m. h a (Memᴰ.tail m)),
      )

  pub exists-of_mem :
      (test : A → Bool) (xs : List A) (a : A) → Memᴰ a xs → test a ≡ true → exists test xs ≡ true
  exists-of_mem test [] a m t = elim m [ ]
  exists-of_mem test (x ∷ xs) a (Memᴰ.head e) t = rw (← e, t)
  exists-of_mem test (x ∷ xs) a (Memᴰ.tail m) t = ground (arith, exists-of_mem test xs a m t)

  pub All-update {κ} :
      (P : A → Type κ) (where_ : A → Bool) (f : A → A) (xs : List A)
      → ((a : A) → Memᴰ a xs → where_ a ≡ true → P (f a))
      → ((a : A) → Memᴰ a xs → where_ a ≡ false → P a)
      → All P (update where_ f xs)
  All-update P where_ f [] h k = tt
  All-update P where_ f (x ∷ xs) h k =
      let rest = All-update P where_ f xs (λ a m. h a (Memᴰ.tail m)) (λ a m. k a (Memᴰ.tail m)) in
      elim (Bool-cases (where_ x)) [
        | inl e ↦ rw e (h x (Memᴰ.head refl) e, rest)
        | inr e ↦ rw e (k x (Memᴰ.head refl) e, rest)
      ]

  pub mem-update_miss :
      (where_ : A → Bool) (f : A → A) (xs : List A) (a : A)
      → where_ a ≡ false
      → Memᴰ a xs
      → Memᴰ a (update where_ f xs)
  mem-update_miss where_ f [] a e m = elim m [ ]
  mem-update_miss where_ f (x ∷ xs) a e (Memᴰ.head p) = rw (← p, e) (Memᴰ.head refl)
  mem-update_miss where_ f (x ∷ xs) a e (Memᴰ.tail m) =
      Memᴰ.tail (mem-update_miss where_ f xs a e m)

module _ {ℓ} {A : Type ℓ} (key : A → ℕ) where
  -- No two rows have one key.
  abbrev pub UniqueKeys : List A → Type 0
  UniqueKeys [] = Unit
  UniqueKeys (x ∷ xs) = (exists (λ a. key a == key x) xs ≡ false) × UniqueKeys xs

  pub exists-mem :
      (k : ℕ) (xs : List A) (a : A) → Memᴰ a xs → key a ≡ k → exists (λ b. key b == k) xs ≡ true
  exists-mem k [] a m e = elim m [ ]
  exists-mem k (x ∷ xs) a (Memᴰ.head p) e = ground (arith, ap key p)
  exists-mem k (x ∷ xs) a (Memᴰ.tail m) e = ground (arith, exists-mem k xs a m e)

  pub UniqueKeys-update :
      (where_ : A → Bool) (f : A → A) (xs : List A)
      → ((a : A) → key (f a) ≡ key a)
      → UniqueKeys xs
      → UniqueKeys (update where_ f xs)
  UniqueKeys-update where_ f [] keep h = tt
  UniqueKeys-update where_ f (x ∷ xs) keep h = (
    ground (
      arith,
      keep x,
      h.0,
      exists-update (λ a. key a == key x) where_ f xs (λ a. ground (arith, keep a)),
    ),
    UniqueKeys-update where_ f xs keep h.1,
  )

  pub UniqueKeys-append :
      (xs : List A) (a : A)
      → exists (λ b. key b == key a) xs ≡ false
      → UniqueKeys xs
      → UniqueKeys (xs ++ a ∷ [])
  UniqueKeys-append [] a n h = (refl, tt)
  UniqueKeys-append (x ∷ xs) a n h = (
    ground (arith, exists-append (λ b. key b == key x) xs (a ∷ []), h.0),
    UniqueKeys-append xs a (ground arith) h.1,
  )

  -- Writing a row of the table back over the rows with its key changes nothing.
  pub update_same :
      (f : A → A) (xs : List A) (a : A)
      → UniqueKeys xs
      → Memᴰ a xs
      → f a ≡ a
      → update (λ b. key b == key a) f xs ≡ xs
  update_same f [] a u m e = refl
  update_same f (x ∷ xs) a u (Memᴰ.head p) e =
      rw (← p, ==_refl (key a), e)
        (ap (◌∷◌ a) (update_miss (λ b. key b == key a) f xs (rw p (u.0))))
  update_same f (x ∷ xs) a u (Memᴰ.tail m) e =
      ground (arith, update_same f xs a u.1 m e, exists-mem (key x) xs a m)

  -- Rows with one key are one row.
  pub unique_row :
      (xs : List A) (a b : A) → UniqueKeys xs → Memᴰ a xs → Memᴰ b xs → key a ≡ key b → a ≡ b
  unique_row [] a b u m k e = elim m [ ]
  unique_row (x ∷ xs) a b u (Memᴰ.head p) (Memᴰ.head q) e = p ∙ sym q
  unique_row (x ∷ xs) a b u (Memᴰ.head p) (Memᴰ.tail k) e =
      let f = exists-mem (key x) xs b k (sym e ∙ ap key p) in cc (u.0)
  unique_row (x ∷ xs) a b u (Memᴰ.tail m) (Memᴰ.head q) e =
      let f = exists-mem (key x) xs a m (e ∙ ap key q) in cc (u.0)
  unique_row (x ∷ xs) a b u (Memᴰ.tail m) (Memᴰ.tail k) e = unique_row xs a b u.1 m k e
