-- ===== src/Common/Lists.antt =====
-- Lists measured by native numbers, and predicates on their members.
use Prim.Native.Nat.{ℕ, zero, suc, ◌+◌, ◌≤◌, min}
use mathlib.Core.Path.{◌≡◌, refl, sym, ap, subst}
use mathlib.Core.Logic.{◌⊎◌, inl, inr}
use mathlib.Core.List.{List, [], ◌∷◌, ◌++◌, Memᴰ, map}
use native.Mathlib.Omega.{arith}

module _ {ℓ} {A : Type ℓ} where
  abbrev pub length : List A → ℕ
  length [] = 0
  length (x ∷ xs) = suc (length xs)

  abbrev pub take : ℕ → List A → List A
  take zero xs = []
  take (suc n) [] = []
  take (suc n) (x ∷ xs) = x ∷ take n xs

  abbrev pub drop : ℕ → List A → List A
  drop zero xs = xs
  drop (suc n) [] = []
  drop (suc n) (x ∷ xs) = drop n xs

  -- Every member has the property.
  abbrev pub All {κ} : (A → Type κ) → List A → Type κ
  All P [] = Unit
  All P (x ∷ xs) = P x × All P xs

  pub length-append : (xs ys : List A) → length (xs ++ ys) ≡ length xs + length ys
  length-append [] ys = omega arith
  length-append (x ∷ xs) ys = omega (arith, length-append xs ys)

  pub All-append {κ} : (P : A → Type κ) (xs ys : List A) → All P xs → All P ys → All P (xs ++ ys)
  All-append P [] ys h k = k
  All-append P (x ∷ xs) ys h k = (h.0, All-append P xs ys h.1 k)

  pub All-map {κ μ} :
      (P : A → Type κ) (Q : A → Type μ) (xs : List A) → ((x : A) → P x → Q x) → All P xs → All Q xs
  All-map P Q [] f h = tt
  All-map P Q (x ∷ xs) f h = (f x h.0, All-map P Q xs f h.1)

  pub All-mem {κ} : (P : A → Type κ) (xs : List A) (a : A) → All P xs → Memᴰ a xs → P a
  All-mem P [] a h m = elim m [ ]
  All-mem P (x ∷ xs) a h (Memᴰ.head e) = subst P (sym e) h.0
  All-mem P (x ∷ xs) a h (Memᴰ.tail m) = All-mem P xs a h.1 m

  pub Memᴰ-append_left : (a : A) (xs ys : List A) → Memᴰ a xs → Memᴰ a (xs ++ ys)
  Memᴰ-append_left a [] ys m = elim m [ ]
  Memᴰ-append_left a (x ∷ xs) ys (Memᴰ.head e) = Memᴰ.head e
  Memᴰ-append_left a (x ∷ xs) ys (Memᴰ.tail m) = Memᴰ.tail (Memᴰ-append_left a xs ys m)

  pub Memᴰ-append_right : (a : A) (xs ys : List A) → Memᴰ a ys → Memᴰ a (xs ++ ys)
  Memᴰ-append_right a [] ys m = m
  Memᴰ-append_right a (x ∷ xs) ys m = Memᴰ.tail (Memᴰ-append_right a xs ys m)

  -- A list grown at the head keeps what the map of members gives.
  pub Memᴰ-cons_mono :
      {a x : A} {xs ys : List A} → (Memᴰ a xs → Memᴰ a ys) → Memᴰ a (x ∷ xs) → Memᴰ a (x ∷ ys)
  Memᴰ-cons_mono f (Memᴰ.head e) = Memᴰ.head e
  Memᴰ-cons_mono f (Memᴰ.tail m) = Memᴰ.tail (f m)

  pub All-of_mem {κ} : (P : A → Type κ) (xs : List A) → ((a : A) → Memᴰ a xs → P a) → All P xs
  All-of_mem P [] f = tt
  All-of_mem P (x ∷ xs) f = (f x (Memᴰ.head refl), All-of_mem P xs (λ a m. f a (Memᴰ.tail m)))

  pub take-mem : (n : ℕ) (xs : List A) (a : A) → Memᴰ a (take n xs) → Memᴰ a xs
  take-mem zero xs a m = elim m [ ]
  take-mem (suc n) [] a m = elim m [ ]
  take-mem (suc n) (x ∷ xs) a m = Memᴰ-cons_mono (take-mem n xs a) m

  pub length-take : (n : ℕ) (xs : List A) → length (take n xs) ≡ min n (length xs)
  length-take zero xs = omega arith
  length-take (suc n) [] = omega arith
  length-take (suc n) (x ∷ xs) = omega (arith, length-take n xs)

  pub take-take : (n : ℕ) (xs : List A) → take n (take (suc n) xs) ≡ take n xs
  take-take zero xs = refl
  take-take (suc n) [] = refl
  take-take (suc n) (x ∷ xs) = ap (◌∷◌ x) (take-take n xs)

  pub take_all : (n : ℕ) (xs : List A) → length xs ≤ n → take n xs ≡ xs
  take_all zero [] h = refl
  take_all zero (x ∷ xs) h = absurd (omega arith)
  take_all (suc n) [] h = refl
  take_all (suc n) (x ∷ xs) h = ap (◌∷◌ x) (take_all n xs (omega arith))

  pub mem-cons_cases : (a x : A) (xs : List A) → Memᴰ a (x ∷ xs) → (a ≡ x) ⊎ Memᴰ a xs
  mem-cons_cases a x xs (Memᴰ.head e) = inl e
  mem-cons_cases a x xs (Memᴰ.tail m) = inr m

-- The image of a member.
pub map-mem {ℓ κ} :
    {A : Type ℓ} {B : Type κ} (f : A → B) (xs : List A) (a : A) → Memᴰ a xs → Memᴰ (f a) (map f xs)
map-mem f [] a m = elim m [ ]
map-mem f (x ∷ xs) a (Memᴰ.head e) = Memᴰ.head (ap f e)
map-mem f (x ∷ xs) a (Memᴰ.tail m) = Memᴰ.tail (map-mem f xs a m)
