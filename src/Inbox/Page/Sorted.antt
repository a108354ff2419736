-- ===== src/Inbox/Page/Sorted.antt =====
-- The last row of a sorted page.
use maim.Common.{
  ℕ, suc, zero, ◌≤◌, ◌<◌, ◌≡◌, refl, ap, some, List, [], ◌∷◌, Memᴰ, arith, All, take, length,
  IsSorted,
}
use maim.Inbox.Model.{UserInbox}
use maim.Inbox.Page.{last?}

-- The order of the pages.
abbrev pub position_of : UserInbox → ℕ
position_of e = e.position

pub last?-mem : (xs : List UserInbox) {l : UserInbox} → last? xs ≡ some l → Memᴰ l xs
unfolding last?
last?-mem [] h = cc
last?-mem (x ∷ []) h = Memᴰ.head (ground arith)
last?-mem (x ∷ y ∷ ys) h = Memᴰ.tail (last?-mem (y ∷ ys) h)

pub last?-some : (xs : List UserInbox) → 0 < length xs → (l : UserInbox) × (last? xs ≡ some l)
unfolding last?
last?-some [] h = absurd (omega arith)
last?-some (x ∷ []) h = (x, refl)
last?-some (x ∷ y ∷ ys) h = last?-some (y ∷ ys) (omega arith)

pub last?-upper :
    (xs : List UserInbox) (l : UserInbox)
    → IsSorted position_of xs
    → last? xs ≡ some l
    → All (λ y. y.position ≤ l.position) xs
unfolding last?
last?-upper [] l s h = tt
last?-upper (x ∷ []) l s h = (omega (arith, ap (λ (z : UserInbox). z.position) (some_eq x l h)), tt)
  where
    some_eq : (a b : UserInbox) → some a ≡ some b → a ≡ b
    some_eq a b e = cc
last?-upper (x ∷ y ∷ ys) l s h =
    let rest = last?-upper (y ∷ ys) l s.1 h in (omega (arith, s.0.0, rest.0), rest)

All-take {κ} : {A : Type 0} (P : A → Type κ) (n : ℕ) (xs : List A) → All P xs → All P (take n xs)
All-take P zero xs h = tt
All-take P (suc n) [] h = tt
All-take P (suc n) (x ∷ xs) h = (h.0, All-take P n xs h.1)

pub take-IsSorted :
    (n : ℕ) (xs : List UserInbox) → IsSorted position_of xs → IsSorted position_of (take n xs)
take-IsSorted zero xs h = tt
take-IsSorted (suc n) [] h = tt
take-IsSorted (suc n) (x ∷ xs) h =
    (All-take (λ y. position_of x ≤ position_of y) n xs h.0, take-IsSorted n xs h.1)
