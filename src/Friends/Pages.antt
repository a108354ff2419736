-- ===== src/Friends/Pages.antt =====
-- The pages of a list: they are in bounds, and together they are the list.
use maim.Common.{
  ℕ, zero, suc, ◌+◌, ◌-◌, ◌*◌, ◌/◌, ◌^◌, ◌≤◌, ◌<◌, ◌≡◌, refl, ap, ◌∙◌, Option, none, some, List, [],
  ◌∷◌, ◌++◌, arith, length, take, drop, take_all, pos, ◌&&◌, select, ◌==◌, sym, subst, ◌↔◌, ◌≢◌,
  true, false, inl, inr, All, All-map, All-mem, All-of_mem, mem-cons_cases, Memᴰ, Memᴰ-cons_mono,
  mem_behind, mem_before, mem-of_select, select-mem, select-test_mem, UniqueKeys, exists-mem,
  Bool-cases, leb,
}
use native.Mathlib.Nat.{zero-add, add-zero, suc-add, zero-mul}
use mathlib.Core.Path.{fun_ext}
use maim.Friends.Model.{Friend, Contacts}
use maim.Friends.Caller.{
  Pagination, pagination_params, pagination_resp, reported_page, page_number, size_of_page,
}
use maim.Friends.Repo.{list_friend_rows, sort_desc, insert_desc, matches_group}

-- Whatever a request asks for, a page has 1 to 100 rows, and the page and size that are reported are
-- those that were read.
pub pagination_params_bounds :
    (p : Option Pagination)
    → (1 ≤ (pagination_params p).1)
      × ((pagination_params p).1 ≤ 100)
      × (1 ≤ (reported_page p).0)
      × ((reported_page p).1 ≡ (pagination_params p).1)
      × ((pagination_params p).0 ≡ ((reported_page p).0 - 1) * (pagination_params p).1)
unfolding pagination_params reported_page
pagination_params_bounds none = ground arith
pagination_params_bounds (some p) = (ground arith, ground arith, ground arith, refl, refl)

module _ {ℓ} {A : Type ℓ} where
  -- The first `n` pages.
  abbrev pub read_pages : (ℕ → List A) → ℕ → List A
  read_pages f zero = []
  read_pages f (suc n) = read_pages f n ++ f n

  take_split : (a b : ℕ) (xs : List A) → take (a + b) xs ≡ take a xs ++ take b (drop a xs)
  take_split zero b xs = rw zero-add
  take_split (suc a) zero [] = rw add-zero
  take_split (suc a) (suc b) [] = rw suc-add
  take_split (suc a) b (x ∷ xs) = rw suc-add (ap (◌∷◌ x) (take_split a b xs))

  -- Pages of one size are the beginning of the list.
  pub read_pages-take :
      (s n : ℕ) (xs : List A) → read_pages (λ k. take s (drop (k * s) xs)) n ≡ take (n * s) xs
  read_pages-take s zero xs = rw zero-mul
  read_pages-take s (suc n) xs =
      rw (read_pages-take s n xs, ← take_split (n * s) s xs) (ap (λ m. take m xs) (omega arith))

-- The quotient, rounded up.
ceil_bounds : (total s : ℕ) → 0 < s → total ≤ (total + s - 1) / s * s
ceil_bounds total s h = grind arith

div-le : (total s : ℕ) → 0 < s → total < 2 ^ 31 → (total + s - 1) / s < 2 ^ 31
div-le total s h b = grind arith

module _ {ℓ} {A : Type ℓ} (key : A → ℕ) where
  length-insert_desc : (a : A) (xs : List A) → length (insert_desc key a xs) ≡ suc (length xs)
  length-insert_desc a [] = refl
  length-insert_desc a (x ∷ xs) = ground (arith, length-insert_desc a xs)

  length-sort_desc : (xs : List A) → length (sort_desc key xs) ≡ length xs
  length-sort_desc [] = refl
  length-sort_desc (x ∷ xs) = length-insert_desc x (sort_desc key xs) ∙ ap suc (length-sort_desc xs)

module _ {ℓ} {A : Type ℓ} (key : A → ℕ) where
  -- From the largest key down, and no two keys are the same.
  abbrev pub IsDescending : List A → Type 0
  IsDescending [] = Unit
  IsDescending (x ∷ xs) = All (λ y. key y < key x) xs × IsDescending xs

  mem-insert_desc : (a b : A) (xs : List A) → Memᴰ b (a ∷ xs) → Memᴰ b (insert_desc key a xs)
  mem-insert_desc a b [] m = m
  mem-insert_desc a b (x ∷ xs) m = elim (Bool-cases (leb (key x) (key a))) [
    | inl e ↦ rw e m
    | inr e ↦ rw e (mem_behind (mem-insert_desc a b xs) m)
  ]

  mem-of_insert_desc : (a b : A) (xs : List A) → Memᴰ b (insert_desc key a xs) → Memᴰ b (a ∷ xs)
  mem-of_insert_desc a b [] m = m
  mem-of_insert_desc a b (x ∷ xs) m = elim (Bool-cases (leb (key x) (key a))) [
    | inl e ↦ rw e at m
    | inr e ↦ mem_before (mem-of_insert_desc a b xs) (rw e at m)
  ]

  mem-sort_desc : (b : A) (xs : List A) → Memᴰ b (sort_desc key xs) ↔ Memᴰ b xs
  mem-sort_desc b [] = (λ m. m, λ m. m)
  mem-sort_desc b (x ∷ xs) = (
    λ m. Memᴰ-cons_mono (mem-sort_desc b xs).0 (mem-of_insert_desc x b (sort_desc key xs) m),
    λ m. mem-insert_desc x b (sort_desc key xs) (Memᴰ-cons_mono (mem-sort_desc b xs).1 m),
  )

  insert_desc-IsDescending :
      (a : A) (xs : List A)
      → ((b : A) → Memᴰ b xs → key b ≢ key a)
      → IsDescending xs
      → IsDescending (insert_desc key a xs)
  insert_desc-IsDescending a [] n h = (tt, tt)
  insert_desc-IsDescending a (x ∷ xs) n h = elim (Bool-cases (leb (key x) (key a))) [
    | inl e ↦
        let below : key x < key a = less (n x (Memᴰ.head refl)) (ground (arith, e)) in
        rw e ((below, All-map _ _ xs (λ y lt. omega (arith, lt, below)) h.0), h)
    | inr e ↦
        let above : key a < key x = ground (arith, e) in
        rw e (
          All-of_mem _ (insert_desc key a xs) (λ y m.
              elim (mem-cons_cases y a xs (mem-of_insert_desc a y xs m)) [
                | inl same ↦ rw same above
                | inr k ↦ All-mem _ xs y h.0 k
              ]),
          insert_desc-IsDescending a xs (λ b m. n b (Memᴰ.tail m)) h.1,
        )
  ]
    where
      less : {m k : ℕ} → m ≢ k → m ≤ k → m < k
      less n l = grind (arith, n, l)

  sort_desc-IsDescending : (xs : List A) → UniqueKeys key xs → IsDescending (sort_desc key xs)
  sort_desc-IsDescending [] u = tt
  sort_desc-IsDescending (x ∷ xs) u =
      insert_desc-IsDescending x (sort_desc key xs)
        (λ b m same.
          let found = exists-mem key (key x) xs b ((mem-sort_desc b xs).0 m) same in
          absurd (both (sym found ∙ u.0)))
        (sort_desc-IsDescending xs u.1)
    where
      both : true ≡ false → ⊥
      both h = cc

-- The page of the friends that a request for page `k + 1` of size `s` reads.
abbrev pub friend_page : ℕ → Option ℕ → ℕ → Contacts → ℕ → List Friend
friend_page user group s t k =
    let (offset, limit) =
      pagination_params (some (record { page = pos (suc k); page_size = pos s })) in
    (list_friend_rows user group offset (some limit) t).0

params_at :
    (s k : ℕ)
    → 0 < s
    → s ≤ 100
    → pagination_params (some (record { page = pos (suc k); page_size = pos s })) ≡ (k * s, s)
unfolding pagination_params
params_at s k h l =
    let e : size_of_page (pos s) ≡ s = ground arith in
    let f : page_number (pos (suc k)) - 1 ≡ k = ground arith in rw (e, f)

-- All the friends, or those of the group, newest first.
abbrev all_friends : ℕ → Option ℕ → Contacts → List Friend
all_friends user group t =
    sort_desc (λ (f : Friend). f.created_at)
      (select (λ f. f.user_id == user && matches_group group f) t.friends)

friend_page_lem :
    (user : ℕ) (group : Option ℕ) (s : ℕ) (t : Contacts)
    → 0 < s
    → s ≤ 100
    → (k : ℕ) → friend_page user group s t k ≡ take s (drop (k * s) (all_friends user group t))
unfolding list_friend_rows
friend_page_lem user group s t h l k = rw (params_at s k h l)

-- At a size of 1 to 100 and with less than 2 ^ 31 rows, no two of one time, the reported number of pages
-- is exact: the pages 1 to that number are, one behind the other, what a query without pages lists;
-- they go strictly from the newest friend to the oldest, so that none comes twice, and have just the
-- rows of the user's friends, or of those in the group.
pub friend_pages_cover :
    (user : ℕ) (group : Option ℕ) (s : ℕ) (t : Contacts)
    → 0 < s
    → s ≤ 100
    → (list_friend_rows user group 0 none t).1 < 2 ^ 31
    → UniqueKeys
        (λ (f : Friend). f.created_at)
        (select (λ f. f.user_id == user && matches_group group f) t.friends)
    → (n : ℕ) × ((pagination_resp 1 s (list_friend_rows user group 0 none t).1).total_pages ≡ pos n)
      × (read_pages (friend_page user group s t) n ≡ (list_friend_rows user group 0 none t).0)
      × IsDescending (λ (f : Friend). f.created_at) (read_pages (friend_page user group s t) n)
      × ((f : Friend)
          → Memᴰ f (read_pages (friend_page user group s t) n)
            ↔ (Memᴰ f t.friends × ((f.user_id == user && matches_group group f) ≡ true)))
unfolding list_friend_rows pagination_resp
friend_pages_cover user group s t h l b u =
    let rows : List Friend = select (λ f. f.user_id == user && matches_group group f) t.friends in
    let n : ℕ = (length rows + s - 1) / s in
    let size = length-sort_desc (λ (f : Friend). f.created_at) rows in
    let enough = ceil_bounds (length rows) s h in
    let all =
      ap (λ f. read_pages f n) (fun_ext (friend_page_lem user group s t h l))
      ∙ read_pages-take s n (all_friends user group t)
      ∙ take_all (n * s) (all_friends user group t) (omega arith) in
    (
      n,
      ground (arith, div-le (length rows) s h b),
      all,
      subst (IsDescending (λ (f : Friend). f.created_at)) (sym all)
          (sort_desc-IsDescending (λ (f : Friend). f.created_at) rows u),
      λ f.
          subst
            (λ ys.
              Memᴰ f ys
              ↔ (Memᴰ f t.friends × ((f.user_id == user && matches_group group f) ≡ true)))
            (sym all)
            (
              λ m.
                  let k = (mem-sort_desc (λ (g : Friend). g.created_at) f rows).0 m in
                  (mem-of_select _ t.friends f k, select-test_mem _ t.friends f k),
              λ m.
                  (mem-sort_desc (λ (g : Friend). g.created_at) f rows).1
                    (select-mem _ t.friends f m.1 m.0),
            ),
    )
