-- ===== src/Friends/Views.antt =====
-- Who is whose friend, and who has blocked whom, after each query of the repositories.
use maim.Common.{
  ℕ, ◌≡◌, refl, Bool, true, false, ◌&&◌, ◌||◌, not, Option, none, List, [], ◌∷◌, ◌++◌, arith, ◌==◌,
  exists, delete, exists-append, exists-update,
}
use maim.Friends.Model.{Friend, UserBlock, Contacts, pair_key, block_key}
use maim.Friends.Repo.{
  is_friend, is_blocked, has_block, delete_pair, delete_block, update_remark, update_group,
  remove_group, friend_row, in_group,
}

-- The two are this pair, in this order.
abbrev pub same_pair : ℕ → ℕ → ℕ → ℕ → Bool
same_pair a b u v = u == a && v == b

-- The two are this pair, in either order.
abbrev pub one_pair : ℕ → ℕ → ℕ → ℕ → Bool
one_pair a b u v = same_pair a b u v || same_pair a b v u

exists_pair-delete :
    (a b u v : ℕ) (fs : List Friend)
    → exists (pair_key a b) (delete (pair_key u v) fs)
      ≡ (exists (pair_key a b) fs && not (same_pair a b u v))
exists_pair-delete a b u v [] = refl
exists_pair-delete a b u v (f ∷ fs) = ground (arith, exists_pair-delete a b u v fs)

pub is_friend-delete_pair :
    (a b u v : ℕ) (t : Contacts)
    → is_friend a b (delete_pair u v t) ≡ (is_friend a b t && not (one_pair a b u v))
unfolding is_friend delete_pair
is_friend-delete_pair a b u v t = ground (
  arith,
  exists_pair-delete a b v u (delete (pair_key u v) t.friends),
  exists_pair-delete a b u v t.friends,
)

-- The tables with the two rows of a new friendship.
abbrev pub befriended : ℕ → ℕ → ℕ → ℕ → ℕ → Contacts → Contacts
befriended id1 id2 now u v t = record t {
  friends = t.friends ++ (friend_row id1 u v now ∷ friend_row id2 v u now ∷ []);
}

pub is_friend-befriended :
    (a b id1 id2 now u v : ℕ) (t : Contacts)
    → is_friend a b (befriended id1 id2 now u v t) ≡ (is_friend a b t || one_pair a b u v)
unfolding is_friend
is_friend-befriended a b id1 id2 now u v t = ground (
  arith,
  exists-append (pair_key a b) t.friends (friend_row id1 u v now ∷ friend_row id2 v u now ∷ []),
)

pub is_friend-update_remark :
    (a b u v remark : ℕ) (t : Contacts)
    → is_friend a b (update_remark u v remark t) ≡ is_friend a b t
unfolding is_friend update_remark
is_friend-update_remark a b u v remark t =
    exists-update (pair_key a b) (pair_key u v) (λ f. record f { remark = remark }) t.friends
      (λ f. refl)

pub is_friend-update_group :
    (a b u v : ℕ) (group : Option ℕ) (t : Contacts)
    → is_friend a b (update_group u v group t) ≡ is_friend a b t
unfolding is_friend update_group
is_friend-update_group a b u v group t =
    exists-update (pair_key a b) (pair_key u v) (λ f. record f { group_id = group }) t.friends
      (λ f. refl)

pub is_friend-remove_group :
    (a b id : ℕ) (t : Contacts) → is_friend a b (remove_group id t) ≡ is_friend a b t
unfolding is_friend remove_group
is_friend-remove_group a b id t =
    exists-update (pair_key a b) (λ f. in_group id f.group_id) (λ f. record f { group_id = none })
      t.friends (λ f. refl)

-- The tables with the row of a new block.
abbrev pub blocking : UserBlock → Contacts → Contacts
blocking b t = record t { blocks = t.blocks ++ b ∷ [] }

pub is_blocked-blocking :
    (a b : ℕ) (row : UserBlock) (t : Contacts)
    → is_blocked a b (blocking row t)
      ≡ (is_blocked a b t || one_pair a b row.user_id row.blocked_user_id)
unfolding is_blocked
is_blocked-blocking a b row t =
    ground (arith, exists-append (λ c. block_key a b c || block_key b a c) t.blocks (row ∷ []))

exists_block-delete :
    (a b u v : ℕ) (bs : List UserBlock)
    → exists (λ c. block_key a b c || block_key b a c) bs ≡ false
    → exists (λ c. block_key a b c || block_key b a c) (delete (block_key u v) bs) ≡ false
exists_block-delete a b u v [] h = refl
exists_block-delete a b u v (c ∷ cs) h = ground (arith, exists_block-delete a b u v cs)

-- Who is not blocked stays so when a block goes.
pub is_blocked-delete_block :
    (a b u v : ℕ) (t : Contacts)
    → is_blocked a b t ≡ false
    → is_blocked a b (delete_block u v t) ≡ false
unfolding is_blocked delete_block
is_blocked-delete_block a b u v t h = exists_block-delete a b u v t.blocks h

is_blocked_rows :
    (u v : ℕ) (bs : List UserBlock)
    → exists (block_key u v) bs ≡ true
    → exists (λ c. block_key u v c || block_key v u c) bs ≡ true
is_blocked_rows u v [] h = h
is_blocked_rows u v (c ∷ cs) h = ground (arith, is_blocked_rows u v cs)

pub is_blocked-of_has_block :
    (u v : ℕ) (t : Contacts) → has_block u v t ≡ true → is_blocked u v t ≡ true
unfolding has_block is_blocked
is_blocked-of_has_block u v t h = is_blocked_rows u v t.blocks h

is_blocked_swap :
    (u v : ℕ) (bs : List UserBlock)
    → exists (λ c. block_key u v c || block_key v u c) bs
      ≡ exists (λ c. block_key v u c || block_key u v c) bs
is_blocked_swap u v [] = refl
is_blocked_swap u v (c ∷ cs) = ground (arith, is_blocked_swap u v cs)

-- A block counts in both directions.
pub is_blocked_comm : (u v : ℕ) (t : Contacts) → is_blocked u v t ≡ is_blocked v u t
unfolding is_blocked
is_blocked_comm u v t = is_blocked_swap u v t.blocks

-- A new block leaves the friendships alone.
pub delete_pair-blocking :
    (u v : ℕ) (b : UserBlock) (t : Contacts)
    → blocking b (delete_pair u v t) ≡ delete_pair u v (blocking b t)
unfolding delete_pair
delete_pair-blocking u v b t = refl
