-- ===== src/Friends/Invariant.antt =====
-- What the handlers keep: friendships are mutual and never between users with a block, requests are
-- between two users, and a friend stands in a group of one's own.
use maim.Common.{
  ℕ, ◌≡◌, refl, sym, subst, ◌∙◌, inl, inr, Bool, true, false, ◌&&◌, Option, none, some, List, [],
  ◌∷◌, ◌++◌, arith, ◌==◌, All, All-mem, All-append, All-map, All-update, Bool-cases, exists-append,
  exists-update, update, delete,
}
use maim.Friends.Model.{
  FriendStatus, FriendRequest, Friend, FriendGroup, UserBlock, Contacts, pair_key,
}
use maim.Friends.Repo.{
  is_friend, is_blocked, delete_pair, delete_block, update_remark, update_group, remove_group,
  rename, in_group, with_status,
}
use maim.Friends.Views.{
  befriended, blocking, is_friend-delete_pair, delete_pair-blocking, is_friend-befriended,
  is_friend-update_remark, is_friend-update_group, is_friend-remove_group, is_blocked-blocking,
  is_blocked-delete_block, is_blocked_comm,
}
use maim.Friends.Effects.{has_group}

-- A request has two sides.
abbrev pub IsBetween : FriendRequest → Type 0
IsBetween q = (q.from_user_id == q.to_user_id) ≡ false

-- The friend's group, where it has one, is a group of the row's user.
abbrev pub IsGrouped : List FriendGroup → Friend → Type 0
IsGrouped groups f = has_group f.user_id f.group_id groups ≡ true

pub record IsSound (t : Contacts) : Type 0 where
  pub symmetric : (a b : ℕ) → is_friend a b t ≡ is_friend b a t
  pub apart : (a b : ℕ) → is_friend a b t ≡ true → is_blocked a b t ≡ false
  pub irreflexive : (a : ℕ) → is_friend a a t ≡ false
  pub between : All IsBetween t.requests
  pub grouped : All (IsGrouped t.groups) t.friends

-- Tables with the same relations and requests.
keeps_relations :
    (t t' : Contacts)
    → ((a b : ℕ) → is_friend a b t' ≡ is_friend a b t)
    → ((a b : ℕ) → is_blocked a b t ≡ false → is_blocked a b t' ≡ false)
    → All IsBetween t'.requests
    → All (IsGrouped t'.groups) t'.friends
    → IsSound t
    → IsSound t'
keeps_relations t t' friends blocks between grouped s = record {
  symmetric = λ a b. friends a b ∙ s.symmetric a b ∙ sym (friends b a);
  apart = λ a b h. blocks a b (s.apart a b (sym (friends a b) ∙ h));
  irreflexive = λ a. friends a a ∙ s.irreflexive a;
  between = between;
  grouped = grouped;
}

All-delete_rows :
    (P : Friend → Type 0) (test : Friend → Bool) (fs : List Friend)
    → All P fs
    → All P (delete test fs)
All-delete_rows P test [] h = tt
All-delete_rows P test (f ∷ fs) h = elim (Bool-cases (test f)) [
  | inl e ↦ rw e (All-delete_rows P test fs h.1)
  | inr e ↦ rw e (h.0, All-delete_rows P test fs h.1)
]

pub delete_pair-IsSound : (u v : ℕ) (t : Contacts) → IsSound t → IsSound (delete_pair u v t)
unfolding delete_pair is_blocked
delete_pair-IsSound u v t s = record {
  symmetric = λ a b.
      ground
        (arith, is_friend-delete_pair a b u v t, is_friend-delete_pair b a u v t, s.symmetric a b);
  apart = λ a b h. s.apart a b (ground (arith, is_friend-delete_pair a b u v t));
  irreflexive = λ a. ground (arith, is_friend-delete_pair a a u v t, s.irreflexive a);
  between = s.between;
  grouped = All-delete_rows _ _ _ (All-delete_rows _ _ t.friends s.grouped);
}

pub delete_block-IsSound : (u v : ℕ) (t : Contacts) → IsSound t → IsSound (delete_block u v t)
unfolding delete_block is_friend
delete_block-IsSound u v t s =
    keeps_relations t (delete_block u v t) (λ a b. refl) (λ a b. is_blocked-delete_block a b u v t)
      s.between s.grouped s

pub update_remark-IsSound :
    (u v remark : ℕ) (t : Contacts) → IsSound t → IsSound (update_remark u v remark t)
unfolding update_remark is_blocked
update_remark-IsSound u v remark t s =
    keeps_relations t (update_remark u v remark t) (λ a b. is_friend-update_remark a b u v remark t)
      (λ a b h. h) s.between
      (All-update (IsGrouped t.groups) (pair_key u v) (λ f. record f { remark = remark }) t.friends
        (λ f m e. All-mem _ t.friends f s.grouped m) (λ f m e. All-mem _ t.friends f s.grouped m))
      s

pub update_group-IsSound :
    (u v : ℕ) (group : Option ℕ) (t : Contacts)
    → has_group u group t.groups ≡ true
    → IsSound t
    → IsSound (update_group u v group t)
unfolding update_group is_blocked
update_group-IsSound u v group t owned s =
    keeps_relations t (update_group u v group t) (λ a b. is_friend-update_group a b u v group t)
      (λ a b h. h) s.between
      (All-update (IsGrouped t.groups) (pair_key u v) (λ f. record f { group_id = group }) t.friends
        (λ f m e. let same : f.user_id ≡ u = ground arith in rw same owned)
        (λ f m e. All-mem _ t.friends f s.grouped m))
      s

-- A friend in another group keeps it when a group goes.
has_group-delete :
    (user id : ℕ) (group : Option ℕ) (groups : List FriendGroup)
    → in_group id group ≡ false
    → has_group user group groups ≡ true
    → has_group user group (delete (λ g. g.id == id) groups) ≡ true
has_group-delete user id none groups e h = refl
has_group-delete user id (some g) [] e h = h
has_group-delete user id (some g) (r ∷ rs) e h =
    ground (arith, has_group-delete user id (some g) rs e)

pub remove_group-IsSound : (id : ℕ) (t : Contacts) → IsSound t → IsSound (remove_group id t)
unfolding remove_group is_blocked
remove_group-IsSound id t s =
    keeps_relations t (remove_group id t) (λ a b. is_friend-remove_group a b id t) (λ a b h. h)
      s.between
      (All-update (IsGrouped (delete (λ g. g.id == id) t.groups)) (λ f. in_group id f.group_id)
        (λ f. record f { group_id = none }) t.friends (λ f m e. refl)
        (λ f m e.
          has_group-delete f.user_id id f.group_id t.groups e (All-mem _ t.friends f s.grouped m)))
      s

has_group-rename :
    (user id : ℕ) (name : List ℕ) (group : Option ℕ) (groups : List FriendGroup)
    → has_group user group (update (λ g. g.id == id) (λ g. record g { name = name }) groups)
      ≡ has_group user group groups
has_group-rename user id name none groups = refl
has_group-rename user id name (some g) groups =
    exists-update (λ r. r.id == g && r.user_id == user) (λ g. g.id == id)
      (λ g. record g { name = name }) groups (λ r. refl)

pub rename-IsSound :
    (id : ℕ) (name : List ℕ) (t : Contacts) → IsSound t → IsSound (rename id name t)
unfolding rename is_blocked is_friend
rename-IsSound id name t s =
    keeps_relations t (rename id name t) (λ a b. refl) (λ a b h. h) s.between
      (All-map (IsGrouped t.groups) _ t.friends
        (λ f h. has_group-rename f.user_id id name f.group_id t.groups ∙ h) s.grouped)
      s

has_group-append :
    (user : ℕ) (group : Option ℕ) (groups : List FriendGroup) (g : FriendGroup)
    → has_group user group groups ≡ true
    → has_group user group (groups ++ g ∷ []) ≡ true
has_group-append user none groups g h = refl
has_group-append user (some i) groups g h =
    ground (arith, exists-append (λ r. r.id == i && r.user_id == user) groups (g ∷ []))

pub add_group-IsSound :
    (g : FriendGroup) (t : Contacts)
    → IsSound t
    → IsSound (record t { groups = t.groups ++ g ∷ [] })
unfolding is_blocked is_friend
add_group-IsSound g t s =
    keeps_relations t (record t { groups = t.groups ++ g ∷ [] }) (λ a b. refl) (λ a b h. h)
      s.between
      (All-map (IsGrouped t.groups) _ t.friends
        (λ f h. has_group-append f.user_id f.group_id t.groups g h) s.grouped)
      s

pub with_requests-IsSound :
    (qs : List FriendRequest) (t : Contacts)
    → All IsBetween qs
    → IsSound t
    → IsSound (record t { requests = qs })
unfolding is_blocked is_friend
with_requests-IsSound qs t between s =
    keeps_relations t (record t { requests = qs }) (λ a b. refl) (λ a b h. h) between s.grouped s

pub update_requests-IsBetween :
    (where_ : FriendRequest → Bool) (status : FriendStatus) (now : ℕ) (qs : List FriendRequest)
    → All IsBetween qs
    → All IsBetween (update where_ (with_status status now) qs)
update_requests-IsBetween where_ status now qs h =
    All-update IsBetween where_ (with_status status now) qs (λ q m e. All-mem _ qs q h m)
      (λ q m e. All-mem _ qs q h m)

-- A block between users that are no friends.
blocking-IsSound :
    (b : UserBlock) (t : Contacts)
    → is_friend b.user_id b.blocked_user_id t ≡ false
    → IsSound t
    → IsSound (blocking b t)
unfolding is_friend
blocking-IsSound b t strangers s = record {
  symmetric = s.symmetric;
  apart = λ a c h. ground (arith, is_blocked-blocking a c b t, s.apart a c h, s.symmetric a c, h);
  irreflexive = s.irreflexive;
  between = s.between;
  grouped = s.grouped;
}

-- Users are made no friends at once when a block is added.
pub block_pair-IsSound :
    (b : UserBlock) (t : Contacts)
    → IsSound t
    → IsSound (delete_pair b.user_id b.blocked_user_id (blocking b t))
block_pair-IsSound b t s =
    let u = b.user_id in
    let v = b.blocked_user_id in
    subst IsSound (delete_pair-blocking u v b t) (
      blocking-IsSound b (delete_pair u v t) (ground (arith, is_friend-delete_pair u v u v t))
        (delete_pair-IsSound u v t s))

-- New friends differ and have no block.
pub befriended-IsSound :
    (id1 id2 now u v : ℕ) (t : Contacts)
    → (u == v) ≡ false
    → is_blocked u v t ≡ false
    → IsSound t
    → IsSound (befriended id1 id2 now u v t)
unfolding is_blocked
befriended-IsSound id1 id2 now u v t differ free s = record {
  symmetric = λ a b. ground (
    arith,
    is_friend-befriended a b id1 id2 now u v t,
    is_friend-befriended b a id1 id2 now u v t,
    s.symmetric a b,
  );
  apart = λ a b h.
      ground
        (arith, is_friend-befriended a b id1 id2 now u v t, s.apart a b, is_blocked_comm u v t);
  irreflexive = λ a. ground (arith, is_friend-befriended a a id1 id2 now u v t, s.irreflexive a);
  between = s.between;
  grouped = All-append (IsGrouped t.groups) t.friends _ s.grouped (refl, (refl, tt));
}
