-- ===== src/Friends/Repo.antt =====
-- The queries of internal/repo/{friend,friend_request,friend_group,block}_repo.go. The database
-- answers; an insertion fails on the primary key and on the unique pairs of friends and of blocks.
-- `new_id` is what identity.New returns, none for its error.
use maim.Common.{
  ℕ, Bool, true, false, ◌&&◌, ◌||◌, not, Option, none, some, List, [], ◌∷◌, ◌++◌, Result, ok, ◌>>=◌,
  ◌>>◌, guard, or_fail, if◌then◌else◌, ◌==◌, leb, find, exists, select, update, delete, take, drop,
  length,
}
use maim.Friends.Model.{
  FriendStatus, accepted, FriendRequest, Friend, FriendGroup, UserBlock, Contacts, FriendError,
  request_not_found, request_already_handled, group_not_found, identity_error, duplicate_key,
  is_pending, pair_key, block_key,
}

-- SELECT COUNT(*) > 0, in one direction.
unfoldable pub is_friend : ℕ → ℕ → Contacts → Bool
is_friend user target t = exists (pair_key user target) t.friends

unfoldable pub has_block : ℕ → ℕ → Contacts → Bool
has_block user target t = exists (block_key user target) t.blocks

-- In either direction.
unfoldable pub is_blocked : ℕ → ℕ → Contacts → Bool
is_blocked user target t = exists (λ b. block_key user target b || block_key target user b) t.blocks

unfoldable pub check_pending : ℕ → ℕ → Contacts → Bool
check_pending from_ to t =
    exists (λ q. q.from_user_id == from_ && (q.to_user_id == to && is_pending q.status)) t.requests

abbrev pub create_request : FriendRequest → Contacts → Result FriendError Contacts
create_request q t = do
  guard (not (exists (λ r. r.id == q.id) t.requests)) duplicate_key
  ok (record t { requests = t.requests ++ q ∷ [] })

unfoldable pub get_request : ℕ → Contacts → Result FriendError FriendRequest
get_request id t = or_fail (find (λ q. q.id == id) t.requests) request_not_found

-- WHERE id = ? AND status = pending.
abbrev pub pending_key : ℕ → FriendRequest → Bool
pending_key id q = q.id == id && is_pending q.status

abbrev pub with_status : FriendStatus → ℕ → FriendRequest → FriendRequest
with_status status now q = record q { status = status; updated_at = now }

unfoldable pub update_status : ℕ → ℕ → FriendStatus → Contacts → Result FriendError Contacts
update_status now id status t = do
  guard (exists (pending_key id) t.requests) request_already_handled
  ok (record t { requests = update (pending_key id) (with_status status now) t.requests })

-- A new row clashes with an old one.
abbrev clashes : Friend → Friend → Bool
clashes f g = g.id == f.id || pair_key f.user_id f.friend_id g

abbrev pub create_friends : Friend → Friend → Contacts → Result FriendError Contacts
create_friends f g t = do
  guard (not (exists (clashes f) t.friends)) duplicate_key
  guard (not (exists (clashes g) (t.friends ++ f ∷ []))) duplicate_key
  ok (record t { friends = t.friends ++ (f ∷ g ∷ []) })

abbrev pub friend_row : ℕ → ℕ → ℕ → ℕ → Friend
friend_row id user friend now = record {
  id = id;
  user_id = user;
  friend_id = friend;
  group_id = none;
  remark = 0;
  created_at = now;
}

-- Accept: an error takes the transaction back.
unfoldable pub accept :
    Option ℕ → Option ℕ → ℕ → FriendRequest → Contacts → Result FriendError Contacts
accept new_id1 new_id2 now q t = do
  id1 ← or_fail new_id1 identity_error
  id2 ← or_fail new_id2 identity_error
  guard (exists (pending_key q.id) t.requests) request_already_handled
  create_friends (friend_row id1 q.from_user_id q.to_user_id now)
      (friend_row id2 q.to_user_id q.from_user_id now)
      (record t { requests = update (pending_key q.id) (with_status accepted now) t.requests })

unfoldable pub create_block : Option ℕ → ℕ → ℕ → ℕ → Contacts → Result FriendError Contacts
create_block new_id now user target t = do
  id ← or_fail new_id identity_error
  guard (not (exists (λ b. b.id == id || block_key user target b) t.blocks)) duplicate_key
  ok (record t {
    blocks =
        t.blocks
        ++ record { id = id; user_id = user; blocked_user_id = target; created_at = now } ∷ [];
  })

unfoldable pub delete_block : ℕ → ℕ → Contacts → Contacts
delete_block user target t = record t { blocks = delete (block_key user target) t.blocks }

unfoldable pub delete_pair : ℕ → ℕ → Contacts → Contacts
delete_pair user friend t = record t {
  friends = delete (pair_key friend user) (delete (pair_key user friend) t.friends);
}

unfoldable pub update_remark : ℕ → ℕ → ℕ → Contacts → Contacts
update_remark user friend remark t = record t {
  friends = update (pair_key user friend) (λ f. record f { remark = remark }) t.friends;
}

unfoldable pub update_group : ℕ → ℕ → Option ℕ → Contacts → Contacts
update_group user friend group t = record t {
  friends = update (pair_key user friend) (λ f. record f { group_id = group }) t.friends;
}

unfoldable pub create_group :
    Option ℕ → ℕ → ℕ → List ℕ → Contacts → Result FriendError (Contacts × ℕ)
create_group new_id now user name t = do
  id ← or_fail new_id identity_error
  guard (not (exists (λ g. g.id == id) t.groups)) duplicate_key
  ok (
    record t {
      groups =
          t.groups
          ++ record { id = id; user_id = user; name = name; sort_order = 0; created_at = now } ∷ [];
    },
    id,
  )

unfoldable pub get_group : ℕ → Contacts → Result FriendError FriendGroup
get_group id t = or_fail (find (λ g. g.id == id) t.groups) group_not_found

unfoldable pub rename : ℕ → List ℕ → Contacts → Contacts
rename id name t = record t {
  groups = update (λ g. g.id == id) (λ g. record g { name = name }) t.groups;
}

abbrev pub in_group : ℕ → Option ℕ → Bool
in_group id none = false
in_group id (some g) = g == id

-- The friends of the group lose it, and the group goes.
unfoldable pub remove_group : ℕ → Contacts → Contacts
remove_group id t = record t {
  friends = update (λ f. in_group id f.group_id) (λ f. record f { group_id = none }) t.friends;
  groups = delete (λ g. g.id == id) t.groups;
}

-- ORDER BY created_at DESC. The database may order rows of one time as it likes, differently for each
-- page; here the older row comes first.
abbrev pub insert_desc {ℓ} : {A : Type ℓ} → (A → ℕ) → A → List A → List A
insert_desc key a [] = a ∷ []
insert_desc key a (x ∷ xs) = if leb (key x) (key a) then a ∷ x ∷ xs else x ∷ insert_desc key a xs

abbrev pub sort_desc {ℓ} : {A : Type ℓ} → (A → ℕ) → List A → List A
sort_desc key [] = []
sort_desc key (x ∷ xs) = insert_desc key x (sort_desc key xs)

-- OFFSET and LIMIT; a negative limit is none.
abbrev pub window {ℓ} : {A : Type ℓ} → ℕ → Option ℕ → List A → List A
window offset none xs = drop offset xs
window offset (some limit) xs = take limit (drop offset xs)

abbrev newest_first {ℓ} : {A : Type ℓ} → (A → ℕ) → ℕ → Option ℕ → List A → List A × ℕ
newest_first key offset limit rows = (window offset limit (sort_desc key rows), length rows)

-- A filter by the group, where the request names one.
abbrev pub matches_group : Option ℕ → Friend → Bool
matches_group none f = true
matches_group (some g) f = in_group g f.group_id

unfoldable pub list_friend_rows : ℕ → Option ℕ → ℕ → Option ℕ → Contacts → List Friend × ℕ
list_friend_rows user group offset limit t =
    newest_first (λ (f : Friend). f.created_at) offset limit
      (select (λ f. f.user_id == user && matches_group group f) t.friends)

unfoldable pub list_block_rows : ℕ → ℕ → Option ℕ → Contacts → List UserBlock × ℕ
list_block_rows user offset limit t =
    newest_first (λ (b : UserBlock). b.created_at) offset limit
      (select (λ b. b.user_id == user) t.blocks)

unfoldable pub list_pending_rows : ℕ → ℕ → Option ℕ → Contacts → List FriendRequest × ℕ
list_pending_rows user offset limit t =
    newest_first (λ (q : FriendRequest). q.created_at) offset limit
      (select (λ q. q.to_user_id == user && is_pending q.status) t.requests)

unfoldable pub list_sent_rows : ℕ → ℕ → Option ℕ → Contacts → List FriendRequest × ℕ
list_sent_rows user offset limit t =
    newest_first (λ (q : FriendRequest). q.created_at) offset limit
      (select (λ q. q.from_user_id == user) t.requests)
