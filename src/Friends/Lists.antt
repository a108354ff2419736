-- ===== src/Friends/Lists.antt =====
-- The lists of friends, blocks and requests: listfriendslogic.go, listblacklistlogic.go,
-- listpendingrequestslogic.go and listsentrequestslogic.go.
use maim.Common.{
  ℕ, Bool, true, Option, none, some, List, [], map, Result, ok, err, ◌>>=◌, ◌>>◌, guard,
  if◌then◌else◌, pos, ltb_ℤ, pos_part,
}
use maim.Friends.Model.{
  User, FriendStatus, FriendRequest, Friend, FriendGroup, UserBlock, Contacts, FriendError,
  invalid_param,
}
use maim.Friends.Caller.{
  check_caller, batch_get_user_info, user_of, Pagination, PaginationResp, pagination_params,
  pagination_resp, reported_page,
}
use maim.Friends.Repo.{
  get_group, list_friend_rows, list_block_rows, list_pending_rows, list_sent_rows,
}

-- A name or an avatar is the empty text without a profile.
abbrev username_from_user : Option User → ℕ
username_from_user none = 0
username_from_user (some u) = u.username

abbrev avatar_from_user : Option User → ℕ
avatar_from_user none = 0
avatar_from_user (some u) = u.avatar

pub record FriendInfo : Type 0 where
  pub user_id : ℕ
  pub username : ℕ
  pub avatar : ℕ
  pub remark : ℕ
  pub group_id : Option ℕ
  pub group_name : List ℕ
  pub created_at : ℕ

abbrev name_of : Result FriendError FriendGroup → List ℕ
name_of (ok g) = g.name
name_of (err e) = []

-- A group that is gone has no name.
abbrev group_name : Option ℕ → Contacts → List ℕ
group_name none t = []
group_name (some g) t = name_of (get_group g t)

abbrev pub friend_info : List User → Contacts → Friend → FriendInfo
friend_info users t f = record {
  user_id = f.friend_id;
  username = username_from_user (user_of f.friend_id users);
  avatar = avatar_from_user (user_of f.friend_id users);
  remark = f.remark;
  group_id = f.group_id;
  group_name = group_name f.group_id t;
  created_at = f.created_at;
}

abbrev valid_group : (ℕ → Bool) → Option ℕ → Bool
valid_group valid none = true
valid_group valid (some g) = valid g

-- The answer of a list: its items and its page.
abbrev respond {ℓ} : {A : Type ℓ} → ℕ × ℕ → ℕ → List A → List A × PaginationResp
respond (page, size) total items = (items, pagination_resp page size total)

unfoldable pub list_friends :
    (ℕ → Bool)
    → ℕ
    → ℕ
    → Option ℕ
    → Option Pagination
    → Contacts
    → Result FriendError (List FriendInfo × PaginationResp)
unfolding check_caller list_friend_rows batch_get_user_info pagination_params reported_page
    pagination_resp get_group
list_friends valid caller requested group p t = do
  guard (valid_group valid group) invalid_param
  user ← check_caller valid caller requested []
  let (offset, limit) = pagination_params p
  let (friends, total) = list_friend_rows user group offset (some limit) t
  users ← batch_get_user_info valid (map (λ (f : Friend). f.friend_id) friends) t
  ok (respond (reported_page p) total (map (friend_info users t) friends))

pub record BlacklistUser : Type 0 where
  pub user_id : ℕ
  pub username : ℕ
  pub avatar : ℕ
  pub blocked_at : ℕ

abbrev pub blacklist_user : List User → UserBlock → BlacklistUser
blacklist_user users b = record {
  user_id = b.blocked_user_id;
  username = username_from_user (user_of b.blocked_user_id users);
  avatar = avatar_from_user (user_of b.blocked_user_id users);
  blocked_at = b.created_at;
}

unfoldable pub list_blacklist :
    (ℕ → Bool)
    → ℕ
    → ℕ
    → Option Pagination
    → Contacts
    → Result FriendError (List BlacklistUser × PaginationResp)
unfolding check_caller list_block_rows batch_get_user_info pagination_params reported_page
    pagination_resp
list_blacklist valid caller requested p t = do
  user ← check_caller valid caller requested []
  let (offset, limit) = pagination_params p
  let (blocks, total) = list_block_rows user offset (some limit) t
  users ← batch_get_user_info valid (map (λ (b : UserBlock). b.blocked_user_id) blocks) t
  ok (respond (reported_page p) total (map (blacklist_user users) blocks))

-- A request as it is shown, with the profile of its other side.
pub record RequestInfo : Type 0 where
  pub request_id : ℕ
  pub from_user_id : ℕ
  pub to_user_id : ℕ
  pub message : ℕ
  pub status : FriendStatus
  pub created_at : ℕ
  pub updated_at : ℕ
  pub from_username : ℕ
  pub from_avatar : ℕ

abbrev pub request_info : (FriendRequest → ℕ) → List User → FriendRequest → RequestInfo
request_info side users q = record {
  request_id = q.id;
  from_user_id = q.from_user_id;
  to_user_id = q.to_user_id;
  message = q.message;
  status = q.status;
  created_at = q.created_at;
  updated_at = q.updated_at;
  from_username = username_from_user (user_of (side q) users);
  from_avatar = avatar_from_user (user_of (side q) users);
}

-- The page that the lists of requests report, and the limit.
abbrev request_page : Option Pagination → ℕ
request_page none = 1
request_page (some p) = if ltb_ℤ (pos 0) p.page then pos_part p.page else 1

unfoldable pub list_pending_requests :
    (ℕ → Bool)
    → ℕ
    → ℕ
    → Option Pagination
    → Contacts
    → Result FriendError (List RequestInfo × PaginationResp)
unfolding check_caller list_pending_rows batch_get_user_info pagination_params pagination_resp
list_pending_requests valid caller requested p t = do
  user ← check_caller valid caller requested []
  let (offset, limit) = pagination_params p
  let (requests, total) = list_pending_rows user offset (some limit) t
  users ← batch_get_user_info valid (map (λ (q : FriendRequest). q.from_user_id) requests) t
  ok (
      respond (request_page p, limit) total
        (map (request_info (λ (q : FriendRequest). q.from_user_id) users) requests))

-- The profile beside a sent request is its recipient's, in the fields of the sender.
unfoldable pub list_sent_requests :
    (ℕ → Bool)
    → ℕ
    → ℕ
    → Option Pagination
    → Contacts
    → Result FriendError (List RequestInfo × PaginationResp)
unfolding check_caller list_sent_rows batch_get_user_info pagination_params pagination_resp
list_sent_requests valid caller requested p t = do
  user ← check_caller valid caller requested []
  let (offset, limit) = pagination_params p
  let (requests, total) = list_sent_rows user offset (some limit) t
  users ← batch_get_user_info valid (map (λ (q : FriendRequest). q.to_user_id) requests) t
  ok (
      respond (request_page p, limit) total
        (map (request_info (λ (q : FriendRequest). q.to_user_id) users) requests))
