-- ===== src/Friends/Model.antt =====
-- The rows of app/user-service/internal/model and the tables that the handlers share. An identity is
-- a number, one for each text, and 0 is the empty text; so is a text that is only carried along, and
-- a time. A group's name is the list of its code points.
use maim.Common.{ℕ, Bool, true, false, ◌&&◌, Option, List, ◌==◌}

pub data FriendStatus : Type 0 where
  pending accepted rejected cancelled : FriendStatus

pub record User : Type 0 where
  pub id : ℕ
  pub username : ℕ
  pub avatar : ℕ

pub record FriendRequest : Type 0 where
  pub id : ℕ
  pub from_user_id : ℕ
  pub to_user_id : ℕ
  pub message : ℕ
  pub status : FriendStatus
  pub created_at : ℕ
  pub updated_at : ℕ

pub record Friend : Type 0 where
  pub id : ℕ
  pub user_id : ℕ
  pub friend_id : ℕ
  pub group_id : Option ℕ
  pub remark : ℕ
  pub created_at : ℕ

pub record FriendGroup : Type 0 where
  pub id : ℕ
  pub user_id : ℕ
  pub name : List ℕ
  pub sort_order : ℕ
  pub created_at : ℕ

pub record UserBlock : Type 0 where
  pub id : ℕ
  pub user_id : ℕ
  pub blocked_user_id : ℕ
  pub created_at : ℕ

pub record Contacts : Type 0 where
  pub users : List User
  pub requests : List FriendRequest
  pub friends : List Friend
  pub groups : List FriendGroup
  pub blocks : List UserBlock

pub data FriendError : Type 0 where
  unauthenticated forbidden invalid_param invalid_user_id user_not_found : FriendError
  cannot_friend_self already_friend not_friend blocked request_already_sent : FriendError
  request_not_found not_recipient not_sender request_already_handled : FriendError
  group_not_found not_group_owner identity_error duplicate_key : FriendError

abbrev pub is_pending : FriendStatus → Bool
is_pending pending = true
is_pending _ = false

-- WHERE user_id = ? AND friend_id = ?.
abbrev pub pair_key : ℕ → ℕ → Friend → Bool
pair_key user friend f = f.user_id == user && f.friend_id == friend

-- WHERE user_id = ? AND blocked_user_id = ?.
abbrev pub block_key : ℕ → ℕ → UserBlock → Bool
block_key user target b = b.user_id == user && b.blocked_user_id == target
