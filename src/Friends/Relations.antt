-- ===== src/Friends/Relations.antt =====
-- Blocks, friendships and remarks: blockuserlogic.go, unblockuserlogic.go, isblockedlogic.go,
-- deletefriendlogic.go and setremarklogic.go.
use maim.Common.{
  ℕ, Bool, ◌||◌, not, Option, [], ◌∷◌, Result, ok, ◌>>=◌, ◌>>◌, guard, if◌then◌else◌, ◌==◌,
}
use maim.Friends.Model.{Contacts, FriendError, invalid_param, not_friend}
use maim.Friends.Caller.{check_caller, validate_caller, get_user_info}
use maim.Friends.Repo.{
  is_friend, has_block, is_blocked, create_block, delete_block, delete_pair, update_remark,
}

-- The friendship goes even if the block is an old one.
unfoldable pub block_user :
    (ℕ → Bool) → Option ℕ → ℕ → ℕ → ℕ → ℕ → Contacts → Result FriendError Contacts
unfolding check_caller get_user_info has_block create_block delete_pair
block_user valid new_id now caller requested target t = do
  user ← check_caller valid caller requested (target ∷ [])
  guard (not (target == 0 || user == target)) invalid_param
  info ← get_user_info valid target t
  t' ← if has_block user target t then ok t else create_block new_id now user target t
  ok (delete_pair user target t')

unfoldable pub unblock_user : (ℕ → Bool) → ℕ → ℕ → ℕ → Contacts → Result FriendError Contacts
unfolding check_caller delete_block
unblock_user valid caller requested target t = do
  user ← check_caller valid caller requested (target ∷ [])
  ok (delete_block user target t)

-- The block is looked up for the user that the request names, which is the caller.
unfoldable pub is_blocked_user : (ℕ → Bool) → ℕ → ℕ → ℕ → Contacts → Result FriendError Bool
unfolding validate_caller is_blocked
is_blocked_user valid caller requested target t = do
  validate_caller valid caller requested (target ∷ [])
  guard (not (requested == 0)) invalid_param
  ok (is_blocked requested target t)

unfoldable pub delete_friend : (ℕ → Bool) → ℕ → ℕ → ℕ → Contacts → Result FriendError Contacts
unfolding check_caller is_friend delete_pair
delete_friend valid caller requested friend t = do
  user ← check_caller valid caller requested (friend ∷ [])
  guard (is_friend user friend t) not_friend
  ok (delete_pair user friend t)

unfoldable pub set_remark : (ℕ → Bool) → ℕ → ℕ → ℕ → ℕ → Contacts → Result FriendError Contacts
unfolding check_caller is_friend update_remark
set_remark valid caller requested friend remark t = do
  user ← check_caller valid caller requested (friend ∷ [])
  guard (is_friend user friend t) not_friend
  ok (update_remark user friend remark t)
