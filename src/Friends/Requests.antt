-- ===== src/Friends/Requests.antt =====
-- The requests of contact: sendrequestlogic.go, acceptrequestlogic.go, rejectrequestlogic.go and
-- cancelrequestlogic.go.
use maim.Common.{ℕ, Bool, ◌&&◌, not, Option, [], ◌∷◌, Result, ok, ◌>>=◌, ◌>>◌, guard, or_fail, ◌==◌}
use maim.Friends.Model.{
  pending, rejected, cancelled, FriendRequest, Contacts, FriendError, cannot_friend_self,
  already_friend, blocked, request_already_sent, not_recipient, not_sender, request_already_handled,
  identity_error, is_pending,
}
use maim.Friends.Caller.{check_caller, get_user_info}
use maim.Friends.Repo.{
  is_friend, is_blocked, check_pending, create_request, get_request, update_status, accept,
}

-- What SendRequest checks before it writes; the sender.
unfoldable pub send_request_checks : (ℕ → Bool) → ℕ → ℕ → ℕ → Contacts → Result FriendError ℕ
unfolding check_caller get_user_info is_friend is_blocked check_pending
send_request_checks valid caller from_ to t = do
  user ← check_caller valid caller from_ (to ∷ [])
  guard (valid to && not (user == to)) cannot_friend_self
  target ← get_user_info valid to t
  guard (not (is_friend user to t)) already_friend
  guard (not (is_blocked user to t)) blocked
  guard (not (check_pending user to t)) request_already_sent
  ok user

unfoldable pub send_request :
    (ℕ → Bool) → Option ℕ → ℕ → ℕ → ℕ → ℕ → ℕ → Contacts → Result FriendError (Contacts × ℕ)
unfolding send_request_checks
send_request valid new_id now caller from_ to message t = do
  user ← send_request_checks valid caller from_ to t
  id ← or_fail new_id identity_error
  t' ←
      create_request
        (record {
          id = id;
          from_user_id = user;
          to_user_id = to;
          message = message;
          status = pending;
          created_at = now;
          updated_at = now;
        })
        t
  ok (t', id)

-- What AcceptRequest reads and checks before its transaction; the request as it was read.
unfoldable pub accept_request_checks :
    (ℕ → Bool) → ℕ → ℕ → ℕ → Contacts → Result FriendError FriendRequest
unfolding check_caller get_request is_blocked
accept_request_checks valid caller requested id t = do
  user ← check_caller valid caller requested (id ∷ [])
  q ← get_request id t
  guard (q.to_user_id == user) not_recipient
  guard (is_pending q.status) request_already_handled
  guard (not (is_blocked q.from_user_id q.to_user_id t)) blocked
  ok q

unfoldable pub accept_request :
    (ℕ → Bool) → Option ℕ → Option ℕ → ℕ → ℕ → ℕ → ℕ → Contacts → Result FriendError Contacts
unfolding accept_request_checks accept
accept_request valid new_id1 new_id2 now caller requested id t = do
  q ← accept_request_checks valid caller requested id t
  accept new_id1 new_id2 now q t

unfoldable pub reject_request : (ℕ → Bool) → ℕ → ℕ → ℕ → ℕ → Contacts → Result FriendError Contacts
unfolding check_caller get_request update_status
reject_request valid now caller requested id t = do
  user ← check_caller valid caller requested (id ∷ [])
  q ← get_request id t
  guard (q.to_user_id == user) not_recipient
  guard (is_pending q.status) request_already_handled
  update_status now q.id rejected t

unfoldable pub cancel_request : (ℕ → Bool) → ℕ → ℕ → ℕ → ℕ → Contacts → Result FriendError Contacts
unfolding check_caller get_request update_status
cancel_request valid now caller requested id t = do
  user ← check_caller valid caller requested (id ∷ [])
  q ← get_request id t
  guard (q.from_user_id == user) not_sender
  guard (is_pending q.status) request_already_handled
  update_status now q.id cancelled t
