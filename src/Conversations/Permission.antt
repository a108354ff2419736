-- ===== src/Conversations/Permission.antt =====
-- validateRequest of helper.go, and requireRole and verifyTargetNotHigher of permission.go. `valid` is
-- identity.Validate, and `caller` the identity in the call's context.
use maim.Common.{
  ℕ, Bool, true, ◌&&◌, not, Option, List, [], ◌∷◌, Result, ◌>>=◌, ◌>>◌, guard, or_fail, ◌==◌, ltb,
  leb, find,
}
use maim.Conversations.Model.{
  Conversation, Member, Room, ConvError, invalid_param, unauthorized, forbidden, record_not_found,
  not_a_member, insufficient_permissions, target_not_member, operator_not_member, higher_role,
  is_system, admin_role, by_user,
}

abbrev pub all_valid : (ℕ → Bool) → List ℕ → Bool
all_valid valid [] = true
all_valid valid (i ∷ is) = valid i && all_valid valid is

unfoldable pub validate_request : (ℕ → Bool) → ℕ → ℕ → List ℕ → Result ConvError (Unit {0})
validate_request valid caller user ids = do
  guard (valid user) invalid_param
  guard (all_valid valid ids) invalid_param
  guard (valid caller) unauthorized
  guard (caller == user) forbidden

abbrev pub get_member : ℕ → List Member → Option Member
get_member user ms = find (by_user user) ms

-- A smaller number is a higher role.
unfoldable pub require_role : ℕ → ℕ → Conversation → List Member → Result ConvError (Unit {0})
require_role operator min_role c ms = do
  guard (not (leb min_role admin_role && is_system c.type)) forbidden
  m ← or_fail (get_member operator ms) not_a_member
  guard (leb m.role min_role) insufficient_permissions

unfoldable pub verify_target_not_higher : ℕ → ℕ → List Member → Result ConvError (Unit {0})
verify_target_not_higher target operator ms = do
  t ← or_fail (get_member target ms) target_not_member
  o ← or_fail (get_member operator ms) operator_not_member
  guard (ltb o.role t.role) higher_role

-- withLockedConversation: the request's checks, and the row of the conversation.
unfoldable pub lock_conversation :
    (ℕ → Bool) → ℕ → ℕ → List ℕ → Room → Result ConvError Conversation
unfolding validate_request
lock_conversation valid caller operator ids r = do
  validate_request valid caller operator ids
  or_fail r.conv record_not_found
