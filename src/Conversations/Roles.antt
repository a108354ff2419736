-- ===== src/Conversations/Roles.antt =====
-- transferownerlogic.go, updatememberlogic.go, mutememberlogic.go, unmutememberlogic.go,
-- mutealllogic.go and unmutealllogic.go.
use maim.Common.{
  int64, ℕ, ◌+◌, Bool, true, false, ◌||◌, not, Option, none, some, List, [], ◌∷◌, Result, ok, ◌>>=◌,
  ◌>>◌, guard, or_fail, if◌then◌else◌, ◌==◌, update, ℤ, pos, pos_part, ltb_ℤ,
}
use maim.Conversations.Model.{
  Conversation, Member, Channel, Room, ConvError, forbidden, record_not_found, member_not_found,
  ownership_change, owner_role, admin_role, member_role, by_user, is_system,
}
use maim.Conversations.Channel.{publish_conversation_change, recipients_of}
use maim.Conversations.Permission.{
  get_member, require_role, verify_target_not_higher, lock_conversation,
}

-- The rows as a handler leaves them, and the change for all members behind them.
unfoldable pub publish_to_all :
    (ℕ → Option ℕ) → Conversation → List Member → Channel → Result ConvError Room
publish_to_all new_id c ms ch = do
  ch' ← publish_conversation_change new_id (recipients_of ms) [] ch
  ok (record { conv = some c; members = ms; channel = ch' })

abbrev pub update_member_role : ℕ → ℕ → List Member → List Member
update_member_role user role ms = update (by_user user) (λ m. record m { role = role }) ms

-- A transfer to oneself changes nothing.
unfoldable pub transfer_owner :
    (ℕ → Bool) → (ℕ → Option ℕ) → ℕ → ℕ → ℕ → ℕ → Room → Result ConvError Room
unfolding publish_to_all
transfer_owner valid new_id caller operator conv_id new_owner r = do
  c ← lock_conversation valid caller operator (conv_id ∷ new_owner ∷ []) r
  require_role operator owner_role c r.members
  target ← or_fail (get_member new_owner r.members) record_not_found
  if new_owner == operator
      then ok r
      else publish_to_all new_id (record c { owner_id = some new_owner })
          (update_member_role operator member_role
            (update_member_role new_owner owner_role r.members))
          r.channel

-- The role of a member that is not the owner may be set to admin or member, by the owner.
unfoldable pub check_new_role :
    ℕ → Option ℤ → Conversation → List Member → Member → Result ConvError Member
check_new_role operator none c ms m = ok m
check_new_role operator (some role) c ms m = do
  require_role operator owner_role c ms
  guard
      (not (m.role == owner_role || (ltb_ℤ role (pos admin_role) || ltb_ℤ (pos member_role) role)))
      ownership_change
  ok (record m { role = pos_part role })

unfoldable pub check_new_alias :
    ℕ → ℕ → Option ℕ → Conversation → List Member → Member → Result ConvError Member
check_new_alias operator user none c ms m = ok m
check_new_alias operator user (some alias) c ms m = do
  if user == operator
      then ok tt
      else (do require_role operator admin_role c ms; verify_target_not_higher user operator ms)
  ok (record m { alias = alias })

unfoldable pub update_member :
    (ℕ → Bool) → (ℕ → Option ℕ) → ℕ → ℕ → ℕ → ℕ → Option ℤ → Option ℕ → Room → Result ConvError Room
unfolding publish_to_all
update_member valid new_id caller operator conv_id user role alias r = do
  c ← lock_conversation valid caller operator (conv_id ∷ user ∷ []) r
  guard (not (is_system c.type)) forbidden
  require_role operator member_role c r.members
  m ← or_fail (get_member user r.members) member_not_found
  m1 ← check_new_role operator role c r.members m
  m2 ← check_new_alias operator user alias c r.members m1
  publish_to_all new_id c
      (update (by_user user) (λ x. record x { role = m2.role; alias = m2.alias }) r.members)
      r.channel

-- A duration of zero or less mutes without an end.
abbrev pub mute_end : ℕ → ℤ → ℤ
mute_end now duration = if ltb_ℤ (pos 0) duration then int64 (now + pos_part duration) else pos 0

unfoldable pub mute_member :
    (ℕ → Bool) → (ℕ → Option ℕ) → ℕ → ℕ → ℕ → ℕ → ℕ → ℤ → Room → Result ConvError Room
unfolding publish_to_all
mute_member valid new_id now caller operator conv_id user duration r = do
  c ← lock_conversation valid caller operator (conv_id ∷ user ∷ []) r
  require_role operator admin_role c r.members
  verify_target_not_higher user operator r.members
  publish_to_all new_id c
      (update (by_user user) (λ m. record m { is_muted = true; mute_until = mute_end now duration })
        r.members)
      r.channel

unfoldable pub unmute_member :
    (ℕ → Bool) → (ℕ → Option ℕ) → ℕ → ℕ → ℕ → ℕ → Room → Result ConvError Room
unfolding publish_to_all
unmute_member valid new_id caller operator conv_id user r = do
  c ← lock_conversation valid caller operator (conv_id ∷ user ∷ []) r
  require_role operator admin_role c r.members
  verify_target_not_higher user operator r.members
  publish_to_all new_id c
      (update (by_user user) (λ m. record m { is_muted = false; mute_until = pos 0 }) r.members)
      r.channel

unfoldable pub mute_all : (ℕ → Bool) → (ℕ → Option ℕ) → ℕ → ℕ → ℕ → Room → Result ConvError Room
unfolding publish_to_all
mute_all valid new_id caller operator conv_id r = do
  c ← lock_conversation valid caller operator (conv_id ∷ []) r
  require_role operator admin_role c r.members
  publish_to_all new_id (record c { is_muted_all = true }) r.members r.channel

unfoldable pub unmute_all : (ℕ → Bool) → (ℕ → Option ℕ) → ℕ → ℕ → ℕ → Room → Result ConvError Room
unfolding publish_to_all
unmute_all valid new_id caller operator conv_id r = do
  c ← lock_conversation valid caller operator (conv_id ∷ []) r
  require_role operator admin_role c r.members
  publish_to_all new_id (record c { is_muted_all = false }) r.members r.channel
