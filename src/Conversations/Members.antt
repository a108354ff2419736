-- ===== src/Conversations/Members.antt =====
-- addmemberslogic.go with AddMembersWithinLimit, removememberslogic.go and deleteconversationlogic.go.
use maim.Common.{
  ℕ, zero, suc, ◌+◌, Bool, true, false, ◌||◌, not, Option, none, some, List, [], ◌∷◌, ◌++◌, Result,
  ok, ◌>>=◌, ◌>>◌, guard, or_fail, if◌then◌else◌, ◌==◌, leb, exists, delete, length, map, ℤ, pos,
  negsuc, ◌+ℤ◌,
}
use maim.Conversations.Model.{
  Conversation, Member, member_joined, member_left, Channel, Room, ConvError, invalid_param,
  forbidden, record_not_found, max_members, identity_error, owner_role, admin_role, member_role,
  by_user, is_system,
}
use maim.Conversations.Channel.{publish_bot_activity, publish_conversation_change, recipients_of}
use maim.Conversations.Permission.{
  all_valid, get_member, require_role, verify_target_not_higher, validate_request,
  lock_conversation,
}

-- The rows of the request, each user with what identity.New returns for it.
unfoldable pub new_members : ℕ → List (ℕ × Option ℕ) → Result ConvError (List Member)
new_members now [] = ok []
new_members now ((user, new_id) ∷ us) = do
  id ← or_fail new_id identity_error
  rest ← new_members now us
  ok (
      record {
        id = id;
        user_id = user;
        role = member_role;
        alias = 0;
        is_muted = false;
        mute_until = pos 0;
        joined_at = now;
      }
      ∷ rest)

abbrev pub seen_in : List ℕ → ℕ → Bool
seen_in seen user = exists (λ u. u == user) seen

abbrev pub users_of : List Member → List ℕ
users_of ms = map (λ (m : Member). m.user_id) ms

-- The loop over the candidates: those that are new, each user once.
unfoldable pub admitted : List ℕ → List Member → List Member
admitted seen [] = []
admitted seen (m ∷ ms) = elim (seen_in seen m.user_id) [
  | true ↦ admitted seen ms
  | false ↦ m ∷ admitted (m.user_id ∷ seen) ms
]

-- The candidates that are members already, or stand in the request before.
unfoldable pub refused : List ℕ → List Member → List ℕ
refused seen [] = []
refused seen (m ∷ ms) = elim (seen_in seen m.user_id) [
  | true ↦ m.user_id ∷ refused seen ms
  | false ↦ refused (m.user_id ∷ seen) ms
]

abbrev pub is_none_of : List Member → Bool
is_none_of [] = true
is_none_of (m ∷ ms) = false

-- AddMembersWithinLimit; the members that were added.
unfoldable pub add_members_within_limit :
    (ℕ → Bool)
    → ℕ
    → List Member
    → Conversation
    → List Member
    → Result ConvError (Conversation × List Member × List Member)
unfolding admitted
add_members_within_limit valid limit candidates c ms = do
  guard (is_none_of candidates || all_valid valid (users_of ms)) invalid_param
  guard (all_valid valid (users_of candidates)) invalid_param
  let pending = admitted (users_of ms) candidates
  guard (is_none_of pending || leb (length ms + length pending) limit) max_members
  ok (record c { member_count = c.member_count +ℤ pos (length pending) }, ms ++ pending, pending)

-- The activity of each member that joined.
unfoldable pub publish_joined : (ℕ → Option ℕ) → List Member → Channel → Result ConvError Channel
publish_joined new_id [] ch = ok ch
publish_joined new_id (m ∷ ms) ch =
    publish_bot_activity new_id (member_joined m.user_id) ch >>= publish_joined new_id ms

unfoldable pub add_members :
    (ℕ → Bool)
    → (ℕ → Option ℕ)
    → ℕ
    → ℕ
    → ℕ
    → ℕ
    → ℕ
    → List (ℕ × Option ℕ)
    → Room
    → Result ConvError (Room × List ℕ × List ℕ)
unfolding new_members refused publish_joined
add_members valid new_id limit now caller operator conv_id users r = do
  validate_request valid caller operator (conv_id ∷ [])
  validate_request valid caller operator (map (λ (u : ℕ × Option ℕ). u.0) users)
  candidates ← new_members now users
  c ← or_fail r.conv record_not_found
  require_role operator admin_role c r.members
  (c', members', pending) ← add_members_within_limit valid limit candidates c r.members
  ch ← if is_none_of pending then ok r.channel else (do
    joined ← publish_joined new_id pending r.channel
    publish_conversation_change new_id (recipients_of members') [] joined)
  ok (
    record { conv = some c'; members = members'; channel = ch },
    users_of pending,
    refused (users_of r.members) candidates,
  )

-- Another user is removed by an admin, and only from below.
unfoldable pub check_removal : ℕ → Conversation → List Member → ℕ → Result ConvError (Unit {0})
check_removal operator c ms user =
    if user == operator
    then ok tt
    else (do require_role operator admin_role c ms; verify_target_not_higher user operator ms)

-- The loop over the request: the rows to remove, each once.
unfoldable pub removal_targets :
    ℕ → Conversation → List Member → List ℕ → List ℕ → Result ConvError (List Member)
removal_targets operator c ms seen [] = ok []
removal_targets operator c ms seen (u ∷ us) = elim (seen_in seen u) [
  | true ↦ removal_targets operator c ms seen us
  | false ↦ do
    check_removal operator c ms u
    m ← or_fail (get_member u ms) record_not_found
    rest ← removal_targets operator c ms (u ∷ seen) us
    ok (m ∷ rest)
]

-- The rows go one by one, each with the activity of its user.
unfoldable pub remove_each :
    (ℕ → Option ℕ) → List Member → List Member → Channel → Result ConvError (List Member × Channel)
remove_each new_id [] ms ch = ok (ms, ch)
remove_each new_id (t ∷ ts) ms ch = do
  ch' ← publish_bot_activity new_id (member_left t.user_id) ch
  remove_each new_id ts (delete (by_user t.user_id) ms) ch'

abbrev pub negated : ℕ → ℤ
negated zero = pos 0
negated (suc n) = negsuc n

unfoldable pub remove_members :
    (ℕ → Bool) → (ℕ → Option ℕ) → ℕ → ℕ → ℕ → List ℕ → Room → Result ConvError Room
unfolding removal_targets remove_each
remove_members valid new_id caller operator conv_id users r = do
  validate_request valid caller operator (conv_id ∷ [])
  validate_request valid caller operator users
  c ← or_fail r.conv record_not_found
  guard (not (is_system c.type)) forbidden
  require_role operator member_role c r.members
  targets ← removal_targets operator c r.members [] users
  (members', ch) ← remove_each new_id targets r.members r.channel
  ch' ← publish_conversation_change new_id (recipients_of members') (users_of targets) ch
  ok (record {
    conv = some (record c { member_count = c.member_count +ℤ negated (length targets) });
    members = members';
    channel = ch';
  })

-- The bindings of bots, the settings and the read positions of the conversation go as well.
unfoldable pub delete_conversation :
    (ℕ → Bool) → (ℕ → Option ℕ) → ℕ → ℕ → ℕ → Room → Result ConvError Room
delete_conversation valid new_id caller user conv_id r = do
  c ← lock_conversation valid caller user (conv_id ∷ []) r
  require_role user owner_role c r.members
  ch ← publish_conversation_change new_id [] (recipients_of r.members) r.channel
  ok (record { conv = none; members = []; channel = ch })
