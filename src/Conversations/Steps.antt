-- ===== src/Conversations/Steps.antt =====
-- What a handler that succeeds has done to the rows of its conversation.
use maim.Common.{
  ℕ, ◌+◌, ◌≤◌, ◌<◌, ◌≡◌, ◌⊎◌, Bool, true, false, ◌&&◌, ◌||◌, not, Option, none, some, List, [],
  ◌++◌, arith, All, ok, >>=-eq-ok, or_fail, or_fail-eq-ok, guard, ◌==◌, leb, update, length, pos,
  ◌+ℤ◌,
}
use maim.Conversations.Model.{
  Conversation, Member, Channel, Room, forbidden, not_a_member, target_not_member,
  operator_not_member, owner_role, admin_role, member_role, by_user, is_system,
}
use maim.Conversations.Channel.{publish_conversation_change, recipients_of}
use maim.Conversations.Permission.{
  get_member, require_role, verify_target_not_higher, validate_request, lock_conversation,
}
use maim.Conversations.Members.{
  admitted, users_of, is_none_of, removal_targets, remove_each, negated,
}
use maim.Conversations.Roles.{publish_to_all, update_member_role}
use maim.Conversations.Publishing.{IsChannel, publish_conversation_change-IsChannel}

-- The user is a member with the role or a higher one.
abbrev pub HasRole : ℕ → ℕ → List Member → Type 0
HasRole user role ms = (m : Member) × (get_member user ms ≡ some m) × (m.role ≤ role)

-- New members have the lowest role.
abbrev pub Plain : List Member → Type 0
Plain ms = All (λ m. m.role ≡ 3) ms

-- Why the actor may change the row `m` of the user by `f`: it is the actor's own, the actor is the
-- owner or stands above, or nothing changes.
pub data MayChange (actor user : ℕ) (ms : List Member) (m : Member) (f : Member → Member)
    : Type 0 where
  own : user ≡ actor → MayChange actor user ms m f
  by_owner : HasRole actor 1 ms → MayChange actor user ms m f
  above :
      (o : Member) → get_member actor ms ≡ some o → o.role < m.role → MayChange actor user ms m f
  same : f m ≡ m → MayChange actor user ms m f

pub record IsRewrite (actor user : ℕ) (ms : List Member) (f : Member → Member) : Type 0 where
  pub row : Member
  pub stored : get_member user ms ≡ some row
  pub keeps_user : (x : Member) → (f x).user_id ≡ x.user_id
  pub role : ((f row).role ≡ row.role) ⊎ ((2 ≤ (f row).role) × ((f row).role ≤ 3))
  pub may : MayChange actor user ms row f

pub data Step (actor : ℕ) (r r' : Room) : Type 0 where
  stays : r' ≡ r → Step actor r r'
  joins :
      (c : Conversation) (candidates : List Member) (limit : ℕ) (ch : Channel)
      → r.conv ≡ some c
      → Plain candidates
      → ((is_none_of (admitted (users_of r.members) candidates)
            || leb (length r.members + length (admitted (users_of r.members) candidates)) limit)
          ≡ true)
      → (IsChannel r.channel → IsChannel ch)
      → r' ≡ record {
        conv = some (record c {
          member_count = c.member_count +ℤ pos (length (admitted (users_of r.members) candidates));
        });
        members = r.members ++ admitted (users_of r.members) candidates;
        channel = ch;
      }
      → Step actor r r'
  leaves :
      (c : Conversation) (users : List ℕ) (new_id : ℕ → Option ℕ) (targets ms : List Member)
      (ch ch' : Channel)
      → r.conv ≡ some c
      → removal_targets actor c r.members [] users ≡ ok targets
      → remove_each new_id targets r.members r.channel ≡ ok (ms, ch)
      → (IsChannel ch → IsChannel ch')
      → r' ≡ record {
        conv = some (record c { member_count = c.member_count +ℤ negated (length targets) });
        members = ms;
        channel = ch';
      }
      → Step actor r r'
  transfers :
      (c : Conversation) (new : ℕ) (target : Member) (ch : Channel)
      → r.conv ≡ some c
      → HasRole actor 1 r.members
      → get_member new r.members ≡ some target
      → (new == actor) ≡ false
      → (IsChannel r.channel → IsChannel ch)
      → r' ≡ record {
        conv = some (record c { owner_id = some new });
        members =
            update_member_role actor member_role (update_member_role new owner_role r.members);
        channel = ch;
      }
      → Step actor r r'
  rewrites :
      (c : Conversation) (user : ℕ) (f : Member → Member) (ch : Channel)
      → r.conv ≡ some c
      → IsRewrite actor user r.members f
      → (IsChannel r.channel → IsChannel ch)
      → r' ≡ record { conv = some c; members = update (by_user user) f r.members; channel = ch }
      → Step actor r r'
  flags :
      (c : Conversation) (muted : Bool) (ch : Channel)
      → r.conv ≡ some c
      → (IsChannel r.channel → IsChannel ch)
      → r' ≡ record {
        conv = some (record c { is_muted_all = muted });
        members = r.members;
        channel = ch;
      }
      → Step actor r r'
  deletes :
      (ch : Channel)
      → HasRole actor 1 r.members
      → (IsChannel r.channel → IsChannel ch)
      → r' ≡ record { conv = none; members = []; channel = ch }
      → Step actor r r'

pub require_role-HasRole :
    (operator role : ℕ) (c : Conversation) (ms : List Member) {u : Unit {0}}
    → require_role operator role c ms ≡ ok u
    → HasRole operator role ms
unfolding require_role
require_role-HasRole operator role c ms h =
    let (a, b, h1) =
      >>=-eq-ok (guard (not (leb role admin_role && is_system c.type)) forbidden) _ h in
    let (m, found, h2) = >>=-eq-ok (or_fail (get_member operator ms) not_a_member) _ h1 in
    (m, or_fail-eq-ok _ _ found, ground arith)

pub verify_target_not_higher-above :
    (target operator : ℕ) (ms : List Member) {u : Unit {0}}
    → verify_target_not_higher target operator ms ≡ ok u
    → (t o : Member) × (get_member target ms ≡ some t)
      × (get_member operator ms ≡ some o)
      × (o.role < t.role)
unfolding verify_target_not_higher
verify_target_not_higher-above target operator ms h =
    let (t, e, h1) = >>=-eq-ok (or_fail (get_member target ms) target_not_member) _ h in
    let (o, d, h2) = >>=-eq-ok (or_fail (get_member operator ms) operator_not_member) _ h1 in
    (t, o, or_fail-eq-ok _ _ e, or_fail-eq-ok _ _ d, ground arith)

pub lock_conversation_lem :
    (valid : ℕ → Bool) (caller operator : ℕ) (ids : List ℕ) (r : Room) (c : Conversation)
    → lock_conversation valid caller operator ids r ≡ ok c
    → (r.conv ≡ some c) × (operator ≡ caller)
unfolding lock_conversation validate_request
lock_conversation_lem valid caller operator ids r c h = (ground arith, ground arith)

pub publish_to_all_lem :
    (new_id : ℕ → Option ℕ) (c : Conversation) (ms : List Member) (ch : Channel) (r' : Room)
    → publish_to_all new_id c ms ch ≡ ok r'
    → (ch' : Channel) × (IsChannel ch → IsChannel ch')
      × (r' ≡ record { conv = some c; members = ms; channel = ch' })
unfolding publish_to_all
publish_to_all_lem new_id c ms ch r' h =
    let (ch', p, e) = >>=-eq-ok (publish_conversation_change new_id (recipients_of ms) [] ch) _ h in
    (ch', publish_conversation_change-IsChannel new_id (recipients_of ms) [] ch ch' p, ground arith)
