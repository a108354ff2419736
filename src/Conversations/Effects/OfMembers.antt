-- ===== src/Conversations/Effects/OfMembers.antt =====
-- The steps of the handlers that add, remove and delete.
use maim.Common.{
  guard-eq-ok, ok-injective, ℕ, ◌+◌, ◌≡◌, refl, Bool, true, false, ◌||◌, not, Option, List, [], ◌∷◌,
  arith, ok, ◌>>=◌, >>=-eq-ok, or_fail, or_fail-eq-ok, guard, if◌then◌else◌, leb, length, map,
  subst,
}
use maim.Conversations.Model.{
  Member, Channel, Room, forbidden, record_not_found, max_members, invalid_param, identity_error,
  owner_role, admin_role, member_role, is_system,
}
use maim.Conversations.Channel.{publish_conversation_change, recipients_of}
use maim.Conversations.Permission.{all_valid, require_role, validate_request, lock_conversation}
use maim.Conversations.Members.{
  new_members, admitted, users_of, is_none_of, add_members_within_limit, publish_joined,
  add_members, removal_targets, remove_each, remove_members, delete_conversation,
}
use maim.Conversations.Publishing.{
  IsChannel, publish_conversation_change-IsChannel, publish_joined-IsChannel,
}
use maim.Conversations.Steps.{Plain, Step, joins, leaves, deletes, require_role-HasRole}

new_members-Plain :
    (now : ℕ) (us : List (ℕ × Option ℕ)) (ms : List Member) → new_members now us ≡ ok ms → Plain ms
unfolding new_members
new_members-Plain now [] ms h = subst Plain (ok-injective h) tt
new_members-Plain now ((user, new_id) ∷ us) ms h =
    let (id, i, h1) = >>=-eq-ok (or_fail new_id identity_error) _ h in
    let (rest, e, h2) = >>=-eq-ok (new_members now us) _ h1 in
    subst Plain (ok-injective h2) (refl, new_members-Plain now us rest e)

module _ (valid : ℕ → Bool) (new_id : ℕ → Option ℕ) (caller operator conv_id : ℕ)
    (r r' : Room) where
  pub delete_conversation-Step :
      delete_conversation valid new_id caller operator conv_id r ≡ ok r' → Step operator r r'
  unfolding delete_conversation
  delete_conversation-Step h =
      let (c, l, h1) = >>=-eq-ok (lock_conversation valid caller operator (conv_id ∷ []) r) _ h in
      let (u, q, h2) = >>=-eq-ok (require_role operator owner_role c r.members) _ h1 in
      let (ch, p, h3) =
        >>=-eq-ok (publish_conversation_change new_id [] (recipients_of r.members) r.channel) _
          h2 in
      deletes ch (require_role-HasRole operator owner_role c r.members q)
        (publish_conversation_change-IsChannel new_id _ _ r.channel ch p) (ground arith)

  pub remove_members-Step :
      (users : List ℕ)
      → remove_members valid new_id caller operator conv_id users r ≡ ok r'
      → Step operator r r'
  unfolding remove_members
  remove_members-Step users h =
      let (u0, q0, h0) = >>=-eq-ok (validate_request valid caller operator (conv_id ∷ [])) _ h in
      let (u1, q1, h1) = >>=-eq-ok (validate_request valid caller operator users) _ h0 in
      let (c, l, h2) = >>=-eq-ok (or_fail r.conv record_not_found) _ h1 in
      let (u3, q3, h3) = >>=-eq-ok (guard (not (is_system c.type)) forbidden) _ h2 in
      let (u4, q4, h4) = >>=-eq-ok (require_role operator member_role c r.members) _ h3 in
      let (ts, t, h5) = >>=-eq-ok (removal_targets operator c r.members [] users) _ h4 in
      let ((ms, ch), g, h6) = >>=-eq-ok (remove_each new_id ts r.members r.channel) _ h5 in
      let (ch', p, h7) =
        >>=-eq-ok (publish_conversation_change new_id (recipients_of ms) (users_of ts) ch) _ h6 in
      leaves c users new_id ts ms ch ch' (or_fail-eq-ok _ _ l) t g
        (publish_conversation_change-IsChannel new_id _ _ ch ch' p) (ground arith)

  pub add_members-Step :
      (limit now : ℕ) (users : List (ℕ × Option ℕ)) (out : Room × List ℕ × List ℕ)
      → add_members valid new_id limit now caller operator conv_id users r ≡ ok out
      → Step operator r out.0
  unfolding add_members add_members_within_limit
  add_members-Step limit now users out h =
      let (u0, q0, h0) = >>=-eq-ok (validate_request valid caller operator (conv_id ∷ [])) _ h in
      let (u1, q1, h1) =
        >>=-eq-ok (validate_request valid caller operator (map (λ (u : ℕ × Option ℕ). u.0) users)) _
          h0 in
      let (ms, n, h2) = >>=-eq-ok (new_members now users) _ h1 in
      let (c, l, h3) = >>=-eq-ok (or_fail r.conv record_not_found) _ h2 in
      let (u4, q4, h4) = >>=-eq-ok (require_role operator admin_role c r.members) _ h3 in
      let ((c', members', pending), a, h5) =
        >>=-eq-ok (add_members_within_limit valid limit ms c r.members) _ h4 in
      let (u6, q6, a1) =
        >>=-eq-ok (guard (is_none_of ms || all_valid valid (users_of r.members)) invalid_param) _
          a in
      let (u7, q7, a2) = >>=-eq-ok (guard (all_valid valid (users_of ms)) invalid_param) _ a1 in
      let (u8, q8, a3) =
        >>=-eq-ok
          (guard
            (is_none_of (admitted (users_of r.members) ms)
              || leb (length r.members + length (admitted (users_of r.members) ms)) limit)
            max_members)
          _ a2 in
      let (ch, p, e) =
        >>=-eq-ok
          (if is_none_of pending
            then ok r.channel
            else (publish_joined new_id pending r.channel
                >>= publish_conversation_change new_id (recipients_of members') []))
          _ h5 in
      joins c ms limit ch (or_fail-eq-ok _ _ l) (new_members-Plain now users ms n)
        (guard-eq-ok _ _ q8)
        (publishes (is_none_of pending) pending (recipients_of members') r.channel ch p)
        (ground (arith, a3))
    where
      publishes :
          (b : Bool) (pending : List Member) (to : List ℕ) (from ch : Channel)
          → (if b
              then ok from
              else (publish_joined new_id pending from
                  >>= publish_conversation_change new_id to []))
            ≡ ok ch
          → IsChannel from
          → IsChannel ch
      publishes true pending to from ch e v = subst IsChannel (ok-injective e) v
      publishes false pending to from ch e v =
          let (mid, a, b) = >>=-eq-ok (publish_joined new_id pending from) _ e in
          publish_conversation_change-IsChannel new_id to [] mid ch b
            (publish_joined-IsChannel new_id pending from mid a v)
