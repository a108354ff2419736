-- ===== src/Conversations/Capacity.antt =====
-- What AddMembers adds.
use maim.Common.{
  ℕ, suc, ◌+◌, ◌≤◌, ◌≡◌, refl, sym, ap, ◌∙◌, subst, inl, inr, Bool, true, false, UniqueKeys, ◌||◌,
  Option, List, [], ◌∷◌, ◌++◌, arith, ok, >>=-eq-ok, ok-injective, guard-eq-ok, or_fail, ◌==◌,
  ==_refl, leb, max, Bool-cases, All, All-map, exists, exists-append, length, length-append, map,
  ◌>>=◌, guard, if◌then◌else◌,
}
use maim.Conversations.Model.{
  Member, Room, by_user, max_members, invalid_param, record_not_found, identity_error, admin_role,
}
use maim.Conversations.Channel.{publish_conversation_change, recipients_of}
use maim.Conversations.Permission.{all_valid, validate_request, require_role}
use maim.Conversations.Members.{
  new_members, admitted, users_of, seen_in, is_none_of, add_members_within_limit, publish_joined,
  add_members,
}

users_of-new_members :
    (now : ℕ) (us : List (ℕ × Option ℕ)) (ms : List Member)
    → new_members now us ≡ ok ms
    → users_of ms ≡ map (λ (u : ℕ × Option ℕ). u.0) us
unfolding new_members
users_of-new_members now [] ms h = ap users_of (sym (ok-injective h))
users_of-new_members now ((user, new_id) ∷ us) ms h =
    let (id, i, h1) = >>=-eq-ok (or_fail new_id identity_error) _ h in
    let (rest, e, h2) = >>=-eq-ok (new_members now us) _ h1 in
    ap users_of (sym (ok-injective h2)) ∙ ap (◌∷◌ user) (users_of-new_members now us rest e)

-- Every candidate's user was seen, or is among the admitted.
abbrev Complete : List ℕ → List Member → List Member → Type 0
Complete seen ms out = All (λ u. (seen_in seen u || exists (by_user u) out) ≡ true) (users_of ms)

admitted-Complete : (seen : List ℕ) (ms : List Member) → Complete seen ms (admitted seen ms)
unfolding admitted
admitted-Complete seen [] = tt
admitted-Complete seen (m ∷ ms) = elim (Bool-cases (seen_in seen m.user_id)) [
  | inl e ↦
      let step : admitted seen (m ∷ ms) ≡ admitted seen ms = rw (e, admitted) refl in
      subst (Complete seen (m ∷ ms)) (sym step) (ground (arith, e), admitted-Complete seen ms)
  | inr e ↦
      let step : admitted seen (m ∷ ms) ≡ m ∷ admitted (m.user_id ∷ seen) ms =
        rw (e, admitted) refl in
      subst (Complete seen (m ∷ ms)) (sym step) (
        ground (arith, ==_refl m.user_id),
        All-map _ _ (users_of ms) (λ u k. ground (arith, k))
            (admitted-Complete (m.user_id ∷ seen) ms),
      )
]

-- The admitted were not seen, and each is admitted once.
admitted-new :
    (seen : List ℕ) (ms : List Member)
    → All (λ u. seen_in seen u ≡ false) (users_of (admitted seen ms))
      × UniqueKeys (λ (m : Member). m.user_id) (admitted seen ms)
unfolding admitted
admitted-new seen [] = (tt, tt)
admitted-new seen (m ∷ ms) = elim (Bool-cases (seen_in seen m.user_id)) [
  | inl e ↦ rw (e, admitted) (admitted-new seen ms)
  | inr e ↦
      rw (e, admitted)
        (let (unseen, once) = admitted-new (m.user_id ∷ seen) ms in
          (
            (
              e,
              All-map _ _ (users_of (admitted (m.user_id ∷ seen) ms)) (λ u k. ground (arith, k))
                  unseen,
            ),
            (apart m.user_id seen (admitted (m.user_id ∷ seen) ms) unseen, once),
          ))
]
  where
    apart :
        (user : ℕ) (seen : List ℕ) (ms : List Member)
        → All (λ u. seen_in (user ∷ seen) u ≡ false) (users_of ms)
        → exists (λ (a : Member). a.user_id == user) ms ≡ false
    apart user seen [] h = refl
    apart user seen (m ∷ ms) h =
        let rest = apart user seen ms h.1 in
        let away : (user == m.user_id) ≡ false = ground (arith, h.0) in ground (arith, rest, away)

exists-users_of : (u : ℕ) (ms : List Member) → seen_in (users_of ms) u ≡ exists (by_user u) ms
exists-users_of u [] = refl
exists-users_of u (m ∷ ms) = ap (λ b. m.user_id == u || b) (exists-users_of u ms)

length-users_of : (ms : List Member) → length (users_of ms) ≡ length ms
length-users_of [] = refl
length-users_of (m ∷ ms) = ap suc (length-users_of ms)

fits_limit :
    (limit : ℕ) (ms pending : List Member)
    → (is_none_of pending || leb (length ms + length pending) limit) ≡ true
    → length (ms ++ pending) ≤ max limit (length ms)
fits_limit limit ms [] h = rw (length-append ms []) (ground arith)
fits_limit limit ms (p ∷ ps) h = rw (length-append ms (p ∷ ps)) (ground arith)

-- After an AddMembers that succeeds, every user of the request is a member; behind the members of
-- before, which stay as they are, stand new rows for just the users that are reported as added, in their
-- order, each once and none of whom was a member; and the members are no more than the limit if they
-- have grown at all.
pub add_members_lem :
    (valid : ℕ → Bool) (new_id : ℕ → Option ℕ) (limit now caller operator conv_id : ℕ)
    (users : List (ℕ × Option ℕ)) (r r' : Room) (added failed : List ℕ)
    → add_members valid new_id limit now caller operator conv_id users r ≡ ok (r', added, failed)
    → All (λ u. exists (by_user u) r'.members ≡ true) (map (λ (u : ℕ × Option ℕ). u.0) users)
      × ((new : List Member) × (r'.members ≡ r.members ++ new)
          × (users_of new ≡ added)
          × UniqueKeys (λ (m : Member). m.user_id) new)
      × All (λ u. exists (by_user u) r.members ≡ false) added
      × (length r'.members ≡ length r.members + length added)
      × (length r'.members ≤ max limit (length r.members))
unfolding add_members add_members_within_limit
add_members_lem valid new_id limit now caller operator conv_id users r r' added failed h =
    let (u0, q0, h0) = >>=-eq-ok (validate_request valid caller operator (conv_id ∷ [])) _ h in
    let (u1, q1, h1) =
      >>=-eq-ok (validate_request valid caller operator (map (λ (u : ℕ × Option ℕ). u.0) users)) _
        h0 in
    let (ms, n, h2) = >>=-eq-ok (new_members now users) _ h1 in
    let (c, l, h3) = >>=-eq-ok (or_fail r.conv record_not_found) _ h2 in
    let (u4, q4, h4) = >>=-eq-ok (require_role operator admin_role c r.members) _ h3 in
    let ((c', members', pending), a, h5) =
      >>=-eq-ok (add_members_within_limit valid limit ms c r.members) _ h4 in
    let (u6, q6, a1) =
      >>=-eq-ok (guard (is_none_of ms || all_valid valid (users_of r.members)) invalid_param) _ a in
    let (u7, q7, a2) = >>=-eq-ok (guard (all_valid valid (users_of ms)) invalid_param) _ a1 in
    let new : List Member = admitted (users_of r.members) ms in
    let (u8, q8, a3) =
      >>=-eq-ok (guard (is_none_of new || leb (length r.members + length new) limit) max_members) _
        a2 in
    let (ch, p, e) =
      >>=-eq-ok
        (if is_none_of pending
          then ok r.channel
          else (publish_joined new_id pending r.channel
              >>= publish_conversation_change new_id (recipients_of members') []))
        _ h5 in
    let rows : r'.members ≡ r.members ++ new = ground (arith, a3, e) in
    let reported : added ≡ users_of new = ground (arith, a3, e) in
    (
      rw (← users_of-new_members now users ms n, rows)
          (All-map _ _ (users_of ms)
            (λ u k.
              ground
                (arith, k, exists-users_of u r.members, exists-append (by_user u) r.members new))
            (admitted-Complete (users_of r.members) ms)),
      (new, rows, sym reported, (admitted-new (users_of r.members) ms).1),
      subst (All (λ u. exists (by_user u) r.members ≡ false)) (sym reported) (
          All-map _ _ (users_of new) (λ u k. sym (exists-users_of u r.members) ∙ k)
            (admitted-new (users_of r.members) ms).0),
      rw (rows, reported, length-users_of new) (length-append r.members new),
      rw rows (fits_limit limit r.members new (guard-eq-ok _ _ q8)),
    )
