-- ===== src/Conversations/Orphan.antt =====
-- The owner may leave a conversation like any member, and nobody can take the owner's place then.
use maim.Common.{
  ℕ, ◌≡◌, refl, sym, ap, ◌∙◌, subst, inl, inr, Bool, true, false, ◌||◌, not, Option, some, List, [],
  ◌∷◌, Memᴰ, arith, ok, >>=-eq-ok, ok-injective, some_injective, ◌==◌, ==_iff, Bool-cases, All,
  All-map, All-append, All-mem, All-of_mem, exists, exists-delete-false, All-of_not_exists,
  find-mem, find_passes, or_fail, or_fail-eq-ok, delete, guard,
}
use maim.Conversations.Model.{
  Conversation, Member, Channel, Room, by_user, member_left, member_role, owner_role,
  record_not_found, forbidden, is_system,
}
use maim.Conversations.Channel.{publish_bot_activity, publish_conversation_change, recipients_of}
use maim.Conversations.Permission.{get_member, require_role, validate_request}
use maim.Conversations.Members.{
  users_of, seen_in, check_removal, removal_targets, remove_each, remove_members,
}
use maim.Conversations.Steps.{Step, stays, joins, leaves, transfers, rewrites, flags, deletes}
use maim.Conversations.Effects.OfMembers.{remove_members-Step}
use maim.Conversations.Calls.{Call, serve, serve_kept_by_all}
use maim.Conversations.Removals.{remove_each-All}
use maim.Conversations.Admissions.{All-admitted}
use maim.Conversations.Governance.{
  IsOwnedBy, IsGoverned, owner_of, owned_at, update-rows, Step-IsGoverned,
}

-- The member has another role than the owner's.
abbrev pub IsLower : Member → Type 0
IsLower m = (m.role == owner_role) ≡ false

-- The conversation is there, and no member has the owner's role.
abbrev pub IsOrphan : Room → Type 0
IsOrphan r = ((c : Conversation) × (r.conv ≡ some c)) × All IsLower r.members

Step-IsOrphan :
    (actor : ℕ) (r r' : Room) → IsGoverned r → IsOrphan r → Step actor r r' → IsOrphan r'
Step-IsOrphan actor r r' v (c0, low) (stays e) = subst IsOrphan (sym e) (c0, low)
Step-IsOrphan actor r r' v (c0, low) (joins c candidates limit ch ec plain fits k e) =
    subst IsOrphan (sym e) (
      (_, refl),
      All-append IsLower r.members _ low (
          All-admitted IsLower (users_of r.members) candidates
            (All-map _ IsLower candidates (λ m p. ground (arith, p)) plain)),
    )
Step-IsOrphan actor r r' v (c0, low) (leaves c users new_id ts ms ch ch' ec targets gone k e) =
    subst IsOrphan (sym e)
      ((_, refl), remove_each-All IsLower new_id ts r.members ms r.channel ch gone low)
Step-IsOrphan actor r r' v ((c0, e0), low) (transfers c new target ch ec has g ne k e) =
    let (is_owner, (m, g, top)) = owner_of actor c0 r v e0 has in
    absurd
      (ground (arith, top, All-mem IsLower r.members m low (find-mem (by_user actor) r.members g)))
Step-IsOrphan actor r r' v (c0, low) (rewrites c user f ch ec w k e) =
    let old = All-mem IsLower r.members w.row low (find-mem (by_user user) r.members w.stored) in
    let still : IsLower (f w.row) = elim w.role [
      | inl kept ↦ ap (λ z. z == owner_role) kept ∙ old
      | inr (lo, hi) ↦ ground (arith, lo)
    ] in
    subst IsOrphan (sym e)
      ((_, refl), update-rows IsLower user f r.members w.row v.keyed w.stored low still)
Step-IsOrphan actor r r' v (c0, low) (flags c muted ch ec k e) =
    subst IsOrphan (sym e) ((_, refl), low)
Step-IsOrphan actor r r' v ((c0, e0), low) (deletes ch has k e) =
    let (is_owner, (m, g, top)) = owner_of actor c0 r v e0 has in
    absurd
      (ground (arith, top, All-mem IsLower r.members m low (find-mem (by_user actor) r.members g)))

-- Every user of the request that was not seen is a target.
removal_targets_cover :
    (operator : ℕ) (c : Conversation) (ms : List Member) (seen us : List ℕ) (ts : List Member)
    (user : ℕ)
    → removal_targets operator c ms seen us ≡ ok ts
    → Memᴰ user us
    → (seen_in seen user || exists (by_user user) ts) ≡ true
unfolding removal_targets
removal_targets_cover operator c ms seen [] ts user h m = elim m [ ]
removal_targets_cover operator c ms seen (u ∷ us) ts user h m = elim (Bool-cases (seen_in seen u)) [
  | inl e ↦
      seen_first u us e m
        (λ k. removal_targets_cover operator c ms seen us ts user (rw (e, removal_targets) at h) k)
  | inr e ↦
      let (v, q, h1) = >>=-eq-ok (check_removal operator c ms u) _ (rw (e, removal_targets) at h) in
      let (t, f, h2) = >>=-eq-ok (or_fail (get_member u ms) record_not_found) _ h1 in
      let (rest, r, h3) = >>=-eq-ok (removal_targets operator c ms (u ∷ seen) us) _ h2 in
      let at : t.user_id ≡ u =
        (==_iff t.user_id u).0 (find_passes (by_user u) ms (or_fail-eq-ok _ _ f)) in
      subst (λ zs. (seen_in seen user || exists (by_user user) zs) ≡ true) (ok-injective h3)
        (taken t u us rest at m (removal_targets_cover operator c ms (u ∷ seen) us rest user r))
]
  where
    seen_first :
        (u : ℕ) (us : List ℕ)
        → seen_in seen u ≡ true
        → Memᴰ user (u ∷ us)
        → (Memᴰ user us → (seen_in seen user || exists (by_user user) ts) ≡ true)
        → (seen_in seen user || exists (by_user user) ts) ≡ true
    seen_first u us e (Memᴰ.head p) later = rw (p, e)
    seen_first u us e (Memᴰ.tail k) later = later k

    taken :
        (t : Member) (u : ℕ) (us : List ℕ) (rest : List Member)
        → t.user_id ≡ u
        → Memᴰ user (u ∷ us)
        → (Memᴰ user us → (seen_in (u ∷ seen) user || exists (by_user user) rest) ≡ true)
        → (seen_in seen user || exists (by_user user) (t ∷ rest)) ≡ true
    taken t u us rest at (Memᴰ.head p) later = ground (arith, p, at)
    taken t u us rest at (Memᴰ.tail k) later = ground (arith, at, later k)

-- No row of a target's user is left.
remove_each-exists :
    (user : ℕ) (new_id : ℕ → Option ℕ) (ts ms ms' : List Member) (ch ch' : Channel)
    → remove_each new_id ts ms ch ≡ ok (ms', ch')
    → (exists (by_user user) ts ≡ true)
    → All (λ m. (m.user_id == user) ≡ false) ms'
unfolding remove_each
remove_each-exists user new_id [] ms ms' ch ch' h x = cc
remove_each-exists user new_id (t ∷ ts) ms ms' ch ch' h x =
    let (ch1, a, b) = >>=-eq-ok (publish_bot_activity new_id (member_left t.user_id) ch) _ h in
    elim (Bool-cases (by_user user t)) [
      | inl e ↦
          remove_each-All (λ m. (m.user_id == user) ≡ false) new_id ts
            (delete (by_user t.user_id) ms) ms' ch1 ch' b
            (All-of_not_exists _ (delete (by_user t.user_id) ms) (
              exists-delete-false (by_user user) (by_user t.user_id) ms (λ y k. ground (arith, e))))
      | inr e ↦
          remove_each-exists user new_id ts (delete (by_user t.user_id) ms) ms' ch1 ch' b
            (ground (arith, x))
    ]

left-IsOrphan :
    (valid : ℕ → Bool) (new_id : ℕ → Option ℕ) (caller operator conv_id : ℕ) (users : List ℕ)
    (c : Conversation) (r r' : Room)
    → IsGoverned r
    → r.conv ≡ some c
    → c.owner_id ≡ some operator
    → Memᴰ operator users
    → remove_members valid new_id caller operator conv_id users r ≡ ok r'
    → IsOrphan r'
unfolding remove_members
left-IsOrphan valid new_id caller operator conv_id users c r r' v e o m h =
    let (u0, q0, h0) = >>=-eq-ok (validate_request valid caller operator (conv_id ∷ [])) _ h in
    let (u1, q1, h1) = >>=-eq-ok (validate_request valid caller operator users) _ h0 in
    let (c1, l, h2) = >>=-eq-ok (or_fail r.conv record_not_found) _ h1 in
    let (u3, q3, h3) = >>=-eq-ok (guard (not (is_system c1.type)) forbidden) _ h2 in
    let (u4, q4, h4) = >>=-eq-ok (require_role operator member_role c1 r.members) _ h3 in
    let (ts, t, h5) = >>=-eq-ok (removal_targets operator c1 r.members [] users) _ h4 in
    let ((ms, ch), g, h6) = >>=-eq-ok (remove_each new_id ts r.members r.channel) _ h5 in
    let (ch', p, h7) =
      >>=-eq-ok (publish_conversation_change new_id (recipients_of ms) (users_of ts) ch) _ h6 in
    let covered = removal_targets_cover operator c1 r.members [] users ts operator t m in
    let gone = remove_each-exists operator new_id ts r.members ms r.channel ch g covered in
    let owned : All (IsOwnedBy c.owner_id) r.members = (step_owned c r v e) in
    let both = remove_each-All (IsOwnedBy c.owner_id) new_id ts r.members ms r.channel ch g owned in
    subst IsOrphan (ok-injective h7) (
      (_, refl),
      All-of_mem IsLower ms (λ x k. elim (Bool-cases (x.role == owner_role)) [
        | inr n ↦ n
        | inl top ↦
            let its =
              some_injective (sym (All-mem _ ms x both k ((==_iff x.role owner_role).0 top)) ∙ o) in
            absurd (ground (arith, its, All-mem _ ms x gone k))
      ]),
    )
  where
    step_owned :
        (c : Conversation) (r : Room)
        → IsGoverned r
        → r.conv ≡ some c
        → All (IsOwnedBy c.owner_id) r.members
    step_owned c r v e = (owned_at c r v e).0

-- In a governed conversation, once a call of RemoveMembers by the owner on record names the owner too
-- and succeeds, no calls by anybody, in any number and order, ever give the conversation a member with
-- the owner's role again, or delete it.
pub owner_leaves_for_good :
    (valid : ℕ → Bool) (limit caller operator conv_id : ℕ) (new_id : ℕ → Option ℕ) (users : List ℕ)
    (c : Conversation) (cs : List Call) (r r' : Room)
    → IsGoverned r
    → r.conv ≡ some c
    → c.owner_id ≡ some operator
    → Memᴰ operator users
    → remove_members valid new_id caller operator conv_id users r ≡ ok r'
    → IsOrphan (serve valid limit conv_id cs r')
owner_leaves_for_good valid limit caller operator conv_id new_id users c cs r r' v e o m h =
    let s = remove_members-Step valid new_id caller operator conv_id r r' users h in
    (serve_kept_by_all valid limit conv_id (λ z. IsGoverned z × IsOrphan z)
      (λ actor a b s k. (Step-IsGoverned actor a b s k.0, Step-IsOrphan actor a b k.0 k.1 s)) cs r'
      (
        Step-IsGoverned operator r r' s v,
        left-IsOrphan valid new_id caller operator conv_id users c r r' v e o m h,
      )).1
