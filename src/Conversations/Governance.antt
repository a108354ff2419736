-- ===== src/Conversations/Governance.antt =====
-- What every handler keeps: one row for each member, roles in range, no owner but the conversation's,
-- and an exact count of the members.
use maim.Common.{
  ℕ, zero, suc, ◌+◌, ◌≤◌, ◌≡◌, refl, sym, ap, ◌∙◌, subst, inl, inr, Bool, true, false, Option, none,
  some, List, [], Memᴰ, arith, some_injective, ◌==◌, ==_iff, All, All-map, All-append, All-mem,
  All-update, UniqueKeys, UniqueKeys-update, unique_row, find-mem, find_passes, length,
  length-append, length-update, update, pos, ◌+ℤ◌,
}
use maim.Conversations.Model.{Conversation, Member, Room, by_user, owner_role, member_role}
use maim.Conversations.Permission.{get_member}
use maim.Conversations.Members.{admitted, users_of, negated}
use maim.Conversations.Roles.{update_member_role}
use maim.Conversations.Steps.{
  HasRole, IsRewrite, Plain, Step, stays, joins, leaves, transfers, rewrites, flags, deletes,
}
use maim.Conversations.Admissions.{All-admitted, admitted-UniqueKeys, users_of-Covers}
use maim.Conversations.Calls.{Call, serve, serve_kept_by_all}
use maim.Conversations.Removals.{
  user_of, removal_targets_lem, remove_each-All, remove_each-UniqueKeys, remove_each-length,
}

abbrev pub IsRanked : Member → Type 0
IsRanked m = (1 ≤ m.role) × (m.role ≤ 3)

-- Whoever has the owner's role is the owner on record.
abbrev pub IsOwnedBy : Option ℕ → Member → Type 0
IsOwnedBy owner m = m.role ≡ 1 → owner ≡ some m.user_id

abbrev pub IsOwned : Option Conversation → List Member → Type 0
IsOwned none ms = Unit
IsOwned (some c) ms = All (IsOwnedBy c.owner_id) ms × (c.member_count ≡ pos (length ms))

pub record IsGoverned (r : Room) : Type 0 where
  pub keyed : UniqueKeys user_of r.members
  pub ranked : All IsRanked r.members
  pub owned : IsOwned r.conv r.members

-- The row of a user.
pub stored_row :
    (user : ℕ) (ms : List Member) (row x : Member)
    → UniqueKeys user_of ms
    → get_member user ms ≡ some row
    → Memᴰ x ms
    → by_user user x ≡ true
    → x ≡ row
stored_row user ms row x u g m e = unique_row user_of ms x row u m (find-mem (by_user user) ms g) (
    (==_iff x.user_id user).0 e
    ∙ sym ((==_iff row.user_id user).0 (find_passes (by_user user) ms g)))

-- The owner's role is the highest of a room.
pub owner_of :
    (user : ℕ) (c : Conversation) (r : Room)
    → IsGoverned r
    → r.conv ≡ some c
    → HasRole user 1 r.members
    → (c.owner_id ≡ some user)
      × ((m : Member) × (get_member user r.members ≡ some m) × (m.role ≡ 1))
owner_of user c r v e (m, g, le) =
    let stored = find-mem (by_user user) r.members g in
    let ranked = All-mem IsRanked r.members m v.ranked stored in
    let top : m.role ≡ 1 = omega (arith, ranked.0) in
    let owned : IsOwned (some c) r.members = subst (λ z. IsOwned z r.members) e v.owned in
    (
      All-mem (IsOwnedBy c.owner_id) r.members m owned.0 stored top
          ∙ ap some ((==_iff m.user_id user).0 (find_passes (by_user user) r.members g)),
      (m, g, top),
    )

abbrev pub owned_at :
    (c : Conversation) (r : Room) → IsGoverned r → r.conv ≡ some c → IsOwned (some c) r.members
owned_at c r v e = subst (λ z. IsOwned z r.members) e v.owned

-- A change of the rows of one user, by what it makes of the user's row.
pub update-rows :
    (P : Member → Type 0) (user : ℕ) (f : Member → Member) (ms : List Member) (row : Member)
    → UniqueKeys user_of ms
    → get_member user ms ≡ some row
    → All P ms
    → P (f row)
    → All P (update (by_user user) f ms)
update-rows P user f ms row u g all p =
    All-update P (by_user user) f ms
      (λ a m e. subst (λ z. P (f z)) (sym (stored_row user ms row a u g m e)) p)
      (λ a m e. All-mem P ms a all m)

rewrite-IsGoverned :
    (actor user : ℕ) (c : Conversation) (r r' : Room) (f : Member → Member)
    → IsGoverned r
    → r.conv ≡ some c
    → IsRewrite actor user r.members f
    → r'.conv ≡ some c
    → r'.members ≡ update (by_user user) f r.members
    → IsGoverned r'
rewrite-IsGoverned actor user c r r' f v e w ec em =
    let stored = find-mem (by_user user) r.members w.stored in
    let ranked = All-mem IsRanked r.members w.row v.ranked stored in
    let (owned, count) = owned_at c r v e in
    let still : IsOwnedBy c.owner_id (f w.row) = λ top. elim w.role [
      | inl kept ↦
          All-mem (IsOwnedBy c.owner_id) r.members w.row owned stored (sym kept ∙ top)
          ∙ ap some (sym (w.keeps_user w.row))
      | inr (lo, hi) ↦ absurd (omega arith)
    ] in
    let in_range : IsRanked (f w.row) = elim w.role [
      | inl kept ↦ (omega (arith, ranked.0), omega (arith, ranked.1))
      | inr (lo, hi) ↦ (omega arith, hi)
    ] in
    record {
      keyed =
          subst (UniqueKeys user_of) (sym em)
            (UniqueKeys-update user_of (by_user user) f r.members w.keeps_user v.keyed);
      ranked =
          subst (All IsRanked) (sym em)
            (update-rows IsRanked user f r.members w.row v.keyed w.stored v.ranked in_range);
      owned =
          rw (ec, em)
            (
              update-rows (IsOwnedBy c.owner_id) user f r.members w.row v.keyed w.stored owned
                  still,
              count ∙ ap pos (sym (length-update (by_user user) f r.members)),
            );
    }

-- The new owner's row has the owner's role, and the old owner's has it no more.
transferred :
    (actor new : ℕ) (c : Conversation) (r : Room) (target : Member)
    → IsGoverned r
    → r.conv ≡ some c
    → HasRole actor 1 r.members
    → get_member new r.members ≡ some target
    → All
        (λ m. IsRanked m × IsOwnedBy (some new) m)
        (update_member_role actor member_role (update_member_role new owner_role r.members))
transferred actor new c r target v e has g =
    let (is_owner, o) = owner_of actor c r v e has in
    let (owned, count) = owned_at c r v e in
    let promoted : All (λ m. IsRanked m × ((m.user_id == actor) ≡ false → IsOwnedBy (some new) m))
        (update_member_role new owner_role r.members) =
      All-update _ (by_user new) _ r.members
        (λ a m at.
          ((omega arith, omega arith), λ other top. ap some (sym ((==_iff a.user_id new).0 at))))
        (λ a m at. (
          All-mem IsRanked r.members a v.ranked m,
          λ other top.
              let same =
                some_injective
                  (sym (All-mem (IsOwnedBy c.owner_id) r.members a owned m top) ∙ is_owner) in
              absurd (ground (arith, same)),
        )) in
    All-update _ (by_user actor) _ (update_member_role new owner_role r.members)
      (λ a m at. ((omega arith, omega arith), λ top. absurd (omega arith)))
      (λ a m at. let (k, p) = All-mem _ _ a promoted m in (k, p at))

negated_lem : (n k m : ℕ) → m + k ≡ n → pos n +ℤ negated k ≡ pos m
negated_lem n zero m h = ground arith
negated_lem n (suc k) m h = ground arith

pub Step-IsGoverned : (actor : ℕ) (r r' : Room) → Step actor r r' → IsGoverned r → IsGoverned r'
Step-IsGoverned actor r r' (stays e) v = subst IsGoverned (sym e) v
Step-IsGoverned actor r r' (joins c candidates limit ch ec plain fits k e) v =
    let (owned, count) = owned_at c r v ec in
    let added : Plain (admitted (users_of r.members) candidates) =
      All-admitted _ (users_of r.members) candidates plain in
    let new : List Member = admitted (users_of r.members) candidates in
    subst IsGoverned (sym e) (record {
      keyed =
          admitted-UniqueKeys (users_of r.members) r.members candidates (users_of-Covers r.members)
            v.keyed;
      ranked =
          All-append IsRanked r.members new v.ranked
            (All-map _ IsRanked new (λ m p. (omega (arith, p), omega (arith, p))) added);
      owned = (
        All-append (IsOwnedBy c.owner_id) r.members new owned (
            All-map _ (IsOwnedBy c.owner_id) new (λ m p top. absurd (omega (arith, p, top))) added),
        rw (count, length-append r.members new) (ground arith),
      );
    })
Step-IsGoverned actor r r' (leaves c users new_id ts ms ch ch' ec targets gone k e) v =
    let (owned, count) = owned_at c r v ec in
    let (all, unique, fresh) = removal_targets_lem actor c r.members [] users ts targets in
    let n =
      remove_each-length new_id ts r.members ms r.channel ch gone v.keyed unique
        (All-map _ _ ts (λ t i. i.stored) all) in
    subst IsGoverned (sym e) (record {
      keyed = remove_each-UniqueKeys new_id ts r.members ms r.channel ch gone v.keyed;
      ranked = remove_each-All IsRanked new_id ts r.members ms r.channel ch gone v.ranked;
      owned = (
        remove_each-All (IsOwnedBy c.owner_id) new_id ts r.members ms r.channel ch gone owned,
        rw count (negated_lem (length r.members) (length ts) (length ms) n),
      );
    })
Step-IsGoverned actor r r' (transfers c new target ch ec has g ne k e) v =
    let all = transferred actor new c r target v ec has g in
    let (owned, count) = owned_at c r v ec in
    subst IsGoverned (sym e) (record {
      keyed =
          UniqueKeys-update user_of (by_user actor) _ _ (λ m. refl)
            (UniqueKeys-update user_of (by_user new) _ r.members (λ m. refl) v.keyed);
      ranked = All-map _ _ _ (λ m p. p.0) all;
      owned = (
        All-map _ _ _ (λ m p. p.1) all,
        count
            ∙ ap pos (
                sym (
                  length-update (by_user actor) _ (update_member_role new owner_role r.members)
                  ∙ length-update (by_user new) _ r.members)),
      );
    })
Step-IsGoverned actor r r' (rewrites c user f ch ec w k e) v =
    rewrite-IsGoverned actor user c r r' f v ec w (ap (λ (z : Room). z.conv) e)
      (ap (λ (z : Room). z.members) e)
Step-IsGoverned actor r r' (flags c muted ch ec k e) v =
    subst IsGoverned (sym e)
      (record { keyed = v.keyed; ranked = v.ranked; owned = owned_at c r v ec })
Step-IsGoverned actor r r' (deletes ch has k e) v =
    subst IsGoverned (sym e) (record { keyed = tt; ranked = tt; owned = tt })

-- Whatever is called, by whom and in whatever order, a conversation stays governed: a user has one
-- row at most, roles are those of the protocol, nobody but the owner on record has the owner's role,
-- and the count of members is the number of their rows.
pub serve-IsGoverned :
    (valid : ℕ → Bool) (limit conv_id : ℕ) (cs : List Call) (r : Room)
    → IsGoverned r
    → IsGoverned (serve valid limit conv_id cs r)
serve-IsGoverned valid limit conv_id cs r v =
    serve_kept_by_all valid limit conv_id IsGoverned Step-IsGoverned cs r v
