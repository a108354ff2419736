-- ===== src/Conversations/Owner.antt =====
-- Nobody but the owner can touch the owner's membership.
use maim.Common.{
  ℕ, ◌<◌, ◌≡◌, refl, sym, ap, ◌∙◌, subst, inl, inr, Bool, false, Option, some, List, [], ◌∷◌, arith,
  ok, some_injective, ◌==◌, ==_iff, Bool-cases, All, All-map, All-mem, find-mem, find-append,
  find-delete, find-update_miss, find-update_hit, update, delete, >>=-eq-ok,
}
use maim.Conversations.Model.{Conversation, Member, Channel, Room, by_user, member_left}
use maim.Conversations.Channel.{publish_bot_activity}
use maim.Conversations.Permission.{get_member}
use maim.Conversations.Members.{remove_each}
use maim.Conversations.Steps.{
  HasRole, own, by_owner, above, same, IsRewrite, Step, stays, joins, leaves, transfers, rewrites,
  flags, deletes,
}
use maim.Conversations.Calls.{Call, serve, serve_kept}
use maim.Conversations.Removals.{IsTarget, removal_targets_lem}
use maim.Conversations.Governance.{IsRanked, IsGoverned, owner_of, stored_row, Step-IsGoverned}

-- The owner on record is a member with the given row.
abbrev pub HasOwner : ℕ → Member → Room → Type 0
HasOwner owner row r =
    ((c : Conversation) × (r.conv ≡ some c) × (c.owner_id ≡ some owner))
    × (get_member owner r.members ≡ some row)

remove_each-get_member :
    (owner : ℕ) (new_id : ℕ → Option ℕ) (ts ms ms' : List Member) (ch ch' : Channel)
    → remove_each new_id ts ms ch ≡ ok (ms', ch')
    → All (λ t. (t.user_id == owner) ≡ false) ts
    → get_member owner ms' ≡ get_member owner ms
unfolding remove_each
remove_each-get_member owner new_id [] ms ms' ch ch' h n =
    ap (λ zs. get_member owner zs) (ground arith)
remove_each-get_member owner new_id (t ∷ ts) ms ms' ch ch' h n =
    let (ch1, a, b) = >>=-eq-ok (publish_bot_activity new_id (member_left t.user_id) ch) _ h in
    remove_each-get_member owner new_id ts (delete (by_user t.user_id) ms) ms' ch1 ch' b n.1
    ∙ find-delete (by_user owner) (by_user t.user_id) ms (λ x e. ground (arith, n.0))

module _ (actor owner : ℕ) (row : Member) (r : Room) (other : (actor == owner) ≡ false)
    (governed : IsGoverned r) (at : HasOwner owner row r) (top : row.role ≡ 1) where
  no_owner : HasRole actor 1 r.members → ⊥
  no_owner has =
      let ((c, e, o), g) = at in
      let (is_owner, m) = owner_of actor c r governed e has in
      let clash : actor ≡ owner = some_injective (sym is_owner ∙ o) in
      absurd (ground (arith, clash))

  -- Nobody stands above the owner.
  not_above : (o : Member) → get_member actor r.members ≡ some o → o.role < 1 → ⊥
  not_above o g lt =
      let ranked =
        All-mem IsRanked r.members o governed.ranked (find-mem (by_user actor) r.members g) in
      absurd (omega (arith, ranked.0))

  target_other : (t : Member) → IsTarget actor r.members t → (t.user_id == owner) ≡ false
  target_other t i = elim (Bool-cases (t.user_id == owner)) [
    | inr e ↦ e
    | inl e ↦ elim i.below [
      | inl mine ↦ absurd (ground (arith, mine))
      | inr (o, g, lt) ↦
          let its : t ≡ row = stored_row owner r.members row t governed.keyed at.1 i.stored e in
          absurd (not_above o g (omega (arith, ap (λ (z : Member). z.role) its)))
    ]
  ]

  rewritten :
      (user : ℕ) (f : Member → Member)
      → IsRewrite actor user r.members f
      → get_member owner (update (by_user user) f r.members) ≡ some row
  rewritten user f w = elim (Bool-cases (user == owner)) [
    | inr e ↦
        find-update_miss (by_user owner) (by_user user) f r.members (λ a t. ground (arith, e))
          (λ a. ap (λ z. z == owner) (w.keeps_user a))
        ∙ at.1
    | inl e ↦
        let same_user : user ≡ owner = (==_iff user owner).0 e in
        let its : w.row ≡ row =
          some_injective (sym w.stored ∙ ap (λ z. get_member z r.members) same_user ∙ at.1) in
        elim w.may [
          | own mine ↦ absurd (ground (arith, mine, same_user))
          | by_owner has ↦ absurd (no_owner has)
          | above o g lt ↦ absurd (not_above o g (omega (arith, ap (λ (z : Member). z.role) its)))
          | same k ↦ rw same_user (
              find-update_hit (by_user owner) f r.members row at.1
                (λ b. ap (λ z. z == owner) (w.keeps_user b))
              ∙ ap some (subst (λ z. f z ≡ z) its k))
        ]
  ]

  Step-HasOwner : (r' : Room) → Step actor r r' → HasOwner owner row r'
  Step-HasOwner r' (stays e) = subst (HasOwner owner row) (sym e) at
  Step-HasOwner r' (joins c candidates limit ch ec plain fits k e) =
      let ((c0, e0, o), g) = at in
      let same_conv : c ≡ c0 = some_injective (sym ec ∙ e0) in
      subst (HasOwner owner row) (sym e) (
        (_, refl, ap (λ (z : Conversation). z.owner_id) same_conv ∙ o),
        find-append (by_user owner) r.members _ g,
      )
  Step-HasOwner r' (leaves c users new_id ts ms ch ch' ec targets gone k e) =
      let ((c0, e0, o), g) = at in
      let same_conv : c ≡ c0 = some_injective (sym ec ∙ e0) in
      let (all, unique, fresh) = removal_targets_lem actor c r.members [] users ts targets in
      subst (HasOwner owner row) (sym e) (
        (_, refl, ap (λ (z : Conversation). z.owner_id) same_conv ∙ o),
        remove_each-get_member owner new_id ts r.members ms r.channel ch gone
              (All-map _ _ ts target_other all)
            ∙ g,
      )
  Step-HasOwner r' (transfers c new target ch ec has g ne k e) = absurd (no_owner has)
  Step-HasOwner r' (rewrites c user f ch ec w k e) =
      let ((c0, e0, o), g) = at in
      let same_conv : c ≡ c0 = some_injective (sym ec ∙ e0) in
      subst (HasOwner owner row) (sym e)
        ((_, refl, ap (λ (z : Conversation). z.owner_id) same_conv ∙ o), rewritten user f w)
  Step-HasOwner r' (flags c muted ch ec k e) =
      let ((c0, e0, o), g) = at in
      let same_conv : c ≡ c0 = some_injective (sym ec ∙ e0) in
      subst (HasOwner owner row) (sym e)
        ((_, refl, ap (λ (z : Conversation). z.owner_id) same_conv ∙ o), g)
  Step-HasOwner r' (deletes ch has k e) = absurd (no_owner has)

-- In a governed conversation whose owner is a member with the owner's role, calls by others, in any
-- number and order, neither delete the conversation nor take it from its owner, and the owner's row
-- is not removed, demoted, muted or changed in any other way.
pub serve_protects_owner :
    (valid : ℕ → Bool) (limit conv_id owner : ℕ) (row : Member) (cs : List Call) (r : Room)
    → IsGoverned r
    → HasOwner owner row r
    → row.role ≡ 1
    → All (λ c. (c.caller == owner) ≡ false) cs
    → HasOwner owner row (serve valid limit conv_id cs r)
serve_protects_owner valid limit conv_id owner row cs r v at top others =
    (serve_kept valid limit conv_id (λ c. (c.caller == owner) ≡ false)
      (λ z. IsGoverned z × HasOwner owner row z)
      (λ c a b other s k. (
        Step-IsGoverned c.caller a b s k.0,
        Step-HasOwner c.caller owner row a other k.0 k.1 top b s,
      ))
      cs r others (v, at)).1
