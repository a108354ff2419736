-- ===== src/Conversations/Effects/OfRoles.antt =====
-- The steps of the handlers that change roles, ownership and mutes.
use maim.Common.{
  ◌∙◌, some_injective, ℕ, ◌≤◌, ◌<◌, ◌≡◌, refl, sym, ap, ◌⊎◌, inl, inr, Bool, true, false, ◌||◌, not,
  Option, none, some, List, [], ◌∷◌, arith, ok, ◌>>◌, >>=-eq-ok, or_fail, or_fail-eq-ok, guard,
  ◌==◌, Bool-cases, ℤ, pos, ltb_ℤ, subst,
}
use maim.Conversations.Model.{
  Conversation, Member, Room, forbidden, record_not_found, member_not_found, owner_role, admin_role,
  member_role, is_system, ownership_change,
}
use maim.Conversations.Permission.{
  get_member, require_role, verify_target_not_higher, lock_conversation,
}
use maim.Conversations.Roles.{
  transfer_owner, check_new_role, check_new_alias, update_member, mute_member, unmute_member,
  mute_all, unmute_all,
}
use maim.Conversations.Steps.{
  HasRole, MayChange, own, by_owner, above, same, IsRewrite, Step, stays, transfers, rewrites,
  flags, require_role-HasRole, verify_target_not_higher-above, lock_conversation_lem,
  publish_to_all_lem,
}

module _ (valid : ℕ → Bool) (new_id : ℕ → Option ℕ) (caller operator conv_id : ℕ)
    (r r' : Room) where
  pub mute_all-Step : mute_all valid new_id caller operator conv_id r ≡ ok r' → Step operator r r'
  unfolding mute_all
  mute_all-Step h =
      let (c, l, h1) = >>=-eq-ok (lock_conversation valid caller operator (conv_id ∷ []) r) _ h in
      let (u, q, h2) = >>=-eq-ok (require_role operator admin_role c r.members) _ h1 in
      let (ch, p, e) = publish_to_all_lem new_id _ _ r.channel r' h2 in
      flags c true ch (lock_conversation_lem valid caller operator _ r c l).0 p e

  pub unmute_all-Step :
      unmute_all valid new_id caller operator conv_id r ≡ ok r' → Step operator r r'
  unfolding unmute_all
  unmute_all-Step h =
      let (c, l, h1) = >>=-eq-ok (lock_conversation valid caller operator (conv_id ∷ []) r) _ h in
      let (u, q, h2) = >>=-eq-ok (require_role operator admin_role c r.members) _ h1 in
      let (ch, p, e) = publish_to_all_lem new_id _ _ r.channel r' h2 in
      flags c false ch (lock_conversation_lem valid caller operator _ r c l).0 p e

  pub mute_member-Step :
      (now user : ℕ) (duration : ℤ)
      → mute_member valid new_id now caller operator conv_id user duration r ≡ ok r'
      → Step operator r r'
  unfolding mute_member
  mute_member-Step now user duration h =
      let (c, l, h1) =
        >>=-eq-ok (lock_conversation valid caller operator (conv_id ∷ user ∷ []) r) _ h in
      let (u, q, h2) = >>=-eq-ok (require_role operator admin_role c r.members) _ h1 in
      let (v, w, h3) = >>=-eq-ok (verify_target_not_higher user operator r.members) _ h2 in
      let (t, o, et, eo, lt) = verify_target_not_higher-above user operator r.members w in
      let (ch, p, e) = publish_to_all_lem new_id _ _ r.channel r' h3 in
      rewrites c user _ ch (lock_conversation_lem valid caller operator _ r c l).0
        (record {
          row = t;
          stored = et;
          keeps_user = λ x. refl;
          role = inl refl;
          may = above o eo lt;
        })
        p e

  pub unmute_member-Step :
      (user : ℕ)
      → unmute_member valid new_id caller operator conv_id user r ≡ ok r'
      → Step operator r r'
  unfolding unmute_member
  unmute_member-Step user h =
      let (c, l, h1) =
        >>=-eq-ok (lock_conversation valid caller operator (conv_id ∷ user ∷ []) r) _ h in
      let (u, q, h2) = >>=-eq-ok (require_role operator admin_role c r.members) _ h1 in
      let (v, w, h3) = >>=-eq-ok (verify_target_not_higher user operator r.members) _ h2 in
      let (t, o, et, eo, lt) = verify_target_not_higher-above user operator r.members w in
      let (ch, p, e) = publish_to_all_lem new_id _ _ r.channel r' h3 in
      rewrites c user _ ch (lock_conversation_lem valid caller operator _ r c l).0
        (record {
          row = t;
          stored = et;
          keeps_user = λ x. refl;
          role = inl refl;
          may = above o eo lt;
        })
        p e

  pub transfer_owner-Step :
      (new_owner : ℕ)
      → transfer_owner valid new_id caller operator conv_id new_owner r ≡ ok r'
      → Step operator r r'
  unfolding transfer_owner
  transfer_owner-Step new_owner h =
      let (c, l, h1) =
        >>=-eq-ok (lock_conversation valid caller operator (conv_id ∷ new_owner ∷ []) r) _ h in
      let (u, q, h2) = >>=-eq-ok (require_role operator owner_role c r.members) _ h1 in
      let (t, f, h3) = >>=-eq-ok (or_fail (get_member new_owner r.members) record_not_found) _ h2 in
      elim (Bool-cases (new_owner == operator)) [
        | inl s ↦ stays (ground arith)
        | inr d ↦
            let (ch, p, e) = publish_to_all_lem new_id _ _ r.channel r' (rw d at h3) in
            transfers c new_owner t ch (lock_conversation_lem valid caller operator _ r c l).0
              (require_role-HasRole operator owner_role c r.members q) (or_fail-eq-ok _ _ f) d p e
      ]

  check_new_role-eq :
      (role : Option ℤ) (c : Conversation) (ms : List Member) (m m1 : Member)
      → check_new_role operator role c ms m ≡ ok m1
      → (m1 ≡ m)
        ⊎ ((m1 ≡ record m { role = m1.role })
            × (2 ≤ m1.role)
            × (m1.role ≤ 3)
            × HasRole operator 1 ms)
  unfolding check_new_role
  check_new_role-eq none c ms m m1 h = inl (ground arith)
  check_new_role-eq (some role) c ms m m1 h =
      let (u, q, h1) = >>=-eq-ok (require_role operator owner_role c ms) _ h in
      let (v, w, h2) =
        >>=-eq-ok
          (guard
            (not (
              m.role == owner_role
              || (ltb_ℤ role (pos admin_role) || ltb_ℤ (pos member_role) role)))
            ownership_change)
          _ h1 in
      inr
        (ground arith, ground arith, ground arith, require_role-HasRole operator owner_role c ms q)

  check_new_alias-may :
      (user : ℕ) (alias : Option ℕ) (c : Conversation) (m m2 : Member)
      → check_new_alias operator user alias c r.members m ≡ ok m2
      → (m2 ≡ m)
        ⊎ ((m2 ≡ record m { alias = m2.alias })
            × ((user ≡ operator)
                ⊎ ((t o : Member) × (get_member user r.members ≡ some t)
                    × (get_member operator r.members ≡ some o)
                    × (o.role < t.role))))
  unfolding check_new_alias
  check_new_alias-may user none c m m2 h = inl (ground arith)
  check_new_alias-may user (some alias) c m m2 h = elim (Bool-cases (user == operator)) [
    | inl e ↦ inr (ground arith, inl (ground arith))
    | inr e ↦
        let (u, q, h1) =
          >>=-eq-ok
            (require_role operator admin_role c r.members
              >> verify_target_not_higher user operator r.members)
            _ (rw e at h) in
        let (v, w, x) = >>=-eq-ok (require_role operator admin_role c r.members) _ q in
        inr (ground (arith, h1), inr (verify_target_not_higher-above user operator r.members x))
  ]

  -- The row that is written.

  written-IsRewrite :
      (user : ℕ) (role : Option ℤ) (alias : Option ℕ) (c : Conversation) (m m1 m2 : Member)
      → get_member user r.members ≡ some m
      → check_new_role operator role c r.members m ≡ ok m1
      → check_new_alias operator user alias c r.members m1 ≡ ok m2
      → IsRewrite operator user r.members (λ x. record x { role = m2.role; alias = m2.alias })
  written-IsRewrite user role alias c m m1 m2 g h1 h2 =
      let f : Member → Member = λ x. record x { role = m2.role; alias = m2.alias } in
      let kept : m2.role ≡ m1.role = elim (check_new_alias-may user alias c m1 m2 h2) [
        | inl e ↦ ap (λ (z : Member). z.role) e
        | inr (e, w) ↦ ap (λ (z : Member). z.role) e
      ] in
      let allowed : (m1 ≡ m) → MayChange operator user r.members m f = λ same_role.
        elim (check_new_alias-may user alias c m1 m2 h2) [
          | inl e ↦
              same
                (ap (λ (z : Member). record m { role = z.role; alias = z.alias }) (e ∙ same_role))
          | inr (e, inl o) ↦ own o
          | inr (e, inr (t, o, gt, go, lt)) ↦
              above o go (subst (λ (z : Member). o.role < z.role) (some_injective (sym gt ∙ g)) lt)
        ] in
      elim (check_new_role-eq role c r.members m m1 h1) [
        | inl e ↦ record {
          row = m;
          stored = g;
          keeps_user = λ x. refl;
          role = inl (kept ∙ ap (λ (z : Member). z.role) e);
          may = allowed e;
        }
        | inr (e, lo, hi, o) ↦ record {
          row = m;
          stored = g;
          keeps_user = λ x. refl;
          role = inr (omega arith, omega arith);
          may = by_owner o;
        }
      ]

  pub update_member-Step :
      (user : ℕ) (role : Option ℤ) (alias : Option ℕ)
      → update_member valid new_id caller operator conv_id user role alias r ≡ ok r'
      → Step operator r r'
  unfolding update_member
  update_member-Step user role alias h =
      let (c, l, h1) =
        >>=-eq-ok (lock_conversation valid caller operator (conv_id ∷ user ∷ []) r) _ h in
      let (u2, q2, h2) = >>=-eq-ok (guard (not (is_system c.type)) forbidden) _ h1 in
      let (u3, q3, h3) = >>=-eq-ok (require_role operator member_role c r.members) _ h2 in
      let (m, g, h4) = >>=-eq-ok (or_fail (get_member user r.members) member_not_found) _ h3 in
      let (m1, a, h5) = >>=-eq-ok (check_new_role operator role c r.members m) _ h4 in
      let (m2, b, h6) = >>=-eq-ok (check_new_alias operator user alias c r.members m1) _ h5 in
      let (ch, p, e) = publish_to_all_lem new_id _ _ r.channel r' h6 in
      rewrites c user _ ch (lock_conversation_lem valid caller operator _ r c l).0
        (written-IsRewrite user role alias c m m1 m2 (or_fail-eq-ok _ _ g) a b) p e
