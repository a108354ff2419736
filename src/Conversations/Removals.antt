-- ===== src/Conversations/Removals.antt =====
-- What RemoveMembers takes, and what it leaves.
use maim.Common.{
  Option, some_injective, ℕ, ◌+◌, ◌<◌, ◌≡◌, refl, sym, ◌∙◌, subst, ◌⊎◌, inl, inr, false, some, List,
  [], ◌∷◌, Memᴰ, arith, ok, >>=-eq-ok, ok-injective, or_fail, or_fail-eq-ok, ◌==◌, ==_iff,
  Bool-cases, All, All-map, All-delete, All-of_mem, All-mem, UniqueKeys, UniqueKeys-delete, exists,
  delete, length, find-mem, find_passes, mem-delete_miss, length-delete, >>=-eq-ok,
  All-of_not_exists,
}
use maim.Conversations.Model.{
  Conversation, Member, Channel, by_user, record_not_found, member_left, admin_role,
}
use maim.Conversations.Channel.{publish_bot_activity}
use maim.Conversations.Permission.{get_member, require_role}
use maim.Conversations.Members.{check_removal, removal_targets, remove_each, seen_in}
use maim.Conversations.Steps.{verify_target_not_higher-above}

abbrev pub user_of : Member → ℕ
user_of m = m.user_id

-- The row is the operator's own, or stands below the operator.
abbrev pub IsBelow : ℕ → List Member → Member → Type 0
IsBelow operator ms t =
    (t.user_id ≡ operator) ⊎ ((o : Member) × (get_member operator ms ≡ some o) × (o.role < t.role))

pub record IsTarget (operator : ℕ) (ms : List Member) (t : Member) : Type 0 where
  pub stored : Memᴰ t ms
  pub below : IsBelow operator ms t

check_removal-IsBelow :
    (operator : ℕ) (c : Conversation) (ms : List Member) (user : ℕ) (t : Member) {u : Unit {0}}
    → check_removal operator c ms user ≡ ok u
    → get_member user ms ≡ some t
    → IsBelow operator ms t
unfolding check_removal
check_removal-IsBelow operator c ms user t h g =
    let at : t.user_id ≡ user = (==_iff t.user_id user).0 (find_passes (by_user user) ms g) in
    elim (Bool-cases (user == operator)) [
      | inl e ↦ inl (at ∙ (==_iff user operator).0 e)
      | inr e ↦
          let (v, q, w) = >>=-eq-ok (require_role operator admin_role c ms) _ (rw e at h) in
          let (t', o, gt, go, lt) = verify_target_not_higher-above user operator ms w in
          inr (o, go, subst (λ (z : Member). o.role < z.role) (some_injective (sym gt ∙ g)) lt)
    ]

abbrev pub AreTargets : ℕ → List Member → List ℕ → List Member → Type 0
AreTargets operator ms seen ts =
    All (IsTarget operator ms) ts
    × UniqueKeys user_of ts
    × All (λ t. seen_in seen t.user_id ≡ false) ts

-- The targets: rows of the members, each user once and none that was seen.
pub removal_targets_lem :
    (operator : ℕ) (c : Conversation) (ms : List Member) (seen us : List ℕ) (ts : List Member)
    → removal_targets operator c ms seen us ≡ ok ts
    → AreTargets operator ms seen ts
unfolding removal_targets
removal_targets_lem operator c ms seen [] ts h =
    subst (AreTargets operator ms seen) (ok-injective h) (tt, tt, tt)
removal_targets_lem operator c ms seen (u ∷ us) ts h = elim (Bool-cases (seen_in seen u)) [
  | inl e ↦ removal_targets_lem operator c ms seen us ts (rw (e, removal_targets) at h)
  | inr e ↦
      let (v, q, h1) = >>=-eq-ok (check_removal operator c ms u) _ (rw (e, removal_targets) at h) in
      let (m, f, h2) = >>=-eq-ok (or_fail (get_member u ms) record_not_found) _ h1 in
      let (rest, r, h3) = >>=-eq-ok (removal_targets operator c ms (u ∷ seen) us) _ h2 in
      let (targets, unique, fresh) = removal_targets_lem operator c ms (u ∷ seen) us rest r in
      let found = or_fail-eq-ok _ _ f in
      let at : m.user_id ≡ u = (==_iff m.user_id u).0 (find_passes (by_user u) ms found) in
      subst (AreTargets operator ms seen) (ok-injective h3) (
        (
          record {
            stored = find-mem (by_user u) ms found;
            below = check_removal-IsBelow operator c ms u m q found;
          },
          targets,
        ),
        (no_other m u rest at fresh, unique),
        (rw at e, All-map _ _ rest (λ t k. ground arith) fresh),
      )
]
  where
    no_other :
        (m : Member) (user : ℕ) (rest : List Member)
        → m.user_id ≡ user
        → All (λ t. seen_in (user ∷ seen) t.user_id ≡ false) rest
        → exists (λ a. a.user_id == m.user_id) rest ≡ false
    no_other m user [] e k = refl
    no_other m user (t ∷ rest) e k = ground (arith, no_other m user rest e k.1, k.0)

-- A property of the rows that stay.
pub remove_each-All :
    (P : Member → Type 0) (new_id : ℕ → Option ℕ) (ts ms ms' : List Member) (ch ch' : Channel)
    → remove_each new_id ts ms ch ≡ ok (ms', ch')
    → All P ms
    → All P ms'
unfolding remove_each
remove_each-All P new_id [] ms ms' ch ch' h k = subst (All P) (ground arith) k
remove_each-All P new_id (t ∷ ts) ms ms' ch ch' h k =
    let (ch1, a, b) = >>=-eq-ok (publish_bot_activity new_id (member_left t.user_id) ch) _ h in
    remove_each-All P new_id ts (delete (by_user t.user_id) ms) ms' ch1 ch' b
      (All-delete P (by_user t.user_id) ms (λ x m n. All-mem P ms x k m))

pub remove_each-UniqueKeys :
    (new_id : ℕ → Option ℕ) (ts ms ms' : List Member) (ch ch' : Channel)
    → remove_each new_id ts ms ch ≡ ok (ms', ch')
    → UniqueKeys user_of ms
    → UniqueKeys user_of ms'
unfolding remove_each
remove_each-UniqueKeys new_id [] ms ms' ch ch' h k = subst (UniqueKeys user_of) (ground arith) k
remove_each-UniqueKeys new_id (t ∷ ts) ms ms' ch ch' h k =
    let (ch1, a, b) = >>=-eq-ok (publish_bot_activity new_id (member_left t.user_id) ch) _ h in
    remove_each-UniqueKeys new_id ts (delete (by_user t.user_id) ms) ms' ch1 ch' b
      (UniqueKeys-delete user_of (by_user t.user_id) ms k)

-- As many rows go as there are targets.
pub remove_each-length :
    (new_id : ℕ → Option ℕ) (ts ms ms' : List Member) (ch ch' : Channel)
    → remove_each new_id ts ms ch ≡ ok (ms', ch')
    → UniqueKeys user_of ms
    → UniqueKeys user_of ts
    → All (λ t. Memᴰ t ms) ts
    → length ms' + length ts ≡ length ms
unfolding remove_each
remove_each-length new_id [] ms ms' ch ch' h k u s =
    let e : ms ≡ ms' = ground arith in rw e (omega arith)
remove_each-length new_id (t ∷ ts) ms ms' ch ch' h k u s =
    let (ch1, a, b) = >>=-eq-ok (publish_bot_activity new_id (member_left t.user_id) ch) _ h in
    let rest : All (λ x. Memᴰ x (delete (by_user t.user_id) ms)) ts = All-of_mem _ ts (λ x m.
      mem-delete_miss (by_user t.user_id) ms x (All-mem _ ts x (All-of_not_exists _ ts u.0) m)
        (All-mem _ ts x s.1 m)) in
    let n =
      remove_each-length new_id ts (delete (by_user t.user_id) ms) ms' ch1 ch' b
        (UniqueKeys-delete user_of (by_user t.user_id) ms k) u.1 rest in
    omega (arith, n, length-delete user_of ms t k s.0)
