-- ===== src/Friends/Groups.antt =====
-- The groups that a user sorts friends into: creategrouplogic.go, renamegrouplogic.go,
-- deletegrouplogic.go, setgrouplogic.go and listgroupslogic.go.
use maim.Common.{
  ℕ, ◌+◌, Bool, true, false, ◌&&◌, ◌||◌, not, Option, none, some, List, [], ◌∷◌, Result, ok, err,
  ◌>>=◌, ◌>>◌, guard, if◌then◌else◌, ◌==◌, leb, is_some, select, sort_by, ℤ,
}
use maim.Friends.Model.{
  Friend, FriendGroup, Contacts, FriendError, invalid_param, not_friend, group_not_found,
  not_group_owner,
}
use maim.Friends.Caller.{check_caller, int32}
use maim.Friends.Repo.{
  is_friend, update_group, create_group, get_group, rename, remove_group, list_friend_rows,
  in_group,
}

-- unicode.IsSpace.
abbrev pub is_space : ℕ → Bool
is_space c =
    (leb 9 c && leb c 13)
    || (c == 32
        || (c == 133
            || (c == 160
                || (c == 5760
                    || ((leb 8192 c && leb c 8202)
                        || (c == 8232
                            || (c == 8233 || (c == 8239 || (c == 8287 || c == 12288)))))))))

abbrev trim_left : List ℕ → List ℕ
trim_left [] = []
trim_left (c ∷ cs) = if is_space c then trim_left cs else c ∷ cs

-- A space goes if nothing but spaces stands behind it.
abbrev keep : ℕ → List ℕ → List ℕ
keep c [] = if is_space c then [] else c ∷ []
keep c (d ∷ ds) = c ∷ d ∷ ds

abbrev trim_right : List ℕ → List ℕ
trim_right [] = []
trim_right (c ∷ cs) = keep c (trim_right cs)

-- strings.TrimSpace.
unfoldable pub trim_space : List ℕ → List ℕ
trim_space cs = trim_right (trim_left cs)

abbrev pub is_empty {ℓ} : {A : Type ℓ} → List A → Bool
is_empty [] = true
is_empty (x ∷ xs) = false

unfoldable pub create_friend_group :
    (ℕ → Bool) → Option ℕ → ℕ → ℕ → ℕ → List ℕ → Contacts → Result FriendError (Contacts × ℕ)
unfolding check_caller trim_space create_group
create_friend_group valid new_id now caller requested name t = do
  user ← check_caller valid caller requested []
  guard (not (is_empty (trim_space name))) invalid_param
  create_group new_id now user (trim_space name) t

unfoldable pub rename_group :
    (ℕ → Bool) → ℕ → ℕ → ℕ → List ℕ → Contacts → Result FriendError Contacts
unfolding check_caller trim_space get_group rename
rename_group valid caller requested id name t = do
  user ← check_caller valid caller requested (id ∷ [])
  guard (not (is_empty (trim_space name))) invalid_param
  g ← get_group id t
  guard (g.user_id == user) not_group_owner
  ok (rename id (trim_space name) t)

unfoldable pub delete_group : (ℕ → Bool) → ℕ → ℕ → ℕ → Contacts → Result FriendError Contacts
unfolding check_caller get_group remove_group
delete_group valid caller requested id t = do
  user ← check_caller valid caller requested (id ∷ [])
  g ← get_group id t
  guard (g.user_id == user) not_group_owner
  ok (remove_group id t)

abbrev pub owned_by : ℕ → Result FriendError FriendGroup → Bool
owned_by user (ok g) = g.user_id == user
owned_by user (err e) = false

-- The group that the request names, where it names one: found, and the user's.
abbrev owns_group : ℕ → Option ℕ → (ℕ → Result FriendError FriendGroup) → Bool
owns_group user none found = true
owns_group user (some g) found = owned_by user (found g)

abbrev valid_group : (ℕ → Bool) → Option ℕ → Bool
valid_group valid none = true
valid_group valid (some g) = valid g

unfoldable pub set_group :
    (ℕ → Bool) → ℕ → ℕ → ℕ → Option ℕ → Bool → Contacts → Result FriendError Contacts
unfolding check_caller is_friend get_group update_group
set_group valid caller requested friend group clear t = do
  guard (valid_group valid group) invalid_param
  user ← check_caller valid caller requested (friend ∷ [])
  guard (is_friend user friend t) not_friend
  guard (not (clear && is_some group)) invalid_param
  if not (is_some group) && not clear
      then ok t
      else (guard (owns_group user group (λ g. get_group g t)) group_not_found
          >> ok (update_group user friend group t))

-- The count of the friends of a group.
abbrev pub count_group : ℕ → List Friend → ℕ
count_group g [] = 0
count_group g (f ∷ fs) = (if in_group g f.group_id then 1 else 0) + count_group g fs

pub record GroupInfo : Type 0 where
  pub id : ℕ
  pub name : List ℕ
  pub sort_order : ℕ
  pub friend_count : ℤ
  pub created_at : ℕ

abbrev group_infos : List Friend → List FriendGroup → List GroupInfo
group_infos fs [] = []
group_infos fs (g ∷ gs) =
    record {
      id = g.id;
      name = g.name;
      sort_order = g.sort_order;
      friend_count = int32 (count_group g.id fs);
      created_at = g.created_at;
    }
    ∷ group_infos fs gs

-- ORDER BY sort_order ASC, id ASC.
unfoldable pub list_groups : (ℕ → Bool) → ℕ → ℕ → Contacts → Result FriendError (List GroupInfo)
unfolding check_caller list_friend_rows
list_groups valid caller requested t = do
  user ← check_caller valid caller requested []
  let groups =
      sort_by (λ g. g.sort_order)
        (sort_by (λ g. g.id) (select (λ (g : FriendGroup). g.user_id == user) t.groups))
  ok (group_infos (list_friend_rows user none 0 none t).0 groups)
