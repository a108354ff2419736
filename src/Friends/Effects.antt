-- ===== src/Friends/Effects.antt =====
-- What a handler that succeeds has done to the tables.
use maim.Common.{
  find-mem, ℕ, ◌≡◌, refl, ◌⊎◌, inl, inr, Bool, true, false, ◌&&◌, not, Option, none, some, List, [],
  ◌∷◌, ◌++◌, arith, ◌==◌, ok, >>=-eq-ok, or_fail-eq-ok, Bool-cases, exists, update, Memᴰ, find,
  or_fail, guard,
}
use maim.Friends.Model.{
  pending, accepted, rejected, cancelled, FriendRequest, FriendGroup, Contacts, is_pending,
  group_not_found, cannot_friend_self,
}
use maim.Friends.Caller.{user_id_from_context, check_caller, get_user_info}
use maim.Friends.Repo.{
  has_block, is_blocked, delete_block, delete_pair, update_remark, update_group, accept,
  pending_key, with_status, remove_group, rename, get_request,
}
use maim.Friends.Views.{befriended, blocking}
use maim.Friends.Requests.{
  send_request, send_request_checks, accept_request_checks, reject_request, cancel_request,
}
use maim.Friends.Relations.{block_user, unblock_user, delete_friend, set_remark}
use maim.Friends.Groups.{
  create_friend_group, rename_group, delete_group, set_group, trim_space, owned_by,
}

-- The group that is named, where one is, is the user's.
abbrev pub has_group : ℕ → Option ℕ → List FriendGroup → Bool
has_group user none groups = true
has_group user (some g) groups = exists (λ r. r.id == g && r.user_id == user) groups

has_group-found :
    (user g : ℕ) (groups : List FriendGroup)
    → owned_by user (or_fail (find (λ r. r.id == g) groups) group_not_found) ≡ true
    → has_group user (some g) groups ≡ true
has_group-found user g [] h = cc
has_group-found user g (r ∷ rs) h = ground (arith, has_group-found user g rs)

send_request_checks_differ :
    (valid : ℕ → Bool) (caller from_ to user : ℕ) (t : Contacts)
    → send_request_checks valid caller from_ to t ≡ ok user
    → (user == to) ≡ false
unfolding send_request_checks
send_request_checks_differ valid caller from_ to user t h =
    let (u, known, h1) = >>=-eq-ok (check_caller valid caller from_ (to ∷ [])) _ h in
    let (g, differ, h2) = >>=-eq-ok (guard (valid to && not (u == to)) cannot_friend_self) _ h1 in
    let (info, found, h3) = >>=-eq-ok (get_user_info valid to t) _ h2 in ground arith

module _ (valid : ℕ → Bool) (caller requested : ℕ) where
  pub delete_friend_effect :
      (friend : ℕ) (t t' : Contacts)
      → delete_friend valid caller requested friend t ≡ ok t'
      → t' ≡ delete_pair (user_id_from_context valid caller) friend t
  unfolding delete_friend
  delete_friend_effect friend t t' h = ground arith

  pub set_remark_effect :
      (friend remark : ℕ) (t t' : Contacts)
      → set_remark valid caller requested friend remark t ≡ ok t'
      → t' ≡ update_remark (user_id_from_context valid caller) friend remark t
  unfolding set_remark
  set_remark_effect friend remark t t' h = ground arith

  pub unblock_user_effect :
      (target : ℕ) (t t' : Contacts)
      → unblock_user valid caller requested target t ≡ ok t'
      → t' ≡ delete_block (user_id_from_context valid caller) target t
  unfolding unblock_user
  unblock_user_effect target t t' h = ground arith

  -- The block is on record, at the latest now, and the friendship is gone.
  pub block_user_effect :
      (new_id : Option ℕ) (now target : ℕ) (t t' : Contacts)
      → block_user valid new_id now caller requested target t ≡ ok t'
      → let user = user_id_from_context valid caller in
        ((has_block user target t ≡ true) × (t' ≡ delete_pair user target t))
        ⊎ ((id : ℕ) × (t'
              ≡ delete_pair user target (
                  blocking
                    (record { id = id; user_id = user; blocked_user_id = target; created_at = now })
                    t)))
  unfolding block_user
  block_user_effect none now target t t' h = inl (ground arith, ground arith)
  block_user_effect (some id) now target t t' h =
      elim (Bool-cases (has_block (user_id_from_context valid caller) target t)) [
        | inl e ↦ inl (e, ground arith)
        | inr e ↦ inr (id, ground arith)
      ]

  pub remove_group_effect :
      (id : ℕ) (t t' : Contacts)
      → delete_group valid caller requested id t ≡ ok t'
      → t' ≡ remove_group id t
  unfolding delete_group
  remove_group_effect id t t' h = ground arith

  pub rename_group_effect :
      (id : ℕ) (name : List ℕ) (t t' : Contacts)
      → rename_group valid caller requested id name t ≡ ok t'
      → (name' : List ℕ) × (t' ≡ rename id name' t)
  unfolding rename_group
  rename_group_effect id name t t' h = (trim_space name, ground arith)

  -- A group that is given to a friend is the caller's.
  pub set_group_effect :
      (friend : ℕ) (group : Option ℕ) (clear : Bool) (t t' : Contacts)
      → set_group valid caller requested friend group clear t ≡ ok t'
      → (t' ≡ t)
        ⊎ ((t' ≡ update_group (user_id_from_context valid caller) friend group t)
            × (has_group (user_id_from_context valid caller) group t.groups ≡ true))
  unfolding set_group
  set_group_effect friend none false t t' h = inl (ground arith)
  set_group_effect friend none true t t' h = inr (ground arith, refl)
  set_group_effect friend (some g) true t t' h = absurd (ground arith)
  set_group_effect friend (some g) false t t' h =
      inr (
        ground arith,
        has_group-found (user_id_from_context valid caller) g t.groups (ground arith),
      )

  pub create_friend_group_effect :
      (new_id : Option ℕ) (now : ℕ) (name : List ℕ) (t : Contacts) (out : Contacts × ℕ)
      → create_friend_group valid new_id now caller requested name t ≡ ok out
      → (g : FriendGroup) × (out.0 ≡ record t { groups = t.groups ++ g ∷ [] })
  unfolding create_friend_group
  create_friend_group_effect none now name t out h = absurd (ground arith)
  create_friend_group_effect (some id) now name t out h = (
    record {
      id = id;
      user_id = user_id_from_context valid caller;
      name = trim_space name;
      sort_order = 0;
      created_at = now;
    },
    ground arith,
  )

  -- The request that is closed was waiting, and the caller is its recipient.
  pub reject_request_effect :
      (now id : ℕ) (t t' : Contacts)
      → reject_request valid now caller requested id t ≡ ok t'
      → (q : FriendRequest) × (q.to_user_id ≡ user_id_from_context valid caller)
        × (t' ≡ record t {
          requests = update (pending_key q.id) (with_status rejected now) t.requests;
        })
  unfolding reject_request
  reject_request_effect now id t t' h =
      let (user, known, h1) = >>=-eq-ok (check_caller valid caller requested (id ∷ [])) _ h in
      let (q, found, h2) = >>=-eq-ok (get_request id t) _ h1 in (q, ground arith, ground arith)

  -- The request that is taken back was waiting, and the caller is its sender.
  pub cancel_request_effect :
      (now id : ℕ) (t t' : Contacts)
      → cancel_request valid now caller requested id t ≡ ok t'
      → (q : FriendRequest) × (q.from_user_id ≡ user_id_from_context valid caller)
        × (t' ≡ record t {
          requests = update (pending_key q.id) (with_status cancelled now) t.requests;
        })
  unfolding cancel_request
  cancel_request_effect now id t t' h =
      let (user, known, h1) = >>=-eq-ok (check_caller valid caller requested (id ∷ [])) _ h in
      let (q, found, h2) = >>=-eq-ok (get_request id t) _ h1 in (q, ground arith, ground arith)

  -- What is accepted was found, waits for the caller and is between users with no block.
  pub accept_request_checks_effect :
      (id : ℕ) (t : Contacts) (q : FriendRequest)
      → accept_request_checks valid caller requested id t ≡ ok q
      → Memᴰ q t.requests
        × (q.to_user_id ≡ user_id_from_context valid caller)
        × (is_blocked q.from_user_id q.to_user_id t ≡ false)
  unfolding accept_request_checks
  accept_request_checks_effect id t q h =
      let (user, known, h1) = >>=-eq-ok (check_caller valid caller requested (id ∷ [])) _ h in
      let (q', found, h2) = >>=-eq-ok (get_request id t) _ h1 in
      let same : q' ≡ q = ground arith in
      (rw same at (find-mem _ t.requests (or_fail-eq-ok _ _ found)), ground arith, ground arith)

  -- The sender is the caller, and a friend of nobody that is asked.
  pub send_request_effect :
      (new_id : Option ℕ) (now from_ to message : ℕ) (t : Contacts) (out : Contacts × ℕ)
      → send_request valid new_id now caller from_ to message t ≡ ok out
      → (q : FriendRequest) × ((q.from_user_id == q.to_user_id) ≡ false)
        × (is_pending q.status ≡ true)
        × (out.0 ≡ record t { requests = t.requests ++ q ∷ [] })
  unfolding send_request
  send_request_effect none now from_ to message t out h = absurd (ground arith)
  send_request_effect (some id) now from_ to message t out h =
      let (user, checked, h1) = >>=-eq-ok (send_request_checks valid caller from_ to t) _ h in
      (
        record {
          id = id;
          from_user_id = user;
          to_user_id = to;
          message = message;
          status = pending;
          created_at = now;
          updated_at = now;
        },
        send_request_checks_differ valid caller from_ to user t checked,
        refl,
        ground arith,
      )

-- Accept closes the request and adds the two rows of the friendship.
pub accept_effect :
    (new_id1 new_id2 : Option ℕ) (now : ℕ) (q : FriendRequest) (t t' : Contacts)
    → accept new_id1 new_id2 now q t ≡ ok t'
    → (id1 : ℕ) × (id2 : ℕ) × (t'
        ≡ befriended id1 id2 now q.from_user_id q.to_user_id (record t {
          requests = update (pending_key q.id) (with_status accepted now) t.requests;
        }))
unfolding accept
accept_effect none new_id2 now q t t' h = absurd (ground arith)
accept_effect (some id1) none now q t t' h = absurd (ground arith)
accept_effect (some id1) (some id2) now q t t' h = (id1, id2, ground arith)
