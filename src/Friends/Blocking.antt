-- ===== src/Friends/Blocking.antt =====
-- A block ends a friendship and holds until the blocker lifts it, but for a race with an acceptance.
use maim.Common.{
  ℕ, ◌≡◌, ap, ◌∙◌, inl, inr, Bool, true, false, ◌&&◌, Option, List, [], ◌∷◌, arith, ok,
  Result-cases, All, exists, exists-append, ◌==◌, delete, update,
}
use maim.Friends.Model.{UserBlock, Contacts, FriendRequest, block_key, accepted}
use maim.Friends.Caller.{user_id_from_context}
use maim.Friends.Repo.{
  is_friend, is_blocked, has_block, accept, delete_block, delete_pair, update_remark, update_group,
  remove_group, rename, pending_key, with_status,
}
use maim.Friends.Requests.{accept_request_checks}
use maim.Friends.Relations.{block_user}
use maim.Friends.Views.{same_pair, is_friend-befriended, is_blocked-of_has_block}
use maim.Friends.Effects.{
  delete_friend_effect, set_remark_effect, unblock_user_effect, block_user_effect,
  remove_group_effect, rename_group_effect, set_group_effect, create_friend_group_effect,
  reject_request_effect, cancel_request_effect, accept_request_checks_effect, send_request_effect,
  accept_effect,
}
use maim.Friends.Invariant.{IsSound}
use maim.Friends.Handlers.{
  Call, send, accepts, rejects, cancels, blocks, unblocks, deletes, remarks, creates_group,
  renames_group, deletes_group, sets_group, answer, serve, accept_request_effect, tables_of-eq-ok,
  answer-IsSound, serve-IsSound,
}

-- The call is the unblocking of `target` by `user`.
abbrev pub lifts : (ℕ → Bool) → ℕ → ℕ → Call → Bool
lifts valid user target (unblocks caller requested who) =
    user_id_from_context valid caller == user && who == target
lifts valid user target _ = false

exists_block-kept :
    (u v a b : ℕ) (bs : List UserBlock)
    → same_pair a b u v ≡ false
    → exists (block_key u v) bs ≡ true
    → exists (block_key u v) (delete (block_key a b) bs) ≡ true
exists_block-kept u v a b [] n h = h
exists_block-kept u v a b (c ∷ cs) n h = ground (arith, exists_block-kept u v a b cs n)

has_block-same :
    (u v : ℕ) (t t' : Contacts)
    → t'.blocks ≡ t.blocks
    → has_block u v t ≡ true
    → has_block u v t' ≡ true
unfolding has_block
has_block-same u v t t' e h = rw e h

-- Only its own lifting takes a block away.
answer-has_block :
    (valid : ℕ → Bool) (u v : ℕ) (c : Call) (t t' : Contacts)
    → answer valid c t ≡ ok t'
    → lifts valid u v c ≡ false
    → has_block u v t ≡ true
    → has_block u v t' ≡ true
unfolding answer delete_pair delete_block update_remark update_group remove_group rename
answer-has_block valid u v (send new_id now caller from_ to message) t t' h n b =
    let (out, sent, e) = tables_of-eq-ok _ h in
    let (q, differ, waits, e') =
      send_request_effect valid caller from_ new_id now from_ to message t out sent in
    has_block-same u v t t' (ap (λ (z : Contacts). z.blocks) (e ∙ e')) b
answer-has_block valid u v (accepts id1 id2 now caller requested id) t t' h n b =
    let (q, checked, h1) = accept_request_effect valid id1 id2 now caller requested id t t' h in
    let (i, j, e) = accept_effect id1 id2 now q t t' h1 in
    has_block-same u v t t' (ap (λ (z : Contacts). z.blocks) e) b
answer-has_block valid u v (rejects now caller requested id) t t' h n b =
    let (q, mine, e) = reject_request_effect valid caller requested now id t t' h in
    has_block-same u v t t' (ap (λ (z : Contacts). z.blocks) e) b
answer-has_block valid u v (cancels now caller requested id) t t' h n b =
    let (q, mine, e) = cancel_request_effect valid caller requested now id t t' h in
    has_block-same u v t t' (ap (λ (z : Contacts). z.blocks) e) b
answer-has_block valid u v (blocks new_id now caller requested target) t t' h n b =
    elim (block_user_effect valid caller requested new_id now target t t' h) [
      | inl (old, e) ↦ has_block-same u v t t' (ap (λ (z : Contacts). z.blocks) e) b
      | inr (id, e) ↦ rw e (
          unfold has_block in
          ground (
            arith,
            exists-append (block_key u v) t.blocks (
                record {
                  id = id;
                  user_id = user_id_from_context valid caller;
                  blocked_user_id = target;
                  created_at = now;
                }
                ∷ []),
          ))
    ]
answer-has_block valid u v (unblocks caller requested target) t t' h n b =
    rw (unblock_user_effect valid caller requested target t t' h) (
      unfold has_block in
      exists_block-kept u v (user_id_from_context valid caller) target t.blocks (ground arith) b)
answer-has_block valid u v (deletes caller requested friend) t t' h n b =
    has_block-same u v t t'
      (ap (λ (z : Contacts). z.blocks) (delete_friend_effect valid caller requested friend t t' h))
      b
answer-has_block valid u v (remarks caller requested friend remark) t t' h n b =
    has_block-same u v t t'
      (ap (λ (z : Contacts). z.blocks)
        (set_remark_effect valid caller requested friend remark t t' h))
      b
answer-has_block valid u v (creates_group new_id now caller requested name) t t' h n b =
    let (out, made, e) = tables_of-eq-ok _ h in
    let (g, e') = create_friend_group_effect valid caller requested new_id now name t out made in
    has_block-same u v t t' (ap (λ (z : Contacts). z.blocks) (e ∙ e')) b
answer-has_block valid u v (renames_group caller requested id name) t t' h n b =
    let (name', e) = rename_group_effect valid caller requested id name t t' h in
    has_block-same u v t t' (ap (λ (z : Contacts). z.blocks) e) b
answer-has_block valid u v (deletes_group caller requested id) t t' h n b =
    has_block-same u v t t'
      (ap (λ (z : Contacts). z.blocks) (remove_group_effect valid caller requested id t t' h)) b
answer-has_block valid u v (sets_group caller requested friend group clear) t t' h n b =
    elim (set_group_effect valid caller requested friend group clear t t' h) [
      | inl e ↦ has_block-same u v t t' (ap (λ (z : Contacts). z.blocks) e) b
      | inr (e, owned) ↦ has_block-same u v t t' (ap (λ (z : Contacts). z.blocks) e) b
    ]

serve-has_block :
    (valid : ℕ → Bool) (u v : ℕ) (cs : List Call) (t : Contacts)
    → All (λ c. lifts valid u v c ≡ false) cs
    → has_block u v t ≡ true
    → has_block u v (serve valid cs t) ≡ true
unfolding serve
serve-has_block valid u v [] t n b = b
serve-has_block valid u v (c ∷ cs) t n b = elim (Result-cases (answer valid c t)) [
  | inl (t', e) ↦
      rw e (serve-has_block valid u v cs t' n.1 (answer-has_block valid u v c t t' e n.0 b))
  | inr (x, e) ↦ rw e (serve-has_block valid u v cs t n.1 b)
]

-- Sound tables with a block have no friendship of its two users.
not_friends :
    (u v : ℕ) (t : Contacts)
    → IsSound t
    → has_block u v t ≡ true
    → (is_friend u v t ≡ false) × (is_friend v u t ≡ false)
not_friends u v t s b =
    ground (arith, s.apart u v, s.symmetric u v, is_blocked-of_has_block u v t b)

-- After a block that succeeds.
block_user-has_block :
    (valid : ℕ → Bool) (new_id : Option ℕ) (now caller requested target : ℕ) (t t' : Contacts)
    → block_user valid new_id now caller requested target t ≡ ok t'
    → has_block (user_id_from_context valid caller) target t' ≡ true
unfolding delete_pair
block_user-has_block valid new_id now caller requested target t t' h =
    elim (block_user_effect valid caller requested new_id now target t t' h) [
      | inl (old, e) ↦ has_block-same _ target t t' (ap (λ (z : Contacts). z.blocks) e) old
      | inr (id, e) ↦ rw e (
          unfold has_block in
          ground (
            arith,
            exists-append (block_key (user_id_from_context valid caller) target) t.blocks (
                record {
                  id = id;
                  user_id = user_id_from_context valid caller;
                  blocked_user_id = target;
                  created_at = now;
                }
                ∷ []),
          ))
    ]

-- On sound tables, once BlockUser has succeeded, the two users are no friends in either direction and
-- stay so through any calls by anybody, in any order, until the blocker unblocks the other.
pub block_user_holds :
    (valid : ℕ → Bool) (new_id : Option ℕ) (now caller requested target : ℕ) (cs : List Call)
    (t t' : Contacts)
    → IsSound t
    → block_user valid new_id now caller requested target t ≡ ok t'
    → All (λ c. lifts valid (user_id_from_context valid caller) target c ≡ false) cs
    → let user = user_id_from_context valid caller in
      (is_friend user target (serve valid cs t') ≡ false)
      × (is_friend target user (serve valid cs t') ≡ false)
      × (is_blocked user target (serve valid cs t') ≡ true)
unfolding answer
block_user_holds valid new_id now caller requested target cs t t' s h n =
    let user = user_id_from_context valid caller in
    let b =
      serve-has_block valid user target cs t' n
        (block_user-has_block valid new_id now caller requested target t t' h) in
    let s' = answer-IsSound valid (blocks new_id now caller requested target) t t' h s in
    let (p, q) = not_friends user target (serve valid cs t') (serve-IsSound valid cs t' s') b in
    (p, q, is_blocked-of_has_block user target _ b)

-- AcceptRequest looks for a block before its transaction and not in it. If the recipient's block of
-- the sender succeeds in between and the acceptance goes through, the two are friends with a block
-- between them.
pub accept_after_block_befriends :
    (valid : ℕ → Bool) (id1 id2 new_id : Option ℕ) (now later caller requested id : ℕ)
    (q : FriendRequest) (t t' t'' : Contacts)
    → accept_request_checks valid caller requested id t ≡ ok q
    → block_user valid new_id now caller requested q.from_user_id t ≡ ok t'
    → accept id1 id2 later q t' ≡ ok t''
    → (is_friend q.to_user_id q.from_user_id t'' ≡ true)
      × (is_blocked q.to_user_id q.from_user_id t'' ≡ true)
accept_after_block_befriends valid id1 id2 new_id now later caller requested id q t t' t'' checked
      blocked went =
    let (found, mine, free) = accept_request_checks_effect valid caller requested id t q checked in
    let (i, j, e) = accept_effect id1 id2 later q t' t'' went in
    let b = block_user-has_block valid new_id now caller requested q.from_user_id t t' blocked in
    (
      rw e (
          ground (
            arith,
            is_friend-befriended q.to_user_id q.from_user_id i j later q.from_user_id q.to_user_id
                (record t' {
                  requests = update (pending_key q.id) (with_status accepted later) t'.requests;
                }),
          )),
      is_blocked-of_has_block _ _ t''
          (rw mine (has_block-same _ _ t' t'' (ap (λ (z : Contacts). z.blocks) e) b)),
    )
