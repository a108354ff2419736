-- ===== src/Friends/Handlers.antt =====
-- Any sequence of calls of the handlers that write, and what it keeps.
use maim.Common.{
  ℕ, ◌≡◌, refl, sym, subst, ◌∙◌, inl, inr, Bool, Option, List, [], ◌∷◌, Result, ok, err, >>=-eq-ok,
  ok-injective, err≢ok, Result-cases, All-mem, All-append,
}
use maim.Friends.Model.{FriendRequest, Contacts, FriendError, accepted, rejected, cancelled}
use maim.Friends.Repo.{accept, is_blocked}
use maim.Friends.Requests.{
  send_request, accept_request, accept_request_checks, reject_request, cancel_request,
}
use maim.Friends.Relations.{block_user, unblock_user, delete_friend, set_remark}
use maim.Friends.Groups.{create_friend_group, rename_group, delete_group, set_group}
use maim.Friends.Effects.{
  delete_friend_effect, set_remark_effect, unblock_user_effect, block_user_effect,
  remove_group_effect, rename_group_effect, set_group_effect, create_friend_group_effect,
  reject_request_effect, cancel_request_effect, accept_request_checks_effect, send_request_effect,
  accept_effect,
}
use maim.Friends.Invariant.{
  IsSound, IsBetween, delete_pair-IsSound, delete_block-IsSound, update_remark-IsSound,
  update_group-IsSound, remove_group-IsSound, rename-IsSound, add_group-IsSound,
  with_requests-IsSound, update_requests-IsBetween, block_pair-IsSound, befriended-IsSound,
}

-- A call, with the identities that it generates and its time.
pub data Call : Type 0 where
  send : Option ℕ → ℕ → ℕ → ℕ → ℕ → ℕ → Call
  accepts : Option ℕ → Option ℕ → ℕ → ℕ → ℕ → ℕ → Call
  rejects cancels : ℕ → ℕ → ℕ → ℕ → Call
  blocks : Option ℕ → ℕ → ℕ → ℕ → ℕ → Call
  unblocks deletes : ℕ → ℕ → ℕ → Call
  remarks : ℕ → ℕ → ℕ → ℕ → Call
  creates_group : Option ℕ → ℕ → ℕ → ℕ → List ℕ → Call
  renames_group : ℕ → ℕ → ℕ → List ℕ → Call
  deletes_group : ℕ → ℕ → ℕ → Call
  sets_group : ℕ → ℕ → ℕ → Option ℕ → Bool → Call

abbrev pub tables_of {ℓ} :
    {A : Type ℓ} → Result FriendError (Contacts × A) → Result FriendError Contacts
tables_of (ok out) = ok out.0
tables_of (err e) = err e

pub tables_of-eq-ok {ℓ} :
    {A : Type ℓ} (r : Result FriendError (Contacts × A)) {t : Contacts}
    → tables_of r ≡ ok t
    → (out : Contacts × A) × (r ≡ ok out) × (t ≡ out.0)
tables_of-eq-ok (ok out) h = (out, refl, sym (ok-injective h))
tables_of-eq-ok (err e) h = absurd (err≢ok h)

unfoldable pub answer : (ℕ → Bool) → Call → Contacts → Result FriendError Contacts
answer valid (send new_id now caller from_ to message) t =
    tables_of (send_request valid new_id now caller from_ to message t)
answer valid (accepts id1 id2 now caller requested id) t =
    accept_request valid id1 id2 now caller requested id t
answer valid (rejects now caller requested id) t = reject_request valid now caller requested id t
answer valid (cancels now caller requested id) t = cancel_request valid now caller requested id t
answer valid (blocks new_id now caller requested target) t =
    block_user valid new_id now caller requested target t
answer valid (unblocks caller requested target) t = unblock_user valid caller requested target t
answer valid (deletes caller requested friend) t = delete_friend valid caller requested friend t
answer valid (remarks caller requested friend remark) t =
    set_remark valid caller requested friend remark t
answer valid (creates_group new_id now caller requested name) t =
    tables_of (create_friend_group valid new_id now caller requested name t)
answer valid (renames_group caller requested id name) t =
    rename_group valid caller requested id name t
answer valid (deletes_group caller requested id) t = delete_group valid caller requested id t
answer valid (sets_group caller requested friend group clear) t =
    set_group valid caller requested friend group clear t

-- A call that fails writes nothing.
abbrev pub settled : Result FriendError Contacts → Contacts → Contacts
settled (ok t') t = t'
settled (err e) t = t

unfoldable pub serve : (ℕ → Bool) → List Call → Contacts → Contacts
unfolding answer
serve valid [] t = t
serve valid (c ∷ cs) t = serve valid cs (settled (answer valid c t) t)

-- An acceptance is its checks and its transaction.
pub accept_request_effect :
    (valid : ℕ → Bool) (id1 id2 : Option ℕ) (now caller requested id : ℕ) (t t' : Contacts)
    → accept_request valid id1 id2 now caller requested id t ≡ ok t'
    → (q : FriendRequest) × (accept_request_checks valid caller requested id t ≡ ok q)
      × (accept id1 id2 now q t ≡ ok t')
unfolding accept_request
accept_request_effect valid id1 id2 now caller requested id t t' h =
    >>=-eq-ok (accept_request_checks valid caller requested id t) _ h

accept_request-IsSound :
    (valid : ℕ → Bool) (id1 id2 : Option ℕ) (now caller requested id : ℕ) (t t' : Contacts)
    → accept_request valid id1 id2 now caller requested id t ≡ ok t'
    → IsSound t
    → IsSound t'
accept_request-IsSound valid id1 id2 now caller requested id t t' h s =
    let (q, checked, h1) = accept_request_effect valid id1 id2 now caller requested id t t' h in
    let (found, mine, free) = accept_request_checks_effect valid caller requested id t q checked in
    let (i, j, e) = accept_effect id1 id2 now q t t' h1 in
    subst IsSound (sym e) (
      befriended-IsSound i j now q.from_user_id q.to_user_id _
        (All-mem IsBetween t.requests q s.between found) (unfold is_blocked in free)
        (with_requests-IsSound _ t (update_requests-IsBetween _ accepted now t.requests s.between)
          s))

-- A call that succeeds keeps the tables sound.
pub answer-IsSound :
    (valid : ℕ → Bool) (c : Call) (t t' : Contacts)
    → answer valid c t ≡ ok t'
    → IsSound t
    → IsSound t'
unfolding answer
answer-IsSound valid (send new_id now caller from_ to message) t t' h s =
    let (out, sent, e) = tables_of-eq-ok _ h in
    let (q, differ, waits, e') =
      send_request_effect valid caller from_ new_id now from_ to message t out sent in
    subst IsSound (sym (e ∙ e')) (
      with_requests-IsSound _ t (All-append IsBetween t.requests (q ∷ []) s.between (differ, tt)) s)
answer-IsSound valid (accepts id1 id2 now caller requested id) t t' h s =
    accept_request-IsSound valid id1 id2 now caller requested id t t' h s
answer-IsSound valid (rejects now caller requested id) t t' h s =
    let (q, mine, e) = reject_request_effect valid caller requested now id t t' h in
    subst IsSound (sym e)
      (with_requests-IsSound _ t (update_requests-IsBetween _ rejected now t.requests s.between) s)
answer-IsSound valid (cancels now caller requested id) t t' h s =
    let (q, mine, e) = cancel_request_effect valid caller requested now id t t' h in
    subst IsSound (sym e)
      (with_requests-IsSound _ t (update_requests-IsBetween _ cancelled now t.requests s.between) s)
answer-IsSound valid (blocks new_id now caller requested target) t t' h s =
    elim (block_user_effect valid caller requested new_id now target t t' h) [
      | inl (old, e) ↦ subst IsSound (sym e) (delete_pair-IsSound _ target t s)
      | inr (id, e) ↦ subst IsSound (sym e) (block_pair-IsSound _ t s)
    ]
answer-IsSound valid (unblocks caller requested target) t t' h s =
    subst IsSound (sym (unblock_user_effect valid caller requested target t t' h))
      (delete_block-IsSound _ target t s)
answer-IsSound valid (deletes caller requested friend) t t' h s =
    subst IsSound (sym (delete_friend_effect valid caller requested friend t t' h))
      (delete_pair-IsSound _ friend t s)
answer-IsSound valid (remarks caller requested friend remark) t t' h s =
    subst IsSound (sym (set_remark_effect valid caller requested friend remark t t' h))
      (update_remark-IsSound _ friend remark t s)
answer-IsSound valid (creates_group new_id now caller requested name) t t' h s =
    let (out, made, e) = tables_of-eq-ok _ h in
    let (g, e') = create_friend_group_effect valid caller requested new_id now name t out made in
    subst IsSound (sym (e ∙ e')) (add_group-IsSound g t s)
answer-IsSound valid (renames_group caller requested id name) t t' h s =
    let (name', e) = rename_group_effect valid caller requested id name t t' h in
    subst IsSound (sym e) (rename-IsSound id name' t s)
answer-IsSound valid (deletes_group caller requested id) t t' h s =
    subst IsSound (sym (remove_group_effect valid caller requested id t t' h))
      (remove_group-IsSound id t s)
answer-IsSound valid (sets_group caller requested friend group clear) t t' h s =
    elim (set_group_effect valid caller requested friend group clear t t' h) [
      | inl e ↦ subst IsSound (sym e) s
      | inr (e, owned) ↦ subst IsSound (sym e) (update_group-IsSound _ friend group t owned s)
    ]

-- Whatever is called, by whom and in whatever order, the tables stay sound: friendships are mutual,
-- nobody is one's own friend, no friends have a block between them in either direction, and every
-- friend stands in a group of one's own or in none.
pub serve-IsSound :
    (valid : ℕ → Bool) (cs : List Call) (t : Contacts) → IsSound t → IsSound (serve valid cs t)
unfolding serve
serve-IsSound valid [] t s = s
serve-IsSound valid (c ∷ cs) t s = elim (Result-cases (answer valid c t)) [
  | inl (t', e) ↦ rw e (serve-IsSound valid cs t' (answer-IsSound valid c t t' e s))
  | inr (x, e) ↦ rw e (serve-IsSound valid cs t s)
]
