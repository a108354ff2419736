-- ===== src/Friends/Status.antt =====
-- The life of a request of contact: it is answered once.
use maim.Common.{
  ℕ, ◌≡◌, refl, sym, subst, ap, ◌∙◌, inl, inr, Bool, true, false, List, [], ◌∷◌, ◌++◌, arith, ok,
  Bool-cases, Result-cases, update,
}
use maim.Friends.Model.{
  FriendRequest, FriendStatus, accepted, rejected, cancelled, Contacts, is_pending,
}
use maim.Friends.Repo.{
  pending_key, with_status, delete_pair, delete_block, update_remark, update_group, remove_group,
  rename,
}
use maim.Friends.Effects.{
  delete_friend_effect, set_remark_effect, unblock_user_effect, block_user_effect,
  remove_group_effect, rename_group_effect, set_group_effect, create_friend_group_effect,
  reject_request_effect, cancel_request_effect, send_request_effect, accept_effect,
}
use maim.Friends.Handlers.{
  Call, send, accepts, rejects, cancels, blocks, unblocks, deletes, remarks, creates_group,
  renames_group, deletes_group, sets_group, answer, serve, accept_request_effect, tables_of-eq-ok,
}

-- What may become of a request: nothing, or the one answer to a request that waits.
pub data Moves (q : FriendRequest) : FriendRequest → Type 0 where
  stays : {r : FriendRequest} → r ≡ q → Moves q r
  answered :
      {r : FriendRequest} (status : FriendStatus) (now : ℕ)
      → is_pending q.status ≡ true
      → is_pending status ≡ false
      → r ≡ with_status status now q
      → Moves q r

-- The requests of before, each moved on, and new ones behind them.
abbrev pub Evolves : List FriendRequest → List FriendRequest → Type 0
Evolves [] rs = Unit
Evolves (q ∷ qs) [] = ⊥
Evolves (q ∷ qs) (r ∷ rs) = Moves q r × Evolves qs rs

Moves-trans : (q r s : FriendRequest) → Moves q r → Moves r s → Moves q s
Moves-trans q r s (stays e) m = subst (λ z. Moves z s) e m
Moves-trans q r s (answered status now w c e) (stays f) = answered status now w c (f ∙ e)
Moves-trans q r s (answered status now w c e) (answered status' now' w' c' f) =
    let g : is_pending status ≡ true =
      subst (λ (z : FriendRequest). is_pending z.status ≡ true) e w' in
    cc

Evolves-refl : (qs : List FriendRequest) → Evolves qs qs
Evolves-refl [] = tt
Evolves-refl (q ∷ qs) = (stays refl, Evolves-refl qs)

Evolves-trans : (qs rs ss : List FriendRequest) → Evolves qs rs → Evolves rs ss → Evolves qs ss
Evolves-trans [] rs ss h k = tt
Evolves-trans (q ∷ qs) [] ss h k = absurd h
Evolves-trans (q ∷ qs) (r ∷ rs) [] h k = absurd k
Evolves-trans (q ∷ qs) (r ∷ rs) (s ∷ ss) h k =
    (Moves-trans q r s h.0 k.0, Evolves-trans qs rs ss h.1 k.1)

Evolves-append : (qs rs : List FriendRequest) → Evolves qs (qs ++ rs)
Evolves-append [] rs = tt
Evolves-append (q ∷ qs) rs = (stays refl, Evolves-append qs rs)

Evolves-update :
    (id now : ℕ) (status : FriendStatus) (qs : List FriendRequest)
    → is_pending status ≡ false
    → Evolves qs (update (pending_key id) (with_status status now) qs)
Evolves-update id now status [] c = tt
Evolves-update id now status (q ∷ qs) c = elim (Bool-cases (pending_key id q)) [
  | inl e ↦ rw e (answered status now (ground arith) c refl, Evolves-update id now status qs c)
  | inr e ↦ rw e (stays refl, Evolves-update id now status qs c)
]

same_requests : (t t' : Contacts) → t'.requests ≡ t.requests → Evolves t.requests t'.requests
same_requests t t' e = rw e (Evolves-refl t.requests)

abbrev requests_of : Contacts → List FriendRequest
requests_of t = t.requests

answer-Evolves :
    (valid : ℕ → Bool) (c : Call) (t t' : Contacts)
    → answer valid c t ≡ ok t'
    → Evolves t.requests t'.requests
unfolding answer delete_pair delete_block update_remark update_group remove_group rename
answer-Evolves valid (send new_id now caller from_ to message) t t' h =
    let (out, sent, e) = tables_of-eq-ok _ h in
    let (q, differ, waits, e') =
      send_request_effect valid caller from_ new_id now from_ to message t out sent in
    subst (Evolves t.requests) (sym (ap requests_of (e ∙ e'))) (Evolves-append t.requests (q ∷ []))
answer-Evolves valid (accepts id1 id2 now caller requested id) t t' h =
    let (q, checked, h1) = accept_request_effect valid id1 id2 now caller requested id t t' h in
    let (i, j, e) = accept_effect id1 id2 now q t t' h1 in
    subst (Evolves t.requests) (sym (ap requests_of e))
      (Evolves-update q.id now accepted t.requests refl)
answer-Evolves valid (rejects now caller requested id) t t' h =
    let (q, mine, e) = reject_request_effect valid caller requested now id t t' h in
    subst (Evolves t.requests) (sym (ap requests_of e))
      (Evolves-update q.id now rejected t.requests refl)
answer-Evolves valid (cancels now caller requested id) t t' h =
    let (q, mine, e) = cancel_request_effect valid caller requested now id t t' h in
    subst (Evolves t.requests) (sym (ap requests_of e))
      (Evolves-update q.id now cancelled t.requests refl)
answer-Evolves valid (blocks new_id now caller requested target) t t' h =
    elim (block_user_effect valid caller requested new_id now target t t' h) [
      | inl (old, e) ↦ same_requests t t' (ap requests_of e)
      | inr (id, e) ↦ same_requests t t' (ap requests_of e)
    ]
answer-Evolves valid (unblocks caller requested target) t t' h =
    same_requests t t' (ap requests_of (unblock_user_effect valid caller requested target t t' h))
answer-Evolves valid (deletes caller requested friend) t t' h =
    same_requests t t' (ap requests_of (delete_friend_effect valid caller requested friend t t' h))
answer-Evolves valid (remarks caller requested friend remark) t t' h =
    same_requests t t'
      (ap requests_of (set_remark_effect valid caller requested friend remark t t' h))
answer-Evolves valid (creates_group new_id now caller requested name) t t' h =
    let (out, made, e) = tables_of-eq-ok _ h in
    let (g, e') = create_friend_group_effect valid caller requested new_id now name t out made in
    same_requests t t' (ap requests_of (e ∙ e'))
answer-Evolves valid (renames_group caller requested id name) t t' h =
    let (name', e) = rename_group_effect valid caller requested id name t t' h in
    same_requests t t' (ap requests_of e)
answer-Evolves valid (deletes_group caller requested id) t t' h =
    same_requests t t' (ap requests_of (remove_group_effect valid caller requested id t t' h))
answer-Evolves valid (sets_group caller requested friend group clear) t t' h =
    elim (set_group_effect valid caller requested friend group clear t t' h) [
      | inl e ↦ same_requests t t' (ap requests_of e)
      | inr (e, owned) ↦ same_requests t t' (ap requests_of e)
    ]

-- Whatever is called, every request of before is still on record in its place, with its sender,
-- recipient and message; one that is not pending has not changed at all, and one that is pending has
-- at most been answered once, for good.
pub serve-Evolves :
    (valid : ℕ → Bool) (cs : List Call) (t : Contacts)
    → Evolves t.requests (serve valid cs t).requests
unfolding serve
serve-Evolves valid [] t = Evolves-refl t.requests
serve-Evolves valid (c ∷ cs) t = elim (Result-cases (answer valid c t)) [
  | inl (t', e) ↦
      rw (e, serve)
        (Evolves-trans _ _ _ (answer-Evolves valid c t t' e) (serve-Evolves valid cs t'))
  | inr (x, e) ↦ rw (e, serve) (serve-Evolves valid cs t)
]
