-- ===== src/Inbox/Prune/Invisible.antt =====
-- Pruning at the cutoff that readers use is invisible to them.
use maim.Common.{
  ℕ, ◌+◌, ◌≤◌, ◌<◌, ◌≡◌, refl, sym, ap, ◌∙◌, ◌⊎◌, inl, inr, Bool, false, ◌&&◌, Option, some, List,
  [], ◌∷◌, arith, Result, ok, ◌>>=◌, or_fail, >>=-eq-ok, ok-injective, or_fail-eq-ok, Bool-cases,
  Option-cases, Result-cases, ◌==◌, ltb, leb, ==_iff, find, update, delete, max, select-delete,
  exists-delete, max_of-delete, find-update_miss, find-update_hit, ℤ, pos_part,
}
use maim.Sequence
use maim.Inbox.Model.{UserInbox, InboxStream, InboxRepo, InboxError, record_not_found, stream_key}
use maim.Inbox.Page.{
  InboxPage, RebuildReason, allocated_before, is_allocated, rebuild_reason, pending, page_from,
  read_page,
}
use maim.Inbox.Page.Reason.{rebuild_reason-none, rebuild_reason-known}
use maim.Inbox.Prune.{prune_user, prune_users, prune}

abbrev doomed : ℕ → ℕ → UserInbox → Bool
doomed user boundary e = e.user_id == user && leb e.position boundary

abbrev retain : ℕ → InboxStream → InboxStream
retain p s = record s { retained_position = p }

-- The tables after a prune with a boundary past zero.
abbrev pruned : ℕ → ℕ → InboxStream → InboxRepo → InboxRepo
pruned user boundary stream r = record r {
  entries = delete (doomed user boundary) r.entries;
  streams = update (stream_key user) (retain (max stream.retained_position boundary)) r.streams;
}

prune_user-inv :
    (cutoff user n : ℕ) (r r' : InboxRepo)
    → prune_user cutoff user r ≡ ok (r', n)
    → (r' ≡ r)
      ⊎ ((s : InboxStream) × (find (stream_key user) r.streams ≡ some s)
          × (r' ≡ pruned user (allocated_before user cutoff r) s r))
unfolding prune_user
prune_user-inv cutoff user n r r' h =
    let (s, f, q) = >>=-eq-ok (or_fail (find (stream_key user) r.streams) record_not_found) _ h in
    elim (Bool-cases (allocated_before user cutoff r == 0)) [
      | inl z ↦ inl (sym (ap (λ (t : InboxRepo × ℕ). t.0) (ok-injective (rw z at q))))
      | inr z ↦
          inr (
            s,
            or_fail-eq-ok _ _ f,
            sym (ap (λ (t : InboxRepo × ℕ). t.0) (ok-injective (rw z at q))),
          )
    ]

-- A page is the same where the two states agree on what ReadPage looks at.
page_from-eq :
    (u p limit cutoff : ℕ) (r r' : InboxRepo) (s s' : InboxStream)
    → s'.position ≡ s.position
    → max s'.retained_position (allocated_before u cutoff r')
      ≡ max s.retained_position (allocated_before u cutoff r)
    → (max s.retained_position (allocated_before u cutoff r) < p
        → is_allocated u p r' ≡ is_allocated u p r)
    → (max s.retained_position (allocated_before u cutoff r) ≤ p
        → pending u p s.position r' ≡ pending u p s.position r)
    → page_from u p limit cutoff r' s' ≡ page_from u p limit cutoff r s
unfolding page_from
page_from-eq u p limit cutoff r r' s s' e l a q = elim (Option-cases here) [
  | inr (x, k) ↦ rw (page_from, same ∙ k) (rw (page_from, k) (rw e))
  | inl k ↦
      rw (page_from, same ∙ k)
        (rw (page_from, k) (rw (e, q (rebuild_reason-none p s.position _ _ k).2)))
]
  where
    lower : ℕ
    lower = max s.retained_position (allocated_before u cutoff r)

    here : Option RebuildReason
    here = rebuild_reason p s.position lower (is_allocated u p r)

    same :
        rebuild_reason p s'.position
          (max s'.retained_position (allocated_before u cutoff r'))
          (is_allocated u p r')
        ≡ here
    same = rw (e, l) (rebuild_reason-known p s.position lower _ _ a)

-- Deleting a prefix of one user's entries leaves another user's query alone, and a query past it.
allocated_before-pruned :
    (user u boundary cutoff : ℕ) (s : InboxStream) (r : InboxRepo)
    → allocated_before u cutoff (pruned user boundary s r) ≤ allocated_before u cutoff r
unfolding allocated_before
allocated_before-pruned user u boundary cutoff s r = omega (
  arith,
  max_of-delete (λ (e : UserInbox). e.position) (λ e. e.user_id == u && ltb e.created_at cutoff)
      (doomed user boundary) r.entries,
)

allocated_before-other :
    (user u boundary cutoff : ℕ) (s : InboxStream) (r : InboxRepo)
    → (u == user) ≡ false
    → allocated_before u cutoff (pruned user boundary s r) ≡ allocated_before u cutoff r
unfolding allocated_before
allocated_before-other user u boundary cutoff s r ne = rw (
    select-delete (λ e. e.user_id == u && ltb e.created_at cutoff) (doomed user boundary) r.entries
      (λ a t. ground arith))

is_allocated-pruned :
    (user u p boundary : ℕ) (s : InboxStream) (r : InboxRepo)
    → ((u == user) ≡ false) ⊎ (boundary < p)
    → is_allocated u p (pruned user boundary s r) ≡ is_allocated u p r
unfolding is_allocated
is_allocated-pruned user u p boundary s r c = rw (
    exists-delete (λ e. e.user_id == u && e.position == p) (doomed user boundary) r.entries
      (λ a t. ground arith))

pending-pruned :
    (user u p end boundary : ℕ) (s : InboxStream) (r : InboxRepo)
    → ((u == user) ≡ false) ⊎ (boundary ≤ p)
    → pending u p end (pruned user boundary s r) ≡ pending u p end r
unfolding pending
pending-pruned user u p end boundary s r c = rw (
    select-delete (λ e. e.user_id == u && (ltb p e.position && leb e.position end))
      (doomed user boundary) r.entries (λ a t. ground arith))

-- The stream of a user after a prune of `user`.
find-pruned_self :
    (user boundary : ℕ) (s : InboxStream) (r : InboxRepo)
    → find (stream_key user) r.streams ≡ some s
    → find (stream_key user) (pruned user boundary s r).streams
      ≡ some (retain (max s.retained_position boundary) s)
find-pruned_self user boundary s r f =
    find-update_hit (stream_key user) (retain (max s.retained_position boundary)) r.streams s f
      (λ b. refl)

find-pruned_other :
    (user u boundary : ℕ) (s : InboxStream) (r : InboxRepo)
    → (u == user) ≡ false
    → find (stream_key u) (pruned user boundary s r).streams ≡ find (stream_key u) r.streams
find-pruned_other user u boundary s r ne =
    find-update_miss (stream_key u) (stream_key user) (retain (max s.retained_position boundary))
      r.streams (λ a t. ground arith) (λ a. refl)

-- Both sides of a read, at a valid position.
abbrev reading : ℕ → ℕ → ℕ → ℕ → InboxRepo → Result InboxError InboxPage
reading u p limit cutoff r =
    or_fail (find (stream_key u) r.streams) record_not_found >>= page_from u p limit cutoff r

reading_self :
    (user p limit cutoff : ℕ) (s : InboxStream) (r : InboxRepo)
    → find (stream_key user) r.streams ≡ some s
    → reading user p limit cutoff (pruned user (allocated_before user cutoff r) s r)
      ≡ reading user p limit cutoff r
reading_self user p limit cutoff s r f =
    let b : ℕ = allocated_before user cutoff r in
    rw (find-pruned_self user b s r f) (
      rw f (
        page_from-eq user p limit cutoff r (pruned user b s r) s
          (retain (max s.retained_position b) s) refl
          (omega (arith, allocated_before-pruned user user b cutoff s r))
          (λ h. is_allocated-pruned user user p b s r (inr (omega arith)))
          (λ h. pending-pruned user user p s.position b s r (inr (omega arith)))))

reading-other :
    (user u p limit cutoff boundary : ℕ) (s : InboxStream) (r : InboxRepo)
    → (u == user) ≡ false
    → reading u p limit cutoff (pruned user boundary s r) ≡ reading u p limit cutoff r
reading-other user u p limit cutoff boundary s r ne =
    rw (find-pruned_other user u boundary s r ne)
      (elim (Option-cases (find (stream_key u) r.streams)) [
        | inl e ↦ rw e
        | inr (t, e) ↦ rw e (
            page_from-eq u p limit cutoff r (pruned user boundary s r) t t refl
              (ap (max t.retained_position) (allocated_before-other user u boundary cutoff s r ne))
              (λ h. is_allocated-pruned user u p boundary s r (inl ne))
              (λ h. pending-pruned user u p t.position boundary s r (inl ne)))
      ])

read_page-reading :
    (u limit cutoff : ℕ) (at : ℤ) (r r' : InboxRepo)
    → ((p : ℕ) → reading u p limit cutoff r' ≡ reading u p limit cutoff r)
    → read_page u at limit cutoff r' ≡ read_page u at limit cutoff r
unfolding read_page
read_page-reading u limit cutoff at r r' h = elim (Result-cases (Sequence.validate at)) [
  | inl (x, e) ↦ rw (e, read_page) (h (pos_part at))
  | inr (x, e) ↦ rw (e, read_page)
]

prune_user_invisible :
    (cutoff user n : ℕ) (r r' : InboxRepo)
    → prune_user cutoff user r ≡ ok (r', n)
    → (u limit : ℕ) (at : ℤ) → read_page u at limit cutoff r' ≡ read_page u at limit cutoff r
prune_user_invisible cutoff user n r r' h u limit at = elim (prune_user-inv cutoff user n r r' h) [
  | inl e ↦ rw e
  | inr (s, f, e) ↦ rw e (
      read_page-reading u limit cutoff at r _ (λ p. elim (Bool-cases (u == user)) [
        | inl t ↦ rw ((==_iff u user).0 t) (reading_self user p limit cutoff s r f)
        | inr t ↦ reading-other user u p limit cutoff (allocated_before user cutoff r) s r t
      ]))
]

prune_users_invisible :
    (cutoff : ℕ) (us : List ℕ) (n : ℕ) (r : InboxRepo) (u limit : ℕ) (at : ℤ)
    → read_page u at limit cutoff (prune_users cutoff us n r).0 ≡ read_page u at limit cutoff r
unfolding prune_users
prune_users_invisible cutoff [] n r u limit at = refl
prune_users_invisible cutoff (v ∷ us) n r u limit at = elim (Result-cases (prune_user cutoff v r)) [
  | inr (x, e) ↦ rw (e, prune_users)
  | inl ((r', k), e) ↦
      rw (e, prune_users)
        (prune_users_invisible cutoff us (n + k) r' u limit at
          ∙ prune_user_invisible cutoff v k r r' e u limit at)
]

-- The retention job is invisible to readers that use its cutoff: whatever the tables hold, whether the
-- job ends early by an error or not, every user reads at every position the same page, the same
-- rebuild or the same error after it as before it.
pub prune_invisible :
    (cutoff : ℕ) (r : InboxRepo) (u limit : ℕ) (at : ℤ)
    → read_page u at limit cutoff (prune cutoff r).0 ≡ read_page u at limit cutoff r
unfolding prune
prune_invisible cutoff r u limit at = prune_users_invisible cutoff _ 0 r u limit at
