-- ===== src/Inbox/Prune.antt =====
-- Prune: the retention job removes the expired prefix of each stream and moves its lower boundary.
pub mod Invisible
use maim.Common.{
  ℕ, ◌+◌, Bool, true, false, ◌&&◌, ◌||◌, not, Option, none, some, List, [], ◌∷◌, ◌++◌, Result, ok,
  err, ◌>>=◌, or_fail, if◌then◌else◌, ◌==◌, ltb, leb, find, exists, update, delete, select, sort_by,
  length, max,
}
use maim.Inbox.Model.{
  UserInbox, InboxStream, InboxAppliedChange, InboxRepo, InboxError, record_not_found, stream_key,
}
use maim.Inbox.Page.{allocated_before, is_null}

-- SELECT DISTINCT user_id ... ORDER BY user_id.
abbrev pub distinct : List ℕ → List ℕ
distinct [] = []
distinct (u ∷ us) = if exists (λ v. v == u) us then distinct us else u ∷ distinct us

abbrev pub users_of : List UserInbox → List ℕ
users_of [] = []
users_of (e ∷ es) = e.user_id ∷ users_of es

abbrev pub changed_users : List InboxAppliedChange → List ℕ
changed_users [] = []
changed_users (a ∷ as_) = a.user_id ∷ changed_users as_

pub expired_users : ℕ → InboxRepo → List ℕ
expired_users cutoff r =
    sort_by (λ u. u)
      (distinct (
        users_of (select (λ e. ltb e.created_at cutoff) r.entries)
        ++ changed_users
            (select (λ a. not (is_null a.position) && ltb a.created_at cutoff) r.applied)))

-- The transaction of one user, with the number of rows removed.
pub prune_user : ℕ → ℕ → InboxRepo → Result InboxError (InboxRepo × ℕ)
prune_user cutoff user r = do
  stream ← or_fail (find (stream_key user) r.streams) record_not_found
  let boundary = allocated_before user cutoff r
  let doomed = λ (e : UserInbox). e.user_id == user && leb e.position boundary
  ok (
      if boundary == 0 then (r, 0) else (
        record r {
          entries = delete doomed r.entries;
          streams =
              update (stream_key user)
                (λ s. record s { retained_position = max stream.retained_position boundary })
                r.streams;
        },
        length (select doomed r.entries),
      ))

-- The loop over the users: an error ends it, and what was committed before stays.
pub prune_users : ℕ → List ℕ → ℕ → InboxRepo → InboxRepo × ℕ × Option InboxError
unfolding prune_user
prune_users cutoff [] removed r = (r, removed, none)
prune_users cutoff (u ∷ us) removed r = elim (prune_user cutoff u r) [
  | err e ↦ (r, removed, some e)
  | ok (r', n) ↦ prune_users cutoff us (removed + n) r'
]

unfoldable pub prune : ℕ → InboxRepo → InboxRepo × ℕ × Option InboxError
unfolding prune_users expired_users
prune cutoff r = prune_users cutoff (expired_users cutoff r) 0 r
