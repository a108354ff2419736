-- ===== src/Inbox/Page.antt =====
-- EnsureStream and ReadPage: what a device reads of its user's stream, and when it must rebuild.
pub mod Sorted
mod Cut
pub mod Reason
pub mod Complete
pub mod Checkpoint
use maim.Common.{
  ℕ, suc, ◌<◌, Bool, true, false, ◌&&◌, ◌||◌, not, Option, none, some, List, [], ◌∷◌, ◌++◌, Result,
  ok, err, ◌>>=◌, ◌>>◌, guard, or_fail, if◌then◌else◌, ◌==◌, ltb, leb, eq_opt, find, exists, update,
  select, sort_by, max_of, take, length, max, ℤ, pos_part,
}
use maim.Sequence
use maim.Inbox.Model.{
  UserInbox, InboxStream, InboxAppliedChange, InboxRepo, InboxError, invalid_identity,
  record_not_found, index_out_of_range, invalid_position, stream_key,
}

-- The reserved checkpoint of an empty stream, on insertion and on a row that was never allocated.
abbrev pub reserve : InboxStream → InboxStream
reserve s = record s { position = 1; retained_position = 1 }

abbrev has_started : Option InboxStream → Bool
has_started none = false
has_started (some s) = ltb 0 s.position

-- `valid` is identity.Validate.
unfoldable pub ensure_stream : (ℕ → Bool) → ℕ → InboxRepo → Result InboxError InboxRepo
ensure_stream valid user r = do
  guard (valid user) invalid_identity
  let started = has_started (find (stream_key user) r.streams)
  let table =
      if exists (stream_key user) r.streams
      then r.streams
      else r.streams ++ record { user_id = user; position = 1; retained_position = 1 } ∷ []
  ok (
      if started
      then r
      else record r { streams = update (λ s. stream_key user s && s.position == 0) reserve table })

pub data RebuildReason : Type 0 where
  new_device unknown_position expired_position : RebuildReason

-- An empty reason is `none`.
pub record InboxPage : Type 0 where
  pub entries : List UserInbox
  pub next_position : ℕ
  pub has_more : Bool
  pub rebuild_reason : Option RebuildReason

abbrev pub or_zero : Option ℕ → ℕ
or_zero none = 0
or_zero (some p) = p

abbrev pub is_null : Option ℕ → Bool
is_null none = true
is_null (some p) = false

-- COALESCE(MAX(position), 0) over the entries and the allocated changes older than the cutoff.
unfoldable pub allocated_before : ℕ → ℕ → InboxRepo → ℕ
allocated_before user cutoff r =
    max
      (max_of (λ (e : UserInbox). e.position)
        (select (λ e. e.user_id == user && ltb e.created_at cutoff) r.entries))
      (max_of (λ (a : InboxAppliedChange). or_zero a.position)
        (select (λ a. a.user_id == user && (not (is_null a.position) && ltb a.created_at cutoff))
          r.applied))

-- Whether the position was allocated by an entry or a change that is still on record.
unfoldable pub is_allocated : ℕ → ℕ → InboxRepo → Bool
is_allocated user position r =
    exists (λ e. e.user_id == user && e.position == position) r.entries
    || exists (λ a. a.user_id == user && eq_opt a.position position) r.applied

-- The switch over the position, with `lower` the larger of the two lower boundaries.
unfoldable pub rebuild_reason : ℕ → ℕ → ℕ → Bool → Option RebuildReason
rebuild_reason position end lower known =
    if position == 0
    then some new_device
    else if ltb end position
    then some unknown_position
    else if ltb position lower
    then some expired_position
    else if not (position == end) && (not (position == lower) && not known)
    then some unknown_position
    else none

unfoldable pub last? : List UserInbox → Option UserInbox
last? [] = none
last? (x ∷ []) = some x
last? (x ∷ y ∷ ys) = last? (y ∷ ys)

-- SELECT ... WHERE user_id AND position > ? AND position <= ? ORDER BY position ASC.
unfoldable pub pending : ℕ → ℕ → ℕ → InboxRepo → List UserInbox
pending user position end r =
    sort_by (λ e. e.position)
      (select (λ e. e.user_id == user && (ltb position e.position && leb e.position end)) r.entries)

-- The page of at most `limit` rows of the `limit + 1` that were read.
unfoldable pub cut_page : ℕ → ℕ → List UserInbox → Result InboxError InboxPage
unfolding last?
cut_page limit end rows =
    if ltb limit (length rows)
    then (do
      last ← or_fail (last? (take limit rows)) index_out_of_range
      ok (record {
        entries = take limit rows;
        next_position = last.position;
        has_more = true;
        rebuild_reason = none;
      }))
    else ok
        (record { entries = rows; next_position = end; has_more = false; rebuild_reason = none })

-- The page at a valid position, once the stream is read.
unfoldable pub page_from : ℕ → ℕ → ℕ → ℕ → InboxRepo → InboxStream → Result InboxError InboxPage
page_from user position limit cutoff r stream =
    let lower = max stream.retained_position (allocated_before user cutoff r) in
    elim (rebuild_reason position stream.position lower (is_allocated user position r)) [
      | some reason ↦ ok (record {
        entries = [];
        next_position = stream.position;
        has_more = false;
        rebuild_reason = some reason;
      })
      | none ↦
          cut_page limit stream.position
            (take (suc limit) (pending user position stream.position r))
    ]

unfoldable pub read_page : ℕ → ℤ → ℕ → ℕ → InboxRepo → Result InboxError InboxPage
unfolding page_from
read_page user at limit cutoff r = elim (Sequence.validate at) [
  | err e ↦ err invalid_position
  | ok u ↦
      or_fail (find (stream_key user) r.streams) record_not_found
      >>= page_from user (pos_part at) limit cutoff r
]
