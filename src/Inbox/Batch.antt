-- ===== src/Inbox/Batch.antt =====
-- BatchInsert: the fanout consumer commits a batch of changes to the streams of their users.
pub mod Applied
mod Streams
pub mod Redelivery
pub mod Once
pub mod Stored
use maim.Common.{
  ℕ, suc, ◌+◌, Bool, true, false, ◌&&◌, not, Option, none, some, List, [], ◌∷◌, ◌++◌, Result, ok,
  err, ◌>>=◌, ◌>>◌, guard, if◌then◌else◌, ◌==◌, is_some, eq_opt, find, exists, update, delete,
  select, sort_by, ℤ, pos, pos_part, leb_ℤ,
}
use maim.Sequence
use maim.Inbox.Model.{
  InboxKind, message_new, message_edited, message_recalled, message_deleted, conversation_upsert,
  conversation_removed, read_updated, unknown_kind, UserInbox, InboxStream, InboxAppliedChange,
  InboxRepo, InboxError, invalid_identity, invalid_message_identity, missing_message,
  invalid_read_sequence, unknown_inbox_kind, position_exhausted, index_out_of_range, duplicated_key,
  is_read, entry_key, stream_key, applied_key,
}

abbrev pub valid_message : (ℕ → Bool) → Option ℕ → Bool
valid_message valid none = true
valid_message valid (some m) = valid m

-- sequence.Validate, with the error of the inbox.
abbrev pub check_read_seq : ℤ → Result InboxError (Unit {0})
check_read_seq seq = elim (Sequence.validate seq) [
  | ok u ↦ ok tt
  | err e ↦ err invalid_read_sequence
]

-- The switch over the kind.
pub check_kind : InboxKind → UserInbox → Result InboxError (Unit {0})
check_kind message_new e = guard (is_some e.message_id) missing_message
check_kind message_edited e = guard (is_some e.message_id) missing_message
check_kind message_recalled e = guard (is_some e.message_id) missing_message
check_kind message_deleted e = guard (is_some e.message_id) missing_message
check_kind conversation_upsert e = ok tt
check_kind conversation_removed e = ok tt
check_kind read_updated e = check_read_seq e.last_read_seq
check_kind (unknown_kind k) e = err unknown_inbox_kind

-- `valid` is identity.Validate.
pub check_entry : (ℕ → Bool) → UserInbox → Result InboxError (Unit {0})
unfolding check_kind
check_entry valid e = do
  guard (valid e.user_id && valid e.conv_id && valid e.change_id) invalid_identity
  guard (valid_message valid e.message_id) invalid_message_identity
  check_kind e.kind e

pub check_entries : (ℕ → Bool) → List UserInbox → Result InboxError (Unit {0})
unfolding check_entry
check_entries valid [] = ok tt
check_entries valid (e ∷ es) = check_entry valid e >> check_entries valid es

-- The users of a sorted batch, each once: an entry adds its user if the last one is another.
users_after : Option ℕ → List UserInbox → List ℕ
users_after last [] = []
users_after last (e ∷ es) =
    let rest = users_after (some e.user_id) es in
    if eq_opt last e.user_id then rest else e.user_id ∷ rest

-- INSERT ... ON CONFLICT DO NOTHING.
pub create_stream : ℕ → List InboxStream → List InboxStream
create_stream u table =
    if exists (stream_key u) table
    then table
    else table ++ record { user_id = u; position = 0; retained_position = 0 } ∷ []

pub create_streams : List ℕ → List InboxStream → List InboxStream
unfolding create_stream
create_streams [] table = table
create_streams (u ∷ us) table = create_streams us (create_stream u table)

abbrev pub among : List ℕ → ℕ → Bool
among us u = exists (λ v. v == u) us

-- SELECT ... WHERE user_id IN users ORDER BY user_id FOR UPDATE.
pub lock_streams : List ℕ → List InboxStream → List InboxStream
lock_streams us table = sort_by (λ s. s.user_id) (select (λ s. among us s.user_id) table)

-- The variables of the loop. `streams` starts at the row that `streamIndex` points to.
pub record Cursor : Type 0 where
  pub entries : List UserInbox
  pub applied : List InboxAppliedChange
  pub passed : List InboxStream
  pub streams : List InboxStream

-- `for streams[streamIndex].UserID != entry.UserID { streamIndex++ }`, which panics past the end.
pub seek :
    ℕ
    → List InboxStream
    → List InboxStream
    → Result InboxError (List InboxStream × List InboxStream)
seek user passed [] = err index_out_of_range
seek user passed (s ∷ rest) =
    if s.user_id == user then ok (passed, s ∷ rest) else seek user (passed ++ s ∷ []) rest

-- The current row's position moves on by one.
pub advance : List InboxStream → Result InboxError (ℕ × List InboxStream)
advance [] = err index_out_of_range
advance (s ∷ rest) = elim (Sequence.next (pos s.position)) [
  | ok p ↦ ok (pos_part p, record s { position = pos_part p } ∷ rest)
  | err e ↦ err position_exhausted
]

-- The entry is stored at the next position of its user, which its primary key must allow, and its
-- applied row says where.
pub allocate : UserInbox → Cursor → Result InboxError Cursor
unfolding advance
allocate e c = do
  (next, streams') ← advance c.streams
  guard (not (exists (λ r. entry_key r e.user_id next) c.entries)) duplicated_key
  ok (record c {
    entries = c.entries ++ record e { position = next } ∷ [];
    applied =
        update (applied_key e.user_id e.change_id)
          (λ a. record a { position = some next; created_at = e.created_at }) c.applied;
    streams = streams';
  })

-- The older read position of the same conversation.
abbrev pub same_read : UserInbox → UserInbox → Bool
same_read e old = old.user_id == e.user_id && old.conv_id == e.conv_id && is_read old.kind

-- A read position coalesces with the older one, and does nothing unless it is ahead of it.
pub place : UserInbox → Cursor → Result InboxError Cursor
unfolding allocate
place e c =
    if is_read e.kind
    then elim (find (same_read e) c.entries) [
      | none ↦ allocate e c
      | some old ↦
          if leb_ℤ e.last_read_seq old.last_read_seq
          then ok c
          else allocate e
              (record c { entries = delete (λ r. entry_key r old.user_id old.position) c.entries })
    ]
    else allocate e c

-- One round of the loop. A change that is applied already is skipped.
pub apply_entry : ℕ → UserInbox → Cursor → Result InboxError Cursor
unfolding place seek
apply_entry now e c = if exists (applied_key e.user_id e.change_id) c.applied then ok c else do
  (passed', streams') ← seek e.user_id c.passed c.streams
  place e (record c {
    applied =
        c.applied
        ++ record {
          user_id = e.user_id;
          change_id = e.change_id;
          position = none;
          created_at = now;
        }
          ∷ [];
    passed = passed';
    streams = streams';
  })

pub apply_entries : ℕ → List UserInbox → Cursor → Result InboxError Cursor
unfolding apply_entry
apply_entries now [] c = ok c
apply_entries now (e ∷ es) c = apply_entry now e c >>= apply_entries now es

-- INSERT ... ON CONFLICT (user_id) DO UPDATE SET position.
pub save_stream : InboxStream → List InboxStream → List InboxStream
save_stream s table =
    if exists (stream_key s.user_id) table
    then update (stream_key s.user_id) (λ r. record r { position = s.position }) table
    else table ++ s ∷ []

pub save_streams : List InboxStream → List InboxStream → List InboxStream
unfolding save_stream
save_streams [] table = table
save_streams (s ∷ ss) table = save_streams ss (save_stream s table)

-- The variables before the loop: the rows of the users are locked, and the index is at the first.
abbrev pub start : List ℕ → List InboxStream → InboxRepo → Cursor
start users table r = record {
  entries = r.entries;
  applied = r.applied;
  passed = [];
  streams = lock_streams users table;
}

-- The body of the transaction, for a sorted batch.
pub insert_sorted : ℕ → List UserInbox → InboxRepo → Result InboxError InboxRepo
unfolding users_after create_streams lock_streams apply_entries save_streams
insert_sorted now batch r = do
  let users = users_after none batch
  let table = create_streams users r.streams
  c ← apply_entries now batch (start users table r)
  ok (record {
    entries = c.entries;
    streams = save_streams (c.passed ++ c.streams) table;
    applied = c.applied;
  })

-- `now` is the clock of the transaction. An error leaves the tables as they were.
unfoldable pub batch_insert :
    (ℕ → Bool) → ℕ → List UserInbox → InboxRepo → Result InboxError InboxRepo
unfolding check_entries insert_sorted
batch_insert valid now [] r = ok r
batch_insert valid now (e ∷ es) r = do
  check_entries valid (e ∷ es)
  insert_sorted now (sort_by (λ x. x.user_id) (e ∷ es)) r
