-- ===== src/Fanout/Live.antt =====
-- fanout.go: what the consumer sends to the devices, each send a publication that may fail.
use maim.Common.{
  ℕ, Bool, true, false, ◌&&◌, not, Option, none, some, List, [], ◌∷◌, ◌++◌, Result, ok, guard,
  ◌>>=◌, ◌>>◌, or_fail, if◌then◌else◌, ◌==◌, ltb, eq_opt, find, exists, select, length, ℤ,
}
use maim.Inbox.Model.{InboxKind, message_new, message_deleted}
use maim.Conversations.Model.{by_user}
use maim.Conversations.Members.{users_of}
use maim.Conversations.Reads.{ReadSeq, reads_of}
use maim.Messages.Model.{Message, Thread}
use maim.Messages.Send.{hidden_for}
use maim.Fanout.Event.{InboxChangeEvent, EventError, invalid_identity, given, check_sequence}

-- The envelopes, by their type.
pub data Live : Type 0 where
  -- message.new for a user: the message, the unread count, whether the phone is notified, and whether
  -- the message that it replies to is shown as deleted.
  message_live : ℕ → ℕ → ℕ → Bool → Bool → Live
  -- message.deleted, and inbox.changed with its kind.
  deleted_live : ℕ → Option ℕ → Live
  changed_live : ℕ → InboxKind → Live
  -- The read receipt of a user, for others, and a user's unread count.
  receipt_live : List ℕ → ℕ → ℤ → Live
  unread_live : ℕ → ℕ → Live

-- What the consumer reads of the conversation while it handles an event.
pub record Rows : Type 0 where
  pub thread : Thread
  pub reads : List ReadSeq

-- UserIDs.
abbrev pub user_ids : Rows → List ℕ
user_ids r = users_of r.thread.room.members

abbrev pub read_seq_of : ℕ → List ReadSeq → ℕ
read_seq_of user reads = elim (find (reads_of user) reads) [ none ↦ 0 | some s ↦ s.last_read_seq ]

abbrev pub is_unread : Rows → ℕ → Message → Bool
is_unread r user m =
    ltb (read_seq_of user r.reads) m.seq
    && not (eq_opt m.sender_id user)
    && not (exists (hidden_for user m.id) r.thread.deletions)

-- UnreadCounts, for one user: a missing entry of the map reads as 0.
unfoldable pub unread_count : Rows → ℕ → ℕ
unread_count r user =
    if exists (by_user user) r.thread.room.members
    then length (select (is_unread r user) r.thread.messages)
    else 0

-- The reply of the event is hidden from the user.
abbrev pub hides_reply : Rows → InboxChangeEvent → ℕ → Bool
hides_reply r evt user =
    exists (λ reply. exists (hidden_for user reply) r.thread.deletions) (given evt.reply_to_msg_id)

-- A new message for a user that has not hidden it; the sender's phone is not notified.
unfoldable pub message_lives : Rows → InboxChangeEvent → ℕ → ℕ → List Live
unfolding unread_count
message_lives r evt message_id user =
    if exists (hidden_for user message_id) r.thread.deletions
    then []
    else message_live user message_id (unread_count r user) (not (eq_opt evt.sender_id user))
        (hides_reply r evt user)
      ∷ []

-- The envelopes of one user, before the last one.
unfoldable pub kind_lives : Rows → InboxChangeEvent → InboxKind → ℕ → List Live
unfolding message_lives
kind_lives r evt message_new user = elim evt.message_id [
  | none ↦ []
  | some message_id ↦ message_lives r evt message_id user
]
kind_lives r evt message_deleted user = deleted_live user evt.message_id ∷ []
kind_lives r evt _ user = []

-- The loop of ChangeCommitted over the users.
unfoldable pub change_lives : Rows → InboxChangeEvent → List ℕ → List Live
unfolding kind_lives
change_lives r evt [] = []
change_lives r evt (u ∷ us) =
    kind_lives r evt evt.kind u ++ changed_live u evt.kind ∷ change_lives r evt us

abbrev pub unread_lives : Rows → List ℕ → List Live
unread_lives r [] = []
unread_lives r (u ∷ us) = unread_live u (unread_count r u) ∷ unread_lives r us

abbrev pub others_of : ℕ → List ℕ → List ℕ
others_of user us = select (λ u. not (u == user)) us

-- An envelope for nobody is not sent.
abbrev pub receipt_lives : List ℕ → ℕ → ℤ → List Live
receipt_lives [] user seq = []
receipt_lives (u ∷ us) user seq = receipt_live (u ∷ us) user seq ∷ []

-- Handle, for the topic of read positions.
unfoldable pub read_lives : (ℕ → Bool) → Rows → InboxChangeEvent → Result EventError (List Live)
unfolding unread_count
read_lives valid r evt = do
  guard (valid evt.conv_id) invalid_identity
  user ← or_fail evt.user_id invalid_identity
  guard (valid user) invalid_identity
  check_sequence evt.last_read_seq
  let users = user_ids r
  ok (receipt_lives (others_of user users) user evt.last_read_seq ++ unread_lives r users)

-- The sends one after another: the first that fails ends them. `works` says which publications the
-- broker accepts, by how many went before.
unfoldable pub send_all : (ℕ → Bool) → List Live → List Live → List Live × Bool
send_all works sent [] = (sent, true)
send_all works sent (l ∷ ls) = elim (works (length sent)) [
  | true ↦ send_all works (sent ++ l ∷ []) ls
  | false ↦ (sent, false)
]
