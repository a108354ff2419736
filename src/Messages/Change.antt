-- ===== src/Messages/Change.antt =====
-- editMessageLogic.go, recallMessageLogic.go and deleteMessageLogic.go. The message is read before the
-- transaction and again in it; `read` is the row of the first reading, by MessageRepo.GetByID.
use maim.Common.{
  ℕ, ◌+◌, ◌-◌, Bool, true, false, ◌&&◌, ◌||◌, not, Option, none, some, List, [], ◌∷◌, ◌++◌, Result,
  ok, err, ◌>>=◌, ◌>>◌, guard, or_fail, if◌then◌else◌, ◌==◌, leb, eq_opt, find, exists, update,
  delete,
}
use maim.Inbox.Model.{message_edited, message_recalled, message_deleted}
use maim.Conversations.Permission.{all_valid}
use maim.Messages.Json.{Json}
use maim.Messages.Model.{
  Message, recalled, edited, is_recalled, Thread, MessageError, invalid_param, not_member,
  message_not_found, not_sender, window_expired, not_text, recalled_message, record_not_found,
  internal, text_type, by_id,
}
use maim.Messages.Permission.{
  check_send_permission, require_caller, lock_mutable_message, publish_message,
  publish_message_change,
}
use maim.Messages.Send.{hidden_for}

-- The world of a call, as for SendMessage. The windows are those of the configuration.
pub record ChangeContext : Type 0 where
  pub valid : ℕ → Bool
  pub now : ℕ
  pub event_id : ℕ → Option ℕ
  pub edit_window : ℕ
  pub recall_window : ℕ

-- Not `time.Since(created) > window`.
abbrev pub is_within : ℕ → ℕ → Message → Bool
is_within now window m = leb (now - m.created_at) window

-- The conversation of the request, if it names one, is the message's.
abbrev pub same_conversation : Option ℕ → ℕ → Bool
same_conversation none conv = true
same_conversation (some c) conv = c == conv

abbrev pub valid_ids : ChangeContext → List ℕ → Option ℕ → Bool
valid_ids w ids none = all_valid w.valid ids
valid_ids w ids (some c) = all_valid w.valid ids && w.valid c

-- Any other failure of the transaction is internal.
abbrev pub wrapped : {A : Type 0} → Result MessageError A → Result MessageError A
wrapped (ok a) = ok a
wrapped (err record_not_found) = err internal
wrapped (err e) = err e

-- UpdateContentWithTx.
unfoldable pub update_content : Json → List Json → ℕ → Message → Message
update_content content history count m = record m {
  content = content;
  edit_history = history;
  edit_count = count;
  status = edited;
}

unfoldable pub edit_locked :
    (ℕ → ℕ) → ChangeContext → ℕ → ℕ → Json → Thread → Result MessageError Thread
unfolding lock_mutable_message publish_message_change update_content
edit_locked cut w message_id user content t = do
  m ← lock_mutable_message w.valid message_id user t
  guard (is_within w.now w.edit_window m) window_expired
  guard (not (is_recalled m.status)) recalled_message
  let edit = update_content content (m.edit_history ++ m.content ∷ []) (m.edit_count + 1)
  publish_message_change w.event_id cut message_edited (edit m)
      (record t { messages = update (by_id m.id) edit t.messages })

-- `content` is the text of the request with its mentions, none without a text.
unfoldable pub edit_message :
    (ℕ → ℕ)
    → ChangeContext
    → Option ℕ
    → ℕ
    → ℕ
    → Option ℕ
    → Option (List ℕ × Json)
    → ℕ
    → Option Message
    → Thread
    → Result MessageError Thread
unfolding edit_locked
edit_message cut w caller message_id user conversation content conv_id read t = do
  guard (valid_ids w (message_id ∷ user ∷ []) conversation) invalid_param
  (mentions, text) ← or_fail content invalid_param
  guard (all_valid w.valid mentions) invalid_param
  require_caller caller user
  m ← or_fail read message_not_found
  guard (eq_opt m.sender_id user) not_sender
  guard (is_within w.now w.edit_window m) window_expired
  guard (m.msg_type == text_type) not_text
  guard (same_conversation conversation conv_id) invalid_param
  wrapped (edit_locked cut w m.id user text t)

-- A message that is recalled already is left as it is.
unfoldable pub recall_locked : (ℕ → ℕ) → ChangeContext → ℕ → ℕ → Thread → Result MessageError Thread
unfolding lock_mutable_message publish_message_change
recall_locked cut w message_id user t = do
  m ← lock_mutable_message w.valid message_id user t
  guard (is_within w.now w.recall_window m) window_expired
  elim (is_recalled m.status) [
    | true ↦ ok t
    | false ↦
        publish_message_change w.event_id cut message_recalled (record m { status = recalled })
          (record t {
            messages =
                update (by_id m.id) (λ (x : Message). record x { status = recalled }) t.messages;
          })
  ]

unfoldable pub recall_message :
    (ℕ → ℕ)
    → ChangeContext
    → Option ℕ
    → ℕ
    → ℕ
    → Option ℕ
    → ℕ
    → Option Message
    → Thread
    → Result MessageError Thread
unfolding recall_locked
recall_message cut w caller message_id user conversation conv_id read t = do
  guard (valid_ids w (message_id ∷ user ∷ []) conversation) invalid_param
  require_caller caller user
  m ← or_fail read message_not_found
  guard (eq_opt m.sender_id user) not_sender
  guard (is_within w.now w.recall_window m) window_expired
  guard (same_conversation conversation conv_id) invalid_param
  wrapped (recall_locked cut w m.id user t)

-- The row goes, and with it the tail of the conversation if it was the tail.
unfoldable pub delete_for_all :
    (ℕ → ℕ) → ChangeContext → ℕ → ℕ → Thread → Result MessageError Thread
unfolding lock_mutable_message publish_message_change
delete_for_all cut w message_id user t = do
  m ← lock_mutable_message w.valid message_id user t
  publish_message_change w.event_id cut message_deleted m
      (record t { messages = delete (by_id m.id) t.messages })

-- InsertPersonalDeletion, and the tombstone for the user alone if the row is new.
unfoldable pub delete_for_user : ChangeContext → ℕ → ℕ → Thread → Result MessageError Thread
unfolding check_send_permission publish_message
delete_for_user w message_id user t = do
  permission ← check_send_permission w.valid user t.room
  guard permission.is_member not_member
  m ← or_fail (find (by_id message_id) t.messages) record_not_found
  elim (exists (hidden_for user m.id) t.deletions) [
    | true ↦ ok t
    | false ↦
        publish_message w.event_id message_deleted m (some user) (record t {
          deletions = t.deletions ++ record { user_id = user; message_id = m.id } ∷ [];
        })
  ]

unfoldable pub delete_message :
    (ℕ → ℕ)
    → ChangeContext
    → Option ℕ
    → ℕ
    → ℕ
    → Option ℕ
    → Bool
    → ℕ
    → Option Message
    → Thread
    → Result MessageError Thread
unfolding delete_for_all delete_for_user
delete_message cut w caller message_id user conversation for_all conv_id read t = do
  guard (valid_ids w (user ∷ message_id ∷ []) conversation) invalid_param
  require_caller caller user
  m ← or_fail read message_not_found
  guard (not for_all || eq_opt m.sender_id user) not_sender
  guard (same_conversation conversation conv_id) invalid_param
  wrapped (if for_all then delete_for_all cut w m.id user t else delete_for_user w m.id user t)
