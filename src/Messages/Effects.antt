-- ===== src/Messages/Effects.antt =====
-- Every handler of messages takes a step of its caller, or fails.
pub mod Locked
pub mod Sent
use maim.Common.{
  ℕ, ◌+◌, ◌≤◌, ◌<◌, ◌≡◌, ◌⊎◌, Bool, true, false, ◌&&◌, ◌||◌, not, Option, none, some, List, [], ◌∷◌,
  ◌++◌, refl, arith, Result, ok, err, ◌>>=◌, guard, or_fail, >>=-eq-ok, guard-eq-ok, or_fail-eq-ok,
  ok-injective, err≢ok, if◌then◌else◌, ◌==◌, ==_iff, eq_opt, find, find_passes, exists, update,
  delete, is_some, inl, inr, subst, sym, ap, ◌∙◌, Bool-cases, Option-cases,
}
use maim.Inbox.Model.{InboxKind, message_new, message_edited, message_recalled, message_deleted}
use maim.Conversations.Model.{Room}
use maim.Conversations.Publishing.{IsChannel}
use maim.Conversations.Permission.{all_valid}
use maim.Sequence.{max_sequence}
use maim.Conversations.Channel.{next_seq}
use maim.Messages.Json.{Json, same_submission}
use maim.Messages.Model.{
  Message, normal, recalled, edited, is_recalled, PersonalMessageDeletion, Thread, MessageError,
  user_id_missing, invalid_param, not_member, message_not_found, not_sender, window_expired,
  not_text, send_as_other_user, content_conflict, recalled_message, only_sender, record_not_found,
  internal, text_type, by_id, internally,
}
use maim.Messages.Permission.{
  check_send_permission, require_caller, lock_mutable_message, publish_message,
  publish_message_change, shown, tail_after, latest_of,
}
use maim.Messages.Send.{
  SendContext, SendContent, SendMessageReq, submitted_as, hidden_for, persist_message,
  create_message, submit_message, send_message, validate_send_content, valid_reply, stored_content,
  validate_reply_target, check_sender, reported,
}
use maim.Messages.Change.{
  ChangeContext, is_within, edit_locked, recall_locked, delete_for_all, delete_for_user,
  edit_message, recall_message, delete_message, update_content, wrapped, valid_ids,
  same_conversation,
}
use maim.Messages.Steps.{
  Step, stays, sends, rewrites, removes, hides, edits, recalls, Rewrite, IsPublished, IsFrame,
  publish_message-IsPublished, internally-eq-ok, seq_of, tail_of, SameKeys, SameSeqs,
}
use maim.Messages.Effects.Locked.{
  edit_locked-Step, recall_locked-Step, delete_for_all-Step, delete_for_user-Step, wrapped-eq-ok,
  next_seq_lem,
}

require_caller-eq-ok :
    (caller : Option ℕ) (user : ℕ) {u : Unit {0}}
    → require_caller caller user ≡ ok u
    → caller ≡ some user
unfolding require_caller
require_caller-eq-ok caller user h =
    let (c, a, h1) = >>=-eq-ok (or_fail caller user_id_missing) _ h in
    or_fail-eq-ok caller user_id_missing a
    ∙ ap some ((==_iff c user).0 (guard-eq-ok (c == user) _ h1))

module _ (cut : ℕ → ℕ) (w : ChangeContext) (caller : Option ℕ) (message_id user : ℕ)
    (conversation : Option ℕ) (conv_id : ℕ) (read : Option Message) (t t' : Thread) where
  pub edit_message-Step :
      (content : Option (List ℕ × Json))
      → edit_message cut w caller message_id user conversation content conv_id read t ≡ ok t'
      → (caller ≡ some user) × Step cut user t t'
  unfolding edit_message
  edit_message-Step content h =
      let (u1, a1, h1) =
        >>=-eq-ok (guard (valid_ids w (message_id ∷ user ∷ []) conversation) invalid_param) _ h in
      let (text, a2, h2) = >>=-eq-ok (or_fail content invalid_param) _ h1 in
      let (u3, a3, h3) = >>=-eq-ok (guard (all_valid w.valid text.0) invalid_param) _ h2 in
      let (u4, a4, h4) = >>=-eq-ok (require_caller caller user) _ h3 in
      let (m, a5, h5) = >>=-eq-ok (or_fail read message_not_found) _ h4 in
      let (u6, a6, h6) = >>=-eq-ok (guard (eq_opt m.sender_id user) not_sender) _ h5 in
      let (u7, a7, h7) = >>=-eq-ok (guard (is_within w.now w.edit_window m) window_expired) _ h6 in
      let (u8, a8, h8) = >>=-eq-ok (guard (m.msg_type == text_type) not_text) _ h7 in
      let (u9, a9, h9) =
        >>=-eq-ok (guard (same_conversation conversation conv_id) invalid_param) _ h8 in
      (
        require_caller-eq-ok caller user a4,
        edit_locked-Step cut w m.id user text.1 t t' (wrapped-eq-ok _ h9),
      )

  pub recall_message-Step :
      recall_message cut w caller message_id user conversation conv_id read t ≡ ok t'
      → (caller ≡ some user) × Step cut user t t'
  unfolding recall_message
  recall_message-Step h =
      let (u1, a1, h1) =
        >>=-eq-ok (guard (valid_ids w (message_id ∷ user ∷ []) conversation) invalid_param) _ h in
      let (u2, a2, h2) = >>=-eq-ok (require_caller caller user) _ h1 in
      let (m, a3, h3) = >>=-eq-ok (or_fail read message_not_found) _ h2 in
      let (u4, a4, h4) = >>=-eq-ok (guard (eq_opt m.sender_id user) not_sender) _ h3 in
      let (u5, a5, h5) =
        >>=-eq-ok (guard (is_within w.now w.recall_window m) window_expired) _ h4 in
      let (u6, a6, h6) =
        >>=-eq-ok (guard (same_conversation conversation conv_id) invalid_param) _ h5 in
      (
        require_caller-eq-ok caller user a2,
        recall_locked-Step cut w m.id user t t' (wrapped-eq-ok _ h6),
      )

  pub delete_message-Step :
      (for_all : Bool)
      → delete_message cut w caller message_id user conversation for_all conv_id read t ≡ ok t'
      → (caller ≡ some user) × Step cut user t t'
  unfolding delete_message
  delete_message-Step for_all h =
      let (u1, a1, h1) =
        >>=-eq-ok (guard (valid_ids w (user ∷ message_id ∷ []) conversation) invalid_param) _ h in
      let (u2, a2, h2) = >>=-eq-ok (require_caller caller user) _ h1 in
      let (m, a3, h3) = >>=-eq-ok (or_fail read message_not_found) _ h2 in
      let (u4, a4, h4) =
        >>=-eq-ok (guard (not for_all || eq_opt m.sender_id user) not_sender) _ h3 in
      let (u5, a5, h5) =
        >>=-eq-ok (guard (same_conversation conversation conv_id) invalid_param) _ h4 in
      (require_caller-eq-ok caller user a2, either for_all m.id (wrapped-eq-ok _ h5))
    where
      either :
          (b : Bool) (id : ℕ)
          → (if b then delete_for_all cut w id user t else delete_for_user w id user t) ≡ ok t'
          → Step cut user t t'
      either true id e = delete_for_all-Step cut w id user t t' e
      either false id e = delete_for_user-Step cut w id user t t' e
