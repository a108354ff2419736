-- ===== src/Messages/Effects/Locked.antt =====
-- The transactions of the changes of a message, once its row is locked.
use maim.Common.{
  ℕ, ◌+◌, ◌≤◌, ◌≡◌, Bool, true, false, not, Option, none, some, [], ◌∷◌, ◌++◌, refl, arith, Result,
  ok, err, guard, or_fail, >>=-eq-ok, guard-eq-ok, or_fail-eq-ok, ok-injective, if◌then◌else◌,
  ==_iff, eq_opt, find, find_passes, exists, update, delete, is_some, inl, inr, subst, sym, ap, ◌∙◌,
  Bool-cases,
}
use maim.Inbox.Model.{InboxKind, message_edited, message_recalled, message_deleted}
use maim.Conversations.Model.{Room}
use maim.Conversations.Publishing.{IsChannel}
use maim.Sequence.{max_sequence}
use maim.Conversations.Channel.{next_seq}
use maim.Messages.Json.{Json}
use maim.Messages.Model.{
  Message, recalled, is_recalled, Thread, MessageError, not_member, window_expired,
  recalled_message, only_sender, record_not_found, by_id,
}
use maim.Messages.Permission.{
  check_send_permission, lock_mutable_message, publish_message_change, shown, tail_after,
}
use maim.Messages.Send.{hidden_for}
use maim.Messages.Change.{
  ChangeContext, is_within, edit_locked, recall_locked, delete_for_all, delete_for_user,
  update_content, wrapped,
}
use maim.Messages.Steps.{
  Step, stays, rewrites, removes, hides, edits, recalls, IsPublished, IsFrame,
  publish_message-IsPublished, seq_of, tail_of, SameSeqs,
}

pub next_seq_lem :
    (o : Option ℕ) {n : ℕ} → next_seq o ≡ ok n → (n ≡ seq_of o + 1) × (n ≤ max_sequence)
unfolding next_seq max_sequence
next_seq_lem none h = ground arith
next_seq_lem (some n) h = ground arith

pub eq_opt-true : (o : Option ℕ) (a : ℕ) → eq_opt o a ≡ true → o ≡ some a
eq_opt-true none a h = cc
eq_opt-true (some b) a h = ap some ((==_iff b a).0 h)

-- What locking a message has checked.
pub lock_mutable_message-eq-ok :
    (valid : ℕ → Bool) (message_id user : ℕ) (t : Thread) {m : Message}
    → lock_mutable_message valid message_id user t ≡ ok m
    → (find (by_id m.id) t.messages ≡ some m) × (m.sender_id ≡ some user)
unfolding lock_mutable_message
lock_mutable_message-eq-ok valid message_id user t {m} h =
    let (p, a, h1) = >>=-eq-ok (check_send_permission valid user t.room) _ h in
    let (u, b, h2) = >>=-eq-ok (guard p.is_member not_member) _ h1 in
    let (m', c, h3) =
      >>=-eq-ok (or_fail (find (by_id message_id) t.messages) record_not_found) _ h2 in
    let (u', d, h4) = >>=-eq-ok (guard (eq_opt m'.sender_id user) only_sender) _ h3 in
    let found = or_fail-eq-ok (find (by_id message_id) t.messages) record_not_found c in
    let same = (==_iff m'.id message_id).0 (find_passes (by_id message_id) t.messages found) in
    subst (λ (z : Message). (find (by_id z.id) t.messages ≡ some z) × (z.sender_id ≡ some user))
      (ok-injective h4)
      (
        subst (λ z. find (by_id z) t.messages ≡ some m') (sym same) found,
        eq_opt-true m'.sender_id user (guard-eq-ok (eq_opt m'.sender_id user) only_sender d),
      )

-- A change of a message is published, and shows in the tail.
pub publish_message_change-IsPublished :
    (new_id : ℕ → Option ℕ) (cut : ℕ → ℕ) (kind : InboxKind) (m : Message) (t t' : Thread)
    → publish_message_change new_id cut kind m t ≡ ok t'
    → (t1 : Thread) × (t1.room ≡ t.room)
      × (t1.messages ≡ t.messages)
      × (t1.deletions ≡ t.deletions)
      × (tail_of t1
          ≡ (if eq_opt t.last_message_id m.id then tail_after cut kind m t.messages else tail_of t))
      × IsPublished t1 t'
unfolding publish_message_change
publish_message_change-IsPublished new_id cut kind m t t' h =
    let (u, c, h1) = >>=-eq-ok (guard (is_some t.room.conv) record_not_found) _ h in
    elim (Bool-cases (eq_opt t.last_message_id m.id)) [
      | inl e ↦ (
        record t {
          last_message_id = (tail_after cut kind m t.messages).0;
          last_message_preview = (tail_after cut kind m t.messages).1;
        },
        refl,
        refl,
        refl,
        rw e refl,
        publish_message-IsPublished new_id kind m none _ t' (rw e at h1),
      )
      | inr e ↦ (
        t,
        refl,
        refl,
        refl,
        rw e refl,
        publish_message-IsPublished new_id kind m none t t' (rw e at h1),
      )
    ]

-- Against the rows from which the transaction started.
pub framed :
    (t t1 t' : Thread) → t1.room ≡ t.room → IsPublished t1 t' → IsFrame t t' × SameSeqs t t'
framed t t1 t' e p = (
  record {
    conv = p.frame.conv ∙ ap (λ (r : Room). r.conv) e;
    members = p.frame.members ∙ ap (λ (r : Room). r.members) e;
    published = λ v. p.frame.published (subst (λ (r : Room). IsChannel r.channel) (sym e) v);
  },
  (
    p.seqs.0 ∙ ap (λ (r : Room). r.channel.current_seq) e,
    p.seqs.1 ∙ ap (λ (r : Room). r.channel.max_seq) e,
  ),
)

pub edit_locked-Step :
    (cut : ℕ → ℕ) (w : ChangeContext) (message_id user : ℕ) (content : Json) (t t' : Thread)
    → edit_locked cut w message_id user content t ≡ ok t'
    → Step cut user t t'
unfolding edit_locked tail_after shown update_content
edit_locked-Step cut w message_id user content t t' h =
    let (m, a, h1) = >>=-eq-ok (lock_mutable_message w.valid message_id user t) _ h in
    let (u, b, h2) = >>=-eq-ok (guard (is_within w.now w.edit_window m) window_expired) _ h1 in
    let (u', c, h3) = >>=-eq-ok (guard (not (is_recalled m.status)) recalled_message) _ h2 in
    let (found, sender) = lock_mutable_message-eq-ok w.valid message_id user t a in
    let f = update_content content (m.edit_history ++ m.content ∷ []) (m.edit_count + 1) in
    let (t1, r, ms, ds, tail, p) =
      publish_message_change-IsPublished w.event_id cut message_edited (f m)
        (record t { messages = update (by_id m.id) f t.messages }) t' h3 in
    let (frame, seqs) = framed t t1 t' r p in
    rewrites m f frame seqs found sender
      (not-true (is_recalled m.status)
        (guard-eq-ok (not (is_recalled m.status)) recalled_message c))
      (edits content) (λ x. (refl, refl, refl, refl)) (p.messages ∙ ms) (p.deletions ∙ ds)
      (p.tail ∙ tail)
  where
    not-true : (b : Bool) → not b ≡ true → b ≡ false
    not-true true e = cc
    not-true false e = refl

pub recall_locked-Step :
    (cut : ℕ → ℕ) (w : ChangeContext) (message_id user : ℕ) (t t' : Thread)
    → recall_locked cut w message_id user t ≡ ok t'
    → Step cut user t t'
unfolding recall_locked tail_after shown
recall_locked-Step cut w message_id user t t' h =
    let (m, a, h1) = >>=-eq-ok (lock_mutable_message w.valid message_id user t) _ h in
    let (u, b, h2) = >>=-eq-ok (guard (is_within w.now w.recall_window m) window_expired) _ h1 in
    let (found, sender) = lock_mutable_message-eq-ok w.valid message_id user t a in
    elim (Bool-cases (is_recalled m.status)) [
      | inl e ↦ stays (sym (ok-injective (rw e at h2)))
      | inr e ↦
          let (t1, r, ms, ds, tail, p) =
            publish_message_change-IsPublished w.event_id cut message_recalled
              (record m { status = recalled })
              (record t {
                messages =
                    update (by_id m.id) (λ (x : Message). record x { status = recalled })
                      t.messages;
              })
              t' (rw e at h2) in
          let (frame, seqs) = framed t t1 t' r p in
          rewrites m (λ (x : Message). record x { status = recalled }) frame seqs found sender e
            recalls (λ x. (refl, refl, refl, refl)) (p.messages ∙ ms) (p.deletions ∙ ds)
            (p.tail ∙ tail)
    ]

pub delete_for_all-Step :
    (cut : ℕ → ℕ) (w : ChangeContext) (message_id user : ℕ) (t t' : Thread)
    → delete_for_all cut w message_id user t ≡ ok t'
    → Step cut user t t'
unfolding delete_for_all tail_after
delete_for_all-Step cut w message_id user t t' h =
    let (m, a, h1) = >>=-eq-ok (lock_mutable_message w.valid message_id user t) _ h in
    let (found, sender) = lock_mutable_message-eq-ok w.valid message_id user t a in
    let (t1, r, ms, ds, tail, p) =
      publish_message_change-IsPublished w.event_id cut message_deleted m
        (record t { messages = delete (by_id m.id) t.messages }) t' h1 in
    let (frame, seqs) = framed t t1 t' r p in
    removes m frame seqs found sender (p.messages ∙ ms) (p.deletions ∙ ds) (p.tail ∙ tail)

pub delete_for_user-Step :
    (cut : ℕ → ℕ) (w : ChangeContext) (message_id user : ℕ) (t t' : Thread)
    → delete_for_user w message_id user t ≡ ok t'
    → Step cut user t t'
unfolding delete_for_user
delete_for_user-Step cut w message_id user t t' h =
    let (p, a, h1) = >>=-eq-ok (check_send_permission w.valid user t.room) _ h in
    let (u, b, h2) = >>=-eq-ok (guard p.is_member not_member) _ h1 in
    let (m, c, h3) =
      >>=-eq-ok (or_fail (find (by_id message_id) t.messages) record_not_found) _ h2 in
    elim (Bool-cases (exists (hidden_for user m.id) t.deletions)) [
      | inl e ↦ stays (sym (ok-injective (rw e at h3)))
      | inr e ↦
          let t1 : Thread = record t {
            deletions = t.deletions ++ record { user_id = user; message_id = m.id } ∷ [];
          } in
          let k =
            publish_message-IsPublished w.event_id message_deleted m (some user) t1 t'
              (rw e at h3) in
          let (frame, seqs) = framed t t1 t' refl k in
          hides m.id frame seqs k.messages k.deletions k.tail
    ]

-- The transaction's error is reported as another, and its rows as they are.
pub wrapped-eq-ok : {A : Type 0} (x : Result MessageError A) {a : A} → wrapped x ≡ ok a → x ≡ ok a
wrapped-eq-ok (ok a) h = h
wrapped-eq-ok (err e) h = ground arith
