-- ===== src/Messages/Effects/Sent.antt =====
-- What SendMessage does: it appends one message, or finds it.
use maim.Common.{
  ℕ, ◌≡◌, ◌⊎◌, true, false, ◌&&◌, not, Option, none, some, [], ◌∷◌, ◌++◌, refl, arith, Result, ok,
  err, guard, or_fail, >>=-eq-ok, guard-eq-ok, or_fail-eq-ok, ok-injective, ◌==◌, ==_iff, find,
  exists, inl, inr, subst, ap, ◌∙◌, Option-cases, ==_refl, find-append-none,
}
use maim.Inbox.Model.{message_new}
use maim.Conversations.Model.{Channel}
use maim.Conversations.Publishing.{IsChannel}
use maim.Conversations.Channel.{next_seq}
use maim.Messages.Json.{same_submission, jsonb}
use maim.Messages.Model.{
  Message, is_recalled, Thread, MessageError, user_id_missing, invalid_param, send_as_other_user,
  content_conflict, internal, by_id, internally,
}
use maim.Messages.Permission.{check_send_permission, publish_message, shown}
use maim.Messages.Send.{
  SendContext, SendContent, new_message, SendMessageReq, submitted_as, persist_message,
  create_message, submit_message, send_message, validate_send_content, valid_reply, stored_content,
  validate_reply_target, check_sender, reported,
}
use maim.Messages.Steps.{Step, stays, sends, publish_message-IsPublished, internally-eq-ok}
use maim.Messages.Effects.Locked.{next_seq_lem}

-- The numbers of messages are no part of the publications.
renumbered-IsChannel :
    (ch : Channel) (current : Option ℕ) (seq : ℕ)
    → IsChannel ch
    → IsChannel (record ch { current_seq = current; max_seq = seq })
renumbered-IsChannel ch current seq v = record {
  ascends = v.ascends;
  bounded = v.bounded;
  in_range = v.in_range;
}

-- What a submission says of itself.
abbrev pub SameSubmission : Message → Message → Type 0
SameSubmission m' m =
    (m'.sender_id ≡ m.sender_id)
    × (m'.client_msg_id ≡ m.client_msg_id)
    × (m'.submission_content ≡ m.submission_content)

-- The message comes back with its number, at the end of the table.
pub persist_message-Step :
    (event_id : ℕ → Option ℕ) (cut : ℕ → ℕ) (actor key : ℕ) (m m' : Message) (t t' : Thread)
    → m.sender_id ≡ some actor
    → m.client_msg_id ≡ some key
    → is_recalled m.status ≡ false
    → m.edit_history ≡ []
    → m.edit_count ≡ 0
    → find (submitted_as actor key) t.messages ≡ none
    → persist_message event_id cut m t ≡ ok (m', t')
    → Step cut actor t t' × (t'.messages ≡ t.messages ++ m' ∷ []) × SameSubmission m' m
unfolding persist_message shown
persist_message-Step event_id cut actor key m m' t t' sender client new past count free h =
    let (seq, a, h1) = >>=-eq-ok (internally (next_seq t.room.channel.current_seq)) _ h in
    let (u, b, h2) = >>=-eq-ok (guard (not (exists (by_id m.id) t.messages)) internal) _ h1 in
    let sent : Message = record m { seq = seq } in
    let numbered : Thread = record t {
      room = record t.room { channel = record t.room.channel { current_seq = some seq } };
      messages = t.messages ++ sent ∷ [];
    } in
    let (t1, c, h3) = >>=-eq-ok (publish_message event_id message_new sent none numbered) _ h2 in
    let p = publish_message-IsPublished event_id message_new sent none numbered t1 c in
    let number = next_seq_lem t.room.channel.current_seq (internally-eq-ok _ a) in
    let same = ok-injective h3 in
    subst
      (λ (z : Message × Thread).
        Step cut actor t z.1 × (z.1.messages ≡ t.messages ++ z.0 ∷ []) × SameSubmission z.0 m)
      same
      (
        sends sent key
            (record {
              conv = p.frame.conv;
              members = p.frame.members;
              published = λ v.
                  renumbered-IsChannel t1.room.channel t1.room.channel.current_seq seq (
                    p.frame.published
                      (renumbered-IsChannel t.room.channel (some seq) t.room.channel.max_seq v));
            })
            sender client free
            (ground (arith, guard-eq-ok (not (exists (by_id m.id) t.messages)) internal b)) new past
            count number.0 (p.seqs.0, refl) p.messages p.deletions (rw new refl),
        p.messages,
        (refl, refl, refl),
      )

-- A failure keeps its result apart from the success.
pub reported-eq-ok : {A : Type 0} (x : Result MessageError A) {a : A} → reported x ≡ ok a → x ≡ ok a
reported-eq-ok (ok a) h = h
reported-eq-ok (err e) h = ground arith

-- The message is stored, as the sender's under the key of the request, and its content is
-- the submission's as it is stored, or compares as the same.
abbrev pub IsStored : SendContext → SendMessageReq → SendContent → Message → Thread → Type 0
IsStored w q body m t =
    (find (submitted_as q.from_user_id q.client_msg_id) t.messages ≡ some m)
    × ((m.submission_content ≡ jsonb w.rewrite body.submission)
        ⊎ (same_submission w.parse w.marshal m.submission_content body.submission ≡ true))

module _ (cut : ℕ → ℕ) (w : SendContext) (q : SendMessageReq) (body : SendContent) (m : Message)
    (t t' : Thread) where
  create_message-Step :
      find (submitted_as q.from_user_id q.client_msg_id) t.messages ≡ none
      → create_message cut w q body t ≡ ok (m, t')
      → Step cut q.from_user_id t t' × IsStored w q body m t'
  unfolding create_message same_submission
  create_message-Step free h =
      let (stored, a, h1) = >>=-eq-ok (stored_content w q body) _ h in
      let (u, b, h2) = >>=-eq-ok (validate_reply_target q.from_user_id q.reply_to_id t) _ h1 in
      let (id, c, h3) = >>=-eq-ok (or_fail w.new_id internal) _ h2 in
      let (step, ms, same) =
        persist_message-Step w.event_id cut q.from_user_id q.client_msg_id
          (new_message w q body id stored.0 stored.1) m t t' refl refl refl refl refl free h3 in
      (
        step,
        (
          rw ms (
              find-append-none (submitted_as q.from_user_id q.client_msg_id) t.messages (m ∷ [])
                free
              ∙ rw (same.0, same.1, ==_refl q.from_user_id, ==_refl q.client_msg_id) refl),
          inl same.2,
        ),
      )

  pub submit_message-Step :
      submit_message cut w q body t ≡ ok (m, t')
      → Step cut q.from_user_id t t' × IsStored w q body m t'
  unfolding submit_message
  submit_message-Step h =
      let (p, a, h1) = >>=-eq-ok (check_send_permission w.valid q.from_user_id t.room) _ h in
      let (u, b, h2) = >>=-eq-ok (check_sender w.now q.from_user_id w.blocks p) _ h1 in
      elim (Option-cases (find (submitted_as q.from_user_id q.client_msg_id) t.messages)) [
        | inl e ↦ create_message-Step e (rw e at h2)
        | inr (old, e) ↦
            let (v, c, h3) =
              >>=-eq-ok
                (guard (same_submission w.parse w.marshal old.submission_content body.submission)
                  content_conflict)
                _ (rw e at h2) in
            let same = ok-injective h3 in
            subst
              (λ (z : Message × Thread). Step cut q.from_user_id t z.1 × IsStored w q body z.0 z.1)
              same (stays refl, (e, inr (guard-eq-ok _ content_conflict c)))
      ]

-- What SendMessage has checked before its transaction.
pub send_message-eq-ok :
    (cut : ℕ → ℕ) (w : SendContext) (caller : Option ℕ) (q : SendMessageReq) (t t' : Thread)
    (m : Message)
    → send_message cut w caller q t ≡ ok (m, t')
    → (caller ≡ some q.from_user_id)
      × ((body : SendContent) × (validate_send_content w.valid q ≡ ok body)
          × (submit_message cut w q body t ≡ ok (m, t')))
unfolding send_message
send_message-eq-ok cut w caller q t t' m h =
    let (c, a1, h1) = >>=-eq-ok (or_fail caller user_id_missing) _ h in
    let (u2, a2, h2) =
      >>=-eq-ok (guard (w.valid q.conversation_id && w.valid q.from_user_id) invalid_param) _ h1 in
    let (u3, a3, h3) = >>=-eq-ok (guard (c == q.from_user_id) send_as_other_user) _ h2 in
    let (u4, a4, h4) = >>=-eq-ok (guard (w.valid_key q.client_msg_id) invalid_param) _ h3 in
    let (u5, a5, h5) = >>=-eq-ok (guard (valid_reply w.valid q.reply_to_id) invalid_param) _ h4 in
    let (body, a6, h6) = >>=-eq-ok (validate_send_content w.valid q) _ h5 in
    (
      or_fail-eq-ok caller user_id_missing a1
          ∙ ap some ((==_iff c q.from_user_id).0 (guard-eq-ok (c == q.from_user_id) _ a3)),
      (body, a6, reported-eq-ok _ h6),
    )
