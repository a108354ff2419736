-- ===== src/Messages/Resend.antt =====
-- A client that does not know whether its message was stored sends it again, under the same key.
use maim.Common.{
  ℕ, ◌≡◌, ◌⊎◌, Bool, true, false, ◌&&◌, Option, some, ◌∙◌, ap, sym, subst, Result, ok, err, guard,
  or_fail, refl, ◌>>=◌, ◌>>◌, >>=-eq-ok, ok-injective, ◌==◌, find, inl, inr, Bool-cases, List,
}
use maim.Messages.Json.{Json, same_submission}
use maim.Messages.Model.{
  Message, Thread, MessageError, user_id_missing, invalid_param, send_as_other_user,
  content_conflict,
}
use maim.Friends.Model.{UserBlock}
use maim.Messages.Permission.{check_send_permission}
use maim.Messages.Send.{
  SendContext, SendContent, SendMessageReq, submitted_as, check_sender, validate_send_content,
  valid_reply, submit_message, send_message, reported,
}
use maim.Messages.Effects.Sent.{IsStored, submit_message-Step, reported-eq-ok}
use maim.Messages.Submissions.{
  SameValue, KeepsValues, IsDecoded, same_submission_lem, same_submission-jsonb,
}

-- The answer, if the sender may send to the conversation as it is.
abbrev pub if_allowed :
    SendContext
    → SendMessageReq
    → Thread
    → Result MessageError (Message × Thread)
    → Result MessageError (Message × Thread)
if_allowed w q t answer = do
  permission ← check_send_permission w.valid q.from_user_id t.room
  check_sender w.now q.from_user_id w.blocks permission
  answer

module _ (cut : ℕ → ℕ) (w : SendContext) (caller : Option ℕ) (q : SendMessageReq) (m : Message)
    (t t' : Thread) where
  -- What was checked of the request holds of a later one with the same key.
  resent :
      (now : ℕ) (blocks : List UserBlock) (new_id : Option ℕ) (event_id : ℕ → Option ℕ)
      (download : SendContent → Result MessageError (ℕ × Json)) (type : ℕ)
      (content : Option SendContent) (body : SendContent) (u : Thread) (x : Message)
      → send_message cut w caller q t ≡ ok (m, t')
      → validate_send_content w.valid (record q { type = type; body = content }) ≡ ok body
      → find (submitted_as q.from_user_id q.client_msg_id) u.messages ≡ some x
      → send_message cut
          (record w {
            now = now;
            blocks = blocks;
            new_id = new_id;
            event_id = event_id;
            download = download;
          })
          caller
          (record q { type = type; body = content })
          u
        ≡ reported (
            if_allowed
              (record w { now = now; blocks = blocks })
              q
              u
              (do
                guard
                    (same_submission w.parse w.marshal x.submission_content body.submission)
                    content_conflict
                ok (x, u)))
  unfolding send_message submit_message
  resent now blocks new_id event_id download type content body u x h valid found =
      let (c, a1, h1) = >>=-eq-ok (or_fail caller user_id_missing) _ h in
      let (u2, a2, h2) =
        >>=-eq-ok (guard (w.valid q.conversation_id && w.valid q.from_user_id) invalid_param) _
          h1 in
      let (u3, a3, h3) = >>=-eq-ok (guard (c == q.from_user_id) send_as_other_user) _ h2 in
      let (u4, a4, h4) = >>=-eq-ok (guard (w.valid_key q.client_msg_id) invalid_param) _ h3 in
      let (u5, a5, h5) = >>=-eq-ok (guard (valid_reply w.valid q.reply_to_id) invalid_param) _ h4 in
      rw (a1, a2, a3, a4, a5, valid, found) refl

  stored :
      (body : SendContent)
      → send_message cut w caller q t ≡ ok (m, t')
      → validate_send_content w.valid q ≡ ok body
      → IsStored w q body m t'
  unfolding send_message
  stored body h valid =
      let (c, a1, h1) = >>=-eq-ok (or_fail caller user_id_missing) _ h in
      let (u2, a2, h2) =
        >>=-eq-ok (guard (w.valid q.conversation_id && w.valid q.from_user_id) invalid_param) _
          h1 in
      let (u3, a3, h3) = >>=-eq-ok (guard (c == q.from_user_id) send_as_other_user) _ h2 in
      let (u4, a4, h4) = >>=-eq-ok (guard (w.valid_key q.client_msg_id) invalid_param) _ h3 in
      let (u5, a5, h5) = >>=-eq-ok (guard (valid_reply w.valid q.reply_to_id) invalid_param) _ h4 in
      let (before, a6, h6) = >>=-eq-ok (validate_send_content w.valid q) _ h5 in
      let e =
        subst (λ b. submit_message cut w q b t ≡ ok (m, t')) (ok-injective (sym a6 ∙ valid))
          (reported-eq-ok _ h6) in
      (submit_message-Step cut w q body m t t' e).1

  module _ (now : ℕ) (blocks : List UserBlock) (new_id : Option ℕ) (event_id : ℕ → Option ℕ)
      (download : SendContent → Result MessageError (ℕ × Json)) (u : Thread) (x : Message) where
    -- A request whose message was acknowledged and is repeated at any later time, whatever the blocks,
    -- the members, the file service and the rows are by then, as long as a row has the sender's key and
    -- the submission that was stored: if the sender may send to the conversation then, the answer is
    -- that row, and no row changes, so that no second message is created; if not, the answer is
    -- the error of the permission checks. JSONB may have rewritten the submission's numbers, of which it
    -- keeps the values, and the submission is a decoded value of numbers that SetString accepts.
    pub send_message-again :
        (body : SendContent)
        → send_message cut w caller q t ≡ ok (m, t')
        → validate_send_content w.valid q ≡ ok body
        → KeepsValues w.parse w.rewrite
        → IsDecoded w.parse body.submission
        → find (submitted_as q.from_user_id q.client_msg_id) u.messages ≡ some x
        → x.submission_content ≡ m.submission_content
        → send_message cut
            (record w {
              now = now;
              blocks = blocks;
              new_id = new_id;
              event_id = event_id;
              download = download;
            })
            caller
            q
            u
          ≡ reported (if_allowed (record w { now = now; blocks = blocks }) q u (ok (x, u)))
    send_message-again body h valid keeps decoded found kept =
        let same : same_submission w.parse w.marshal x.submission_content body.submission ≡ true =
          elim (stored body h valid).1 [
            | inl e ↦
                subst (λ z. same_submission w.parse w.marshal z body.submission ≡ true)
                  (sym (kept ∙ e))
                  (same_submission-jsonb w.parse w.marshal w.rewrite body.submission keeps decoded)
            | inr e ↦
                subst (λ z. same_submission w.parse w.marshal z body.submission ≡ true) (sym kept) e
          ] in
        resent now blocks new_id event_id download q.type q.body body u x h valid found
        ∙ ap
            (λ b. reported (
              if_allowed (record w { now = now; blocks = blocks }) q u
                (do guard b content_conflict; ok (x, u))))
            same

    -- A key that was acknowledged for one content is refused for another: a valid request of the same
    -- sender to the same conversation under the same key, at any later time. If the sender may send to
    -- the conversation then, the answer is the stored row just when the submission is the stored one or
    -- is the same JSON value, and is the conflict otherwise; if not, it is the error of the permission
    -- checks. Nothing is stored in any case. json.Marshal gives the two, if they differ, different texts.
    pub send_message-conflict :
        (body : SendContent) (type : ℕ)
        → send_message cut w caller q t ≡ ok (m, t')
        → validate_send_content w.valid (record q { type = type; body = some body }) ≡ ok body
        → find (submitted_as q.from_user_id q.client_msg_id) u.messages ≡ some x
        → (w.marshal x.submission_content ≡ w.marshal body.submission
            → x.submission_content ≡ body.submission)
        → let answer =
            send_message cut
              (record w {
                now = now;
                blocks = blocks;
                new_id = new_id;
                event_id = event_id;
                download = download;
              })
              caller
              (record q { type = type; body = some body })
              u in
          let same =
            (x.submission_content ≡ body.submission)
            ⊎ SameValue w.parse x.submission_content body.submission in
          (same
            × (answer
                ≡ reported (if_allowed (record w { now = now; blocks = blocks }) q u (ok (x, u)))))
          ⊎ ((same → ⊥)
              × (answer
                  ≡ reported (
                      if_allowed
                        (record w { now = now; blocks = blocks })
                        q
                        u
                        (err content_conflict))))
    send_message-conflict body type h valid found faithful =
        let lemma =
          same_submission_lem w.parse w.marshal x.submission_content body.submission faithful in
        let answered =
          resent now blocks new_id event_id download type (some body) body u x h valid found in
        elim (Bool-cases (same_submission w.parse w.marshal x.submission_content body.submission)) [
          | inl e ↦ inl (lemma.0 e, answered ∙ ap guarded e)
          | inr e ↦ inr (λ k. absurd (both (sym (lemma.1 k) ∙ e)), answered ∙ ap guarded e)
        ]
      where
        guarded : Bool → Result MessageError (Message × Thread)
        guarded b = reported (
            if_allowed (record w { now = now; blocks = blocks }) q u
              (do guard b content_conflict; ok (x, u)))

        both : true ≡ false → ⊥
        both h = cc
