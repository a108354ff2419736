-- ===== src/Messages/Calls.antt =====
-- Any sequence of calls on the messages of a conversation, each a transaction.
use maim.Common.{
  ℕ, ◌≡◌, Bool, Option, some, List, [], ◌∷◌, Result, ok, err, inl, inr, Result-cases, ok-injective,
  err≢ok, subst, All,
}
use maim.Messages.Json.{Json}
use maim.Messages.Model.{Message, Thread, MessageError}
use maim.Messages.Send.{SendContext, SendMessageReq, send_message}
use maim.Messages.Change.{ChangeContext, edit_message, recall_message, delete_message}
use maim.Messages.Steps.{Step}
use maim.Messages.Effects.{edit_message-Step, recall_message-Step, delete_message-Step}
use maim.Messages.Effects.Sent.{submit_message-Step, send_message-eq-ok}

-- The requests about a message that is there: its identity, and the row read before.
pub record Target : Type 0 where
  pub world : ChangeContext
  pub caller : Option ℕ
  pub message_id : ℕ
  pub user : ℕ
  pub conversation : Option ℕ
  pub conv_id : ℕ
  pub read : Option Message

pub data Call : Type 0 where
  sends : SendContext → Option ℕ → SendMessageReq → Call
  edits : Target → Option (List ℕ × Json) → Call
  recalls : Target → Call
  deletes : Target → Bool → Call

-- On whose behalf.
abbrev pub actor_of : Call → ℕ
actor_of (sends w caller q) = q.from_user_id
actor_of (edits x content) = x.user
actor_of (recalls x) = x.user
actor_of (deletes x for_all) = x.user

-- The authenticated user, if there is one.
abbrev pub caller_of : Call → Option ℕ
caller_of (sends w caller q) = caller
caller_of (edits x content) = x.caller
caller_of (recalls x) = x.caller
caller_of (deletes x for_all) = x.caller

abbrev pub rows_of : Result MessageError (Message × Thread) → Result MessageError Thread
rows_of (ok out) = ok out.1
rows_of (err e) = err e

unfoldable pub handle : (ℕ → ℕ) → Call → Thread → Result MessageError Thread
unfolding send_message edit_message recall_message delete_message
handle cut (sends w caller q) t = rows_of (send_message cut w caller q t)
handle cut (edits x content) t =
    edit_message cut x.world x.caller x.message_id x.user x.conversation content x.conv_id x.read t
handle cut (recalls x) t =
    recall_message cut x.world x.caller x.message_id x.user x.conversation x.conv_id x.read t
handle cut (deletes x for_all) t =
    delete_message cut x.world x.caller x.message_id x.user x.conversation for_all x.conv_id x.read
      t

-- A call that fails writes nothing.
abbrev pub settled : Result MessageError Thread → Thread → Thread
settled (ok t') t = t'
settled (err e) t = t

unfoldable pub serve : (ℕ → ℕ) → List Call → Thread → Thread
unfolding handle
serve cut [] t = t
serve cut (c ∷ cs) t = serve cut cs (settled (handle cut c t) t)

pub handle-Step :
    (cut : ℕ → ℕ) (c : Call) (t t' : Thread)
    → handle cut c t ≡ ok t'
    → (caller_of c ≡ some (actor_of c)) × Step cut (actor_of c) t t'
unfolding handle
handle-Step cut (sends w caller q) t t' h = elim (Result-cases (send_message cut w caller q t)) [
  | inl (out, e) ↦
      let (who, (body, valid, went)) = send_message-eq-ok cut w caller q t out.1 out.0 e in
      (
        who,
        subst (Step cut q.from_user_id t) (ok-injective (rw e at h))
            ((submit_message-Step cut w q body out.0 t out.1 went).0),
      )
  | inr (x, e) ↦ absurd (err≢ok (rw e at h))
]
handle-Step cut (edits x content) t t' h =
    edit_message-Step cut x.world x.caller x.message_id x.user x.conversation x.conv_id x.read t t'
      content h
handle-Step cut (recalls x) t t' h =
    recall_message-Step cut x.world x.caller x.message_id x.user x.conversation x.conv_id x.read t
      t' h
handle-Step cut (deletes x for_all) t t' h =
    delete_message-Step cut x.world x.caller x.message_id x.user x.conversation x.conv_id x.read t
      t' for_all h

-- What every step of an allowed call keeps, any sequence of allowed calls keeps.
pub serve_kept :
    (cut : ℕ → ℕ) (Allowed : Call → Type 0) (Keeps : Thread → Type 0)
    → ((c : Call) (t t' : Thread)
        → Allowed c
        → caller_of c ≡ some (actor_of c)
        → Step cut (actor_of c) t t'
        → Keeps t
        → Keeps t')
    → (cs : List Call) (t : Thread) → All Allowed cs
    → Keeps t
    → Keeps (serve cut cs t)
unfolding serve
serve_kept cut Allowed Keeps keep [] t a k = k
serve_kept cut Allowed Keeps keep (c ∷ cs) t a k = elim (Result-cases (handle cut c t)) [
  | inl (t', e) ↦ rw e (
      serve_kept cut Allowed Keeps keep cs t' a.1
        (keep c t t' a.0 (handle-Step cut c t t' e).0 (handle-Step cut c t t' e).1 k))
  | inr (x, e) ↦ rw e (serve_kept cut Allowed Keeps keep cs t a.1 k)
]
