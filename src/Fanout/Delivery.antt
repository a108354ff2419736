-- ===== src/Fanout/Delivery.antt =====
-- What the consumer has stored and sent after any attempts.
use maim.Common.{
  ℕ, ◌≡◌, ◌⊎◌, refl, sym, ◌∙◌, subst, Bool, false, Option, List, [], ◌∷◌, ok, Result-cases,
  Option-cases, inl, inr, map, Bool-cases,
}
use maim.Inbox.Model.{UserInbox, InboxRepo}
use maim.Inbox.Batch.{batch_insert}
use maim.Inbox.Batch.Once.{IsOnce, batch_insert-IsOnce}
use maim.Fanout.Event.{InboxChangeEvent}
use maim.Fanout.Consumer.{
  entry_of, accept, World, Attempt, handle_message_created, handle_until, consume_claim,
}

-- The attempt has stored the event for its recipients.
abbrev pub IsStored : (ℕ → Bool) → Attempt → Option InboxChangeEvent → World → World → Type 0
IsStored valid a raw w w' =
    (out : InboxChangeEvent × List ℕ) × (accept valid a.rows raw ≡ ok out)
    × (batch_insert valid a.now (map (entry_of a.now out.0) out.1) w.inbox ≡ ok w'.inbox)

-- An attempt that changes anything has stored the event.
pub handle-cases :
    (valid : ℕ → Bool) (a : Attempt) (raw : Option InboxChangeEvent) (w : World)
    → (handle_message_created valid a raw w ≡ (w, false))
      ⊎ IsStored valid a raw w (handle_message_created valid a raw w).0
unfolding handle_message_created
handle-cases valid a raw w = elim (Result-cases (accept valid a.rows raw)) [
  | inr (x, e) ↦ inl (rw (e, handle_message_created) refl)
  | inl (out, e) ↦
      elim (Result-cases (batch_insert valid a.now (map (entry_of a.now out.0) out.1) w.inbox)) [
        | inr (x, f) ↦ inl (rw (e, f, handle_message_created) refl)
        | inl (inbox, f) ↦ inr (out, e, f ∙ rw (e, f, handle_message_created) refl)
      ]
]

-- What a stored event keeps, the consumer keeps.
module _ (valid : ℕ → Bool) (Keeps : InboxRepo → Type 0)
    (keep : (now : ℕ) (es : List UserInbox) (r r' : InboxRepo)
      → batch_insert valid now es r ≡ ok r'
      → Keeps r
      → Keeps r') where
  handle_kept :
      (a : Attempt) (raw : Option InboxChangeEvent) (w : World)
      → Keeps w.inbox
      → Keeps (handle_message_created valid a raw w).0.inbox
  handle_kept a raw w k = elim (handle-cases valid a raw w) [
    | inl e ↦ subst (λ (z : World × Bool). Keeps z.0.inbox) (sym e) k
    | inr (out, e, f) ↦ keep a.now (map (entry_of a.now out.0) out.1) w.inbox _ f k
  ]

  pub handle_until_kept :
      (tries : List Attempt) (raw : Option InboxChangeEvent) (w : World)
      → Keeps w.inbox
      → Keeps (handle_until valid tries raw w).0.inbox
  unfolding handle_until
  handle_until_kept [] raw w k = k
  handle_until_kept (a ∷ tries) raw w k =
      let next = handle_kept a raw w k in
      elim (Bool-cases (handle_message_created valid a raw w).1) [
        | inl e ↦ rw (e, handle_until) next
        | inr e ↦
            rw (e, handle_until)
              (handle_until_kept tries raw (handle_message_created valid a raw w).0 next)
      ]

  pub consume_claim_kept :
      (tries : List Attempt) (raws : List (Option InboxChangeEvent)) (w : World)
      → Keeps w.inbox
      → Keeps (consume_claim valid tries raws w).0.inbox
  unfolding consume_claim
  consume_claim_kept tries [] w k = k
  consume_claim_kept tries (raw ∷ raws) w k =
      let next = handle_until_kept tries raw w k in
      elim (Option-cases (handle_until valid tries raw w).1) [
        | inl e ↦ rw (e, consume_claim) next
        | inr (tries', e) ↦
            rw (e, consume_claim)
              (consume_claim_kept tries' raws (handle_until valid tries raw w).0 next)
      ]

-- However often events fail, are attempted again or come twice, and whoever joins or leaves in between:
-- the stream of a user has one entry at most for a change, and what has an entry is on record.
pub consume_claim-IsOnce :
    (valid : ℕ → Bool) (tries : List Attempt) (raws : List (Option InboxChangeEvent)) (w : World)
    → IsOnce w.inbox.entries w.inbox.applied
    → IsOnce
        (consume_claim valid tries raws w).0.inbox.entries
        (consume_claim valid tries raws w).0.inbox.applied
consume_claim-IsOnce valid tries raws w v =
    consume_claim_kept valid (λ (r : InboxRepo). IsOnce r.entries r.applied)
      (λ now es r r' h k. batch_insert-IsOnce valid now es r r' h k) tries raws w v
