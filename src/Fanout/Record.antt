-- ===== src/Fanout/Record.antt =====
-- Whom an event counts for, and what is on record of it once the consumer has marked it.
use maim.Common.{
  ℕ, ◌≡◌, sym, ◌∙◌, ap, subst, Bool, true, false, not, Option, some, List, [], ◌∷◌, Memᴰ, ok, guard,
  or_fail, >>=-eq-ok, or_fail-eq-ok, ok-injective, err≢ok, some_injective, inl, inr, All, All-mem,
  map, map-mem, select-mem, mem-cons_cases, Bool-cases, Option-cases, exists, is_some, ltb_ℤ, pos,
  ◌||◌,
}
use maim.Inbox.Model.{
  InboxKind, UserInbox, InboxRepo, applied_key, is_read, message_new, message_edited,
  message_recalled, message_deleted, conversation_upsert, conversation_removed, read_updated,
  unknown_kind,
}
use maim.Inbox.Batch.{batch_insert}
use maim.Inbox.Batch.Applied.{IsApplied}
use maim.Inbox.Batch.Once.{batch_insert-applied}
use maim.Fanout.Event.{
  InboxChangeEvent, invalid_identity, no_publication_sequence, no_message, validate,
}
use maim.Fanout.Live.{Rows, user_ids}
use maim.Fanout.Consumer.{
  contains, recipients, is_message, entry_of, accept, World, Attempt, handle_message_created,
  handle_until, consume_claim,
}
use maim.Fanout.Delivery.{IsStored, handle-cases, consume_claim_kept}

abbrev pub is_removal : InboxKind → Bool
is_removal conversation_removed = true
is_removal _ = false

-- The user is in the conversation's rows, or has no need to be.
abbrev pub counts_in : InboxChangeEvent → ℕ → Attempt → Bool
counts_in evt user a = is_removal evt.kind || contains (user_ids a.rows) user

pub recipients-mem :
    (r : Rows) (evt : InboxChangeEvent) (kind : InboxKind) {users : List ℕ} (u : ℕ)
    → recipients r evt kind ≡ ok users
    → is_read kind ≡ false
    → (is_removal kind || contains (user_ids r) u) ≡ true
    → Memᴰ u evt.recipient_ids
    → Memᴰ u users
unfolding recipients
recipients-mem r evt message_new u h n c m =
    subst (Memᴰ u) (ok-injective h) (select-mem (contains (user_ids r)) evt.recipient_ids u c m)
recipients-mem r evt message_edited u h n c m =
    subst (Memᴰ u) (ok-injective h) (select-mem (contains (user_ids r)) evt.recipient_ids u c m)
recipients-mem r evt message_recalled u h n c m =
    subst (Memᴰ u) (ok-injective h) (select-mem (contains (user_ids r)) evt.recipient_ids u c m)
recipients-mem r evt message_deleted u h n c m =
    subst (Memᴰ u) (ok-injective h) (select-mem (contains (user_ids r)) evt.recipient_ids u c m)
recipients-mem r evt conversation_upsert u h n c m =
    subst (Memᴰ u) (ok-injective h) (select-mem (contains (user_ids r)) evt.recipient_ids u c m)
recipients-mem r evt conversation_removed u h n c m = subst (Memᴰ u) (ok-injective h) m
recipients-mem r evt read_updated u h n c m = cc
recipients-mem r evt (unknown_kind k) u h n c m = absurd (err≢ok h)

-- What an accepted payload is, and for whom.
pub accept-eq-ok :
    (valid : ℕ → Bool) (r : Rows) (raw : Option InboxChangeEvent) {out : InboxChangeEvent × List ℕ}
    → accept valid r raw ≡ ok out
    → (raw ≡ some out.0) × (recipients r out.0 out.0.kind ≡ ok out.1)
unfolding accept
accept-eq-ok valid r raw {out} h =
    let (evt, a, h1) = >>=-eq-ok (or_fail raw invalid_identity) _ h in
    let (u2, b, h2) = >>=-eq-ok (validate valid evt) _ h1 in
    let (u3, c, h3) =
      >>=-eq-ok
        (guard (ltb_ℤ (pos 0) evt.publication_sequence || ltb_ℤ evt.publication_sequence (pos 0))
          no_publication_sequence)
        _ h2 in
    let (users, d, h4) = >>=-eq-ok (recipients r evt evt.kind) _ h3 in
    let (u5, e, h5) =
      >>=-eq-ok (guard (not (is_message evt.kind) || is_some evt.message_id) no_message) _ h4 in
    subst
      (λ (z : InboxChangeEvent × List ℕ). (raw ≡ some z.0) × (recipients r z.0 z.0.kind ≡ ok z.1))
      (ok-injective h5) (or_fail-eq-ok raw invalid_identity a, d)

-- The change is on record for the user.
abbrev pub IsOnRecord : ℕ → ℕ → World → Type 0
IsOnRecord user change w = exists (applied_key user change) w.inbox.applied ≡ true

IsStored-IsOnRecord :
    (valid : ℕ → Bool) (a : Attempt) (evt : InboxChangeEvent) (w w' : World) (u : ℕ)
    → IsStored valid a (some evt) w w'
    → is_read evt.kind ≡ false
    → Memᴰ u evt.recipient_ids
    → counts_in evt u a ≡ true
    → IsOnRecord u evt.change_id w'
IsStored-IsOnRecord valid a evt w w' u (out, e, f) n m c =
    let (same, users) = accept-eq-ok valid a.rows (some evt) e in
    let evt_is = some_injective same in
    let users_of : recipients a.rows evt evt.kind ≡ ok out.1 =
      subst (λ (z : InboxChangeEvent). recipients a.rows z z.kind ≡ ok out.1) (sym evt_is) users in
    let among = recipients-mem a.rows evt evt.kind u users_of n c m in
    let stored =
      All-mem (IsApplied w'.inbox.applied) _ (entry_of a.now out.0 u)
        (batch_insert-applied valid a.now (map (entry_of a.now out.0) out.1) w.inbox w'.inbox f).0
        (map-mem (entry_of a.now out.0) out.1 u among) in
    subst (λ (z : InboxChangeEvent). exists (applied_key u z.change_id) w'.inbox.applied ≡ true)
      (sym evt_is) stored

handle-IsOnRecord :
    (valid : ℕ → Bool) (a : Attempt) (evt : InboxChangeEvent) (u : ℕ) (w : World)
    → is_read evt.kind ≡ false
    → Memᴰ u evt.recipient_ids
    → counts_in evt u a ≡ true
    → (handle_message_created valid a (some evt) w).1 ≡ true
    → IsOnRecord u evt.change_id (handle_message_created valid a (some evt) w).0
handle-IsOnRecord valid a evt u w n m c h = elim (handle-cases valid a (some evt) w) [
  | inl e ↦ let bad = sym h ∙ ap (λ (z : World × Bool). z.1) e in cc
  | inr s ↦
      IsStored-IsOnRecord valid a evt w (handle_message_created valid a (some evt) w).0 u s n m c
]

-- What is on record stays on record.
keep-IsOnRecord :
    (valid : ℕ → Bool) (user change : ℕ) (now : ℕ) (es : List UserInbox) (r r' : InboxRepo)
    → batch_insert valid now es r ≡ ok r'
    → exists (applied_key user change) r.applied ≡ true
    → exists (applied_key user change) r'.applied ≡ true
keep-IsOnRecord valid user change now es r r' h k =
    (batch_insert-applied valid now es r r' h).1 user change k

module _ (valid : ℕ → Bool) (evt : InboxChangeEvent) (u : ℕ) (unread : is_read evt.kind ≡ false)
    (named : Memᴰ u evt.recipient_ids) where
  -- The attempts that are left are of the same kind.
  handle_until-counts :
      (raw : Option InboxChangeEvent) (tries left : List Attempt) (w : World)
      → All (λ a. counts_in evt u a ≡ true) tries
      → (handle_until valid tries raw w).1 ≡ some left
      → All (λ a. counts_in evt u a ≡ true) left
  unfolding handle_until
  handle_until-counts raw [] left w c h = cc
  handle_until-counts raw (a ∷ tries) left w c h =
      elim (Bool-cases (handle_message_created valid a raw w).1) [
        | inr e ↦
            handle_until-counts raw tries left (handle_message_created valid a raw w).0 c.1
              (rw (e, handle_until) at h)
        | inl e ↦
            subst (All (λ a. counts_in evt u a ≡ true)) (some_injective (rw (e, handle_until) at h))
              c.1
      ]

  handle_until-IsOnRecord :
      (tries left : List Attempt) (w : World)
      → All (λ a. counts_in evt u a ≡ true) tries
      → (handle_until valid tries (some evt) w).1 ≡ some left
      → IsOnRecord u evt.change_id (handle_until valid tries (some evt) w).0
  unfolding handle_until
  handle_until-IsOnRecord [] left w c h = cc
  handle_until-IsOnRecord (a ∷ tries) left w c h =
      elim (Bool-cases (handle_message_created valid a (some evt) w).1) [
        | inr e ↦
            rw (e, handle_until)
              (handle_until-IsOnRecord tries left (handle_message_created valid a (some evt) w).0
                c.1 (rw (e, handle_until) at h))
        | inl e ↦ rw (e, handle_until) (handle-IsOnRecord valid a evt u w unread named c.0 e)
      ]

  -- When the consumer has marked all events, the change is on record.
  pub consume_claim-IsOnRecord :
      (tries : List Attempt) (raws : List (Option InboxChangeEvent)) (w : World)
      → All (λ a. counts_in evt u a ≡ true) tries
      → Memᴰ (some evt) raws
      → (consume_claim valid tries raws w).1 ≡ []
      → IsOnRecord u evt.change_id (consume_claim valid tries raws w).0
  unfolding consume_claim
  consume_claim-IsOnRecord tries [] w c m h = elim m [ ]
  consume_claim-IsOnRecord tries (raw ∷ raws) w c m h =
      elim (Option-cases (handle_until valid tries raw w).1) [
        | inl e ↦ let bad = rw (e, consume_claim) at h in absurd (nonempty bad)
        | inr (left, e) ↦
            let w' : World = (handle_until valid tries raw w).0 in
            let c' = handle_until-counts raw tries left w c e in
            rw (e, consume_claim)
              (elim (mem-cons_cases (some evt) raw raws m) [
                | inl same ↦
                    consume_claim_kept valid
                      (λ (r : InboxRepo). exists (applied_key u evt.change_id) r.applied ≡ true)
                      (keep-IsOnRecord valid u evt.change_id) left raws w'
                      (subst (λ z. IsOnRecord u evt.change_id (handle_until valid tries z w).0) same
                        (handle_until-IsOnRecord tries left w c (rw (sym same) at e)))
                | inr rest ↦
                    consume_claim-IsOnRecord left raws w' c' rest (rw (e, consume_claim) at h)
              ])
      ]
    where
      nonempty :
          {x : Option InboxChangeEvent} {xs : List (Option InboxChangeEvent)} → x ∷ xs ≡ [] → ⊥
      nonempty h = cc
