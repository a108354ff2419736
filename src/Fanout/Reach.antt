-- ===== src/Fanout/Reach.antt =====
-- Whom an event reaches, and when.
use maim.Common.{
  ℕ, ◌≡◌, ◌⊎◌, refl, sym, ◌∙◌, ap, subst, Bool, true, false, arith, Option, some, List, [], ◌∷◌,
  Memᴰ, ok, or_fail, >>=-eq-ok, ok-injective, inl, inr, All, All-mem, map, map-mem, All-of_mem,
  Bool-cases, Option-cases, exists, ◌==◌, ==_iff, if◌then◌else◌,
}
use maim.Inbox.Model.{
  InboxKind, UserInbox, InboxRepo, UniqueEntries, applied_key, is_read, message_new, message_edited,
  message_recalled, message_deleted, conversation_upsert, conversation_removed, read_updated,
  unknown_kind,
}
use maim.Inbox.Batch.{batch_insert}
use maim.Inbox.Batch.Applied.{IsApplied}
use maim.Inbox.Batch.Once.{batch_insert-applied}
use maim.Inbox.Batch.Stored.{
  IsHeld, IsAlike, IsReady, IsReadFrom, batch_insert-IsReady, IsReady-IsHeld,
  batch_insert-IsReadFrom,
}
use maim.Fanout.Event.{InboxChangeEvent, no_user}
use maim.Fanout.Live.{Rows, user_ids}
use maim.Fanout.Consumer.{
  contains, recipients, entry_of, accept, World, Attempt, handle_message_created, handle_until,
  consume_claim,
}
use maim.Fanout.Delivery.{handle-cases}
use maim.Fanout.Record.{accept-eq-ok, counts_in, consume_claim-IsOnRecord}

-- The user's stream has the entry of the event, with all its fields, at some position and of some time.
abbrev pub Reached : ℕ → InboxChangeEvent → World → Type 0
Reached user evt w = IsHeld (entry_of 0 evt user) w.inbox.entries

-- No other event has the event's identity.
abbrev pub IsOnly : InboxChangeEvent → Option InboxChangeEvent → Type 0
IsOnly evt raw =
    (other : InboxChangeEvent)
    → raw ≡ some other
    → (other ≡ evt) ⊎ ((other.change_id == evt.change_id) ≡ false)

-- The entries have their primary key, and the event is new to the user or its entry is there.
abbrev pub IsReadyFor : ℕ → InboxChangeEvent → World → Type 0
IsReadyFor user evt w = IsReady (entry_of 0 evt user) w.inbox.entries w.inbox.applied

-- The entries that an event makes, beside the one that is looked for.
entries-IsAlike :
    (now : ℕ) (evt other : InboxChangeEvent) (u v : ℕ)
    → (other ≡ evt) ⊎ ((other.change_id == evt.change_id) ≡ false)
    → IsAlike (entry_of 0 evt u) (entry_of now other v)
entries-IsAlike now evt other u v (inr away) = inr (ground (arith, away))
entries-IsAlike now evt other u v (inl same) = elim (Bool-cases (v == u)) [
  | inr e ↦ inr (ground (arith, e))
  | inl e ↦ inl (
      ap (λ (z : InboxChangeEvent). entry_of now z v) same
      ∙ ap (entry_of now evt) ((==_iff v u).0 e))
]

batch-IsAlike :
    (now : ℕ) (evt other : InboxChangeEvent) (u : ℕ)
    → (other ≡ evt) ⊎ ((other.change_id == evt.change_id) ≡ false)
    → (users : List ℕ) → All (IsAlike (entry_of 0 evt u)) (map (entry_of now other) users)
batch-IsAlike now evt other u o [] = tt
batch-IsAlike now evt other u o (x ∷ xs) =
    (entries-IsAlike now evt other u x o, batch-IsAlike now evt other u o xs)

module _ (valid : ℕ → Bool) (evt : InboxChangeEvent) (u : ℕ)
    (unread : is_read evt.kind ≡ false) where
  handle-IsReadyFor :
      (a : Attempt) (raw : Option InboxChangeEvent) (w : World)
      → IsOnly evt raw
      → IsReadyFor u evt w
      → IsReadyFor u evt (handle_message_created valid a raw w).0
  handle-IsReadyFor a raw w only v = elim (handle-cases valid a raw w) [
    | inl e ↦ subst (λ (z : World × Bool). IsReadyFor u evt z.0) (sym e) v
    | inr (out, e, f) ↦
        batch_insert-IsReady (entry_of 0 evt u) valid a.now (map (entry_of a.now out.0) out.1)
          w.inbox _ f unread
          (batch-IsAlike a.now evt out.0 u (only out.0 (accept-eq-ok valid a.rows raw e).0) out.1) v
  ]

  handle_until-IsReadyFor :
      (tries : List Attempt) (raw : Option InboxChangeEvent) (w : World)
      → IsOnly evt raw
      → IsReadyFor u evt w
      → IsReadyFor u evt (handle_until valid tries raw w).0
  unfolding handle_until
  handle_until-IsReadyFor [] raw w only v = v
  handle_until-IsReadyFor (a ∷ tries) raw w only v =
      let next = handle-IsReadyFor a raw w only v in
      elim (Bool-cases (handle_message_created valid a raw w).1) [
        | inl e ↦ rw (e, handle_until) next
        | inr e ↦
            rw (e, handle_until)
              (handle_until-IsReadyFor tries raw (handle_message_created valid a raw w).0 only next)
      ]

  consume_claim-IsReadyFor :
      (tries : List Attempt) (raws : List (Option InboxChangeEvent)) (w : World)
      → All (IsOnly evt) raws
      → IsReadyFor u evt w
      → IsReadyFor u evt (consume_claim valid tries raws w).0
  unfolding consume_claim
  consume_claim-IsReadyFor tries [] w only v = v
  consume_claim-IsReadyFor tries (raw ∷ raws) w only v =
      let next = handle_until-IsReadyFor tries raw w only.0 v in
      elim (Option-cases (handle_until valid tries raw w).1) [
        | inl e ↦ rw (e, consume_claim) next
        | inr (left, e) ↦
            rw (e, consume_claim)
              (consume_claim-IsReadyFor left raws (handle_until valid tries raw w).0 only.1 next)
      ]

  -- When the consumer has marked all events that it was given, among them this one, which is no read
  -- position, the user's stream has the event's entry: for a recipient who was a member at each
  -- attempt, or of whatever membership when the event is the removal of the recipients. No other event
  -- has its identity; at the start the entries have their primary key, and the event is new to the
  -- user, or its entry is there.
  pub consume_claim-Reached :
      (tries : List Attempt) (raws : List (Option InboxChangeEvent)) (w : World)
      → Memᴰ u evt.recipient_ids
      → All (λ a. counts_in evt u a ≡ true) tries
      → Memᴰ (some evt) raws
      → All (IsOnly evt) raws
      → IsReadyFor u evt w
      → (consume_claim valid tries raws w).1 ≡ []
      → Reached u evt (consume_claim valid tries raws w).0
  consume_claim-Reached tries raws w named c m only v h =
      IsReady-IsHeld (entry_of 0 evt u) _ _ (consume_claim-IsReadyFor tries raws w only v)
        (consume_claim-IsOnRecord valid evt u unread named tries raws w c m h)

-- The stream shows the entry: a read position by itself or by one further on, all else by itself.
abbrev pub IsShownIn : Bool → UserInbox → List UserInbox → Type 0
IsShownIn true e entries = IsReadFrom e entries
IsShownIn false e entries = IsHeld e entries

-- A read position is for one user.
recipients-read :
    (r : Rows) (evt : InboxChangeEvent) (kind : InboxKind) {users : List ℕ} (u : ℕ)
    → recipients r evt kind ≡ ok users
    → is_read kind ≡ true
    → Memᴰ u users
    → users ≡ u ∷ []
unfolding recipients
recipients-read r evt message_new u h n m = cc
recipients-read r evt message_edited u h n m = cc
recipients-read r evt message_recalled u h n m = cc
recipients-read r evt message_deleted u h n m = cc
recipients-read r evt conversation_upsert u h n m = cc
recipients-read r evt conversation_removed u h n m = cc
recipients-read r evt (unknown_kind k) u h n m = cc
recipients-read r evt read_updated {users} u h n m =
    let (user, a, h1) = >>=-eq-ok (or_fail evt.user_id no_user) _ h in
    one (contains (user_ids r) user) user users (ok-injective h1) m
  where
    one :
        (b : Bool) (user : ℕ) (us : List ℕ)
        → (if b then user ∷ [] else []) ≡ us
        → Memᴰ u us
        → us ≡ u ∷ []
    one true user us e m = elim (subst (Memᴰ u) (sym e) m) [
      | Memᴰ.head p ↦ sym e ∙ ap (λ z. z ∷ []) (sym p)
      | Memᴰ.tail k ↦ elim k [ ]
    ]
    one false user us e m = elim (subst (Memᴰ u) (sym e) m) [ ]

stored_for :
    (valid : ℕ → Bool) (now : ℕ) (evt : InboxChangeEvent) (users : List ℕ) (r r' : InboxRepo)
    (u : ℕ)
    → UniqueEntries r.entries
    → batch_insert valid now (map (entry_of now evt) users) r ≡ ok r'
    → Memᴰ u users
    → is_read evt.kind ≡ false
    → exists (applied_key u evt.change_id) r.applied ≡ false
    → IsHeld (entry_of 0 evt u) r'.entries
stored_for valid now evt users r r' u unique f m unread new =
    IsReady-IsHeld (entry_of 0 evt u) r'.entries r'.applied
      (batch_insert-IsReady (entry_of 0 evt u) valid now (map (entry_of now evt) users) r r' f
        unread (batch-IsAlike now evt evt u (inl refl) users)
        (record { unique = unique; held = inl new }))
      (All-mem (IsApplied r'.applied) _ (entry_of now evt u)
        (batch_insert-applied valid now (map (entry_of now evt) users) r r' f).0
        (map-mem (entry_of now evt) users u m))

shown_for :
    (valid : ℕ → Bool) (a : Attempt) (evt : InboxChangeEvent) (users : List ℕ) (r r' : InboxRepo)
    (u : ℕ)
    → UniqueEntries r.entries
    → recipients a.rows evt evt.kind ≡ ok users
    → batch_insert valid a.now (map (entry_of a.now evt) users) r ≡ ok r'
    → Memᴰ u users
    → (exists (applied_key u evt.change_id) r.applied ≡ true)
      ⊎ IsShownIn (is_read evt.kind) (entry_of 0 evt u) r'.entries
shown_for valid a evt users r r' u unique e f m =
    elim (Bool-cases (exists (applied_key u evt.change_id) r.applied)) [
      | inl on ↦ inl on
      | inr new ↦ elim (Bool-cases (is_read evt.kind)) [
        | inr unread ↦
            rw unread (inr (stored_for valid a.now evt users r r' u unique f m unread new))
        | inl read ↦
            let alone = recipients-read a.rows evt evt.kind u e read m in
            rw read (
              batch_insert-IsReadFrom valid a.now (entry_of a.now evt u) r r'
                (subst (λ us. batch_insert valid a.now (map (entry_of a.now evt) us) r ≡ ok r')
                  alone f)
                read)
      ]
    ]

-- The devices learn of an event only once it is stored: an attempt sends nothing, or the stream of each
-- recipient has the event's entry after it, unless the change was on record for the recipient before;
-- of a read position, the entry or one at least as far on. This holds whether the attempt succeeds in
-- the end or not. The entries have their primary key before.
pub handle_stores_first :
    (valid : ℕ → Bool) (a : Attempt) (raw : Option InboxChangeEvent) (w : World)
    → UniqueEntries w.inbox.entries
    → ((handle_message_created valid a raw w).0.sent ≡ w.sent)
      ⊎ ((out : InboxChangeEvent × List ℕ) × (accept valid a.rows raw ≡ ok out)
          × All
              (λ u.
                (exists (applied_key u out.0.change_id) w.inbox.applied ≡ true)
                ⊎ IsShownIn
                    (is_read out.0.kind)
                    (entry_of 0 out.0 u)
                    (handle_message_created valid a raw w).0.inbox.entries)
              out.1)
handle_stores_first valid a raw w unique = elim (handle-cases valid a raw w) [
  | inl e ↦ inl (ap (λ (z : World × Bool). z.0.sent) e)
  | inr (out, e, f) ↦ inr (
    out,
    e,
    All-of_mem _ out.1 (λ u m.
        shown_for valid a out.0 out.1 w.inbox _ u unique (accept-eq-ok valid a.rows raw e).1 f m),
  )
]
