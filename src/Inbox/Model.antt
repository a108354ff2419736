-- ===== src/Inbox/Model.antt =====
-- The rows and tables of the inbox. An identity is the 128-bit number that its canonical UUID text
-- spells, so that the order of identities is the order of the texts; a time is a number.
use maim.Common.{
  ℕ, Bool, true, false, Option, List, [], ◌∷◌, Memᴰ, ◌==◌, ◌&&◌, ◌≡◌, sym, ap, ◌∙◌, arith, exists,
  ℤ,
}

pub data InboxKind : Type 0 where
  message_new message_edited message_recalled message_deleted : InboxKind
  conversation_upsert conversation_removed read_updated : InboxKind
  -- Any other text in the column.
  unknown_kind : ℕ → InboxKind

pub record UserInbox : Type 0 where
  pub user_id : ℕ
  pub position : ℕ
  pub conv_id : ℕ
  pub message_id : Option ℕ
  pub kind : InboxKind
  pub change_id : ℕ
  pub last_read_seq : ℤ
  pub created_at : ℕ

pub record InboxStream : Type 0 where
  pub user_id : ℕ
  pub position : ℕ
  pub retained_position : ℕ

pub record InboxAppliedChange : Type 0 where
  pub user_id : ℕ
  pub change_id : ℕ
  pub position : Option ℕ
  pub created_at : ℕ

-- The three tables of the inbox.
pub record InboxRepo : Type 0 where
  pub entries : List UserInbox
  pub streams : List InboxStream
  pub applied : List InboxAppliedChange

pub data InboxError : Type 0 where
  invalid_identity invalid_message_identity missing_message invalid_read_sequence : InboxError
  unknown_inbox_kind position_exhausted record_not_found index_out_of_range : InboxError
  invalid_position duplicated_key : InboxError

abbrev pub is_read : InboxKind → Bool
is_read read_updated = true
is_read _ = false

-- The primary keys.
abbrev pub entry_key : UserInbox → ℕ → ℕ → Bool
entry_key e user position = e.user_id == user && e.position == position

abbrev pub stream_key : ℕ → InboxStream → Bool
stream_key user s = s.user_id == user

abbrev pub applied_key : ℕ → ℕ → InboxAppliedChange → Bool
applied_key user change a = a.user_id == user && a.change_id == change

-- The primary key of the entries: no two rows of a user have one position.
abbrev pub UniqueEntries : List UserInbox → Type 0
UniqueEntries [] = Unit
UniqueEntries (x ∷ xs) =
    (exists (λ y. entry_key y x.user_id x.position) xs ≡ false) × UniqueEntries xs

pub exists-entry :
    (xs : List UserInbox) (a : UserInbox) (user position : ℕ)
    → Memᴰ a xs
    → a.user_id ≡ user
    → a.position ≡ position
    → exists (λ y. entry_key y user position) xs ≡ true
exists-entry [] a user position m p q = elim m [ ]
exists-entry (x ∷ xs) a user position (Memᴰ.head e) p q =
    ground (arith, ap (λ (z : UserInbox). z.user_id) e, ap (λ (z : UserInbox). z.position) e)
exists-entry (x ∷ xs) a user position (Memᴰ.tail m) p q =
    ground (arith, exists-entry xs a user position m p q)

pub unique_entry :
    (xs : List UserInbox) (a b : UserInbox)
    → UniqueEntries xs
    → Memᴰ a xs
    → Memᴰ b xs
    → a.user_id ≡ b.user_id
    → a.position ≡ b.position
    → a ≡ b
unique_entry [] a b u m k p q = elim m [ ]
unique_entry (x ∷ xs) a b u (Memᴰ.head e) (Memᴰ.head f) p q = e ∙ sym f
unique_entry (x ∷ xs) a b u (Memᴰ.head e) (Memᴰ.tail k) p q =
    let f : exists (λ y. entry_key y x.user_id x.position) xs ≡ true =
      exists-entry xs b x.user_id x.position k (sym p ∙ ap (λ (z : UserInbox). z.user_id) e)
        (sym q ∙ ap (λ (z : UserInbox). z.position) e) in
    cc (u.0)
unique_entry (x ∷ xs) a b u (Memᴰ.tail m) (Memᴰ.head f) p q =
    let g : exists (λ y. entry_key y x.user_id x.position) xs ≡ true =
      exists-entry xs a x.user_id x.position m (p ∙ ap (λ (z : UserInbox). z.user_id) f)
        (q ∙ ap (λ (z : UserInbox). z.position) f) in
    cc (u.0)
unique_entry (x ∷ xs) a b u (Memᴰ.tail m) (Memᴰ.tail k) p q = unique_entry xs a b u.1 m k p q
