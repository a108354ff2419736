-- ===== src/Messages/Steps.antt =====
-- What a handler of messages that succeeds has done to the rows.
use maim.Common.{
  ℕ, ◌+◌, ◌≡◌, false, Option, none, some, [], ◌∷◌, ◌++◌, refl, ok, >>=-eq-ok, ok-injective, err≢ok,
  Result, err, if◌then◌else◌, eq_opt, find, exists, update, delete, guard, is_some, subst, ap,
  or_fail,
}
use maim.Inbox.Model.{InboxKind}
use maim.Conversations.Model.{Channel, Change, ConvError, identity_error}
use maim.Conversations.Channel.{publish_inbox_change, next_publication}
use maim.Conversations.Publishing.{IsChannel, publish_inbox_change-IsChannel}
use maim.Messages.Json.{Json}
use maim.Messages.Model.{
  Message, recalled, is_recalled, Preview, Thread, record_not_found, by_id, internally,
}
use maim.Messages.Permission.{publish_message, shown, latest_of}
use maim.Messages.Send.{submitted_as}
use maim.Messages.Change.{update_content}

abbrev pub seq_of : Option ℕ → ℕ
seq_of none = 0
seq_of (some n) = n

abbrev pub tail_of : Thread → Option ℕ × Preview
tail_of t = (t.last_message_id, t.last_message_preview)

-- The conversation itself, and what it published before.
pub record IsFrame (t t' : Thread) : Type 0 where
  pub conv : t'.room.conv ≡ t.room.conv
  pub members : t'.room.members ≡ t.room.members
  pub published : IsChannel t.room.channel → IsChannel t'.room.channel

-- The numbers of the messages stand still.
abbrev pub SameSeqs : Thread → Thread → Type 0
SameSeqs t t' =
    (t'.room.channel.current_seq ≡ t.room.channel.current_seq)
    × (t'.room.channel.max_seq ≡ t.room.channel.max_seq)

-- A publication changes the channel alone, and no number of it but its own.
pub record IsPublished (t t' : Thread) : Type 0 where
  pub frame : IsFrame t t'
  pub seqs : SameSeqs t t'
  pub messages : t'.messages ≡ t.messages
  pub deletions : t'.deletions ≡ t.deletions
  pub tail : tail_of t' ≡ tail_of t

pub internally-eq-ok :
    {A : Type 0} (x : Result ConvError A) {a : A} → internally x ≡ ok a → x ≡ ok a
internally-eq-ok (ok a) h = ap ok (ok-injective h)
internally-eq-ok (err e) h = absurd (err≢ok h)

publish_inbox_change-seqs :
    (new_id : ℕ → Option ℕ) (change : Change) (ch ch' : Channel)
    → publish_inbox_change new_id change ch ≡ ok ch'
    → (ch'.current_seq ≡ ch.current_seq) × (ch'.max_seq ≡ ch.max_seq)
unfolding publish_inbox_change
publish_inbox_change-seqs new_id change ch ch' h =
    let (next, n, h1) = >>=-eq-ok (next_publication ch) _ h in
    let (id, i, h2) = >>=-eq-ok (or_fail (new_id next) identity_error) _ h1 in
    subst (λ (z : Channel). (z.current_seq ≡ ch.current_seq) × (z.max_seq ≡ ch.max_seq))
      (ok-injective h2) (refl, refl)

pub publish_message-IsPublished :
    (new_id : ℕ → Option ℕ) (kind : InboxKind) (m : Message) (scoped : Option ℕ) (t t' : Thread)
    → publish_message new_id kind m scoped t ≡ ok t'
    → IsPublished t t'
unfolding publish_message
publish_message-IsPublished new_id kind m scoped t t' h =
    let (u, c, h1) = >>=-eq-ok (guard (is_some t.room.conv) record_not_found) _ h in
    let (ch, p, h2) = >>=-eq-ok (internally (publish_inbox_change new_id _ t.room.channel)) _ h1 in
    let e = internally-eq-ok (publish_inbox_change new_id _ t.room.channel) p in
    subst (IsPublished t) (ok-injective h2) (record {
      frame = record {
        conv = refl;
        members = refl;
        published = publish_inbox_change-IsChannel new_id _ t.room.channel ch e;
      };
      seqs = publish_inbox_change-seqs new_id _ t.room.channel ch e;
      messages = refl;
      deletions = refl;
      tail = refl;
    })

-- What the row of a message may become.
pub data Rewrite (m : Message) : Message → Type 0 where
  edits :
      (content : Json)
      → Rewrite m (update_content content (m.edit_history ++ m.content ∷ []) (m.edit_count + 1) m)
  recalls : Rewrite m (record m { status = recalled })

-- What no change of a row touches.
abbrev pub SameKeys : Message → Message → Type 0
SameKeys m' m =
    (m'.id ≡ m.id)
    × (m'.seq ≡ m.seq)
    × (m'.sender_id ≡ m.sender_id)
    × (m'.client_msg_id ≡ m.client_msg_id)

-- A step of the actor on the rows.
pub data Step (cut : ℕ → ℕ) (actor : ℕ) (t t' : Thread) : Type 0 where
  stays : t' ≡ t → Step cut actor t t'
  sends :
      (m : Message) (key : ℕ)
      → IsFrame t t'
      → m.sender_id ≡ some actor
      → m.client_msg_id ≡ some key
      → find (submitted_as actor key) t.messages ≡ none
      → exists (by_id m.id) t.messages ≡ false
      → is_recalled m.status ≡ false
      → m.edit_history ≡ []
      → m.edit_count ≡ 0
      → m.seq ≡ seq_of t.room.channel.current_seq + 1
      → (t'.room.channel.current_seq ≡ some m.seq) × (t'.room.channel.max_seq ≡ m.seq)
      → t'.messages ≡ t.messages ++ m ∷ []
      → t'.deletions ≡ t.deletions
      → tail_of t' ≡ shown cut (some m)
      → Step cut actor t t'
  rewrites :
      (m : Message) (f : Message → Message)
      → IsFrame t t'
      → SameSeqs t t'
      → find (by_id m.id) t.messages ≡ some m
      → m.sender_id ≡ some actor
      → is_recalled m.status ≡ false
      → Rewrite m (f m)
      → ((x : Message) → SameKeys (f x) x)
      → t'.messages ≡ update (by_id m.id) f t.messages
      → t'.deletions ≡ t.deletions
      → tail_of t' ≡ (if eq_opt t.last_message_id m.id then shown cut (some (f m)) else tail_of t)
      → Step cut actor t t'
  removes :
      (m : Message)
      → IsFrame t t'
      → SameSeqs t t'
      → find (by_id m.id) t.messages ≡ some m
      → m.sender_id ≡ some actor
      → t'.messages ≡ delete (by_id m.id) t.messages
      → t'.deletions ≡ t.deletions
      → tail_of t' ≡ (
          if eq_opt t.last_message_id m.id
          then shown cut (latest_of (delete (by_id m.id) t.messages))
          else tail_of t)
      → Step cut actor t t'
  hides :
      (message_id : ℕ)
      → IsFrame t t'
      → SameSeqs t t'
      → t'.messages ≡ t.messages
      → t'.deletions ≡ t.deletions ++ record { user_id = actor; message_id = message_id } ∷ []
      → tail_of t' ≡ tail_of t
      → Step cut actor t t'
