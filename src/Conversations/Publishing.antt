-- ===== src/Conversations/Publishing.antt =====
-- What a conversation publishes is numbered in its order.
use maim.Common.{
  ℕ, suc, ◌≤◌, ◌<◌, ◌≡◌, subst, Bool, true, false, Option, some, List, [], ◌∷◌, ◌++◌, arith, ok,
  >>=-eq-ok, or_fail, All, All-append, All-map, if◌then◌else◌, delete,
}
use maim.Sequence.{max_sequence, next_pos}
use maim.Conversations.Model.{
  Change, upserted, removed, Channel, Event, Member, identity_error, by_user, member_left,
  member_joined,
}
use maim.Conversations.Channel.{
  next_seq, next_publication, publish_inbox_change, publish_bot_activity,
  publish_conversation_change, is_nil,
}
use maim.Conversations.Members.{publish_joined, remove_each}

-- Strictly ascending publication sequences.
abbrev pub Ascends : List Event → Type 0
Ascends [] = Unit
Ascends (x ∷ xs) = All (λ y. x.publication_sequence < y.publication_sequence) xs × Ascends xs

pub record IsChannel (ch : Channel) : Type 0 where
  pub ascends : Ascends ch.outbox
  pub bounded : All (λ e. e.publication_sequence ≤ ch.publication_sequence) ch.outbox
  pub in_range : ch.publication_sequence ≤ max_sequence

Ascends-append :
    (xs : List Event) (e : Event)
    → Ascends xs
    → All (λ x. x.publication_sequence < e.publication_sequence) xs
    → Ascends (xs ++ e ∷ [])
Ascends-append [] e a h = (tt, tt)
Ascends-append (x ∷ xs) e a h =
    (All-append _ xs (e ∷ []) a.0 (h.0, tt), Ascends-append xs e a.1 h.1)

next_publication_lem :
    (ch : Channel) (next : ℕ)
    → next_publication ch ≡ ok next
    → (next ≡ suc ch.publication_sequence) × (next ≤ max_sequence)
next_publication_lem ch next h = ground (arith, next_pos ch.publication_sequence)

-- One more event at the next sequence.
appended-IsChannel :
    (ch : Channel) (current : Option ℕ) (seq : ℕ) (e : Event)
    → next_publication ch ≡ ok e.publication_sequence
    → IsChannel ch
    → IsChannel (record {
      current_seq = current;
      max_seq = seq;
      publication_sequence = e.publication_sequence;
      outbox = ch.outbox ++ e ∷ [];
    })
appended-IsChannel ch current seq e h v =
    let (up, le) = next_publication_lem ch e.publication_sequence h in
    record {
      ascends =
          Ascends-append ch.outbox e v.ascends
            (All-map _ _ ch.outbox (λ x b. omega (arith, b)) v.bounded);
      bounded =
          All-append _ ch.outbox (e ∷ [])
            (All-map _ _ ch.outbox (λ x b. omega (arith, b)) v.bounded) (omega arith, tt);
      in_range = le;
    }

pub publish_inbox_change-IsChannel :
    (new_id : ℕ → Option ℕ) (change : Change) (ch ch' : Channel)
    → publish_inbox_change new_id change ch ≡ ok ch'
    → IsChannel ch
    → IsChannel ch'
unfolding publish_inbox_change
publish_inbox_change-IsChannel new_id change ch ch' h v =
    let (next, n, h1) = >>=-eq-ok (next_publication ch) _ h in
    let (id, i, h2) = >>=-eq-ok (or_fail (new_id next) identity_error) _ h1 in
    subst IsChannel (ground (arith, h2)) (
      appended-IsChannel ch ch.current_seq ch.max_seq
        (record { id = id; publication_sequence = next; change = change }) n v)

publish_bot_activity-IsChannel :
    (new_id : ℕ → Option ℕ) (activity : ℕ → Change) (ch ch' : Channel)
    → publish_bot_activity new_id activity ch ≡ ok ch'
    → IsChannel ch
    → IsChannel ch'
unfolding publish_bot_activity
publish_bot_activity-IsChannel new_id activity ch ch' h v =
    let (seq, s, h0) = >>=-eq-ok (next_seq ch.current_seq) _ h in
    let (next, n, h1) = >>=-eq-ok (next_publication ch) _ h0 in
    let (id, i, h2) = >>=-eq-ok (or_fail (new_id next) identity_error) _ h1 in
    subst IsChannel (ground (arith, h2)) (
      appended-IsChannel ch (some seq) seq
        (record { id = id; publication_sequence = next; change = activity seq }) n v)

pub publish_conversation_change-IsChannel :
    (new_id : ℕ → Option ℕ) (recipients gone : List ℕ) (ch ch' : Channel)
    → publish_conversation_change new_id recipients gone ch ≡ ok ch'
    → IsChannel ch
    → IsChannel ch'
unfolding publish_conversation_change
publish_conversation_change-IsChannel new_id recipients gone ch ch' h v =
    let (ch1, first, second) =
      >>=-eq-ok
        (if is_nil recipients then ok ch else publish_inbox_change new_id (upserted recipients) ch)
        _ h in
    let v1 : IsChannel ch1 = either (is_nil recipients) (upserted recipients) ch ch1 first v in
    either (is_nil gone) (removed gone) ch1 ch' second v1
  where
    either :
        (b : Bool) (change : Change) (from to : Channel)
        → (if b then ok from else publish_inbox_change new_id change from) ≡ ok to
        → IsChannel from
        → IsChannel to
    either true change from to e k = subst IsChannel (ground arith) k
    either false change from to e k = publish_inbox_change-IsChannel new_id change from to e k

pub publish_joined-IsChannel :
    (new_id : ℕ → Option ℕ) (ms : List Member) (ch ch' : Channel)
    → publish_joined new_id ms ch ≡ ok ch'
    → IsChannel ch
    → IsChannel ch'
unfolding publish_joined
publish_joined-IsChannel new_id [] ch ch' h v = subst IsChannel (ground arith) v
publish_joined-IsChannel new_id (m ∷ ms) ch ch' h v =
    let (ch1, a, b) = >>=-eq-ok (publish_bot_activity new_id (member_joined m.user_id) ch) _ h in
    publish_joined-IsChannel new_id ms ch1 ch' b
      (publish_bot_activity-IsChannel new_id _ ch ch1 a v)

pub remove_each-IsChannel :
    (new_id : ℕ → Option ℕ) (ts ms ms' : List Member) (ch ch' : Channel)
    → remove_each new_id ts ms ch ≡ ok (ms', ch')
    → IsChannel ch
    → IsChannel ch'
unfolding remove_each
remove_each-IsChannel new_id [] ms ms' ch ch' h v = subst IsChannel (ground arith) v
remove_each-IsChannel new_id (t ∷ ts) ms ms' ch ch' h v =
    let (ch1, a, b) = >>=-eq-ok (publish_bot_activity new_id (member_left t.user_id) ch) _ h in
    remove_each-IsChannel new_id ts (delete (by_user t.user_id) ms) ms' ch1 ch' b
      (publish_bot_activity-IsChannel new_id _ ch ch1 a v)
