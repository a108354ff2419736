-- ===== src/Conversations/Reads/Forward.antt =====
-- Read positions move forward only, and the inbox learns of each move.
use maim.Common.{
  ==_iff, ℕ, ◌≤◌, ◌<◌, ◌≡◌, refl, sym, ap, ◌∙◌, subst, ◌⊎◌, inl, inr, min, max, Bool, true, false,
  Option, none, some, List, [], ◌∷◌, ◌++◌, arith, ok, >>=-eq-ok, ok-injective, ◌==◌, ==_refl, ltb,
  Bool-cases, Option-cases, find, find-update_hit, find-update_miss, guard, or_fail, exists,
  is_some, if◌then◌else◌, ℤ, pos_part,
}
use maim.Conversations.Model.{
  Room, Event, Change, Channel, read_updated, not_a_member, identity_error, by_user,
}
use maim.Conversations.Channel.{publish_inbox_change, next_publication}
use maim.Conversations.Permission.{validate_request}
use maim.Conversations.Calls.{validate_request-caller}
use maim.Conversations.Reads.{
  ReadSeq, reads_of, store_read_seq, upsert_read_seq, is_valid_sequence, mark_as_read,
}

abbrev position : Option ReadSeq → ℕ
position none = 0
position (some s) = s.last_read_seq

-- COALESCE(last_read_seq, 0) of a user.
abbrev pub read_position : ℕ → List ReadSeq → ℕ
read_position user reads = position (find (reads_of user) reads)

find_new :
    (user : ℕ) (reads : List ReadSeq) (s : ReadSeq)
    → find (reads_of user) reads ≡ none
    → find (reads_of user) (reads ++ s ∷ []) ≡ find (reads_of user) (s ∷ [])
find_new user [] s h = refl
find_new user (x ∷ xs) s h = ground (arith, find_new user xs s)

find_other :
    (user : ℕ) (reads : List ReadSeq) (s : ReadSeq)
    → (s.user_id == user) ≡ false
    → find (reads_of user) (reads ++ s ∷ []) ≡ find (reads_of user) reads
find_other user [] s h = ground arith
find_other user (x ∷ xs) s h = ground (arith, find_other user xs s)

-- What a stored position makes of the positions.
record IsForward (user seq : ℕ) (reads reads' : List ReadSeq) (last : ℕ) (advanced : Bool)
    : Type 0 where
  moved : read_position user reads' ≡ max (read_position user reads) seq
  stored : read_position user reads' ≡ last
  told : advanced ≡ ltb (read_position user reads) (read_position user reads')
  others :
      (other : ℕ) → (user == other) ≡ false → read_position other reads' ≡ read_position other reads

store_read_seq-IsForward :
    (id user seq : ℕ) (reads : List ReadSeq)
    → let (reads', last, advanced) = store_read_seq id user seq reads in
      IsForward user seq reads reads' last advanced
unfolding store_read_seq
store_read_seq-IsForward id user seq reads = elim (Option-cases (find (reads_of user) reads)) [
  | inl e ↦
      let row : ReadSeq = record { id = id; user_id = user; last_read_seq = seq } in
      let found : find (reads_of user) (reads ++ row ∷ []) ≡ some row =
        find_new user reads row e ∙ ground (arith, ==_refl user) in
      let now = ap position found in
      let before = ap position e in
      rw (e, store_read_seq)
        (record {
          moved = ground (arith, now, before);
          stored = now;
          told = ground (arith, now, before);
          others = λ other ne. ap position (find_other other reads row ne);
        })
  | inr (old, e) ↦ elim (Bool-cases (ltb old.last_read_seq seq)) [
    | inl l ↦
        let f : ReadSeq → ReadSeq = λ s. record s { last_read_seq = seq } in
        let found = find-update_hit (reads_of user) f reads old e (λ b. refl) in
        let now = ap position found in
        let before = ap position e in
        rw (e, store_read_seq)
          (rw l (record {
            moved = ground (arith, now, before);
            stored = now;
            told = ground (arith, now, before);
            others = λ other ne. ap position (
                find-update_miss (reads_of other) (reads_of user) f reads (λ a t. ground arith)
                  (λ a. refl));
          }))
    | inr l ↦
        let before = ap position e in
        rw (e, store_read_seq)
          (rw l (record {
            moved = ground (arith, before);
            stored = before;
            told = ground (arith, before);
            others = λ other ne. refl;
          }))
  ]
]

publish_inbox_change-outbox :
    (new_id : ℕ → Option ℕ) (change : Change) (ch ch' : Channel)
    → publish_inbox_change new_id change ch ≡ ok ch'
    → (e : Event) × (ch'.outbox ≡ ch.outbox ++ e ∷ []) × (e.change ≡ change)
unfolding publish_inbox_change
publish_inbox_change-outbox new_id change ch ch' h =
    let (next, n, h1) = >>=-eq-ok (next_publication ch) _ h in
    let (id, i, h2) = >>=-eq-ok (or_fail (new_id next) identity_error) _ h1 in
    (
      record { id = id; publication_sequence = next; change = change },
      ap (λ (z : Channel). z.outbox) (sym (ok-injective h2)),
      refl,
    )

-- What the inbox is told of a move from one position to another.
abbrev pub IsTold : ℕ → ℕ → ℕ → Room → Room → Type 0
IsTold user old new r r' =
    ((new ≡ old) × (r' ≡ r))
    ⊎ ((old < new)
        × ((e : Event) × (r'.channel.outbox ≡ r.channel.outbox ++ e ∷ [])
            × (e.change ≡ read_updated user new)))

told_lem :
    (event_id : ℕ → Option ℕ) (user old new last : ℕ) (advanced : Bool) (r : Room) (ch : Channel)
    → (if advanced
        then publish_inbox_change event_id (read_updated user last) r.channel
        else ok r.channel)
      ≡ ok ch
    → advanced ≡ ltb old new
    → old ≤ new
    → new ≡ last
    → IsTold user old new r (record r { channel = ch })
told_lem event_id user old new last true r ch h a le l =
    let (e, o, c) = publish_inbox_change-outbox event_id (read_updated user last) r.channel ch h in
    inr (ground (arith, a), (e, o, c ∙ ap (read_updated user) (sym l)))
told_lem event_id user old new last false r ch h a le l =
    inl (ground (arith, a), ap (λ z. record r { channel = z }) (sym (ok-injective h)))

abbrev pub IsMarked : ℕ → ℤ → Room → List ReadSeq → Room × List ReadSeq → Type 0
IsMarked user seq r reads (r', reads') =
    ((other : ℕ)
      → read_position other reads' ≡ (
          if user == other
          then max (read_position user reads) (min (pos_part seq) r.channel.max_seq)
          else read_position other reads))
    × IsTold user (read_position user reads) (read_position user reads') r r'

-- After a MarkAsRead that succeeds, the caller's read position is the larger of the old one and of the
-- requested one, cut to the last sequence of the conversation. No other position changes. The
-- conversation is as it was if the position has not moved; if it has, the outbox has one more event,
-- which tells the new position.
pub mark_as_read_forward :
    (valid : ℕ → Bool) (new_id : Option ℕ) (event_id : ℕ → Option ℕ) (caller user conv_id : ℕ)
    (seq : ℤ) (r r' : Room) (reads reads' : List ReadSeq)
    → mark_as_read valid new_id event_id caller user conv_id seq r reads ≡ ok (r', reads')
    → IsMarked user seq r reads (r', reads')
unfolding mark_as_read upsert_read_seq
mark_as_read_forward valid new_id event_id caller user conv_id seq r r' reads reads' h =
    let (u0, q0, h0) = >>=-eq-ok (validate_request valid caller user (conv_id ∷ [])) _ h in
    let (u1, q1, h1) = >>=-eq-ok (is_valid_sequence seq) _ h0 in
    let (id, i, h2) = >>=-eq-ok (or_fail new_id identity_error) _ h1 in
    let ((stored', last, advanced), s, h3) =
      >>=-eq-ok (upsert_read_seq id caller seq r reads) _ h2 in
    let (u4, q4, s1) = >>=-eq-ok (guard (is_some r.conv) not_a_member) _ s in
    let (u5, q5, s2) = >>=-eq-ok (guard (exists (by_user caller) r.members) not_a_member) _ s1 in
    let (ch, p, h4) =
      >>=-eq-ok
        (if advanced
          then publish_inbox_change event_id (read_updated caller last) r.channel
          else ok r.channel)
        _ h3 in
    let at : ℕ = min (max (pos_part seq) 0) r.channel.max_seq in
    let forward : IsForward caller at reads stored' last advanced =
      subst (λ (z : List ReadSeq × ℕ × Bool). IsForward caller at reads z.0 z.1 z.2)
        (ok-injective s2) (store_read_seq-IsForward id caller at reads) in
    let same_user = validate_request-caller valid caller user _ q0 in
    subst (λ u. IsMarked u seq r reads (r', reads')) (sym same_user)
      (subst (IsMarked caller seq r reads) (ok-injective h4) (
        λ other. elim (Bool-cases (caller == other)) [
          | inl e ↦ rw e (
              ap (λ u. read_position u stored') (sym ((==_iff caller other).0 e))
              ∙ forward.moved
              ∙ ap (max (read_position caller reads)) (omega arith))
          | inr e ↦ rw e (forward.others other e)
        ],
        told_lem event_id caller _ _ last advanced r ch p forward.told
            (ground (arith, forward.moved)) forward.stored,
      ))
