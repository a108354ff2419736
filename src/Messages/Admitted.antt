-- ===== src/Messages/Admitted.antt =====
-- Who may send a message.
use maim.Common.{
  ℕ, ◌/◌, ◌^◌, ◌≡◌, ◌≢◌, ◌⊎◌, Bool, true, false, ◌&&◌, ◌||◌, not, Option, some, List, [], ◌∷◌, Memᴰ,
  refl, sym, ◌∙◌, ap, arith, ok, guard, or_fail, >>=-eq-ok, guard-eq-ok, or_fail-eq-ok,
  ok-injective, ◌==◌, ==_iff, All, All-of_mem, inl, inr, Bool-cases, Option-cases, exists, select,
  select-mem, map-mem, sort_by, mem-sort_by, ℤ, pos, ltb_ℤ, leb_ℤ, if◌then◌else◌, subst,
}
use maim.Friends.Model.{UserBlock, block_key}
use maim.Conversations.Model.{Conversation, Member, Room}
use maim.Conversations.Channel.{recipients_of}
use maim.Conversations.Permission.{get_member}
use maim.Messages.Model.{
  Message, Thread, not_member, sender_muted, blocked_by_member, record_not_found, internal,
}
use maim.Messages.Permission.{SendPermission, is_private, others_of, check_send_permission}
use maim.Messages.Send.{
  SendContext, SendMessageReq, is_silenced, is_blocked_by, check_sender, submit_message,
  send_message,
}
use maim.Messages.Effects.Sent.{send_message-eq-ok}

-- Neither has blocked the other.
abbrev pub IsUnblocked : List UserBlock → ℕ → ℕ → Type 0
IsUnblocked blocks a b =
    (exists (block_key a b) blocks ≡ false) × (exists (block_key b a) blocks ≡ false)

-- What the sender needs: the conversation is there and not muted, the sender is a member whose mute, if
-- any, has an end that is past, and a private conversation has no block between the sender and
-- another member.
pub record MaySend (now sender : ℕ) (blocks : List UserBlock) (r : Room) : Type 0 where
  pub conv : Conversation
  pub member : Member
  pub stored : r.conv ≡ some conv
  pub unmuted : conv.is_muted_all ≡ false
  pub present : get_member sender r.members ≡ some member
  pub heard :
      (member.is_muted ≡ false)
      ⊎ ((member.mute_until ≢ pos 0) × (leb_ℤ member.mute_until (pos (now / 10 ^ 9)) ≡ true))
  pub unblocked :
      (is_private conv.type ≡ false)
      ⊎ All (λ (x : Member). (x.user_id ≡ sender) ⊎ IsUnblocked blocks sender x.user_id) r.members

-- Each member is a recipient.
pub recipients_of-mem :
    (ms : List Member) (m : Member) → Memᴰ m ms → Memᴰ m.user_id (recipients_of ms)
recipients_of-mem ms m mem =
    map-mem (λ (x : Member). x.user_id) (sort_by (λ (x : Member). x.user_id) ms) m
      (mem-sort_by (λ (x : Member). x.user_id) m ms mem)

is_blocked_by-false :
    (sender : ℕ) (others : List ℕ) (blocks : List UserBlock) (u : ℕ)
    → is_blocked_by sender others blocks ≡ false
    → Memᴰ u others
    → IsUnblocked blocks sender u
unfolding is_blocked_by
is_blocked_by-false sender [] blocks u h m = elim m [ ]
is_blocked_by-false sender (o ∷ os) blocks u h (Memᴰ.head e) = rw e (ground arith)
is_blocked_by-false sender (o ∷ os) blocks u h (Memᴰ.tail m) =
    is_blocked_by-false sender os blocks u (ground arith) m

others-IsUnblocked :
    (sender : ℕ) (ms : List Member) (blocks : List UserBlock)
    → is_blocked_by sender (others_of sender ms) blocks ≡ false
    → All (λ (x : Member). (x.user_id ≡ sender) ⊎ IsUnblocked blocks sender x.user_id) ms
others-IsUnblocked sender ms blocks h = All-of_mem _ ms (λ x mem.
    elim (Bool-cases (x.user_id == sender)) [
      | inl e ↦ inl ((==_iff x.user_id sender).0 e)
      | inr e ↦ inr (
          is_blocked_by-false sender (others_of sender ms) blocks x.user_id h (
            recipients_of-mem (select (λ (m : Member). not (m.user_id == sender)) ms) x
              (select-mem (λ (m : Member). not (m.user_id == sender)) ms x (rw e refl) mem)))
    ])

-- The parts of a test that fails.
silence-parts :
    (everybody member endless lasting : Bool)
    → not (everybody || (member && (endless || lasting))) ≡ true
    → (everybody ≡ false) × ((member ≡ false) ⊎ ((endless ≡ false) × (lasting ≡ false)))
silence-parts true member endless lasting h = cc
silence-parts false false endless lasting h = (refl, inl refl)
silence-parts false true true lasting h = cc
silence-parts false true false true h = cc
silence-parts false true false false h = (refl, inr (refl, refl))

is_silenced-false :
    (now : ℕ) (p : SendPermission)
    → not (is_silenced now p) ≡ true
    → (p.is_muted_all ≡ false)
      × ((p.is_muted ≡ false)
          ⊎ ((p.mute_until ≢ pos 0) × (leb_ℤ p.mute_until (pos (now / 10 ^ 9)) ≡ true)))
is_silenced-false now p h =
    let (a, b) =
      silence-parts p.is_muted_all p.is_muted
        (not (ltb_ℤ (pos 0) p.mute_until || ltb_ℤ p.mute_until (pos 0)))
        (ltb_ℤ (pos (now / 10 ^ 9)) p.mute_until) h in
    (
      a,
      elim b [
        | inl c ↦ inl c
        | inr (c, d) ↦ inr (λ e. let bad = rw e at c in cc, not-ltb p.mute_until d)
      ],
    )
  where
    not-ltb :
        (until : ℤ)
        → ltb_ℤ (pos (now / 10 ^ 9)) until ≡ false
        → leb_ℤ until (pos (now / 10 ^ 9)) ≡ true
    not-ltb until e = ground arith

-- The permission of a member, and the checks on it.
check_sender-MaySend :
    (valid : ℕ → Bool) (now sender : ℕ) (blocks : List UserBlock) (r : Room) {p : SendPermission}
    {u : Unit {0}}
    → check_send_permission valid sender r ≡ ok p
    → check_sender now sender blocks p ≡ ok u
    → MaySend now sender blocks r
unfolding check_send_permission check_sender
check_sender-MaySend valid now sender blocks r {p} h k =
    let (u1, a1, h1) = >>=-eq-ok (guard (valid sender) internal) _ h in
    let (c, a2, h2) = >>=-eq-ok (or_fail r.conv record_not_found) _ h1 in
    let (u3, b1, k1) = >>=-eq-ok (guard p.is_member not_member) _ k in
    let (u4, b2, k2) = >>=-eq-ok (guard (not (is_silenced now p)) sender_muted) _ k1 in
    let inside = guard-eq-ok p.is_member not_member b1 in
    let (quiet, heard) =
      is_silenced-false now p (guard-eq-ok (not (is_silenced now p)) sender_muted b2) in
    let free = guard-eq-ok _ blocked_by_member k2 in
    elim (Option-cases (get_member sender r.members)) [
      | inl e ↦
          let same = ap (λ (z : SendPermission). z.is_member) (ok-injective (rw e at h2)) in
          absurd (contradict (same ∙ inside))
      | inr (m, e) ↦
          let same = ok-injective (rw e at h2) in
          record {
            conv = c;
            member = m;
            stored = or_fail-eq-ok r.conv record_not_found a2;
            unmuted = ap (λ (z : SendPermission). z.is_muted_all) same ∙ quiet;
            present = e;
            heard =
                subst
                  (λ (z : SendPermission).
                    (z.is_muted ≡ false)
                    ⊎ ((z.mute_until ≢ pos 0) × (leb_ℤ z.mute_until (pos (now / 10 ^ 9)) ≡ true)))
                  (sym same) heard;
            unblocked = outside c (
                subst
                  (λ (z : SendPermission).
                    not (
                      is_private z.conversation_type
                      && is_blocked_by sender z.other_member_ids blocks)
                    ≡ true)
                  (sym same) free);
          }
    ]
  where
    contradict : false ≡ true → ⊥
    contradict e = cc

    outside :
        (c : Conversation)
        → not (
            is_private c.type
            && is_blocked_by sender
                (if is_private c.type then others_of sender r.members else [])
                blocks)
          ≡ true
        → (is_private c.type ≡ false)
          ⊎ All
              (λ (x : Member). (x.user_id ≡ sender) ⊎ IsUnblocked blocks sender x.user_id)
              r.members
    outside c g = elim (Bool-cases (is_private c.type)) [
      | inl e ↦
          let off : not (is_blocked_by sender (others_of sender r.members) blocks) ≡ true =
            rw e at g in
          inr (others-IsUnblocked sender r.members blocks (not-true off))
      | inr e ↦ inl e
    ]
      where
        not-true : {b : Bool} → not b ≡ true → b ≡ false
        not-true {b} h = ground arith

-- A message is accepted only from the caller itself, and only if the caller may send to the
-- conversation, which also holds when the same message is sent again.
pub send_message-MaySend :
    (cut : ℕ → ℕ) (w : SendContext) (caller : Option ℕ) (q : SendMessageReq) (m : Message)
    (t t' : Thread)
    → send_message cut w caller q t ≡ ok (m, t')
    → (caller ≡ some q.from_user_id) × MaySend w.now q.from_user_id w.blocks t.room
unfolding submit_message
send_message-MaySend cut w caller q m t t' h =
    let (who, (body, valid, e)) = send_message-eq-ok cut w caller q t t' m h in
    let (p, a, h1) = >>=-eq-ok (check_send_permission w.valid q.from_user_id t.room) _ e in
    let (u, b, h2) = >>=-eq-ok (check_sender w.now q.from_user_id w.blocks p) _ h1 in
    (who, check_sender-MaySend w.valid w.now q.from_user_id w.blocks t.room a b)
