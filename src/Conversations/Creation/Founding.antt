-- ===== src/Conversations/Creation/Founding.antt =====
-- The conversation that a creation leaves is governed from its first moment.
use maim.Common.{
  ℕ, ◌≤◌, ◌≡◌, ◌⊎◌, refl, sym, ap, subst, true, false, ◌||◌, not, Option, none, some, List, [], ◌∷◌,
  ◌++◌, arith, ok, guard, or_fail, >>=-eq-ok, guard-eq-ok, ok-injective, inl, inr, Bool-cases,
  Option-cases, All, All-map, exists, UniqueKeys, length, ◌==◌, ==_refl, leb, ltb, pos,
  if◌then◌else◌,
}
use maim.Conversations.Model.{
  ConvType, type_private, type_group, type_system, Member, Channel, invalid_param, max_members,
  identity_error, member_role, by_user,
}
use maim.Conversations.Channel.{publish_conversation_change, recipients_of}
use maim.Conversations.Permission.{all_valid, get_member, validate_request}
use maim.Conversations.Members.{seen_in}
use maim.Conversations.Removals.{user_of}
use maim.Conversations.Governance.{IsGoverned}
use maim.Conversations.Publishing.{IsChannel, publish_conversation_change-IsChannel}
use maim.Conversations.Creation.{
  Entry, ConvBot, CreateConversationReq, CreateContext, given, founder, add_founders, founders,
  insert_conversation, create_conversation, check_bot, check_type, new_bots, find_private,
  is_private_type, has_private_type,
}

-- What the loop leaves: new users only, each once, all as plain members, and everybody asked for.
pub record IsCompany (role : ℕ) (seen us : List ℕ) (ms : List Member) : Type 0 where
  pub fresh : All (λ (m : Member). seen_in seen m.user_id ≡ false) ms
  pub keyed : UniqueKeys user_of ms
  pub ranked : All (λ (m : Member). m.role ≡ role) ms
  pub complete : All (λ u. (seen_in seen u || exists (by_user u) ms) ≡ true) us
  pub named : All (λ (m : Member). seen_in us m.user_id ≡ true) ms

-- A user that is counted as seen has no row behind.
absent :
    (u : ℕ) (seen : List ℕ) (ms : List Member)
    → All (λ (m : Member). seen_in (u ∷ seen) m.user_id ≡ false) ms
    → exists (λ (m : Member). m.user_id == u) ms ≡ false
absent u seen [] h = refl
absent u seen (m ∷ ms) h = ground (arith, h.0, absent u seen ms h.1)

add_founders-IsCompany :
    (new_id : ℕ → Option ℕ) (now role : ℕ) (seen us : List ℕ) (ms : List Member)
    → add_founders new_id now role seen us ≡ ok ms
    → IsCompany role seen us ms
unfolding add_founders
add_founders-IsCompany new_id now role seen [] ms h =
    subst (IsCompany role seen []) (ok-injective h)
      (record { fresh = tt; keyed = tt; ranked = tt; complete = tt; named = tt })
add_founders-IsCompany new_id now role seen (u ∷ us) ms h = elim (Bool-cases (seen_in seen u)) [
  | inl e ↦
      let rest = add_founders-IsCompany new_id now role seen us ms (rw (e, add_founders) at h) in
      record {
        fresh = rest.fresh;
        keyed = rest.keyed;
        ranked = rest.ranked;
        complete = (rw e refl, rest.complete);
        named = All-map _ _ ms (λ (m : Member) k. ground (arith, k)) rest.named;
      }
  | inr e ↦
      let (id, a, h1) =
        >>=-eq-ok (or_fail (new_id u) identity_error) _ (rw (e, add_founders) at h) in
      let (tail, b, h2) = >>=-eq-ok (add_founders new_id now role (u ∷ seen) us) _ h1 in
      let rest = add_founders-IsCompany new_id now role (u ∷ seen) us tail b in
      subst (IsCompany role seen (u ∷ us)) (ok-injective h2) (record {
        fresh = (e, All-map _ _ tail (λ (m : Member) k. ground (arith, k)) rest.fresh);
        keyed = (absent u seen tail rest.fresh, rest.keyed);
        ranked = (refl, rest.ranked);
        complete =
            (rw (e, ==_refl u) refl, All-map _ _ us (λ v k. ground (arith, k)) rest.complete);
        named = (
          rw (==_refl u) refl,
          All-map _ _ tail (λ (m : Member) k. ground (arith, k)) rest.named,
        );
      })
]

-- The rows of a new conversation: the creator is its owner, and everybody is in it once.
pub record IsFounded (w : CreateContext) (q : CreateConversationReq) (x : Entry) : Type 0 where
  pub governed : IsGoverned x.room
  pub owner : (m : Member) × (get_member q.creator_id x.room.members ≡ some m) × (m.role ≡ 1)
  pub complete :
      All (λ u. exists (by_user u) x.room.members ≡ true) (given q.peer_user_id ++ q.member_ids)
  pub in_limit : (w.max_member_count ≡ 0) ⊎ (length x.room.members ≤ w.max_member_count)
  pub channel : IsChannel x.room.channel

pub founders-IsCompany :
    (new_id : ℕ → Option ℕ) (now : ℕ) (q : CreateConversationReq) (ms : List Member)
    → founders new_id now q ≡ ok ms
    → (id : ℕ) × (rest : List Member) × (ms ≡ founder now id q.creator_id 1 ∷ rest)
      × IsCompany 3 (q.creator_id ∷ []) (given q.peer_user_id ++ q.member_ids) rest
unfolding founders
founders-IsCompany new_id now q ms h =
    let (id, a, h1) = >>=-eq-ok (or_fail (new_id q.creator_id) identity_error) _ h in
    let (rest, b, h2) =
      >>=-eq-ok
        (add_founders new_id now member_role (q.creator_id ∷ [])
          (given q.peer_user_id ++ q.member_ids))
        _ h1 in
    (
      id,
      rest,
      sym (ok-injective h2),
      add_founders-IsCompany new_id now member_role (q.creator_id ∷ []) _ rest b,
    )

pub insert_conversation-IsFounded :
    (w : CreateContext) (q : CreateConversationReq) (type : ConvType) (id : ℕ) (ms : List Member)
    (bots : List ConvBot) (xs xs' : List Entry) (answer : ℕ)
    → founders w.member_id w.now q ≡ ok ms
    → insert_conversation w q type id ms bots xs ≡ ok (answer, xs')
    → (x : Entry) × (xs' ≡ xs ++ x ∷ [])
      × (x.id ≡ answer)
      × (x.room.members ≡ ms)
      × (has_private_type x.room ≡ is_private_type type)
      × IsFounded w q x
unfolding insert_conversation
insert_conversation-IsFounded w q type id ms bots xs xs' answer f h =
    let (u1, a, h1) =
      >>=-eq-ok
        (guard (not (ltb 0 w.max_member_count) || leb (length ms) w.max_member_count) max_members) _
        h in
    let (u2, b, h2) =
      >>=-eq-ok (guard (not (exists (λ (x : Entry). x.id == id) xs)) identity_error) _ h1 in
    let empty : Channel = record {
      current_seq = none;
      max_seq = 0;
      publication_sequence = 0;
      outbox = [];
    } in
    let (ch, c, h3) =
      >>=-eq-ok (publish_conversation_change w.event_id (recipients_of ms) [] empty) _ h2 in
    let same = ok-injective h3 in
    let (row, rest, is, company) = founders-IsCompany w.member_id w.now q ms f in
    let x : Entry = record {
      id = id;
      room = record {
        conv = some (record {
          type = type;
          owner_id = some q.creator_id;
          is_muted_all = false;
          member_count = pos (length ms);
        });
        members = ms;
        channel = ch;
      };
      bots = bots;
    } in
    (
      x,
      sym (ap (λ (z : ℕ × List Entry). z.1) same),
      ap (λ (z : ℕ × List Entry). z.0) same,
      refl,
      private type,
      record {
        governed = record {
          keyed = rw is (absent q.creator_id [] rest company.fresh, company.keyed);
          ranked = rw is (
            (omega arith, omega arith),
            All-map _ _ rest (λ (m : Member) k. (omega (arith, k), omega (arith, k)))
                company.ranked,
          );
          owned = (
            rw is (
              (λ top. refl),
              All-map _ _ rest (λ (m : Member) k top. absurd (omega (arith, k, top)))
                  company.ranked,
            ),
            refl,
          );
        };
        owner = rw is (founder w.now row q.creator_id 1, rw (==_refl q.creator_id) refl, refl);
        complete = rw is (
            All-map _ _ (given q.peer_user_id ++ q.member_ids) (λ u k. ground (arith, k))
              company.complete);
        in_limit = limit (guard-eq-ok _ max_members a);
        channel =
            publish_conversation_change-IsChannel w.event_id (recipients_of ms) [] empty ch c
              (record { ascends = tt; bounded = tt; in_range = omega arith });
      },
    )
  where
    private :
        (type : ConvType) → (elim type [ type_private ↦ true | _ ↦ false ]) ≡ is_private_type type
    private type_private = refl
    private type_group = refl
    private type_system = refl

    limit :
        (not (ltb 0 w.max_member_count) || leb (length ms) w.max_member_count) ≡ true
        → (w.max_member_count ≡ 0) ⊎ (length ms ≤ w.max_member_count)
    limit h = ground arith

-- A creation that has passed its checks finds a private conversation, or inserts a new one, whose type is
-- the one asked for.
pub create_conversation-cases :
    (w : CreateContext) (caller : ℕ) (q : CreateConversationReq) (before xs xs' : List Entry)
    (answer : ℕ)
    → create_conversation w caller q before xs ≡ ok (answer, xs')
    → (xs' ≡ xs)
      ⊎ ((type : ConvType) × (ms : List Member) × (bots : List ConvBot) × (id : ℕ) × (check_type q
            ≡ ok type)
          × (founders w.member_id w.now q ≡ ok ms)
          × ((if is_private_type type then find_private q xs else none) ≡ none)
          × (insert_conversation w q type id ms bots xs ≡ ok (answer, xs')))
unfolding create_conversation
create_conversation-cases w caller q before xs xs' answer h =
    let (u1, a1, h1) = >>=-eq-ok (validate_request w.valid caller q.creator_id q.member_ids) _ h in
    let (u2, a2, h2) =
      >>=-eq-ok (guard (all_valid w.valid (given q.peer_user_id)) invalid_param) _ h1 in
    let (u3, a3, h3) = >>=-eq-ok (guard (all_valid w.valid (given q.bot_id)) invalid_param) _ h2 in
    let (u4, a4, h4) = >>=-eq-ok (check_bot w q.bot_id) _ h3 in
    let (type, a5, h5) = >>=-eq-ok (check_type q) _ h4 in
    elim (Option-cases (if is_private_type type then find_private q before else none)) [
      | inr (x, e) ↦ inl (sym (ap (λ (z : ℕ × List Entry). z.1) (ok-injective (rw e at h5))))
      | inl e ↦
          let (id, a6, h6) = >>=-eq-ok (or_fail w.conv_id identity_error) _ (rw e at h5) in
          let (ms, a7, h7) = >>=-eq-ok (founders w.member_id w.now q) _ h6 in
          let (bots, a8, h8) = >>=-eq-ok (new_bots w q) _ h7 in
          elim (Option-cases (if is_private_type type then find_private q xs else none)) [
            | inr (x, f) ↦ inl (sym (ap (λ (z : ℕ × List Entry). z.1) (ok-injective (rw f at h8))))
            | inl f ↦ inr (type, ms, bots, id, a5, a7, f, rw f at h8)
          ]
    ]

-- A creation leaves the conversations as they are, or adds one under the answered identity: governed, with
-- the creator in the owner's role, with everybody that the request names, in the limit unless there is
-- none, and with its publications in order.
pub create_conversation-IsFounded :
    (w : CreateContext) (caller : ℕ) (q : CreateConversationReq) (before xs xs' : List Entry)
    (answer : ℕ)
    → create_conversation w caller q before xs ≡ ok (answer, xs')
    → (xs' ≡ xs) ⊎ ((x : Entry) × (xs' ≡ xs ++ x ∷ []) × (x.id ≡ answer) × IsFounded w q x)
create_conversation-IsFounded w caller q before xs xs' answer h =
    elim (create_conversation-cases w caller q before xs xs' answer h) [
      | inl e ↦ inl e
      | inr (type, ms, bots, id, t, f, none_found, i) ↦
          let (x, e, named, rows, kind, founded) =
            insert_conversation-IsFounded w q type id ms bots xs xs' answer f i in
          inr (x, e, named, founded)
    ]
