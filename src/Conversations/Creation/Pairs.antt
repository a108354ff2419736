-- ===== src/Conversations/Creation/Pairs.antt =====
-- Two users have one private conversation at most, however they create it.
use maim.Common.{
  ℕ, ◌≤◌, ◌≡◌, ◌≢◌, ◌⊎◌, refl, sym, ◌∙◌, ap, subst, Bool, true, false, ◌&&◌, ◌||◌, not, Option,
  none, some, List, [], ◌∷◌, ◌++◌, arith, ok, guard, >>=-eq-ok, guard-eq-ok, ok-injective, err≢ok,
  inl, inr, Bool-cases, Option-cases, All, exists, exists-sort_by, select, sort_by, find, length,
  ◌==◌, ==_iff, is_some, eq_opt, &&_true, length-append,
}
use maim.Conversations.Model.{ConvType, Member, invalid_param, by_user}
use maim.Conversations.Members.{seen_in}
use maim.Conversations.Creation.{
  Entry, CreateConversationReq, CreateContext, given, founder, founders, check_type,
  create_conversation, find_private, is_private_of, is_private_type, has_private_type,
}
use maim.Conversations.Creation.Founding.{
  founders-IsCompany, create_conversation-cases, insert_conversation-IsFounded,
}

-- A private conversation is asked for with a peer alone, or with a bot alone.
check_type-private :
    (q : CreateConversationReq) (type : ConvType)
    → check_type q ≡ ok type
    → is_private_type type ≡ true
    → (q.member_ids ≡ []) × ((q.peer_user_id ≡ none) ⊎ (q.bot_id ≡ none))
unfolding check_type
check_type-private q type h p = elim (Bool-cases (q.type == 1)) [
  | inr e ↦ elim (Bool-cases (q.type == 2)) [
    | inr f ↦ absurd (err≢ok (rw (e, f) at h))
    | inl f ↦
        let (u, g, k) =
          >>=-eq-ok (guard (not (is_some q.bot_id) && not (is_some q.peer_user_id)) invalid_param) _
            (rw (e, f) at h) in
        let off = ap is_private_type (ok-injective k) ∙ p in cc
  ]
  | inl e ↦
      let k = rw e at h in
      let (u1, a, k1) =
        >>=-eq-ok (guard (not (is_some q.peer_user_id) || not (is_some q.bot_id)) invalid_param) _
          k in
      let (u2, b, k2) =
        >>=-eq-ok (guard (is_some q.peer_user_id || is_some q.bot_id) invalid_param) _ k1 in
      let (u3, c, k3) =
        >>=-eq-ok (guard (not (eq_opt q.peer_user_id q.creator_id)) invalid_param) _ k2 in
      let (u4, d, k4) = >>=-eq-ok (guard (length q.member_ids == 0) invalid_param) _ k3 in
      (
        empty q.member_ids (guard-eq-ok _ invalid_param d),
        either q.peer_user_id q.bot_id (guard-eq-ok _ invalid_param a),
      )
]
  where
    empty : (us : List ℕ) → (length us == 0) ≡ true → us ≡ []
    empty [] g = refl
    empty (u ∷ us) g = absurd (ground (arith, g))

    either :
        (a b : Option ℕ) → (not (is_some a) || not (is_some b)) ≡ true → (a ≡ none) ⊎ (b ≡ none)
    either none b g = inl refl
    either (some x) none g = inr refl
    either (some x) (some y) g = cc

-- Who is in the rows of a new conversation.
founders-users :
    (w : CreateContext) (q : CreateConversationReq) (ms : List Member) (a : ℕ)
    → founders w.member_id w.now q ≡ ok ms
    → exists (by_user a) ms ≡ true
    → (a ≡ q.creator_id) ⊎ (seen_in (given q.peer_user_id ++ q.member_ids) a ≡ true)
founders-users w q ms a f h =
    let (row, rest, is, company) = founders-IsCompany w.member_id w.now q ms f in
    elim (Bool-cases (q.creator_id == a)) [
      | inl e ↦ inl (sym ((==_iff q.creator_id a).0 e))
      | inr e ↦
          let k : exists (by_user a) (founder w.now row q.creator_id 1 ∷ rest) ≡ true =
            rw is at h in
          inr (among rest company.named (ground (arith, e, k)))
    ]
  where
    among :
        (rest : List Member)
        → All (λ (m : Member). seen_in (given q.peer_user_id ++ q.member_ids) m.user_id ≡ true) rest
        → exists (by_user a) rest ≡ true
        → seen_in (given q.peer_user_id ++ q.member_ids) a ≡ true
    among [] all g = cc
    among (m ∷ ms) all g = elim (Bool-cases (m.user_id == a)) [
      | inl e ↦
          subst (λ z. seen_in (given q.peer_user_id ++ q.member_ids) z ≡ true)
            ((==_iff m.user_id a).0 e) all.0
      | inr e ↦ among ms all.1 (ground (arith, e, g))
    ]

find-none : (test : Entry → Bool) (xs : List Entry) → find test xs ≡ none → exists test xs ≡ false
find-none test [] h = refl
find-none test (x ∷ xs) h = elim (Bool-cases (test x)) [
  | inl e ↦ let bad = rw e at h in cc
  | inr e ↦ rw e (find-none test xs (rw e at h))
]

exists-swap :
    (a b : ℕ) (xs : List Entry) → exists (is_private_of a b) xs ≡ exists (is_private_of b a) xs
exists-swap a b [] = refl
exists-swap a b (x ∷ xs) = ground (arith, exists-swap a b xs)

select-none : (test : Entry → Bool) (xs : List Entry) → exists test xs ≡ false → select test xs ≡ []
select-none test [] h = refl
select-none test (x ∷ xs) h = ground (arith, select-none test xs)

select-append :
    (test : Entry → Bool) (xs ys : List Entry)
    → select test (xs ++ ys) ≡ select test xs ++ select test ys
select-append test [] ys = refl
select-append test (x ∷ xs) ys = ground (arith, select-append test xs ys)

-- Without a private conversation of the two before, whichever way round, there is one at most after.
new_pair :
    (w : CreateContext) (q : CreateConversationReq) (type : ConvType) (ms : List Member)
    (xs : List Entry) (a b : ℕ)
    → a ≢ b
    → check_type q ≡ ok type
    → is_private_type type ≡ true
    → founders w.member_id w.now q ≡ ok ms
    → find_private q xs ≡ none
    → exists (by_user a) ms ≡ true
    → exists (by_user b) ms ≡ true
    → exists (is_private_of a b) xs ≡ false
unfolding find_private
new_pair w q type ms xs a b apart t p f none_found in_a in_b =
    let (alone, kind) = check_type-private q type t p in
    elim (Option-cases q.peer_user_id) [
      | inl e ↦
          let ua = is_creator a (rw (e, alone) at (founders-users w q ms a f in_a)) in
          let ub = is_creator b (rw (e, alone) at (founders-users w q ms b f in_b)) in
          absurd (apart (ua ∙ sym ub))
      | inr (peer, e) ↦
          let ua = is_either a peer (rw (e, alone) at (founders-users w q ms a f in_a)) in
          let ub = is_either b peer (rw (e, alone) at (founders-users w q ms b f in_b)) in
          let free : exists (is_private_of q.creator_id peer) xs ≡ false =
            absent peer e (no_bot peer e kind) in
          elim ua [
            | inl ca ↦ elim ub [ inl cb ↦ absurd (apart (ca ∙ sym cb)) | inr pb ↦ rw (ca, pb) free ]
            | inr pa ↦ elim ub [
              | inl cb ↦ rw (pa, cb) (exists-swap peer q.creator_id xs ∙ free)
              | inr pb ↦ absurd (apart (pa ∙ sym pb))
            ]
          ]
    ]
  where
    is_creator : (u : ℕ) → (u ≡ q.creator_id) ⊎ (false ≡ true) → u ≡ q.creator_id
    is_creator u (inl e) = e
    is_creator u (inr e) = cc

    is_either :
        (u peer : ℕ)
        → (u ≡ q.creator_id) ⊎ ((peer == u || false) ≡ true)
        → (u ≡ q.creator_id) ⊎ (u ≡ peer)
    is_either u peer (inl e) = inl e
    is_either u peer (inr e) = inr (ground (arith, e))

    no_bot :
        (peer : ℕ)
        → q.peer_user_id ≡ some peer
        → (q.peer_user_id ≡ none) ⊎ (q.bot_id ≡ none)
        → q.bot_id ≡ none
    no_bot peer e (inl k) = let bad = sym e ∙ k in cc
    no_bot peer e (inr k) = k

    absent :
        (peer : ℕ)
        → q.peer_user_id ≡ some peer
        → q.bot_id ≡ none
        → exists (is_private_of q.creator_id peer) xs ≡ false
    absent peer e n =
        sym (exists-sort_by (is_private_of q.creator_id peer) (λ (x : Entry). x.id) xs)
        ∙ find-none (is_private_of q.creator_id peer) (sort_by (λ (x : Entry). x.id) xs)
            (rw (n, e, find_private) at none_found)

-- If two users have one private conversation at most, they have one at most after any creation, by
-- either of them or by others, of whatever type, and whatever the handler had seen before it held its
-- lock.
pub create_conversation-one_private :
    (w : CreateContext) (caller : ℕ) (q : CreateConversationReq) (before xs xs' : List Entry)
    (answer a b : ℕ)
    → a ≢ b
    → create_conversation w caller q before xs ≡ ok (answer, xs')
    → length (select (is_private_of a b) xs) ≤ 1
    → length (select (is_private_of a b) xs') ≤ 1
create_conversation-one_private w caller q before xs xs' answer a b apart h one =
    elim (create_conversation-cases w caller q before xs xs' answer h) [
      | inl e ↦ rw e one
      | inr (type, ms, bots, id, t, f, none_found, i) ↦
          let (x, e, named, rows, kind, founded) =
            insert_conversation-IsFounded w q type id ms bots xs xs' answer f i in
          elim (Bool-cases (is_private_of a b x)) [
            | inr off ↦
                rw (e, select-append (is_private_of a b) xs (x ∷ []), off)
                  (omega (arith, one, length-append (select (is_private_of a b) xs) []))
            | inl on ↦
                let (rest, in_b) =
                  &&_true (has_private_type x.room && exists (by_user a) x.room.members)
                    (exists (by_user b) x.room.members) on in
                let (typed, in_a) =
                  &&_true (has_private_type x.room) (exists (by_user a) x.room.members) rest in
                let private = sym kind ∙ typed in
                let free =
                  new_pair w q type ms xs a b apart t private f (rw private at none_found)
                    (rw rows at in_a) (rw rows at in_b) in
                rw
                  (
                    e,
                    select-append (is_private_of a b) xs (x ∷ []),
                    select-none (is_private_of a b) xs free,
                    on,
                  )
                  (omega arith)
          ]
    ]
