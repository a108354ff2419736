-- ===== src/Conversations/Calls.antt =====
-- Any sequence of calls of the handlers.
use maim.Common.{
  subst, All, ℕ, ◌≡◌, refl, sym, Bool, Option, List, [], ◌∷◌, arith, Result, ok, err, >>=-eq-ok,
  ok-injective, err≢ok, ℤ, inl, inr, Result-cases,
}
use maim.Conversations.Model.{Conversation, Room, ConvError}
use maim.Conversations.Permission.{validate_request, lock_conversation}
use maim.Conversations.Members.{add_members, remove_members, delete_conversation}
use maim.Conversations.Roles.{
  transfer_owner, update_member, mute_member, unmute_member, mute_all, unmute_all,
}
use maim.Conversations.Steps.{Step}
use maim.Conversations.Effects.OfMembers.{
  add_members-Step, remove_members-Step, delete_conversation-Step,
}
use maim.Conversations.Effects.OfRoles.{
  mute_all-Step, unmute_all-Step, mute_member-Step, unmute_member-Step, transfer_owner-Step,
  update_member-Step,
}

pub data Request : Type 0 where
  -- Users, each with the identity of its row.
  adds : List (ℕ × Option ℕ) → Request
  removes : List ℕ → Request
  transfers_to : ℕ → Request
  updates : ℕ → Option ℤ → Option ℕ → Request
  mutes : ℕ → ℤ → Request
  unmutes : ℕ → Request
  mutes_all unmutes_all deletes_all : Request

-- A request with the identity in its context, the operator that it names, and what the handler draws.
pub record Call : Type 0 where
  pub caller : ℕ
  pub operator : ℕ
  pub now : ℕ
  pub new_id : ℕ → Option ℕ
  pub request : Request

abbrev pub room_of : Result ConvError (Room × List ℕ × List ℕ) → Result ConvError Room
room_of (ok out) = ok out.0
room_of (err e) = err e

-- `limit` is MaxMemberCount, and `conv_id` names the conversation.
unfoldable pub handle : (ℕ → Bool) → ℕ → ℕ → Call → Request → Room → Result ConvError Room
handle valid limit conv_id c (adds users) r =
    room_of (add_members valid c.new_id limit c.now c.caller c.operator conv_id users r)
handle valid limit conv_id c (removes users) r =
    remove_members valid c.new_id c.caller c.operator conv_id users r
handle valid limit conv_id c (transfers_to user) r =
    transfer_owner valid c.new_id c.caller c.operator conv_id user r
handle valid limit conv_id c (updates user role alias) r =
    update_member valid c.new_id c.caller c.operator conv_id user role alias r
handle valid limit conv_id c (mutes user duration) r =
    mute_member valid c.new_id c.now c.caller c.operator conv_id user duration r
handle valid limit conv_id c (unmutes user) r =
    unmute_member valid c.new_id c.caller c.operator conv_id user r
handle valid limit conv_id c mutes_all r = mute_all valid c.new_id c.caller c.operator conv_id r
handle valid limit conv_id c unmutes_all r = unmute_all valid c.new_id c.caller c.operator conv_id r
handle valid limit conv_id c deletes_all r =
    delete_conversation valid c.new_id c.caller c.operator conv_id r

-- A call that fails writes nothing.
abbrev pub settled : Result ConvError Room → Room → Room
settled (ok r') r = r'
settled (err e) r = r

unfoldable pub serve : (ℕ → Bool) → ℕ → ℕ → List Call → Room → Room
unfolding handle
serve valid limit conv_id [] r = r
serve valid limit conv_id (c ∷ cs) r =
    serve valid limit conv_id cs (settled (handle valid limit conv_id c c.request r) r)

room_of-eq-ok :
    (x : Result ConvError (Room × List ℕ × List ℕ)) {r : Room}
    → room_of x ≡ ok r
    → (out : Room × List ℕ × List ℕ) × (x ≡ ok out) × (r ≡ out.0)
room_of-eq-ok (ok out) h = (out, refl, sym (ok-injective h))
room_of-eq-ok (err e) h = absurd (err≢ok h)

-- The operator of a call that succeeds is the caller.
pub validate_request-caller :
    (valid : ℕ → Bool) (caller operator : ℕ) (ids : List ℕ) {u : Unit {0}}
    → validate_request valid caller operator ids ≡ ok u
    → operator ≡ caller
unfolding validate_request
validate_request-caller valid caller operator ids h = ground arith

locked-caller :
    (valid : ℕ → Bool) (caller operator : ℕ) (ids : List ℕ) (r : Room) {c : Conversation}
    → lock_conversation valid caller operator ids r ≡ ok c
    → operator ≡ caller
unfolding lock_conversation
locked-caller valid caller operator ids r h =
    validate_request-caller valid caller operator ids
      (>>=-eq-ok (validate_request valid caller operator ids) _ h).1

module _ (valid : ℕ → Bool) (limit conv_id : ℕ) (c : Call) (r r' : Room) where
  handle-caller : (q : Request) → handle valid limit conv_id c q r ≡ ok r' → c.operator ≡ c.caller
  unfolding handle add_members remove_members transfer_owner update_member mute_member unmute_member
      mute_all unmute_all delete_conversation
  handle-caller (adds users) h =
      let (out, e, same) = room_of-eq-ok _ h in
      validate_request-caller valid c.caller c.operator _
        (>>=-eq-ok (validate_request valid c.caller c.operator (conv_id ∷ [])) _ e).1
  handle-caller (removes users) h =
      validate_request-caller valid c.caller c.operator _
        (>>=-eq-ok (validate_request valid c.caller c.operator (conv_id ∷ [])) _ h).1
  handle-caller (transfers_to user) h =
      locked-caller valid c.caller c.operator _ r
        (>>=-eq-ok (lock_conversation valid c.caller c.operator (conv_id ∷ user ∷ []) r) _ h).1
  handle-caller (updates user role alias) h =
      locked-caller valid c.caller c.operator _ r
        (>>=-eq-ok (lock_conversation valid c.caller c.operator (conv_id ∷ user ∷ []) r) _ h).1
  handle-caller (mutes user duration) h =
      locked-caller valid c.caller c.operator _ r
        (>>=-eq-ok (lock_conversation valid c.caller c.operator (conv_id ∷ user ∷ []) r) _ h).1
  handle-caller (unmutes user) h =
      locked-caller valid c.caller c.operator _ r
        (>>=-eq-ok (lock_conversation valid c.caller c.operator (conv_id ∷ user ∷ []) r) _ h).1
  handle-caller mutes_all h =
      locked-caller valid c.caller c.operator _ r
        (>>=-eq-ok (lock_conversation valid c.caller c.operator (conv_id ∷ []) r) _ h).1
  handle-caller unmutes_all h =
      locked-caller valid c.caller c.operator _ r
        (>>=-eq-ok (lock_conversation valid c.caller c.operator (conv_id ∷ []) r) _ h).1
  handle-caller deletes_all h =
      locked-caller valid c.caller c.operator _ r
        (>>=-eq-ok (lock_conversation valid c.caller c.operator (conv_id ∷ []) r) _ h).1

  handle-Step : (q : Request) → handle valid limit conv_id c q r ≡ ok r' → Step c.operator r r'
  unfolding handle
  handle-Step (adds users) h =
      let (out, e, same) = room_of-eq-ok _ h in
      rw same
        (add_members-Step valid c.new_id c.caller c.operator conv_id r r' limit c.now users out e)
  handle-Step (removes users) h =
      remove_members-Step valid c.new_id c.caller c.operator conv_id r r' users h
  handle-Step (transfers_to user) h =
      transfer_owner-Step valid c.new_id c.caller c.operator conv_id r r' user h
  handle-Step (updates user role alias) h =
      update_member-Step valid c.new_id c.caller c.operator conv_id r r' user role alias h
  handle-Step (mutes user duration) h =
      mute_member-Step valid c.new_id c.caller c.operator conv_id r r' c.now user duration h
  handle-Step (unmutes user) h =
      unmute_member-Step valid c.new_id c.caller c.operator conv_id r r' user h
  handle-Step mutes_all h = mute_all-Step valid c.new_id c.caller c.operator conv_id r r' h
  handle-Step unmutes_all h = unmute_all-Step valid c.new_id c.caller c.operator conv_id r r' h
  handle-Step deletes_all h =
      delete_conversation-Step valid c.new_id c.caller c.operator conv_id r r' h

-- What every step keeps, any sequence of calls keeps. `Allowed` says whose calls they are.
module _ (valid : ℕ → Bool) (limit conv_id : ℕ) (Allowed : Call → Type 0)
    (Keeps : Room → Type 0) where
  abbrev pub KeptBySteps : Type 0
  KeptBySteps = (c : Call) (r r' : Room) → Allowed c → Step c.caller r r' → Keeps r → Keeps r'

  pub serve_kept :
      KeptBySteps
      → (cs : List Call) (r : Room) → All Allowed cs
      → Keeps r
      → Keeps (serve valid limit conv_id cs r)
  unfolding serve
  serve_kept keep [] r a k = k
  serve_kept keep (c ∷ cs) r a k = elim (Result-cases (handle valid limit conv_id c c.request r)) [
    | inl (r', e) ↦ rw e (
        serve_kept keep cs r' a.1 (
          keep c r r' a.0
            (subst (λ a. Step a r r') (handle-caller valid limit conv_id c r r' c.request e)
              (handle-Step valid limit conv_id c r r' c.request e))
            k))
    | inr (x, e) ↦ rw e (serve_kept keep cs r a.1 k)
  ]

-- The same for the calls of anybody.
pub serve_kept_by_all :
    (valid : ℕ → Bool) (limit conv_id : ℕ) (Keeps : Room → Type 0)
    → ((actor : ℕ) (r r' : Room) → Step actor r r' → Keeps r → Keeps r')
    → (cs : List Call) (r : Room) → Keeps r
    → Keeps (serve valid limit conv_id cs r)
serve_kept_by_all valid limit conv_id Keeps keep cs r k =
    serve_kept valid limit conv_id (λ c. Unit {0}) Keeps (λ c a b u s. keep c.caller a b s) cs r
      (everybody cs) k
  where
    everybody : (cs : List Call) → All (λ c. Unit {0}) cs
    everybody [] = tt
    everybody (c ∷ cs) = (tt, everybody cs)
