-- ===== src/Conversations/Admissions.antt =====
-- The candidates that AddMembers admits.
use maim.Common.{
  ℕ, ◌≡◌, refl, ap, subst, inl, inr, false, List, [], ◌∷◌, ◌++◌, arith, ◌==◌, Bool-cases, All,
  UniqueKeys, UniqueKeys-append, exists, exists-append,
}
use maim.Conversations.Model.{Member}
use maim.Conversations.Members.{admitted, users_of, seen_in}
use maim.Conversations.Removals.{user_of}

pub All-admitted :
    (P : Member → Type 0) (seen : List ℕ) (ms : List Member) → All P ms → All P (admitted seen ms)
unfolding admitted
All-admitted P seen [] h = tt
All-admitted P seen (m ∷ ms) h = elim (Bool-cases (seen_in seen m.user_id)) [
  | inl e ↦ rw (e, admitted) (All-admitted P seen ms h.1)
  | inr e ↦ rw (e, admitted) (h.0, All-admitted P (m.user_id ∷ seen) ms h.1)
]

append_cons : (xs ys : List Member) (a : Member) → (xs ++ a ∷ []) ++ ys ≡ xs ++ a ∷ ys
append_cons [] ys a = refl
append_cons (x ∷ xs) ys a = ap (◌∷◌ x) (append_cons xs ys a)

-- What was seen covers the rows that are there.
abbrev pub Covers : List ℕ → List Member → Type 0
Covers seen ms = (u : ℕ) → seen_in seen u ≡ false → exists (λ a. user_of a == u) ms ≡ false

pub admitted-UniqueKeys :
    (seen : List ℕ) (ms candidates : List Member)
    → Covers seen ms
    → UniqueKeys user_of ms
    → UniqueKeys user_of (ms ++ admitted seen candidates)
unfolding admitted
admitted-UniqueKeys seen ms [] c u = subst (UniqueKeys user_of) (append_nil ms) u
  where
    append_nil : (xs : List Member) → xs ≡ xs ++ []
    append_nil [] = refl
    append_nil (x ∷ xs) = ap (◌∷◌ x) (append_nil xs)
admitted-UniqueKeys seen ms (m ∷ rest) c u = elim (Bool-cases (seen_in seen m.user_id)) [
  | inl e ↦ rw (e, admitted) (admitted-UniqueKeys seen ms rest c u)
  | inr e ↦
      rw (e, admitted)
        (subst (UniqueKeys user_of) (append_cons ms (admitted (m.user_id ∷ seen) rest) m) (
          admitted-UniqueKeys (m.user_id ∷ seen) (ms ++ m ∷ []) rest
            (λ v n. ground (arith, c v, exists-append (λ a. user_of a == v) ms (m ∷ [])))
            (UniqueKeys-append user_of ms m (c m.user_id e) u)))
]

pub users_of-Covers : (ms : List Member) → Covers (users_of ms) ms
users_of-Covers [] u h = refl
users_of-Covers (m ∷ ms) u h = ground (arith, users_of-Covers ms u)
