-- ===== src/Messages/Invariant/Keys.antt =====
-- A sender's key names one message at most.
use maim.Common.{
  ℕ, ◌≡◌, Bool, none, some, List, [], ◌∷◌, ◌++◌, refl, sym, ◌∙◌, arith, All, All-append, All-mem,
  All-update, All-delete, inl, inr, Bool-cases, update, delete, find, ==_refl, some_injective,
}
use maim.Messages.Model.{Message}
use maim.Messages.Send.{submitted_as}
use maim.Messages.Steps.{SameKeys}

-- The two rows were not submitted by one sender under one key.
abbrev pub Differ : Message → Message → Type 0
Differ x y =
    (s k : ℕ)
    → x.sender_id ≡ some s
    → x.client_msg_id ≡ some k
    → y.sender_id ≡ some s
    → y.client_msg_id ≡ some k
    → ⊥

abbrev pub UniqueSubmissions : List Message → Type 0
UniqueSubmissions [] = Unit
UniqueSubmissions (x ∷ xs) = All (Differ x) xs × UniqueSubmissions xs

pub UniqueSubmissions-append :
    (ms : List Message) (m : Message) (sender key : ℕ)
    → m.sender_id ≡ some sender
    → m.client_msg_id ≡ some key
    → find (submitted_as sender key) ms ≡ none
    → UniqueSubmissions ms
    → UniqueSubmissions (ms ++ m ∷ [])
UniqueSubmissions-append [] m sender key a b free u = (tt, tt)
UniqueSubmissions-append (x ∷ xs) m sender key a b free u = (
  All-append (Differ x) xs (m ∷ []) u.0 (differ, tt),
  UniqueSubmissions-append xs m sender key a b (ground arith) u.1,
)
  where
    differ : Differ x m
    differ s k p q r t =
        let same : s ≡ sender = some_injective (sym r ∙ a) in
        let same_key : k ≡ key = some_injective (sym t ∙ b) in
        ground (arith, p, q, same, same_key, free, ==_refl sender, ==_refl key)

Differ-same : (x y x' y' : Message) → SameKeys x' x → SameKeys y' y → Differ x y → Differ x' y'
Differ-same x y x' y' p q d s k a b c e =
    d s k (sym p.2 ∙ a) (sym p.3 ∙ b) (sym q.2 ∙ c) (sym q.3 ∙ e)

SameKeys-refl : (x : Message) → SameKeys x x
SameKeys-refl x = (refl, refl, refl, refl)

pub UniqueSubmissions-update :
    (test : Message → Bool) (f : Message → Message) (ms : List Message)
    → ((x : Message) → SameKeys (f x) x)
    → UniqueSubmissions ms
    → UniqueSubmissions (update test f ms)
UniqueSubmissions-update test f [] keep u = tt
UniqueSubmissions-update test f (x ∷ xs) keep u = (
  elim (Bool-cases (test x)) [
    | inl e ↦ rw e (others (f x) (keep x))
    | inr e ↦ rw e (others x (SameKeys-refl x))
  ],
  UniqueSubmissions-update test f xs keep u.1,
)
  where
    others : (x' : Message) → SameKeys x' x → All (Differ x') (update test f xs)
    others x' same =
        All-update (Differ x') test f xs
          (λ y m e. Differ-same x y x' (f y) same (keep y) (All-mem (Differ x) xs y u.0 m))
          (λ y m e. Differ-same x y x' y same (SameKeys-refl y) (All-mem (Differ x) xs y u.0 m))

pub UniqueSubmissions-delete :
    (test : Message → Bool) (ms : List Message)
    → UniqueSubmissions ms
    → UniqueSubmissions (delete test ms)
UniqueSubmissions-delete test [] u = tt
UniqueSubmissions-delete test (x ∷ xs) u = elim (Bool-cases (test x)) [
  | inl e ↦ rw e (UniqueSubmissions-delete test xs u.1)
  | inr e ↦ rw e (
    All-delete (Differ x) test xs (λ y m k. All-mem (Differ x) xs y u.0 m),
    UniqueSubmissions-delete test xs u.1,
  )
]
