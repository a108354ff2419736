-- ===== src/Messages/Invariant/Tail.antt =====
-- The newest message of a table in the order of the sequence is its last row.
use maim.Common.{
  ◌<◌, ◌≡◌, Bool, false, Option, none, some, List, [], ◌∷◌, ◌++◌, Memᴰ, refl, sym, ◌∙◌, ap, arith,
  All, All-append, All-mem, All-delete, inl, inr, Bool-cases, Option-cases, some_injective,
  if◌then◌else◌, update, delete, subst,
}
use maim.Messages.Model.{Message}
use maim.Messages.Permission.{latest_of}
use maim.Messages.Steps.{SameKeys}

-- Strictly ascending numbers.
abbrev pub Ascends : List Message → Type 0
Ascends [] = Unit
Ascends (x ∷ xs) = All (λ (y : Message). x.seq < y.seq) xs × Ascends xs

abbrev pub last_of : List Message → Option Message
last_of [] = none
last_of (x ∷ xs) = elim (last_of xs) [ none ↦ some x | some l ↦ some l ]

pub last_of-mem : (ms : List Message) {l : Message} → last_of ms ≡ some l → Memᴰ l ms
last_of-mem [] h = cc
last_of-mem (x ∷ xs) {l} h = elim (Option-cases (last_of xs)) [
  | inl e ↦ Memᴰ.head (sym (some_injective (rw e at h)))
  | inr (y, e) ↦ Memᴰ.tail (last_of-mem xs (e ∙ (rw e at h)))
]

pub last_of-none : (ms : List Message) → last_of ms ≡ none → ms ≡ []
last_of-none [] h = refl
last_of-none (x ∷ xs) h = elim (Option-cases (last_of xs)) [
  | inl e ↦ let bad = rw e at h in cc
  | inr (l, e) ↦ let bad = rw e at h in cc
]

pub latest_of-last : (ms : List Message) → Ascends ms → latest_of ms ≡ last_of ms
unfolding latest_of
latest_of-last [] a = refl
latest_of-last (x ∷ xs) a = elim (Option-cases (last_of xs)) [
  | inl e ↦ rw (latest_of-last xs a.1, e) refl
  | inr (l, e) ↦
      let up : x.seq < l.seq =
        All-mem (λ (y : Message). x.seq < y.seq) xs l a.0 (last_of-mem xs e) in
      rw (latest_of-last xs a.1, e) (ground arith)
]

pub last_of-append : (ms : List Message) (m : Message) → last_of (ms ++ m ∷ []) ≡ some m
last_of-append [] m = refl
last_of-append (x ∷ xs) m = rw (last_of-append xs m) refl

-- An update in place.
pub last_of-update :
    (test : Message → Bool) (f : Message → Message) (ms : List Message) {l : Message}
    → last_of ms ≡ some l
    → last_of (update test f ms) ≡ some (if test l then f l else l)
last_of-update test f [] h = cc
last_of-update test f (x ∷ xs) {l} h = elim (Option-cases (last_of xs)) [
  | inl e ↦ let same : x ≡ l = some_injective (rw e at h) in rw (last_of-none xs e, same) refl
  | inr (y, e) ↦
      let same : y ≡ l = some_injective (rw e at h) in rw (last_of-update test f xs e, same) refl
]

-- A deletion of others.
pub last_of-delete :
    (test : Message → Bool) (ms : List Message) {l : Message}
    → last_of ms ≡ some l
    → test l ≡ false
    → last_of (delete test ms) ≡ some l
last_of-delete test [] h k = cc
last_of-delete test (x ∷ xs) {l} h k = elim (Option-cases (last_of xs)) [
  | inl e ↦ let same : x ≡ l = some_injective (rw e at h) in rw (same, k, last_of-none xs e) refl
  | inr (y, e) ↦
      let same : y ≡ l = some_injective (rw e at h) in
      let rest = last_of-delete test xs e (subst (λ z. test z ≡ false) (sym same) k) in
      elim (Bool-cases (test x)) [
        | inl b ↦ rw b (rest ∙ ap some same)
        | inr b ↦ rw (b, rest, same) refl
      ]
]

pub Ascends-append :
    (ms : List Message) (m : Message)
    → Ascends ms
    → All (λ (x : Message). x.seq < m.seq) ms
    → Ascends (ms ++ m ∷ [])
Ascends-append [] m a h = (tt, tt)
Ascends-append (x ∷ xs) m a h =
    (All-append _ xs (m ∷ []) a.0 (h.0, tt), Ascends-append xs m a.1 h.1)

pub Ascends-update :
    (test : Message → Bool) (f : Message → Message) (ms : List Message)
    → ((x : Message) → SameKeys (f x) x)
    → Ascends ms
    → Ascends (update test f ms)
Ascends-update test f [] keep a = tt
Ascends-update test f (x ∷ xs) keep a = (
  elim (Bool-cases (test x)) [
    | inl e ↦ rw e (rw ((keep x).1) (above x xs a.0))
    | inr e ↦ rw e (above x xs a.0)
  ],
  Ascends-update test f xs keep a.1,
)
  where
    above :
        (x : Message) (ys : List Message)
        → All (λ (y : Message). x.seq < y.seq) ys
        → All (λ (y : Message). x.seq < y.seq) (update test f ys)
    above x [] h = tt
    above x (y ∷ ys) h = (ground (arith, (keep y).1, h.0), above x ys h.1)

pub Ascends-delete :
    (test : Message → Bool) (ms : List Message) → Ascends ms → Ascends (delete test ms)
Ascends-delete test [] a = tt
Ascends-delete test (x ∷ xs) a = elim (Bool-cases (test x)) [
  | inl e ↦ rw e (Ascends-delete test xs a.1)
  | inr e ↦ rw e (
    All-delete (λ (y : Message). x.seq < y.seq) test xs (λ y m k. All-mem _ xs y a.0 m),
    Ascends-delete test xs a.1,
  )
]
