-- ===== src/Messages/Submissions.antt =====
-- What sameSubmission decides of two submissions, and that JSONB does not change it.
use maim.Common.{
  ℕ, suc, ◌*◌, ◌≡◌, ◌↔◌, ◌⊎◌, refl, sym, ◌∙◌, ap, Bool, true, false, Option, none, some, ◌==◌,
  ==_refl, ==_iff, &&_true, inl, inr, Bool-cases, Option-cases, arith,
}
use maim.Messages.Json.{
  Json, null, bool, string, number, array, object, Items, no_items, item, Fields, no_fields, field,
  length_items, length_fields, get_field, bool_eq, Rat, rat_eq, number_eq, equal_submission_json,
  equal_items, equal_fields, same_submission, jsonb, jsonb_items, jsonb_fields,
}

module _ (parse : ℕ → Option Rat) where
  -- Both lexemes are numbers, of one sign and one quotient.
  abbrev pub SameNumber : ℕ → ℕ → Type 0
  SameNumber a b =
      (r : Rat) × (s : Rat) × (parse a ≡ some r)
      × (parse b ≡ some s)
      × (bool_eq r.negative s.negative ≡ true)
      × (r.numerator * s.denominator ≡ s.numerator * r.denominator)

  -- The two are one JSON value: the same kind, numbers of the same value, arrays of the same values one
  -- by one, and objects of the same values under the same keys.
  unfoldable mutual
    pub SameValue : Json → Json → Type 0
    SameValue null null = Unit
    SameValue (bool a) (bool b) = a ≡ b
    SameValue (string a) (string b) = a ≡ b
    SameValue (number a) (number b) = SameNumber a b
    SameValue (array vs) (array ws) = SameItems vs ws
    SameValue (object fs) (object gs) = (length_fields fs ≡ length_fields gs) × SameFields fs gs
    SameValue _ _ = ⊥

    pub SameItems : Items → Items → Type 0
    SameItems no_items no_items = Unit
    SameItems (item v vs) (item w ws) = SameValue v w × SameItems vs ws
    SameItems _ _ = ⊥

    pub SameFields : Fields → Fields → Type 0
    SameFields no_fields gs = Unit
    SameFields (field key v fs) gs =
        ((w : Json) × (get_field key gs ≡ some w) × SameValue v w) × SameFields fs gs

  bool_eq-eq : (a b : Bool) → (bool_eq a b ≡ true) ↔ (a ≡ b)
  bool_eq-eq true true = (λ h. refl, λ h. refl)
  bool_eq-eq false false = (λ h. refl, λ h. refl)
  bool_eq-eq true false = (λ h. cc, λ h. cc)
  bool_eq-eq false true = (λ h. cc, λ h. cc)

  number_eq-SameNumber : (a b : ℕ) → number_eq (parse a) (parse b) ≡ true → SameNumber a b
  number_eq-SameNumber a b h = elim (Option-cases (parse a)) [
    | inl e ↦ let bad = rw e at h in cc
    | inr (r, e) ↦ elim (Option-cases (parse b)) [
      | inl f ↦ let bad = rw (e, f) at h in cc
      | inr (s, f) ↦
          let k : rat_eq r s ≡ true = rw (e, f) at h in
          let (signs, values) = &&_true _ _ k in (r, s, e, f, signs, (==_iff _ _).0 values)
    ]
  ]

  SameNumber-number_eq : (a b : ℕ) → SameNumber a b → number_eq (parse a) (parse b) ≡ true
  SameNumber-number_eq a b (r, s, e, f, signs, values) = rw (e, f, signs) ((==_iff _ _).1 values)

  mutual
    unfolding equal_submission_json SameValue

    equal-SameValue : (a b : Json) → equal_submission_json parse a b ≡ true → SameValue a b
    equal-SameValue null null h = tt
    equal-SameValue (bool a) (bool b) h = (bool_eq-eq a b).0 h
    equal-SameValue (string a) (string b) h = (==_iff a b).0 h
    equal-SameValue (number a) (number b) h = number_eq-SameNumber a b h
    equal-SameValue (array vs) (array ws) h =
        let (lengths, items) = &&_true _ _ h in equal-SameItems vs ws ((==_iff _ _).0 lengths) items
    equal-SameValue (object fs) (object gs) h =
        let (lengths, fields) = &&_true _ _ h in
        ((==_iff _ _).0 lengths, equal-SameFields fs gs fields)
    equal-SameValue null (bool y) h = cc
    equal-SameValue null (string y) h = cc
    equal-SameValue null (number y) h = cc
    equal-SameValue null (array y) h = cc
    equal-SameValue null (object y) h = cc
    equal-SameValue (bool x) null h = cc
    equal-SameValue (bool x) (string y) h = cc
    equal-SameValue (bool x) (number y) h = cc
    equal-SameValue (bool x) (array y) h = cc
    equal-SameValue (bool x) (object y) h = cc
    equal-SameValue (string x) null h = cc
    equal-SameValue (string x) (bool y) h = cc
    equal-SameValue (string x) (number y) h = cc
    equal-SameValue (string x) (array y) h = cc
    equal-SameValue (string x) (object y) h = cc
    equal-SameValue (number x) null h = cc
    equal-SameValue (number x) (bool y) h = cc
    equal-SameValue (number x) (string y) h = cc
    equal-SameValue (number x) (array y) h = cc
    equal-SameValue (number x) (object y) h = cc
    equal-SameValue (array x) null h = cc
    equal-SameValue (array x) (bool y) h = cc
    equal-SameValue (array x) (string y) h = cc
    equal-SameValue (array x) (number y) h = cc
    equal-SameValue (array x) (object y) h = cc
    equal-SameValue (object x) null h = cc
    equal-SameValue (object x) (bool y) h = cc
    equal-SameValue (object x) (string y) h = cc
    equal-SameValue (object x) (number y) h = cc
    equal-SameValue (object x) (array y) h = cc

    equal-SameItems :
        (vs ws : Items)
        → length_items vs ≡ length_items ws
        → equal_items parse vs ws ≡ true
        → SameItems vs ws
    equal-SameItems no_items no_items l h = tt
    equal-SameItems no_items (item w ws) l h = cc
    equal-SameItems (item v vs) no_items l h = cc
    equal-SameItems (item v vs) (item w ws) l h =
        let (first, rest) = &&_true _ _ h in
        (equal-SameValue v w first, equal-SameItems vs ws (cc l) rest)

    equal-SameFields : (fs gs : Fields) → equal_fields parse fs gs ≡ true → SameFields fs gs
    equal-SameFields no_fields gs h = tt
    equal-SameFields (field key v fs) gs h = elim (Option-cases (get_field key gs)) [
      | inl e ↦ let bad = rw (e, equal_fields) at h in cc
      | inr (w, e) ↦
          let (first, rest) = &&_true _ _ (rw (e, equal_fields) at h) in
          ((w, e, equal-SameValue v w first), equal-SameFields fs gs rest)
    ]

  mutual
    unfolding equal_submission_json SameValue

    SameValue-equal : (a b : Json) → SameValue a b → equal_submission_json parse a b ≡ true
    SameValue-equal null null h = refl
    SameValue-equal (bool a) (bool b) h = (bool_eq-eq a b).1 h
    SameValue-equal (string a) (string b) h = (==_iff a b).1 h
    SameValue-equal (number a) (number b) h = SameNumber-number_eq a b h
    SameValue-equal (array vs) (array ws) h =
        let (lengths, items) = SameItems-equal vs ws h in rw ((==_iff _ _).1 lengths, items) refl
    SameValue-equal (object fs) (object gs) h =
        rw ((==_iff _ _).1 h.0, SameFields-equal fs gs h.1) refl
    SameValue-equal null (bool y) h = absurd h
    SameValue-equal null (string y) h = absurd h
    SameValue-equal null (number y) h = absurd h
    SameValue-equal null (array y) h = absurd h
    SameValue-equal null (object y) h = absurd h
    SameValue-equal (bool x) null h = absurd h
    SameValue-equal (bool x) (string y) h = absurd h
    SameValue-equal (bool x) (number y) h = absurd h
    SameValue-equal (bool x) (array y) h = absurd h
    SameValue-equal (bool x) (object y) h = absurd h
    SameValue-equal (string x) null h = absurd h
    SameValue-equal (string x) (bool y) h = absurd h
    SameValue-equal (string x) (number y) h = absurd h
    SameValue-equal (string x) (array y) h = absurd h
    SameValue-equal (string x) (object y) h = absurd h
    SameValue-equal (number x) null h = absurd h
    SameValue-equal (number x) (bool y) h = absurd h
    SameValue-equal (number x) (string y) h = absurd h
    SameValue-equal (number x) (array y) h = absurd h
    SameValue-equal (number x) (object y) h = absurd h
    SameValue-equal (array x) null h = absurd h
    SameValue-equal (array x) (bool y) h = absurd h
    SameValue-equal (array x) (string y) h = absurd h
    SameValue-equal (array x) (number y) h = absurd h
    SameValue-equal (array x) (object y) h = absurd h
    SameValue-equal (object x) null h = absurd h
    SameValue-equal (object x) (bool y) h = absurd h
    SameValue-equal (object x) (string y) h = absurd h
    SameValue-equal (object x) (number y) h = absurd h
    SameValue-equal (object x) (array y) h = absurd h

    SameItems-equal :
        (vs ws : Items)
        → SameItems vs ws
        → (length_items vs ≡ length_items ws) × (equal_items parse vs ws ≡ true)
    SameItems-equal no_items no_items h = (refl, refl)
    SameItems-equal no_items (item w ws) h = absurd h
    SameItems-equal (item v vs) no_items h = absurd h
    SameItems-equal (item v vs) (item w ws) h =
        let (lengths, rest) = SameItems-equal vs ws h.1 in
        (ap suc lengths, rw (SameValue-equal v w h.0, rest) refl)

    SameFields-equal : (fs gs : Fields) → SameFields fs gs → equal_fields parse fs gs ≡ true
    SameFields-equal no_fields gs h = refl
    SameFields-equal (field key v fs) gs ((w, e, same), rest) =
        rw (equal_fields, e, SameValue-equal v w same, SameFields-equal fs gs rest) refl

  -- Two submissions are the same just when they are one JSON value. json.Marshal gives the two, if
  -- they differ, different texts.
  pub same_submission_lem :
      (marshal : Json → ℕ) (a b : Json)
      → (marshal a ≡ marshal b → a ≡ b)
      → (same_submission parse marshal a b ≡ true) ↔ ((a ≡ b) ⊎ SameValue a b)
  unfolding same_submission
  same_submission_lem marshal a b faithful = elim (Bool-cases (marshal a == marshal b)) [
    | inl e ↦ (λ h. inl (faithful ((==_iff _ _).0 e)), λ h. rw e refl)
    | inr e ↦ (
      λ h. inr (equal-SameValue a b (rw e at h)),
      λ h. elim h [
        | inl same ↦ rw (same, ==_refl (marshal b)) refl
        | inr value ↦ rw (e, SameValue-equal a b value) refl
      ],
    )
  ]

  -- The keys of a decoded object differ.
  abbrev pub HasDistinctKeys : Fields → Type 0
  HasDistinctKeys no_fields = Unit
  HasDistinctKeys (field key v fs) = (get_field key fs ≡ none) × HasDistinctKeys fs

  -- A decoded value, of numbers that SetString accepts.
  unfoldable mutual
    pub IsDecoded : Json → Type 0
    IsDecoded null = Unit
    IsDecoded (bool b) = Unit
    IsDecoded (string t) = Unit
    IsDecoded (number n) = (r : Rat) × (parse n ≡ some r)
    IsDecoded (array vs) = AreDecoded vs
    IsDecoded (object fs) = HasDistinctKeys fs × HasDecoded fs

    pub AreDecoded : Items → Type 0
    AreDecoded no_items = Unit
    AreDecoded (item v vs) = IsDecoded v × AreDecoded vs

    pub HasDecoded : Fields → Type 0
    HasDecoded no_fields = Unit
    HasDecoded (field key v fs) = IsDecoded v × HasDecoded fs

  -- A number that JSONB writes anew keeps its value.
  abbrev pub KeepsValues : (ℕ → ℕ) → Type 0
  KeepsValues rewrite = (n : ℕ) (r : Rat) → parse n ≡ some r → SameNumber (rewrite n) n

  -- Every field is found in the whole object.
  abbrev AllFound : Fields → Fields → Type 0
  AllFound no_fields whole = Unit
  AllFound (field key v fs) whole = (get_field key whole ≡ some v) × AllFound fs whole

  AllFound-field :
      (fs whole : Fields) (key : ℕ) (v : Json)
      → get_field key whole ≡ none
      → AllFound fs whole
      → AllFound fs (field key v whole)
  AllFound-field no_fields whole key v n h = tt
  AllFound-field (field k w fs) whole key v n h = elim (Bool-cases (key == k)) [
    | inl e ↦
        let bad = sym n ∙ ap (λ z. get_field z whole) ((==_iff key k).0 e) ∙ h.0 in
        absurd (missing bad)
    | inr e ↦ (rw e (h.0), AllFound-field fs whole key v n h.1)
  ]
    where
      missing : {x : Json} → none ≡ some x → ⊥
      missing b = cc

  AllFound-self : (fs : Fields) → HasDistinctKeys fs → AllFound fs fs
  AllFound-self no_fields d = tt
  AllFound-self (field key v fs) d =
      (rw (==_refl key) refl, AllFound-field fs fs key v d.0 (AllFound-self fs d.1))

  length_fields-jsonb :
      (rewrite : ℕ → ℕ) (fs : Fields) → length_fields (jsonb_fields rewrite fs) ≡ length_fields fs
  unfolding jsonb
  length_fields-jsonb rewrite no_fields = refl
  length_fields-jsonb rewrite (field key v fs) = ap suc (length_fields-jsonb rewrite fs)

  -- What JSONB gives back of a decoded value is that value.
  mutual
    unfolding jsonb SameValue IsDecoded

    pub jsonb-SameValue :
        (rewrite : ℕ → ℕ) (v : Json)
        → KeepsValues rewrite
        → IsDecoded v
        → SameValue (jsonb rewrite v) v
    jsonb-SameValue rewrite null k d = tt
    jsonb-SameValue rewrite (bool b) k d = refl
    jsonb-SameValue rewrite (string t) k d = refl
    jsonb-SameValue rewrite (number n) k d = k n d.0 d.1
    jsonb-SameValue rewrite (array vs) k d = jsonb-SameItems rewrite vs k d
    jsonb-SameValue rewrite (object fs) k d = (
      length_fields-jsonb rewrite fs,
      jsonb-SameFields rewrite fs fs k (AllFound-self fs d.0) d.1,
    )

    jsonb-SameItems :
        (rewrite : ℕ → ℕ) (vs : Items)
        → KeepsValues rewrite
        → AreDecoded vs
        → SameItems (jsonb_items rewrite vs) vs
    jsonb-SameItems rewrite no_items k d = tt
    jsonb-SameItems rewrite (item v vs) k d =
        (jsonb-SameValue rewrite v k d.0, jsonb-SameItems rewrite vs k d.1)

    jsonb-SameFields :
        (rewrite : ℕ → ℕ) (fs whole : Fields)
        → KeepsValues rewrite
        → AllFound fs whole
        → HasDecoded fs
        → SameFields (jsonb_fields rewrite fs) whole
    jsonb-SameFields rewrite no_fields whole k a d = tt
    jsonb-SameFields rewrite (field key v fs) whole k a d =
        ((v, a.0, jsonb-SameValue rewrite v k d.0), jsonb-SameFields rewrite fs whole k a.1 d.1)

  -- So a submission is the same as its stored form.
  pub same_submission-jsonb :
      (marshal : Json → ℕ) (rewrite : ℕ → ℕ) (v : Json)
      → KeepsValues rewrite
      → IsDecoded v
      → same_submission parse marshal (jsonb rewrite v) v ≡ true
  unfolding same_submission
  same_submission-jsonb marshal rewrite v k d =
      let value = SameValue-equal (jsonb rewrite v) v (jsonb-SameValue rewrite v k d) in
      ground (arith, value)
