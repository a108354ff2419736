-- ===== src/Messages/Json.antt =====
-- equalSubmissionJSON of sendMessageLogic.go, on decoded JSON. A text and a key are the numbers of
-- their texts. `parse` is SetString of big.Rat, which fails on an exponent that is too large: it gives
-- the exact value of a numeric lexeme, that `same_value` compares as Cmp does.
use maim.Common.{
  ℕ, suc, ◌*◌, Bool, true, false, ◌&&◌, ◌||◌, Option, none, some, ◌==◌, if◌then◌else◌,
}

mutual
  pub data Json : Type 0 where
    null : Json
    bool : Bool → Json
    string : ℕ → Json
    -- The lexeme.
    number : ℕ → Json
    array : Items → Json
    object : Fields → Json

  pub data Items : Type 0 where
    no_items : Items
    item : Json → Items → Items

  pub data Fields : Type 0 where
    no_fields : Fields
    field : ℕ → Json → Fields → Fields

abbrev pub length_items : Items → ℕ
length_items no_items = 0
length_items (item v vs) = suc (length_items vs)

abbrev pub length_fields : Fields → ℕ
length_fields no_fields = 0
length_fields (field key v fs) = suc (length_fields fs)

-- `other[key]`.
abbrev pub get_field : ℕ → Fields → Option Json
get_field key no_fields = none
get_field key (field k v fs) = if k == key then some v else get_field key fs

abbrev pub bool_eq : Bool → Bool → Bool
bool_eq true b = b
bool_eq false true = false
bool_eq false false = true

-- A value as the JSONB column gives it back, with lexemes of its own for the numbers.
unfoldable mutual
  pub jsonb : (ℕ → ℕ) → Json → Json
  jsonb rewrite null = null
  jsonb rewrite (bool b) = bool b
  jsonb rewrite (string t) = string t
  jsonb rewrite (number n) = number (rewrite n)
  jsonb rewrite (array vs) = array (jsonb_items rewrite vs)
  jsonb rewrite (object fs) = object (jsonb_fields rewrite fs)

  pub jsonb_items : (ℕ → ℕ) → Items → Items
  jsonb_items rewrite no_items = no_items
  jsonb_items rewrite (item v vs) = item (jsonb rewrite v) (jsonb_items rewrite vs)

  pub jsonb_fields : (ℕ → ℕ) → Fields → Fields
  jsonb_fields rewrite no_fields = no_fields
  jsonb_fields rewrite (field key v fs) = field key (jsonb rewrite v) (jsonb_fields rewrite fs)

-- A big.Rat.
pub record Rat : Type 0 where
  pub negative : Bool
  pub numerator : ℕ
  pub denominator : ℕ

-- Cmp is zero.
abbrev pub rat_eq : Rat → Rat → Bool
rat_eq a b =
    bool_eq a.negative b.negative && a.numerator * b.denominator == b.numerator * a.denominator

abbrev pub number_eq : Option Rat → Option Rat → Bool
number_eq (some a) (some b) = rat_eq a b
number_eq _ _ = false

module _ (parse : ℕ → Option Rat) where
  unfoldable mutual
    pub equal_submission_json : Json → Json → Bool
    equal_submission_json null null = true
    equal_submission_json (bool a) (bool b) = bool_eq a b
    equal_submission_json (string a) (string b) = a == b
    equal_submission_json (number a) (number b) = number_eq (parse a) (parse b)
    equal_submission_json (array vs) (array ws) =
        length_items vs == length_items ws && equal_items vs ws
    equal_submission_json (object fs) (object gs) =
        length_fields fs == length_fields gs && equal_fields fs gs
    equal_submission_json _ _ = false

    -- Item by item; the lengths are equal.
    pub equal_items : Items → Items → Bool
    equal_items (item v vs) (item w ws) = equal_submission_json v w && equal_items vs ws
    equal_items _ _ = true

    -- Each field of the left one against the right one.
    pub equal_fields : Fields → Fields → Bool
    equal_fields no_fields gs = true
    equal_fields (field key v fs) gs = elim (get_field key gs) [
      | none ↦ false
      | some w ↦ equal_submission_json v w && equal_fields fs gs
    ]

  -- `marshal` is json.Marshal, whose texts are numbers as well.
  unfoldable pub same_submission : (Json → ℕ) → Json → Json → Bool
  same_submission marshal a b = marshal a == marshal b || equal_submission_json a b
