-- ===== src/Values.antt =====
-- What `JSON.parse` gives where numbers matter: worker/src/downloads.ts, src/lib/downloads.ts and
-- src/lib/host-metrics.ts look at such values. A text is its code points; an object has each key once.
use voidstation_app.Prelude.{
  Bool, List, Option, String, [], all, arith, false, if◌then◌else◌, is_some, leb, length, none, not,
  refl, some, ℕ, ◌%◌, ◌&&◌, ◌/◌, ◌==◌, ◌=s◌, ◌^◌, ◌||◌, ◌∷◌, ◌≡◌, ◌≤◌,
}

-- A finite double is ±digits / 10 ^ scale; a numeral too large for one is read as infinite.
pub data Number : Type 0 where
  finite : Bool → ℕ → ℕ → Number
  infinite : Bool → Number

mutual
  pub data Value : Type 0 where
    null : Value
    boolean : Bool → Value
    number : Number → Value
    text : List ℕ → Value
    array : Values → Value
    object : Members → Value

  pub data Values : Type 0 where
    no_value : Values
    value_then : Value → Values → Values

  pub data Members : Type 0 where
    no_member : Members
    member : String → Value → Members → Members

abbrev pub values_list : Values → List Value
values_list no_value = []
values_list (value_then v vs) = v ∷ values_list vs

abbrev pub values_of : List Value → Values
values_of [] = no_value
values_of (v ∷ vs) = value_then v (values_of vs)

-- `value.key`: none is undefined.
abbrev pub member_of : String → Members → Option Value
member_of key no_member = none
member_of key (member k v members) = if k =s key then some v else member_of key members

-- `Object.keys(value)`
abbrev pub keys_of : Members → List String
keys_of no_member = []
keys_of (member k v members) = k ∷ keys_of members

abbrev pub has_member : Members → String → Bool
has_member members key = is_some (member_of key members)

-- `hasExactly`, and `hasExactKeys`
abbrev pub has_exactly : Members → List String → Bool
has_exactly members keys = length (keys_of members) == length keys && all (has_member members) keys

-- `isRecord`, and `isPlainObject`: the members, if it is an object.
abbrev pub as_object : Value → Option Members
as_object (object members) = some members
as_object _ = none

abbrev pub object_or_none : Option Value → Option Members
object_or_none none = none
object_or_none (some v) = as_object v

abbrev pub as_array : Option Value → Option (List Value)
as_array (some (array vs)) = some (values_list vs)
as_array _ = none

abbrev pub as_text : Option Value → Option (List ℕ)
as_text (some (text t)) = some t
as_text _ = none

-- Number.MAX_SAFE_INTEGER
abbrev pub max_safe_integer : ℕ
max_safe_integer = 9007199254740991

-- `Number.isSafeInteger(value) && value >= 0`: the number it is.
unfoldable pub natural? : Number → Option ℕ
natural? (finite negative digits scale) =
    let n = digits / 10 ^ scale in
    if digits % 10 ^ scale == 0 && leb n max_safe_integer && (not negative || n == 0)
    then some n
    else none
natural? (infinite negative) = none

abbrev pub whole : ℕ → Value
whole n = number (finite false n 0)

pub natural?-whole : (n : ℕ) → n ≤ max_safe_integer → natural? (finite false n 0) ≡ some n
unfolding natural?
natural?-whole n h = ground arith

pub values_list-values_of : (vs : List Value) → values_list (values_of vs) ≡ vs
values_list-values_of [] = refl
values_list-values_of (v ∷ vs) = rw (values_list-values_of vs)
