-- ===== src/Value.antt =====
-- The dynamic values of payloads and metadata: `interface{}` and `map[string]interface{}` in
-- core/fact.go, the readers of core/metadata_helpers.go, core/governance.go and
-- core/dependencies.go, and the equality that reflect.DeepEqual gives in core/engine.go.
use velarix.Prelude.{
  ◌≡◌, refl, ℕ, ◌+◌, ◌-◌, ◌*◌, String, Bool, true, false, not, ◌&&◌, ◌||◌, Option, none, some, List,
  [], ◌∷◌, ◌==◌, ℤ, pos, negsuc, eqb, eqbℤ, leb, quot, if◌then◌else◌, trim_space, to_lower, codes,
  codes_eq,
}

-- A float is an integer number of units of 2⁻⁵³.
mutual
  pub data Value : Type 0 where
    null : Value
    bool : Bool → Value
    float : ℤ → Value
    int : ℤ → Value
    str : String → Value
    strs : List String → Value
    arr : Items → Value
    obj : Fields → Value

  pub data Fields : Type 0 where
    end : Fields
    field : String → Value → Fields → Fields

  pub data Items : Type 0 where
    nil : Items
    cons : Value → Items → Items

unfoldable pub get_field : Fields → String → Option Value
get_field end k = none
get_field (field j v fs) k = if j == k then some v else get_field fs k

unfoldable pub put_field : Fields → String → Value → Fields
put_field end k v = field k v end
put_field (field j w fs) k v = if j == k then field k v fs else field j w (put_field fs k v)

unfoldable pub count_fields : Fields → ℕ
count_fields end = 0
count_fields (field j v fs) = count_fields fs + 1

unfoldable pub strs_eq : List String → List String → Bool
strs_eq [] [] = true
strs_eq (s ∷ ss) (t ∷ ts) = s == t && strs_eq ss ts
strs_eq _ _ = false

-- reflect.DeepEqual: maps are compared key by key, whatever the order of their entries.
unfoldable mutual
  unfolding get_field count_fields strs_eq

  pub deep_equal : Value → Value → Bool
  deep_equal null w = elim w [ null ↦ true | _ ↦ false ]
  deep_equal (bool a) w = elim w [ bool b ↦ (a && b) || (not a && not b) | _ ↦ false ]
  deep_equal (float a) w = elim w [ float b ↦ eqbℤ a b | _ ↦ false ]
  deep_equal (int a) w = elim w [ int b ↦ eqbℤ a b | _ ↦ false ]
  deep_equal (str a) w = elim w [ str b ↦ a == b | _ ↦ false ]
  deep_equal (strs a) w = elim w [ strs b ↦ strs_eq a b | _ ↦ false ]
  deep_equal (arr xs) w = elim w [ arr ys ↦ items_equal xs ys | _ ↦ false ]
  deep_equal (obj fs) w = elim w [
    | obj gs ↦ eqb (count_fields fs) (count_fields gs) && fields_within fs gs
    | _ ↦ false
  ]

  pub items_equal : Items → Items → Bool
  items_equal nil ys = elim ys [ nil ↦ true | _ ↦ false ]
  items_equal (cons x xs) ys = elim ys [
    | nil ↦ false
    | cons y ys' ↦ deep_equal x y && items_equal xs ys'
  ]

  -- Every field of the first is in the second, with an equal value.
  pub fields_within : Fields → Fields → Bool
  fields_within end gs = true
  fields_within (field k v fs) gs =
      elim (get_field gs k) [ none ↦ false | some w ↦ deep_equal v w ] && fields_within fs gs

-- MetadataBool
unfoldable pub affirms : List ℕ → Bool
affirms s =
    codes_eq s (codes "1")
    || codes_eq s (codes "true")
    || codes_eq s (codes "yes")
    || codes_eq s (codes "required")

unfoldable pub truth : Option Value → Bool
unfolding affirms
truth (some (bool b)) = b
truth (some (str s)) = affirms (to_lower (trim_space s))
truth _ = false

-- A nil map is `none`.
unfoldable pub read : Option Fields → String → Option Value
unfolding get_field
read none k = none
read (some fs) k = get_field fs k

unfoldable pub metadata_bool : Option Fields → String → Bool
unfolding truth read
metadata_bool m k = truth (read m k)

-- MetadataString
unfoldable pub text : Option Value → String
text (some (str s)) = trim_space s
text _ = ""

unfoldable pub metadata_string : Option Fields → String → String
unfolding text read
metadata_string m k = text (read m k)

-- mapStringSlice
unfoldable pub item_texts : Items → List String
item_texts nil = []
item_texts (cons (str s) xs) =
    let rest = item_texts xs in if trim_space s == "" then rest else trim_space s ∷ rest
item_texts (cons _ xs) = item_texts xs

unfoldable pub texts : Option Value → List String
unfolding item_texts
texts (some (strs ss)) = ss
texts (some (arr xs)) = item_texts xs
texts _ = []

unfoldable pub map_string_slice : Option Fields → String → List String
unfolding texts read
map_string_slice m k = texts (read m k)

-- strconv.ParseInt(s, 10, 64), with 0 for every error.
unfoldable pub digits_from : ℕ → List ℕ → Option ℕ
digits_from n [] = some n
digits_from n (c ∷ cs) =
    let rest = digits_from (n * 10 + (c - 48)) cs in if leb 48 c && leb c 57 then rest else none

unfoldable pub decimal : List ℕ → Option ℕ
unfolding digits_from
decimal [] = none
decimal (c ∷ cs) = digits_from 0 (c ∷ cs)

abbrev max_int64 : ℕ
max_int64 = 9223372036854775807

unfoldable pub positive : Option ℕ → ℤ
positive none = pos 0
positive (some n) = if leb n max_int64 then pos n else pos 0

unfoldable pub negative : Option ℕ → ℤ
negative none = pos 0
negative (some n) =
    if eqb n 0 then pos 0 else if leb n (max_int64 + 1) then negsuc (n - 1) else pos 0

unfoldable pub parse_int : List ℕ → ℤ
unfolding decimal positive negative
parse_int [] = pos 0
parse_int (c ∷ cs) =
    if eqb c b'-'
    then negative (decimal cs)
    else if eqb c b'+'
    then positive (decimal cs)
    else positive (decimal (c ∷ cs))

-- int64FromMetadata
unfoldable pub integer : Option Value → ℤ
unfolding parse_int
integer (some (float z)) = quot z 9007199254740992
integer (some (int z)) = z
integer (some (str s)) = parse_int (codes (trim_space s))
integer _ = pos 0

unfoldable pub int64_from_metadata : Option Fields → String → ℤ
unfolding integer read
int64_from_metadata m k = integer (read m k)

parse_int_runs : parse_int (codes "-120") ≡ negsuc 119
unfolding parse_int
parse_int_runs = refl

deep_equal_runs :
    deep_equal
      (obj (field "a" (int (pos 1)) (field "b" null end)))
      (obj (field "b" null (field "a" (int (pos 1)) end)))
    ≡ true
unfolding deep_equal
deep_equal_runs = refl

metadata_bool_runs : metadata_bool (some (field "k" (str " Required ") end)) "k" ≡ true
unfolding metadata_bool trim_space to_lower codes_eq
metadata_bool_runs = refl
