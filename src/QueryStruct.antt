-- ===== src/QueryStruct.antt =====
-- enhanced_request.go: structToQueryParams, which turns a struct into query parameters.
pub mod Supported
pub mod Tags
pub mod Shown
pub mod Sent
pub mod Rules
use vecto.Base.{
  ℕ, suc, ℤ, pos, negsuc, Bool, true, false, not, ◌&&◌, ◌||◌, ◌==◌, Option, none, some, List, [],
  ◌∷◌, ◌++◌, Bytes, codes, decimal, Dict, insert, str_eq, if◌then◌else◌, ◌≡◌, refl,
}
use vecto.Http.{Any, text, texts, Err, message, wrapped}
use vecto.Substring.{is_empty}
use vecto.Utf8.{decode_rune, runes}
use vecto.Validation.{trim_space}

-- A reflect.Value, by its kind. A number has its size, as it ends the name of the kind; a float is
-- known by its identity, a map by its length, and `other` is a value of another kind, by its name. A
-- field has its name, its `query` tag, and whether it is exported.
mutual
  pub data Value : Type 0 where
    str : Bytes → Value
    boolean : Bool → Value
    int : Bytes → ℤ → Value
    uint float : Bytes → ℕ → Value
    slice array : Values → Value
    nil_pointer nil_interface : Value
    pointer interface : Value → Value
    map_of : ℕ → Value
    struct : Fields → Value
    other : Bytes → Value

  pub data Values : Type 0 where
    nil : Values
    cons : Value → Values → Values

  pub data Fields : Type 0 where
    end : Fields
    field : Bytes → Bytes → Bool → Value → Fields → Fields

-- strconv.FormatInt in base 10.
unfoldable pub format_int : ℤ → Bytes
format_int (pos n) = decimal n
format_int (negsuc n) = codes "-" ++ decimal (suc n)

abbrev pub format_bool : Bool → Bytes
format_bool true = codes "true"
format_bool false = codes "false"

spaced : List Bytes → Bytes
spaced [] = []
spaced (s ∷ ss) = codes " " ++ (s ++ spaced ss)

bracketed : List Bytes → Bytes
unfolding spaced
bracketed [] = codes "[]"
bracketed (s ∷ ss) = codes "[" ++ (s ++ (spaced ss ++ codes "]"))

-- `%v` of what fieldToQueryValue returns: nothing, a string or strings.
unfoldable pub print_value : Option Any → Bytes
unfolding bracketed
print_value (some (text s)) = s
print_value (some (texts ss)) = bracketed ss
print_value _ = codes "<nil>"

-- (reflect.Kind).String
unfoldable pub kind_name : Value → Bytes
kind_name (str s) = codes "string"
kind_name (boolean b) = codes "bool"
kind_name (int size i) = codes "int" ++ size
kind_name (uint size n) = codes "uint" ++ size
kind_name (float size f) = codes "float" ++ size
kind_name (slice vs) = codes "slice"
kind_name (array vs) = codes "array"
kind_name nil_pointer = codes "ptr"
kind_name (pointer v) = codes "ptr"
kind_name nil_interface = codes "interface"
kind_name (interface v) = codes "interface"
kind_name (map_of n) = codes "map"
kind_name (struct fs) = codes "struct"
kind_name (other kind) = kind

abbrev pub unsupported : Value → Option Err
unsupported v = some (message (codes "unsupported type: " ++ kind_name v))

-- `float_text` is strconv.FormatFloat(…, 'f', -1, 64), and `float_zero` whether a float is 0.
pub record FloatLib : Type 0 where
  pub float_text : ℕ → Bytes
  pub float_zero : ℕ → Bool

abbrev pub listed : Values → List Bytes × Option Err → Option Any × Option Err
listed nil r = (none, none)
listed (cons v vs) (values, some err) = (none, some err)
listed (cons v vs) (values, none) = (some (texts values), none)

abbrev pub prepend : Option Any × Option Err → List Bytes × Option Err → List Bytes × Option Err
prepend (value, some err) r = ([], some err)
prepend (value, none) (values, err) = (print_value value ∷ values, err)

module _ (lib : FloatLib) where
  unfoldable mutual
    pub field_to_query_value : Value → Option Any × Option Err
    field_to_query_value (str s) = (some (text s), none)
    field_to_query_value (boolean b) = (some (text (format_bool b)), none)
    field_to_query_value (int size i) = (some (text (format_int i)), none)
    field_to_query_value (uint size n) = (some (text (decimal n)), none)
    field_to_query_value (float size f) = (some (text (lib.float_text f)), none)
    field_to_query_value (slice vs) = listed vs (slice_to_query_values vs)
    field_to_query_value (array vs) = listed vs (slice_to_query_values vs)
    field_to_query_value nil_pointer = (none, none)
    field_to_query_value (pointer v) = field_to_query_value v
    field_to_query_value nil_interface = (none, unsupported nil_interface)
    field_to_query_value (interface v) = (none, unsupported (interface v))
    field_to_query_value (map_of n) = (none, unsupported (map_of n))
    field_to_query_value (struct fs) = (none, unsupported (struct fs))
    field_to_query_value (other kind) = (none, unsupported (other kind))

    -- The loop over the elements.
    pub slice_to_query_values : Values → List Bytes × Option Err
    slice_to_query_values nil = ([], none)
    slice_to_query_values (cons v vs) = prepend (field_to_query_value v) (slice_to_query_values vs)

abbrev has_no_value : Values → Bool
has_no_value nil = true
has_no_value (cons v vs) = false

unfoldable pub is_zero_value : FloatLib → Value → Bool
is_zero_value lib (str s) = is_empty s
is_zero_value lib (boolean b) = not b
is_zero_value lib (int size (pos n)) = n == 0
is_zero_value lib (int size (negsuc n)) = false
is_zero_value lib (uint size n) = n == 0
is_zero_value lib (float size f) = lib.float_zero f
is_zero_value lib (slice vs) = has_no_value vs
is_zero_value lib (array vs) = has_no_value vs
is_zero_value lib nil_pointer = true
is_zero_value lib (pointer v) = false
is_zero_value lib nil_interface = true
is_zero_value lib (interface v) = false
is_zero_value lib (map_of n) = n == 0
is_zero_value lib (struct fs) = false
is_zero_value lib (other kind) = false

abbrev add_to_first : ℕ → List Bytes → List Bytes
add_to_first c [] = (c ∷ []) ∷ []
add_to_first c (part ∷ parts) = (c ∷ part) ∷ parts

-- strings.Split for a separator of one byte.
unfoldable pub split : Bytes → ℕ → List Bytes
split [] sep = [] ∷ []
split (c ∷ s) sep = let parts = split s sep in if c == sep then [] ∷ parts else add_to_first c parts

trim_all : List Bytes → List Bytes
unfolding trim_space
trim_all [] = []
trim_all (s ∷ ss) = trim_space s ∷ trim_all ss

named : List Bytes → Bytes × List Bytes
unfolding trim_all
named [] = ([], [])
named (name ∷ opts) = (trim_space name, trim_all opts)

unfoldable pub parse_tag : Bytes → Bytes × List Bytes
unfolding split named
parse_tag tag = named (split tag b',')

unfoldable pub contains : List Bytes → Bytes → Bool
contains [] item = false
contains (s ∷ ss) item = str_eq s item || contains ss item

module _ (lib : FloatLib) where
  -- The name under which a field is sent, unless the loop goes on without it.
  unfoldable pub sent_name : Bytes → Bytes → Bool → Value → Option Bytes
  unfolding parse_tag contains is_zero_value
  sent_name name tag exported value =
      let (tag_name, opts) = parse_tag tag in
      if not exported || str_eq tag (codes "-")
      then none
      else if contains opts (codes "omitempty") && is_zero_value lib value
      then none
      else some (if is_empty tag_name then name else tag_name)

  -- The loop over the fields, from some parameters on.
  unfoldable pub field_params : Fields → Dict Any → Option (Dict Any) × Option Err
  field_params end params = (some params, none)
  field_params (field name tag exported value fs) params =
      let skipped = field_params fs params in
      elim (sent_name name tag exported value) [
        | none ↦ skipped
        | some key ↦
            let (sent, err) = field_to_query_value lib value in
            elim err [
              | some e ↦ (none, some (wrapped (codes "failed to convert field " ++ name) e))
              | none ↦ elim sent [ none ↦ skipped | some v ↦ field_params fs (insert key v params) ]
            ]
      ]

  from_struct : Value → Option (Dict Any) × Option Err
  unfolding field_params kind_name
  from_struct (struct fs) = field_params fs []
  from_struct v = (none, some (message (codes "expected struct, got " ++ kind_name v)))

  -- A struct, or one pointer to it.
  unfoldable pub struct_to_query_params : Option Value → Option (Dict Any) × Option Err
  unfolding from_struct
  struct_to_query_params none = (none, none)
  struct_to_query_params (some nil_pointer) = (none, none)
  struct_to_query_params (some (pointer v)) = from_struct v
  struct_to_query_params (some v) = from_struct v

tag_test : parse_tag (codes "a, omitempty") ≡ (codes "a", codes "omitempty" ∷ [])
unfolding parse_tag decode_rune runes
tag_test = refl
