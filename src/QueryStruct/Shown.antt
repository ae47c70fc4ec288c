-- ===== src/QueryStruct/Shown.antt =====
-- enhanced_request.go: the query parameter that a value becomes, by rules.
use vecto.Base.{
  ℕ, suc, pos, negsuc, ◌≡◌, ◌↔◌, append_assoc, refl, sym, ◌∙◌, ap, true, false, Option, none, some,
  List, [], ◌∷◌, ◌++◌, Bytes, codes, decimal, arith,
}
use mathlib.Core.Path.{ap₂}
use vecto.Http.{Any, text, texts}
use vecto.QueryStruct.{
  Value, Values, str, boolean, int, uint, float, slice, array, nil_pointer, nil_interface, pointer,
  interface, map_of, struct, other, nil, cons, FloatLib, prepend, listed, field_to_query_value,
  slice_to_query_values, print_value, format_int, bracketed, spaced, is_zero_value,
}
use vecto.QueryStruct.Supported.{IsSupported, AreSupported}

abbrev pub spread : Bytes → List Bytes → Bytes
spread first [] = first
spread first (second ∷ rest) = first ++ (codes " " ++ spread second rest)

-- How an element of a list is printed.
pub data Prints : Option Any → Bytes → Type 0 where
  prints_nil : Prints none (codes "<nil>")
  prints_text : {s : Bytes} → Prints (some (text s)) s
  prints_list :
      {s : Bytes} {ss : List Bytes}
      → Prints (some (texts (s ∷ ss))) (codes "[" ++ (spread s ss ++ codes "]"))

module _ (lib : FloatLib) where
  mutual
    -- A nil pointer and an empty list become nothing.
    pub data Shows : Value → Option Any → Type 0 where
      shows_text : {s : Bytes} → Shows (str s) (some (text s))
      shows_true : Shows (boolean true) (some (text (codes "true")))
      shows_false : Shows (boolean false) (some (text (codes "false")))
      shows_natural : {size : Bytes} {n : ℕ} → Shows (int size (pos n)) (some (text (decimal n)))
      shows_negative :
          {size : Bytes} {n : ℕ}
          → Shows (int size (negsuc n)) (some (text (codes "-" ++ decimal (suc n))))
      shows_uint : {size : Bytes} {n : ℕ} → Shows (uint size n) (some (text (decimal n)))
      shows_float : {size : Bytes} {f : ℕ} → Shows (float size f) (some (text (lib.float_text f)))
      shows_nil : Shows nil_pointer none
      shows_pointer : {v : Value} {o : Option Any} → Shows v o → Shows (pointer v) o
      shows_empty_slice : Shows (slice nil) none
      shows_empty_array : Shows (array nil) none
      shows_slice :
          {v : Value} {vs : Values} {ss : List Bytes}
          → ShowsAll (cons v vs) ss
          → Shows (slice (cons v vs)) (some (texts ss))
      shows_array :
          {v : Value} {vs : Values} {ss : List Bytes}
          → ShowsAll (cons v vs) ss
          → Shows (array (cons v vs)) (some (texts ss))

    pub data ShowsAll : Values → List Bytes → Type 0 where
      shows_none : ShowsAll nil []
      shows_next :
          {v : Value} {vs : Values} {o : Option Any} {s : Bytes} {ss : List Bytes}
          → Shows v o
          → Prints o s
          → ShowsAll vs ss
          → ShowsAll (cons v vs) (s ∷ ss)

spaced-spread :
    (s : Bytes) (ss : List Bytes) → s ++ (spaced ss ++ codes "]") ≡ spread s ss ++ codes "]"
unfolding spaced
spaced-spread s [] = refl
spaced-spread s (t ∷ ss) =
    ap (λ r. s ++ b' ' ∷ r) (append_assoc t (spaced ss) (codes "]") ∙ spaced-spread t ss)
    ∙ sym (append_assoc s (b' ' ∷ spread t ss) (codes "]"))

bracketed-spread :
    (s : Bytes) (ss : List Bytes) → bracketed (s ∷ ss) ≡ codes "[" ++ (spread s ss ++ codes "]")
unfolding bracketed
bracketed-spread s ss = ap (λ t. codes "[" ++ t) (spaced-spread s ss)

module _ (lib : FloatLib) where
  Shows-Prints : (v : Value) (o : Option Any) → Shows lib v o → Prints o (print_value o)
  unfolding print_value
  Shows-Prints _ _ shows_text = prints_text
  Shows-Prints _ _ shows_true = prints_text
  Shows-Prints _ _ shows_false = prints_text
  Shows-Prints _ _ shows_natural = prints_text
  Shows-Prints _ _ shows_negative = prints_text
  Shows-Prints _ _ shows_uint = prints_text
  Shows-Prints _ _ shows_float = prints_text
  Shows-Prints _ _ shows_nil = prints_nil
  Shows-Prints (pointer v) o (shows_pointer h) = Shows-Prints v o h
  Shows-Prints _ _ shows_empty_slice = prints_nil
  Shows-Prints _ _ shows_empty_array = prints_nil
  Shows-Prints _ _ (shows_slice (shows_next {s = s} {ss = ss} h p hs)) =
      rw (bracketed-spread s ss) prints_list
  Shows-Prints _ _ (shows_array (shows_next {s = s} {ss = ss} h p hs)) =
      rw (bracketed-spread s ss) prints_list

  mutual
    unfolding field_to_query_value format_int

    pub field_to_query_value-Shows :
        (v : Value)
        → IsSupported v
        → (o : Option Any) × (field_to_query_value lib v ≡ (o, none)) × Shows lib v o
    field_to_query_value-Shows (str s) h = (some (text s), refl, shows_text)
    field_to_query_value-Shows (boolean true) h = (some (text (codes "true")), refl, shows_true)
    field_to_query_value-Shows (boolean false) h = (some (text (codes "false")), refl, shows_false)
    field_to_query_value-Shows (int size (pos n)) h = (some (text (decimal n)), refl, shows_natural)
    field_to_query_value-Shows (int size (negsuc n)) h =
        (some (text (codes "-" ++ decimal (suc n))), refl, shows_negative)
    field_to_query_value-Shows (uint size n) h = (some (text (decimal n)), refl, shows_uint)
    field_to_query_value-Shows (float size f) h =
        (some (text (lib.float_text f)), refl, shows_float)
    field_to_query_value-Shows nil_pointer h = (none, refl, shows_nil)
    field_to_query_value-Shows (pointer v) h =
        let (o, e, shows) = field_to_query_value-Shows v h in (o, e, shows_pointer shows)
    field_to_query_value-Shows (slice nil) h = (none, refl, shows_empty_slice)
    field_to_query_value-Shows (array nil) h = (none, refl, shows_empty_array)
    field_to_query_value-Shows (slice (cons v vs)) h =
        let (ss, e, shows) = slice_to_query_values-ShowsAll (cons v vs) h in
        (some (texts ss), ap (listed (cons v vs)) e, shows_slice shows)
    field_to_query_value-Shows (array (cons v vs)) h =
        let (ss, e, shows) = slice_to_query_values-ShowsAll (cons v vs) h in
        (some (texts ss), ap (listed (cons v vs)) e, shows_array shows)
    field_to_query_value-Shows nil_interface h = absurd h
    field_to_query_value-Shows (interface v) h = absurd h
    field_to_query_value-Shows (map_of n) h = absurd h
    field_to_query_value-Shows (struct fs) h = absurd h
    field_to_query_value-Shows (other kind) h = absurd h

    slice_to_query_values-ShowsAll :
        (vs : Values)
        → AreSupported vs
        → (ss : List Bytes) × (slice_to_query_values lib vs ≡ (ss, none)) × ShowsAll lib vs ss
    slice_to_query_values-ShowsAll nil h = ([], refl, shows_none)
    slice_to_query_values-ShowsAll (cons v vs) (h, hs) =
        let (o, e, shows) = field_to_query_value-Shows v h in
        let (ss, es, all_shown) = slice_to_query_values-ShowsAll vs hs in
        (print_value o ∷ ss, ap₂ prepend e es, shows_next shows (Shows-Prints v o shows) all_shown)

-- The values that `omitempty` leaves out.
abbrev pub IsZero : FloatLib → Value → Type 0
IsZero lib (str s) = s ≡ []
IsZero lib (boolean b) = b ≡ false
IsZero lib (int size i) = i ≡ pos 0
IsZero lib (uint size n) = n ≡ 0
IsZero lib (float size f) = lib.float_zero f ≡ true
IsZero lib (slice vs) = vs ≡ nil
IsZero lib (array vs) = vs ≡ nil
IsZero lib nil_pointer = Unit
IsZero lib nil_interface = Unit
IsZero lib (map_of n) = n ≡ 0
IsZero lib _ = ⊥

pub is_zero_value_iff : (lib : FloatLib) (v : Value) → (is_zero_value lib v ≡ true) ↔ IsZero lib v
unfolding is_zero_value
is_zero_value_iff lib (str []) = ((λ h. refl), λ h. refl)
is_zero_value_iff lib (str (c ∷ s)) = ((λ h. ground arith), λ h. ground arith)
is_zero_value_iff lib (boolean true) = ((λ h. ground arith), λ h. ground arith)
is_zero_value_iff lib (boolean false) = ((λ h. refl), λ h. refl)
is_zero_value_iff lib (int size (pos n)) = ((λ h. ground arith), λ h. ground arith)
is_zero_value_iff lib (int size (negsuc n)) = ((λ h. ground arith), λ h. ground arith)
is_zero_value_iff lib (uint size n) = ((λ h. ground arith), λ h. ground arith)
is_zero_value_iff lib (float size f) = ((λ h. h), λ h. h)
is_zero_value_iff lib (slice nil) = ((λ h. refl), λ h. refl)
is_zero_value_iff lib (slice (cons v vs)) = ((λ h. ground arith), λ h. ground arith)
is_zero_value_iff lib (array nil) = ((λ h. refl), λ h. refl)
is_zero_value_iff lib (array (cons v vs)) = ((λ h. ground arith), λ h. ground arith)
is_zero_value_iff lib nil_pointer = ((λ h. tt), λ h. refl)
is_zero_value_iff lib (pointer v) = ((λ h. ground arith), λ h. absurd h)
is_zero_value_iff lib nil_interface = ((λ h. tt), λ h. refl)
is_zero_value_iff lib (interface v) = ((λ h. ground arith), λ h. absurd h)
is_zero_value_iff lib (map_of n) = ((λ h. ground arith), λ h. ground arith)
is_zero_value_iff lib (struct fs) = ((λ h. ground arith), λ h. absurd h)
is_zero_value_iff lib (other kind) = ((λ h. ground arith), λ h. absurd h)
