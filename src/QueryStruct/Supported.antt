-- ===== src/QueryStruct/Supported.antt =====
-- enhanced_request.go: which values can be sent as query parameters.
use vecto.Base.{◌≡◌, ◌↔◌, refl, sym, none, some, arith, Option, List, Bytes}
use mathlib.Core.Option.{none-ne-some}
use vecto.Http.{Any, Err}
use vecto.QueryStruct.{
  Value, Values, str, boolean, int, uint, float, slice, array, nil_pointer, nil_interface, pointer,
  interface, map_of, struct, other, nil, cons, FloatLib, prepend, listed, field_to_query_value,
  slice_to_query_values,
}

-- Texts, truth values and numbers; pointers to values that can be sent, or to nothing; and lists of
-- values that can be sent, to any depth.
abbrev mutual
  pub IsSupported : Value → Type 0
  IsSupported (slice vs) = AreSupported vs
  IsSupported (array vs) = AreSupported vs
  IsSupported (pointer v) = IsSupported v
  IsSupported nil_interface = ⊥
  IsSupported (interface v) = ⊥
  IsSupported (map_of n) = ⊥
  IsSupported (struct fs) = ⊥
  IsSupported (other k) = ⊥
  IsSupported _ = Unit

  pub AreSupported : Values → Type 0
  AreSupported nil = Unit
  AreSupported (cons v vs) = IsSupported v × AreSupported vs

module _ {P Q : Type 0} where
  prepend_iff :
      (first : Option Any × Option Err) (rest : List Bytes × Option Err)
      → (first.1 ≡ none) ↔ P
      → (rest.1 ≡ none) ↔ Q
      → ((prepend first rest).1 ≡ none) ↔ (P × Q)
  prepend_iff (value, some e) (values, err) p q =
      ((λ h. absurd (none-ne-some e (sym h))), λ both. absurd (none-ne-some e (sym (p.1 both.0))))
  prepend_iff (value, none) (values, err) p q = ((λ h. (p.0 refl, q.0 h)), λ both. q.1 both.1)

listed-err :
    (v : Value) (vs : Values) (r : List Bytes × Option Err) → (listed (cons v vs) r).1 ≡ r.1
listed-err v vs (values, none) = refl
listed-err v vs (values, some e) = refl

mutual
  unfolding field_to_query_value

  value_iff : (lib : FloatLib) (v : Value) → ((field_to_query_value lib v).1 ≡ none) ↔ IsSupported v
  value_iff lib (str s) = (λ e. tt, λ h. refl)
  value_iff lib (boolean b) = (λ e. tt, λ h. refl)
  value_iff lib (int size i) = (λ e. tt, λ h. refl)
  value_iff lib (uint size n) = (λ e. tt, λ h. refl)
  value_iff lib (float size f) = (λ e. tt, λ h. refl)
  value_iff lib nil_pointer = (λ e. tt, λ h. refl)
  value_iff lib (slice nil) = (λ e. tt, λ h. refl)
  value_iff lib (slice (cons v vs)) =
      rw (listed-err v vs) (prepend_iff _ _ (value_iff lib v) (values_iff lib vs))
  value_iff lib (array nil) = (λ e. tt, λ h. refl)
  value_iff lib (array (cons v vs)) =
      rw (listed-err v vs) (prepend_iff _ _ (value_iff lib v) (values_iff lib vs))
  value_iff lib (pointer v) = value_iff lib v
  value_iff lib nil_interface = ground arith
  value_iff lib (interface v) = ground arith
  value_iff lib (map_of n) = ground arith
  value_iff lib (struct fs) = ground arith
  value_iff lib (other k) = ground arith

  values_iff :
      (lib : FloatLib) (vs : Values) → ((slice_to_query_values lib vs).1 ≡ none) ↔ AreSupported vs
  values_iff lib nil = (λ e. tt, λ h. refl)
  values_iff lib (cons v vs) = prepend_iff _ _ (value_iff lib v) (values_iff lib vs)

-- A value is converted without an error exactly if it is supported.
pub field_to_query_value_iff :
    (lib : FloatLib) (v : Value) → ((field_to_query_value lib v).1 ≡ none) ↔ IsSupported v
field_to_query_value_iff lib v = value_iff lib v
