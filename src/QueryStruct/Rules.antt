-- ===== src/QueryStruct/Rules.antt =====
-- enhanced_request.go: the query parameters of a struct, by rules for its fields.
use vecto.Base.{
  ◌≡◌, ◌≢◌, refl, sym, ◌∙◌, ◌⊎◌, inl, inr, Bool, true, false, Option, none, some, List, [], ◌∷◌,
  ◌++◌, Bytes, codes, Dict, copy_into, arith, Bool-cases, Option-cases, str_eq, str_eq_sound,
  str_eq_complete,
}
use mathlib.Core.Option.{none-ne-some}
use vecto.Http.{Any}
use vecto.QueryStruct.{
  Value, struct, Fields, end, field, FloatLib, sent_name, is_zero_value, contains, parse_tag,
  struct_to_query_params,
}
use vecto.QueryStruct.Sent.{AreSendable, IsSendable, entries, entry, struct_to_query_params-entries}
use vecto.QueryStruct.Shown.{Shows, IsZero, is_zero_value_iff, field_to_query_value-Shows}
use vecto.QueryStruct.Supported.{IsSupported}
use vecto.QueryStruct.Tags.{
  IsReadAs, Has, parse_tag-IsReadAs, IsReadAs-parse_tag, contains-Has, Has-contains,
}
use vecto.Substring.{is_empty}

-- Not exported, tagged `-`, or tagged `omitempty` and zero.
abbrev pub IsLeftOut : FloatLib → Bytes → Bool → Value → Type 0
IsLeftOut lib tag exported value =
    (exported ≡ false)
    ⊎ (tag ≡ codes "-")
    ⊎ ((name : Bytes) × (opts : List Bytes) × IsReadAs tag name opts
        × Has (codes "omitempty") opts
        × IsZero lib value)

-- The name of the tag, or that of the field if the tag has none.
abbrev pub IsNamed : Bytes → Bytes → Bytes → Type 0
IsNamed name tag key =
    (tag_name : Bytes) × (opts : List Bytes) × IsReadAs tag tag_name opts
    × (((tag_name ≡ []) × (key ≡ name)) ⊎ ((tag_name ≢ []) × (key ≡ tag_name)))

-- The parameters of the fields, in their order.
pub data Sends (lib : FloatLib) : Fields → Dict Any → Type 0 where
  done : Sends lib end []
  left_out :
      {name tag : Bytes} {exported : Bool} {value : Value} {fs : Fields} {es : Dict Any}
      → IsLeftOut lib tag exported value
      → Sends lib fs es
      → Sends lib (field name tag exported value fs) es
  nothing :
      {name tag : Bytes} {exported : Bool} {value : Value} {fs : Fields} {es : Dict Any}
      → ¬ IsLeftOut lib tag exported value
      → Shows lib value none
      → Sends lib fs es
      → Sends lib (field name tag exported value fs) es
  sent :
      {name tag key : Bytes} {exported : Bool} {value : Value} {v : Any} {fs : Fields}
      {es : Dict Any}
      → ¬ IsLeftOut lib tag exported value
      → IsNamed name tag key
      → Shows lib value (some v)
      → Sends lib fs es
      → Sends lib (field name tag exported value fs) ((key, v) ∷ es)

-- Each field is left out or has a value that can be sent.
abbrev pub CanBeSent : FloatLib → Fields → Type 0
CanBeSent lib end = Unit
CanBeSent lib (field name tag exported value fs) =
    (IsLeftOut lib tag exported value ⊎ IsSupported value) × CanBeSent lib fs

is_empty-eq : (s : Bytes) → is_empty s ≡ true → s ≡ []
is_empty-eq [] h = refl
is_empty-eq (c ∷ s) h = absurd (ground arith)

empty-is_empty : (s : Bytes) → s ≡ [] → ¬ (is_empty s ≡ false)
empty-is_empty [] e h = ground arith
empty-is_empty (c ∷ s) e h = ground arith

module _ (lib : FloatLib) (name tag : Bytes) (exported : Bool) (value : Value) where
  IsLeftOut-sent_name :
      IsLeftOut lib tag exported value → sent_name lib name tag exported value ≡ none
  unfolding sent_name
  IsLeftOut-sent_name (inl hidden) = ground arith
  IsLeftOut-sent_name (inr (inl dash)) = ground (arith, str_eq_complete tag (codes "-") dash)
  IsLeftOut-sent_name (inr (inr (n, opts, read, has, zero))) =
      let e = IsReadAs-parse_tag tag n opts read in
      let omits : contains (parse_tag tag).1 (codes "omitempty") ≡ true =
        rw e (Has-contains opts (codes "omitempty") has) in
      let is_zero = (is_zero_value_iff lib value).1 zero in ground arith

  sent_name-IsLeftOut :
      sent_name lib name tag exported value ≡ none → IsLeftOut lib tag exported value
  unfolding sent_name
  sent_name-IsLeftOut h = elim (Bool-cases exported) [
    | inr hidden ↦ inl hidden
    | inl seen ↦ elim (Bool-cases (str_eq tag (codes "-"))) [
      | inl dash ↦ inr (inl (str_eq_sound tag (codes "-") dash))
      | inr other ↦
          let omits : contains (parse_tag tag).1 (codes "omitempty") ≡ true = ground arith in
          let zero : is_zero_value lib value ≡ true = ground arith in
          inr (
            inr (
              _,
              _,
              parse_tag-IsReadAs tag,
              contains-Has (parse_tag tag).1 (codes "omitempty") omits,
              (is_zero_value_iff lib value).0 zero,
            ))
    ]
  ]

  sent_name-IsNamed :
      (key : Bytes) → sent_name lib name tag exported value ≡ some key → IsNamed name tag key
  unfolding sent_name
  sent_name-IsNamed key h = elim (Bool-cases (is_empty (parse_tag tag).0)) [
    | inl unnamed ↦
        (_, _, parse_tag-IsReadAs tag, inl (is_empty-eq (parse_tag tag).0 unnamed, ground arith))
    | inr named ↦ (
      _,
      _,
      parse_tag-IsReadAs tag,
      inr ((λ e. absurd (empty-is_empty (parse_tag tag).0 e named)), ground arith),
    )
  ]

IsSendable-sent_name :
    (lib : FloatLib) (name tag : Bytes) (exported : Bool) (value : Value)
    → IsLeftOut lib tag exported value ⊎ IsSupported value
    → IsSendable (sent_name lib name tag exported value) value
IsSendable-sent_name lib name tag exported value (inl left) =
    rw (IsLeftOut-sent_name lib name tag exported value left) tt
IsSendable-sent_name lib name tag exported value (inr supported) =
    by_name (sent_name lib name tag exported value)
  where
    by_name : (o : Option Bytes) → IsSendable o value
    by_name none = tt
    by_name (some key) = supported

CanBeSent-AreSendable : (lib : FloatLib) (fs : Fields) → CanBeSent lib fs → AreSendable lib fs
CanBeSent-AreSendable lib end h = tt
CanBeSent-AreSendable lib (field name tag exported value fs) (h, hs) =
    (IsSendable-sent_name lib name tag exported value h, CanBeSent-AreSendable lib fs hs)

kept-IsSupported :
    (lib : FloatLib) (name tag : Bytes) (exported : Bool) (value : Value)
    → ¬ IsLeftOut lib tag exported value
    → IsLeftOut lib tag exported value ⊎ IsSupported value
    → IsSupported value
kept-IsSupported lib name tag exported value kept (inl left) = absurd (kept left)
kept-IsSupported lib name tag exported value kept (inr supported) = supported

Sends-entries : (lib : FloatLib) (fs : Fields) → CanBeSent lib fs → Sends lib fs (entries lib fs)
Sends-entries lib end h = done
Sends-entries lib (field name tag exported value fs) (h, hs) =
    elim (Option-cases (sent_name lib name tag exported value)) [
      | inl none_sent ↦ rw none_sent (
          left_out (sent_name-IsLeftOut lib name tag exported value none_sent)
            (Sends-entries lib fs hs))
      | inr (key, e) ↦
          let kept : ¬ IsLeftOut lib tag exported value = λ left.
            none-ne-some key (sym (IsLeftOut-sent_name lib name tag exported value left) ∙ e) in
          let (o, shown, shows) =
            field_to_query_value-Shows lib value
              (kept-IsSupported lib name tag exported value kept h) in
          rw (e, shown)
            (by_value key o kept (sent_name-IsNamed lib name tag exported value key e) shows
              (Sends-entries lib fs hs))
    ]
  where
    by_value :
        (key : Bytes) (o : Option Any)
        → ¬ IsLeftOut lib tag exported value
        → IsNamed name tag key
        → Shows lib value o
        → Sends lib fs (entries lib fs)
        → Sends lib (field name tag exported value fs) (entry (some key) o ++ entries lib fs)
    by_value key none kept called shows rest = nothing kept shows rest
    by_value key (some v) kept called shows rest = sent kept called shows rest

-- A struct each of whose fields is left out or has a value that can be sent becomes the parameters of
-- its fields, a later one taking the place of an earlier one of the same name. A field is left out if
-- it is not exported, is tagged `-`, or is tagged `omitempty` and is zero; a nil pointer and an empty
-- list become no parameter; any other field becomes one, under the name in its tag, or its own if the
-- tag has none, with its value printed by the rules of Shows.
pub struct_to_query_params-Sends :
    (lib : FloatLib) (fs : Fields)
    → CanBeSent lib fs
    → (es : Dict Any) × Sends lib fs es
      × (struct_to_query_params lib (some (struct fs)) ≡ (some (copy_into [] es), none))
struct_to_query_params-Sends lib fs h = (
  entries lib fs,
  Sends-entries lib fs h,
  struct_to_query_params-entries lib fs (CanBeSent-AreSendable lib fs h),
)
