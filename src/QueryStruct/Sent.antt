-- ===== src/QueryStruct/Sent.antt =====
-- enhanced_request.go: which fields of a struct are sent, and under which names.
use vecto.Base.{
  ◌≡◌, ◌↔◌, refl, sym, ◌∙◌, ap, Bool, Option, none, some, [], ◌∷◌, ◌++◌, Bytes, Dict, insert,
  copy_into, arith, Option-cases, inl, inr,
}
use mathlib.Core.Path.{subst}
use vecto.Http.{Any, Err}
use vecto.QueryStruct.{
  Value, struct, Fields, end, field, FloatLib, field_to_query_value, sent_name, field_params,
  struct_to_query_params,
}
use vecto.QueryStruct.Supported.{IsSupported, field_to_query_value_iff}

-- A field that is not left out has a value that can be sent.
abbrev pub IsSendable : Option Bytes → Value → Type 0
IsSendable none value = Unit
IsSendable (some key) value = IsSupported value

abbrev pub AreSendable : FloatLib → Fields → Type 0
AreSendable lib end = Unit
AreSendable lib (field name tag exported value fs) =
    IsSendable (sent_name lib name tag exported value) value × AreSendable lib fs

abbrev pub entry : Option Bytes → Option Any → Dict Any
entry (some key) (some v) = (key, v) ∷ []
entry _ _ = []

-- The parameters in the order of the fields.
abbrev pub entries : FloatLib → Fields → Dict Any
entries lib end = []
entries lib (field name tag exported value fs) =
    entry (sent_name lib name tag exported value) (field_to_query_value lib value).0
    ++ entries lib fs

module _ (lib : FloatLib) (name tag : Bytes) (exported : Bool) (value : Value) (fs : Fields) where
  params_skipped :
      (params : Dict Any)
      → sent_name lib name tag exported value ≡ none
      → field_params lib (field name tag exported value fs) params ≡ field_params lib fs params
  unfolding field_params
  params_skipped params h = ground arith

  params_sent :
      (key : Bytes) (params : Dict Any)
      → sent_name lib name tag exported value ≡ some key
      → (field_to_query_value lib value).1 ≡ none
      → field_params lib (field name tag exported value fs) params
        ≡ field_params lib fs
            (copy_into params (entry (some key) (field_to_query_value lib value).0))
  unfolding field_params copy_into
  params_sent key params h ok = elim (Option-cases (field_to_query_value lib value).0) [
    | inl nothing ↦ ground arith
    | inr (v, e) ↦ ground arith
  ]

  params_failed :
      (key : Bytes) (params : Dict Any) (err : Err)
      → sent_name lib name tag exported value ≡ some key
      → (field_to_query_value lib value).1 ≡ some err
      → ¬ ((field_params lib (field name tag exported value fs) params).1 ≡ none)
  unfolding field_params
  params_failed key params err h bad = ground arith

copy_into-append {ℓ} :
    {V : Type ℓ} (dst xs ys : Dict V) → copy_into dst (xs ++ ys) ≡ copy_into (copy_into dst xs) ys
unfolding copy_into
copy_into-append dst [] ys = refl
copy_into-append dst ((k, v) ∷ xs) ys = copy_into-append (insert k v dst) xs ys

abbrev Fits : FloatLib → Fields → Dict Any → Type 0
Fits lib fs params = field_params lib fs params ≡ (some (copy_into params (entries lib fs)), none)

field_params-entries :
    (lib : FloatLib) (fs : Fields) (params : Dict Any) → AreSendable lib fs → Fits lib fs params
field_params-entries lib end params h = unfold field_params copy_into in refl
field_params-entries lib (field name tag exported value fs) params (sendable, h) =
    elim (Option-cases (sent_name lib name tag exported value)) [
      | inl skipped ↦
          params_skipped lib name tag exported value fs params skipped
          ∙ rw skipped (field_params-entries lib fs params h)
      | inr (key, e) ↦
          let ok =
            (field_to_query_value_iff lib value).1 (subst (λ o. IsSendable o value) e sendable) in
          let sent = entry (some key) (field_to_query_value lib value).0 in
          params_sent lib name tag exported value fs key params e ok
          ∙ field_params-entries lib fs (copy_into params sent) h
          ∙ rw (e, copy_into-append params sent (entries lib fs))
    ]

-- If it succeeds, the parameters are the entries, a later one taking the place of an earlier one of the
-- same name.
pub struct_to_query_params-entries :
    (lib : FloatLib) (fs : Fields)
    → AreSendable lib fs
    → struct_to_query_params lib (some (struct fs)) ≡ (some (copy_into [] (entries lib fs)), none)
unfolding struct_to_query_params
struct_to_query_params-entries lib fs h = field_params-entries lib fs [] h

field_params-failed :
    (lib : FloatLib) (fs : Fields) (params : Dict Any)
    → (field_params lib fs params).1 ≡ none
    → AreSendable lib fs
field_params-failed lib end params h = tt
field_params-failed lib (field name tag exported value fs) params h =
    elim (Option-cases (sent_name lib name tag exported value)) [
      | inl skipped ↦ (
        rw skipped tt,
        field_params-failed lib fs params (
            ap (λ r. r.1) (sym (params_skipped lib name tag exported value fs params skipped)) ∙ h),
      )
      | inr (key, e) ↦ elim (Option-cases (field_to_query_value lib value).1) [
        | inl ok ↦ (
          rw e ((field_to_query_value_iff lib value).0 ok),
          field_params-failed lib fs _ (
              ap (λ r. r.1) (sym (params_sent lib name tag exported value fs key params e ok)) ∙ h),
        )
        | inr (err, bad) ↦
            absurd (params_failed lib name tag exported value fs key params err e bad h)
      ]
    ]

-- The conversion of a struct fails exactly if a field that is not left out has a value that cannot be
-- sent.
pub struct_to_query_params-AreSendable :
    (lib : FloatLib) (fs : Fields)
    → ((struct_to_query_params lib (some (struct fs))).1 ≡ none) ↔ AreSendable lib fs
unfolding struct_to_query_params
struct_to_query_params-AreSendable lib fs =
    (field_params-failed lib fs [], (λ h. ap (λ r. r.1) (field_params-entries lib fs [] h)))
