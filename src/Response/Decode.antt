-- ===== src/Response/Decode.antt =====
-- response_helpers.go: which decoder `Result` uses, and when it leaves the destination alone.
use vecto.Base.{◌≡◌, ◌∙◌, true, false, some, Bytes, codes, arith, Bool-cases, inl, inr}
use vecto.Http.{Response}
use vecto.Response.{Unmarshal, unmarshal_as, decode_by, result, header}
use vecto.Substring.{contains_string, is_empty}
use vecto.Substring.Occurs.{Occurs, contains_string_iff}

not-contained : (s substr : Bytes) → ¬ Occurs substr s → contains_string s substr ≡ false
not-contained s substr absent = elim (Bool-cases (contains_string s substr)) [
  | inl found ↦ absurd (absent ((contains_string_iff s substr).0 found).1)
  | inr missing ↦ missing
]

module _ {D : Type 0} (json xml : Unmarshal D) where
  decode_by-json :
      (content_type body : Bytes) (d : D)
      → contains_string content_type (codes "application/json") ≡ true
      → decode_by json xml content_type body d
        ≡ unmarshal_as json (codes "failed to unmarshal JSON result") body d
  unfolding decode_by
  decode_by-json content_type body d h = ground arith

  decode_by-xml :
      (content_type body : Bytes) (d : D)
      → contains_string content_type (codes "application/json") ≡ false
      → contains_string content_type (codes "application/xml") ≡ true
      → decode_by json xml content_type body d
        ≡ unmarshal_as xml (codes "failed to unmarshal XML result") body d
  unfolding decode_by
  decode_by-xml content_type body d h k = ground arith

  result-decodes :
      (r : Response) (d : D)
      → r.success ≡ true
      → is_empty r.body ≡ false
      → result json xml (some r) (some d) ≡ (
          let (d', err) = decode_by json xml (header (some r) (codes "Content-Type")) r.body d in
          (some d', err))
  unfolding result
  result-decodes r d h k = ground arith

  -- For a success with a body, and a content type in which application/json occurs, the result is
  -- what the JSON decoder leaves in the destination, and its error.
  pub result-json :
      (r : Response) (d : D)
      → r.success ≡ true
      → is_empty r.body ≡ false
      → Occurs (codes "application/json") (header (some r) (codes "Content-Type"))
      → result json xml (some r) (some d) ≡ (
          let (d', err) = unmarshal_as json (codes "failed to unmarshal JSON result") r.body d in
          (some d', err))
  result-json r d h k o =
      let found : contains_string (header (some r) (codes "Content-Type"))
            (codes "application/json")
          ≡ true =
        (contains_string_iff _ _).1 ((λ e. cc), o) in
      result-decodes r d h k ∙ rw (decode_by-json _ r.body d found)

  -- For a success with a body, and a content type in which application/json does not occur and
  -- application/xml does, the same holds of the XML decoder.
  pub result-xml :
      (r : Response) (d : D)
      → r.success ≡ true
      → is_empty r.body ≡ false
      → ¬ Occurs (codes "application/json") (header (some r) (codes "Content-Type"))
      → Occurs (codes "application/xml") (header (some r) (codes "Content-Type"))
      → result json xml (some r) (some d) ≡ (
          let (d', err) = unmarshal_as xml (codes "failed to unmarshal XML result") r.body d in
          (some d', err))
  result-xml r d h k absent o =
      let found : contains_string (header (some r) (codes "Content-Type")) (codes "application/xml")
          ≡ true =
        (contains_string_iff _ _).1 ((λ e. cc), o) in
      result-decodes r d h k ∙ rw (decode_by-xml _ r.body d (not-contained _ _ absent) found)
