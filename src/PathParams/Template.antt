-- ===== src/PathParams/Template.antt =====
-- enhanced_request.go: replacePathParams fills in a template.
use vecto.Base.{
  ◌≡◌, refl, ◌∙◌, ◌≢◌, inl, inr, Bool-cases, Option, none, some, false, List, [], ◌∷◌, ◌++◌,
  append_assoc, Bytes, Dict, lookup, length, All, All-append, if◌then◌else◌, has_prefix,
  has_prefix-append, str_eq, str_eq_iff, arith,
}
use vecto.PathParams.{replacing, braced}

-- A URL with places for parameters.
pub data Piece : Type 0 where
  literal : Bytes → Piece
  hole : Bytes → Piece

unfoldable pub render : List Piece → Bytes
render [] = []
render (literal s ∷ t) = s ++ render t
render (hole key ∷ t) = braced key ++ render t

abbrev filled : Option Bytes → Bytes → Piece
filled none key = hole key
filled (some value) key = literal value

-- The value of each place that has one.
unfoldable pub fill : (Bytes → Bytes) → Dict Bytes → List Piece → List Piece
fill escape params [] = []
fill escape params (literal s ∷ t) = literal s ∷ fill escape params t
fill escape params (hole key ∷ t) =
    elim (lookup key params) [ none ↦ hole key | some value ↦ literal (escape value) ]
    ∷ fill escape params t

-- Each colon is followed by a slash, as in `https://`.
abbrev pub StartsWithSlash : Bytes → Type 0
StartsWithSlash [] = ⊥
StartsWithSlash (c ∷ s) = c ≡ b'/'

abbrev pub IsColonSafe : Bytes → Type 0
IsColonSafe [] = Unit
IsColonSafe (c ∷ s) = (c ≡ b':' → StartsWithSlash s) × IsColonSafe s

abbrev pub HasNoBrace : Bytes → Type 0
HasNoBrace = All (λ c. (c ≢ b'{') × (c ≢ b'}'))

-- A key is not empty, does not begin with a slash, and holds no brace or colon.
abbrev pub IsKey : Bytes → Type 0
IsKey [] = ⊥
IsKey (c ∷ s) = (c ≢ b'/') × HasNoBrace (c ∷ s) × IsColonSafe (c ∷ s)

abbrev pub IsPlain : Bytes → Type 0
IsPlain s = HasNoBrace s × IsColonSafe s

abbrev pub IsPiece : Piece → Type 0
IsPiece (literal s) = IsPlain s
IsPiece (hole key) = IsKey key

-- Bytes before the first brace are copied.
pub replacing-plain :
    (key new s rest : Bytes)
    → All (λ c. c ≢ b'{') s
    → replacing (braced key) new 0 (s ++ rest) ≡ s ++ replacing (braced key) new 0 rest
unfolding replacing has_prefix
replacing-plain key new [] rest h = refl
replacing-plain key new (c ∷ s) rest (p, h) = ground (arith, replacing-plain key new s rest h)

replacing-skip :
    (old new s rest : Bytes) → replacing old new (length s) (s ++ rest) ≡ replacing old new 0 rest
unfolding replacing
replacing-skip old new [] rest = refl
replacing-skip old new (c ∷ s) rest = replacing-skip old new s rest

pub HasNoBrace-unopened : (s : Bytes) → HasNoBrace s → All (λ c. c ≢ b'{') s
HasNoBrace-unopened [] h = tt
HasNoBrace-unopened (c ∷ s) (p, h) = (p.0, HasNoBrace-unopened s h)

prefix-braced :
    (j k rest : Bytes)
    → HasNoBrace j
    → HasNoBrace k
    → has_prefix (j ++ b'}' ∷ rest) (k ++ b'}' ∷ []) ≡ str_eq j k
unfolding has_prefix str_eq
prefix-braced [] [] rest hj hk = refl
prefix-braced [] (b ∷ k) rest hj (p, hk) = ground arith
prefix-braced (a ∷ j) [] rest (p, hj) hk = ground arith
prefix-braced (a ∷ j) (b ∷ k) rest (p, hj) (q, hk) = ground (arith, prefix-braced j k rest hj hk)

closed_key : (key rest : Bytes) → (key ++ b'}' ∷ []) ++ rest ≡ key ++ b'}' ∷ rest
closed_key key rest = append_assoc key (b'}' ∷ []) rest

replacing_at :
    (old new s : Bytes)
    → replacing (b'{' ∷ old) new 0 (b'{' ∷ s) ≡ (
        if has_prefix s old
        then new ++ replacing (b'{' ∷ old) new (length old) s
        else b'{' ∷ replacing (b'{' ∷ old) new 0 s)
unfolding replacing has_prefix
replacing_at old new s = ground arith

replacing_own :
    (key new rest : Bytes)
    → replacing (braced key) new 0 (braced key ++ rest) ≡ new ++ replacing (braced key) new 0 rest
replacing_own key new rest =
    replacing_at (key ++ b'}' ∷ []) new ((key ++ b'}' ∷ []) ++ rest)
    ∙ rw (
      has_prefix-append (key ++ b'}' ∷ []) rest,
      replacing-skip (braced key) new (key ++ b'}' ∷ []) rest,
    )

replacing_other :
    (key j new rest : Bytes)
    → HasNoBrace key
    → HasNoBrace j
    → str_eq j key ≡ false
    → replacing (braced key) new 0 (braced j ++ rest)
      ≡ braced j ++ replacing (braced key) new 0 rest
replacing_other key j new rest hk hj other =
    let missing : has_prefix ((j ++ b'}' ∷ []) ++ rest) (key ++ b'}' ∷ []) ≡ false =
      rw (closed_key j rest) (prefix-braced j key rest hj hk ∙ other) in
    let passed =
      replacing-plain key new (j ++ b'}' ∷ []) rest
        (All-append _ j (b'}' ∷ []) (HasNoBrace-unopened j hj) (omega arith, tt)) in
    replacing_at (key ++ b'}' ∷ []) new ((j ++ b'}' ∷ []) ++ rest) ∙ rw (missing, passed)

-- A place of the key itself is replaced, another one is copied.
pub replacing-hole :
    (key j new rest : Bytes)
    → HasNoBrace key
    → HasNoBrace j
    → replacing (braced key) new 0 (braced j ++ rest)
      ≡ (if str_eq j key then new else braced j) ++ replacing (braced key) new 0 rest
replacing-hole key j new rest hk hj = elim (Bool-cases (str_eq j key)) [
  | inl same ↦ rw same (rw ((str_eq_iff j key).0 same) (replacing_own key new rest))
  | inr other ↦ rw other (replacing_other key j new rest hk hj other)
]
