-- ===== src/PathParams/Filling.antt =====
-- enhanced_request.go: replacePathParams gives each place of a template its value.
use vecto.Base.{
  ◌≡◌, refl, sym, ◌∙◌, ap, Bool, true, false, List, [], ◌∷◌, ◌++◌, Bytes, Dict, lookup, All,
  has_prefix, str_eq, str_eq_iff, if◌then◌else◌, arith,
}
use vecto.PathParams.{replacing, braced, coloned, replace_param, replace_path_params}
use vecto.PathParams.Template.{
  Piece, literal, hole, render, fill, IsPiece, IsKey, IsPlain, HasNoBrace, IsColonSafe,
  replacing-plain, HasNoBrace-unopened, replacing-hole, StartsWithSlash,
}
use vecto.Urls.{UrlLib}

IsKey-HasNoBrace : (key : Bytes) → IsKey key → HasNoBrace key
IsKey-HasNoBrace [] h = absurd h
IsKey-HasNoBrace (c ∷ s) h = h.1

IsKey-IsColonSafe : (key : Bytes) → IsKey key → IsColonSafe key
IsKey-IsColonSafe [] h = absurd h
IsKey-IsColonSafe (c ∷ s) h = h.2

unfoldable fill_one : Bytes → Bytes → List Piece → List Piece
fill_one key new [] = []
fill_one key new (literal s ∷ t) = literal s ∷ fill_one key new t
fill_one key new (hole j ∷ t) = (if str_eq j key then literal new else hole j) ∷ fill_one key new t

render_one :
    (key j new : Bytes) (t : List Piece)
    → render ((if str_eq j key then literal new else hole j) ∷ t)
      ≡ (if str_eq j key then new else braced j) ++ render t
unfolding render
render_one key j new t = ground arith

-- The braces.
replacing-render :
    (key new : Bytes) (t : List Piece)
    → IsKey key
    → All IsPiece t
    → replacing (braced key) new 0 (render t) ≡ render (fill_one key new t)
unfolding render fill_one
replacing-render key new [] k h = unfold replacing in refl
replacing-render key new (literal s ∷ t) k (p, h) =
    replacing-plain key new s (render t) (HasNoBrace-unopened s p.0)
    ∙ ap (λ r. s ++ r) (replacing-render key new t k h)
replacing-render key new (hole j ∷ t) k (p, h) =
    replacing-hole key j new (render t) (IsKey-HasNoBrace key k) (IsKey-HasNoBrace j p)
    ∙ ap (λ r. (if str_eq j key then new else braced j) ++ r) (replacing-render key new t k h)
    ∙ sym (render_one key j new (fill_one key new t))

-- The colons.
no_prefix : (key s : Bytes) → IsKey key → StartsWithSlash s → has_prefix s key ≡ false
unfolding has_prefix
no_prefix [] s k h = absurd k
no_prefix (b ∷ key) [] k h = absurd h
no_prefix (b ∷ key) (c ∷ s) k h = ground (arith, k.0)

replacing-IsColonSafe :
    (key new s : Bytes) → IsKey key → IsColonSafe s → replacing (coloned key) new 0 s ≡ s
unfolding replacing has_prefix
replacing-IsColonSafe key new [] k h = refl
replacing-IsColonSafe key new (c ∷ s) k (p, h) =
    grind (arith, no_prefix key s k, replacing-IsColonSafe key new s k h)

IsColonSafe-append : (s t : Bytes) → IsColonSafe s → IsColonSafe t → IsColonSafe (s ++ t)
IsColonSafe-append [] t hs ht = ht
IsColonSafe-append (c ∷ []) t (p, hs) ht = ((λ e. absurd (p e)), ht)
IsColonSafe-append (c ∷ d ∷ s) t (p, hs) ht = (p, IsColonSafe-append (d ∷ s) t hs ht)

braced-IsColonSafe : (key : Bytes) → IsColonSafe key → IsColonSafe (braced key)
braced-IsColonSafe key h = (
  (λ e. absurd (omega arith)),
  IsColonSafe-append key (b'}' ∷ []) h ((λ e. absurd (omega arith)), tt),
)

render-IsColonSafe : (t : List Piece) → All IsPiece t → IsColonSafe (render t)
unfolding render
render-IsColonSafe [] h = tt
render-IsColonSafe (literal s ∷ t) (p, h) =
    IsColonSafe-append s (render t) p.1 (render-IsColonSafe t h)
render-IsColonSafe (hole key ∷ t) (p, h) =
    IsColonSafe-append (braced key) (render t) (braced-IsColonSafe key (IsKey-IsColonSafe key p))
      (render-IsColonSafe t h)

fill_one-IsPiece :
    (key new : Bytes) (t : List Piece)
    → IsPlain new
    → All IsPiece t
    → All IsPiece (fill_one key new t)
unfolding fill_one
fill_one-IsPiece key new [] n h = tt
fill_one-IsPiece key new (literal s ∷ t) n (p, h) = (p, fill_one-IsPiece key new t n h)
fill_one-IsPiece key new (hole j ∷ t) n (p, h) =
    (by_case (str_eq j key), fill_one-IsPiece key new t n h)
  where
    by_case : (b : Bool) → IsPiece (if b then literal new else hole j)
    by_case true = n
    by_case false = p

replace_param-render :
    (key new : Bytes) (t : List Piece)
    → IsKey key
    → IsPlain new
    → All IsPiece t
    → replace_param key new (render t) ≡ render (fill_one key new t)
unfolding replace_param
replace_param-render key new t k n h =
    ap (replacing (coloned key) new 0) (replacing-render key new t k h)
    ∙ replacing-IsColonSafe key new (render (fill_one key new t)) k
        (render-IsColonSafe (fill_one key new t) (fill_one-IsPiece key new t n h))

fill-cons :
    (escape : Bytes → Bytes) (key value : Bytes) (params : Dict Bytes) (t : List Piece)
    → fill escape ((key, value) ∷ params) t ≡ fill escape params (fill_one key (escape value) t)
unfolding fill fill_one lookup
fill-cons escape key value params [] = refl
fill-cons escape key value params (literal s ∷ t) =
    ap (λ r. literal s ∷ r) (fill-cons escape key value params t)
fill-cons escape key value params (hole j ∷ t) =
    ground (arith, str_eq_iff j key, str_eq_iff key j, fill-cons escape key value params t)

fill_nil : (escape : Bytes → Bytes) (t : List Piece) → fill escape [] t ≡ t
unfolding fill lookup
fill_nil escape [] = refl
fill_nil escape (literal s ∷ t) = ap (λ r. literal s ∷ r) (fill_nil escape t)
fill_nil escape (hole key ∷ t) = ap (λ r. hole key ∷ r) (fill_nil escape t)

-- Replacing the parameters in a template `{a}/…/{b}` gives each place that has a value its escaped
-- value and leaves the others: for keys that are not empty, do not begin with a slash and hold no
-- brace, and for literals, keys and escaped values without a brace in which a colon stands only before
-- a slash.
pub replace_path_params-fill :
    (lib : UrlLib) (params : Dict Bytes) (t : List Piece)
    → All IsPiece t
    → All (λ e. IsKey e.0 × IsPlain (lib.path_escape e.1)) params
    → replace_path_params lib (render t) params ≡ render (fill lib.path_escape params t)
unfolding replace_path_params
replace_path_params-fill lib [] t h p = ap render (sym (fill_nil lib.path_escape t))
replace_path_params-fill lib ((key, value) ∷ params) t h ((k, n), p) =
    ap (λ s. replace_path_params lib s params)
      (replace_param-render key (lib.path_escape value) t k n h)
    ∙ replace_path_params-fill lib params (fill_one key (lib.path_escape value) t)
        (fill_one-IsPiece key (lib.path_escape value) t n h) p
    ∙ ap render (sym (fill-cons lib.path_escape key value params t))
