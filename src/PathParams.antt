-- ===== src/PathParams.antt =====
-- enhanced_request.go: replacePathParams and encodeFormData, which make a URL and a body from the maps
-- of the request options.
pub mod Template
pub mod Filling
use vecto.Base.{
  ℕ, zero, suc, ◌-◌, ◌≡◌, refl, if◌then◌else◌, List, [], ◌∷◌, ◌++◌, map, Bytes, codes, Dict, length,
  has_prefix,
}
use vecto.Substring.{is_empty}
use vecto.Urls.{UrlLib}

-- strings.ReplaceAll for an `old` that is not empty; the number counts the bytes of an occurrence
-- that are still to be skipped.
unfoldable pub replacing : Bytes → Bytes → ℕ → Bytes → Bytes
replacing old new skip [] = []
replacing old new (suc skip) (c ∷ s) = replacing old new skip s
replacing old new zero (c ∷ s) =
    let found = replacing old new (length old - 1) s in
    let rest = replacing old new zero s in if has_prefix (c ∷ s) old then new ++ found else c ∷ rest

unfoldable pub replace_all : Bytes → Bytes → Bytes → Bytes
unfolding replacing
replace_all s old new = replacing old new 0 s

abbrev pub braced : Bytes → Bytes
braced key = b'{' ∷ (key ++ b'}' ∷ [])

abbrev pub coloned : Bytes → Bytes
coloned key = b':' ∷ key

-- One round of the loop over the map.
unfoldable pub replace_param : Bytes → Bytes → Bytes → Bytes
unfolding replace_all
replace_param key encoded s = replace_all (replace_all s (braced key) encoded) (coloned key) encoded

module _ (lib : UrlLib) where
  unfoldable pub replace_path_params : Bytes → Dict Bytes → Bytes
  unfolding replace_param
  replace_path_params url_str [] = url_str
  replace_path_params url_str ((key, value) ∷ params) =
      replace_path_params (replace_param key (lib.path_escape value) url_str) params

  -- (url.Values).Set for each entry of a map, which holds a key once.
  unfoldable pub encode_form_data : Dict Bytes → Bytes
  encode_form_data values =
      if is_empty values then [] else lib.encode_query (map (λ e. (e.0, e.1 ∷ [])) values)

prefix_test : replace_param (codes "id") (codes "7") (codes "/:idx/{id}") ≡ codes "/7x/7"
unfolding replace_param has_prefix
prefix_test = refl
