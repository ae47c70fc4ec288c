-- ===== src/Config/Merge.antt =====
-- config.go: what merging a caller's configuration with the defaults keeps, and what it loses.
use vecto.Base.{
  ◌≡◌, refl, ◌∙◌, false, Option, none, some, [], ◌∷◌, Bytes, Dict, lookup, copy_into, All, arith,
  if◌then◌else◌,
}
use vecto.Base.MapLaws.{All-copy_into, Distinct, lookup-copy_into, first_some}
use vecto.Config.{
  Config, merge_config, validate_config, clone_headers, validate_size, validate_base_url,
}
use vecto.Substring.{is_empty}
use vecto.Urls.{UrlLib}
use vecto.Validation.{Unicode, validate_headers, validate_header_name, validate_header_value}

first_some-none : {A : Type 0} (o : Option A) → first_some o none ≡ o
first_some-none none = refl
first_some-none (some a) = refl

lookup-clone_headers :
    (key : Bytes) (m : Dict Bytes) → Distinct m → lookup key (clone_headers m) ≡ lookup key m
unfolding clone_headers lookup
lookup-clone_headers key m d = lookup-copy_into key [] m d ∙ first_some-none (lookup key m)

lookup-merged :
    (key : Bytes) (provided defaults : Dict Bytes)
    → Distinct provided
    → Distinct defaults
    → lookup key (
        if is_empty provided
        then clone_headers defaults
        else copy_into (clone_headers defaults) provided)
      ≡ first_some (lookup key provided) (lookup key defaults)
lookup-merged key [] defaults p d = unfold lookup in lookup-clone_headers key defaults d
lookup-merged key (e ∷ provided) defaults p d =
    lookup-copy_into key (clone_headers defaults) (e ∷ provided) p
    ∙ rw (lookup-clone_headers key defaults d)

-- A header of the merged configuration is the caller's, or else the default, for maps that hold each
-- key once.
pub merge_config-headers :
    (provided defaults : Config) (key : Bytes)
    → Distinct provided.headers
    → Distinct defaults.headers
    → lookup key (merge_config provided defaults).headers
      ≡ first_some (lookup key provided.headers) (lookup key defaults.headers)
unfolding merge_config
merge_config-headers provided defaults key p d =
    lookup-merged key provided.headers defaults.headers p d

-- Merging loses the flags: the client never traces and never writes debug output, whatever the
-- caller asks for.
pub merge_config-flags :
    (provided defaults : Config)
    → ((merge_config provided defaults).enable_trace ≡ false)
      × ((merge_config provided defaults).debug_mode ≡ false)
unfolding merge_config
merge_config-flags provided defaults = (refl, refl)

IsAccepted : Unicode → Bytes × Bytes → Type 0
IsAccepted unicode (k, v) =
    (validate_header_name unicode k ≡ none) × (validate_header_value v ≡ none)

IsAccepted-All :
    (unicode : Unicode) (m : Dict Bytes)
    → validate_headers unicode m ≡ none
    → All (IsAccepted unicode) m
unfolding IsAccepted validate_headers
IsAccepted-All unicode [] h = tt
IsAccepted-All unicode ((k, v) ∷ m) h =
    let rest : validate_headers unicode m ≡ none = ground arith in
    ((ground arith, ground arith), IsAccepted-All unicode m rest)

All-accepted :
    (unicode : Unicode) (m : Dict Bytes)
    → All (IsAccepted unicode) m
    → validate_headers unicode m ≡ none
unfolding IsAccepted validate_headers
All-accepted unicode [] h = refl
All-accepted unicode ((k, v) ∷ m) ((name, value), h) = rw (name, value) (All-accepted unicode m h)

copied-accepted :
    (unicode : Unicode) (dst src : Dict Bytes)
    → validate_headers unicode dst ≡ none
    → validate_headers unicode src ≡ none
    → validate_headers unicode (copy_into dst src) ≡ none
copied-accepted unicode dst src h k = All-accepted unicode (copy_into dst src) (
    All-copy_into (IsAccepted unicode) dst src (IsAccepted-All unicode dst h)
      (IsAccepted-All unicode src k))

size-merge_config :
    (provided defaults : Config)
    → validate_size provided ≡ none
    → validate_size defaults ≡ none
    → validate_size (merge_config provided defaults) ≡ none
unfolding merge_config validate_size
size-merge_config provided defaults p d = ground arith

base_url-merge_config :
    (lib : UrlLib) (provided defaults : Config)
    → validate_base_url lib provided.base_url ≡ none
    → validate_base_url lib defaults.base_url ≡ none
    → validate_base_url lib (merge_config provided defaults).base_url ≡ none
unfolding merge_config
base_url-merge_config lib provided defaults p d = ground arith

headers-merged :
    (unicode : Unicode) (provided defaults : Dict Bytes)
    → validate_headers unicode provided ≡ none
    → validate_headers unicode defaults ≡ none
    → validate_headers unicode (
        if is_empty provided
        then clone_headers defaults
        else copy_into (clone_headers defaults) provided)
      ≡ none
unfolding clone_headers
headers-merged unicode [] defaults p d = copied-accepted unicode [] defaults p d
headers-merged unicode (e ∷ provided) defaults p d =
    copied-accepted unicode (copy_into [] defaults) (e ∷ provided)
      (copied-accepted unicode [] defaults (unfold validate_headers in refl) d) p

headers-merge_config :
    (unicode : Unicode) (provided defaults : Config)
    → validate_headers unicode provided.headers ≡ none
    → validate_headers unicode defaults.headers ≡ none
    → validate_headers unicode (merge_config provided defaults).headers ≡ none
unfolding merge_config
headers-merge_config unicode provided defaults p d =
    headers-merged unicode provided.headers defaults.headers p d

-- Merging two configurations that pass validation gives one that does.
pub validate-merge_config :
    (lib : UrlLib) (unicode : Unicode) (provided defaults : Config)
    → validate_config lib unicode provided ≡ none
    → validate_config lib unicode defaults ≡ none
    → validate_config lib unicode (merge_config provided defaults) ≡ none
unfolding validate_config
validate-merge_config lib unicode provided defaults p d =
    let size = size-merge_config provided defaults (ground arith) (ground arith) in
    let url = base_url-merge_config lib provided defaults (ground arith) (ground arith) in
    let ok = headers-merge_config unicode provided defaults (ground arith) (ground arith) in
    rw (size, url) (rw ok)
