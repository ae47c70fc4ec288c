-- ===== src/Trace/Curl.antt =====
-- trace.go: what a shell makes of the text of ToCurl.
use vecto.Base.{
  ℕ, Bool, ◌≡◌, refl, ◌∙◌, ap, ◌≢◌, ◌≤◌, ◌||◌, Option, none, some, List, [], ◌∷◌, ◌++◌, ◌==◌,
  append_assoc, append-nil, Bytes, Dict, codes, get_or, All, arith, if◌then◌else◌,
}
use vecto.Http.{Any, Request}
use vecto.Trace.{curl_headers, curl_data, format_data_for_curl, to_curl}

-- A POSIX shell between words, in a word, between single quotes, and behind a backslash, with what it
-- has of the word.
pub data Shell : Type 0 where
  between : Shell
  bare quoted : Bytes → Shell
  escaped : Option Bytes → Shell

is_blank : ℕ → Bool
is_blank c = c == b' ' || c == b'\t' || c == b'\n'

joined : Option Bytes → Shell
joined none = between
joined (some w) = bare w

-- One character outside quotes.
plainly : Option Bytes → ℕ → Option Bytes × Shell
unfolding is_blank
plainly w c =
    if is_blank c
    then (w, between)
    else if c == b'\''
    then (none, quoted (get_or w []))
    else if c == b'\\'
    then (none, escaped w)
    else (none, bare (get_or w [] ++ c ∷ []))

-- One character: the word that it ends, and the new state. A backslash before a line break joins the
-- lines.
step : Shell → ℕ → Option Bytes × Shell
unfolding plainly joined
step between c = plainly none c
step (bare w) c = plainly (some w) c
step (quoted w) c = if c == b'\'' then (none, bare w) else (none, quoted (w ++ c ∷ []))
step (escaped w) c = if c == b'\n' then (none, joined w) else (none, bare (get_or w [] ++ c ∷ []))

with_word : Option Bytes → List Bytes → List Bytes
with_word none ws = ws
with_word (some w) ws = w ∷ ws

-- The words of a line without double quotes and without the shell's operators.
unfoldable pub words : Shell → Bytes → List Bytes
unfolding step with_word
words between [] = []
words (bare w) [] = w ∷ []
words (quoted w) [] = w ∷ []
words (escaped w) [] = get_or w [] ∷ []
words st (c ∷ s) = with_word (step st c).0 (words (step st c).1 s)

abbrev pub IsUpper : ℕ → Type 0
IsUpper c = (b'A' ≤ c) × (c ≤ b'Z')

abbrev pub IsUnquoted : ℕ → Type 0
IsUnquoted c = c ≢ b'\''

words-bare :
    (w s rest : Bytes) → All IsUpper s → words (bare w) (s ++ rest) ≡ words (bare (w ++ s)) rest
unfolding words
words-bare w [] rest h = rw append-nil
words-bare w (c ∷ s) rest (upper, h) =
    ground (arith, words-bare (w ++ c ∷ []) s rest h, append_assoc w (c ∷ []) s)

words-quoted :
    (w s rest : Bytes)
    → All IsUnquoted s
    → words (quoted w) (s ++ rest) ≡ words (quoted (w ++ s)) rest
unfolding words
words-quoted w [] rest h = rw append-nil
words-quoted w (c ∷ s) rest (other, h) =
    ground (arith, words-quoted (w ++ c ∷ []) s rest h, append_assoc w (c ∷ []) s)

abbrev pub IsUnquotedHeader : Bytes × Bytes → Type 0
IsUnquotedHeader (k, v) = All IsUnquoted k × All IsUnquoted v

abbrev pub header_words : Dict Bytes → List Bytes
header_words [] = []
header_words ((k, v) ∷ hs) = codes "-H" ∷ ((k ++ codes ": ") ++ v) ∷ header_words hs

abbrev pub body_text : (Any → Bytes) → Option Any → Bytes
body_text show none = []
body_text show (some v) = format_data_for_curl show v

abbrev pub body_words : Bytes → List Bytes
body_words [] = []
body_words (c ∷ s) = codes "-d" ∷ (c ∷ s) ∷ []

words-curl_data : (w s : Bytes) → All IsUnquoted s → words (bare w) (curl_data s) ≡ w ∷ body_words s
unfolding words curl_data
words-curl_data w [] h = refl
words-curl_data w (c ∷ s) h = ap (λ t. w ∷ codes "-d" ∷ t) (words-quoted [] (c ∷ s) (b'\'' ∷ []) h)

curl_headers-append :
    (k v : Bytes) (hs : Dict Bytes) (rest : Bytes)
    → curl_headers ((k, v) ∷ hs) ++ rest
      ≡ codes " \\\n  -H '" ++ (k ++ (codes ": " ++ (v ++ b'\'' ∷ (curl_headers hs ++ rest))))
unfolding curl_headers
curl_headers-append k v hs rest = simp append_assoc

words-curl_headers :
    (w : Bytes) (hs : Dict Bytes) (rest : Bytes) (ws : List Bytes)
    → All IsUnquotedHeader hs
    → ((v : Bytes) → words (bare v) rest ≡ v ∷ ws)
    → words (bare w) (curl_headers hs ++ rest) ≡ w ∷ (header_words hs ++ ws)
unfolding words curl_headers
words-curl_headers w [] rest ws h last = last w
words-curl_headers w ((k, v) ∷ hs) rest ws ((plain_k, plain_v), h) last =
    ap (words (bare w)) (curl_headers-append k v hs rest)
    ∙ ap (λ t. w ∷ codes "-H" ∷ t)
        (words-quoted [] k _ plain_k
          ∙ words-quoted k (codes ": ") (v ++ b'\'' ∷ (curl_headers hs ++ rest)) (ground arith)
          ∙ words-quoted (k ++ codes ": ") v (b'\'' ∷ (curl_headers hs ++ rest)) plain_v
          ∙ words-curl_headers ((k ++ codes ": ") ++ v) hs rest ws h last)

words_upper :
    (s rest : Bytes) → s ≢ [] → All IsUpper s → words between (s ++ rest) ≡ words (bare s) rest
unfolding words
words_upper [] rest some_s h = absurd (some_s refl)
words_upper (c ∷ s) rest some_s (upper, h) = ground (arith, words-bare (c ∷ []) s rest h)

words_body :
    (show : Any → Bytes) (w : Bytes) (body : Option Any)
    → All IsUnquoted (body_text show body)
    → words (bare w) (elim body [ none ↦ [] | some v ↦ curl_data (format_data_for_curl show v) ])
      ≡ w ∷ body_words (body_text show body)
unfolding words
words_body show w none h = refl
words_body show w (some v) h = words-curl_data w (format_data_for_curl show v) h

-- A shell splits the command that ToCurl prints into curl, -X, the method, the URL, -H with each
-- header, and -d with the body if it is not empty: for a method of upper-case letters, and a URL,
-- headers and a body that hold no single quote.
pub words-to_curl :
    (show : Any → Bytes) (r : Request)
    → r.method ≢ []
    → All IsUpper r.method
    → All IsUnquoted r.url
    → All IsUnquotedHeader r.headers
    → All IsUnquoted (body_text show r.body)
    → words between (to_curl show (some r))
      ≡ codes "curl"
        ∷ codes "-X"
        ∷ r.method
        ∷ r.url
        ∷ (header_words r.headers ++ body_words (body_text show r.body))
unfolding to_curl words
words-to_curl show r some_method upper url headers body =
    ap (λ t. codes "curl" ∷ codes "-X" ∷ t)
      (words_upper r.method _ some_method upper
        ∙ ap (λ t. r.method ∷ t)
            (words-quoted [] r.url _ url
              ∙ words-curl_headers r.url r.headers _ _ headers
                  (λ w. words_body show w r.body body)))
