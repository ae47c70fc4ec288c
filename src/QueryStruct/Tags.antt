-- ===== src/QueryStruct/Tags.antt =====
-- enhanced_request.go: what a `query` tag says.
use vecto.Base.{
  ◌≡◌, ◌≢◌, refl, sym, ◌∙◌, ap, ◌⊎◌, inl, inr, ◌==◌, ℕ, true, List, [], ◌∷◌, ◌++◌, map, Bytes, All,
  arith, Bool-cases, str_eq, str_eq_iff,
}
use vecto.QueryStruct.{split, trim_all, named, parse_tag, contains}
use vecto.Validation.{trim_space}

-- The parts with a comma before each but the first.
abbrev pub join : Bytes → List Bytes → Bytes
join first [] = first
join first (second ∷ rest) = first ++ b',' ∷ join second rest

abbrev IsPart : Bytes → Type 0
IsPart = All (λ c. c ≢ b',')

-- The tag is a name and options between commas, with or without blanks around each.
pub record IsReadAs (tag name : Bytes) (opts : List Bytes) : Type 0 where
  pub first : Bytes
  pub rest : List Bytes
  pub whole : join first rest ≡ tag
  pub parts : All IsPart (first ∷ rest)
  pub name_trimmed : trim_space first ≡ name
  pub opts_trimmed : map trim_space rest ≡ opts

trim_all_lem : (ss : List Bytes) → trim_all ss ≡ map trim_space ss
unfolding trim_all
trim_all_lem [] = refl
trim_all_lem (s ∷ ss) = ap (λ t. trim_space s ∷ t) (trim_all_lem ss)

join-cons :
    (c : ℕ) (first : Bytes) (rest : List Bytes) → join (c ∷ first) rest ≡ c ∷ join first rest
join-cons c first [] = refl
join-cons c first (second ∷ rest) = refl

split-parts :
    (s : Bytes)
    → (first : Bytes) × (rest : List Bytes) × (split s b',' ≡ first ∷ rest)
      × (join first rest ≡ s)
      × All IsPart (first ∷ rest)
unfolding split
split-parts [] = ([], [], refl, refl, (tt, tt))
split-parts (c ∷ s) =
    let (first, rest, e, whole, parts) = split-parts s in
    elim (Bool-cases (c == b',')) [
      | inl comma ↦ ([], first ∷ rest, ground (arith, e), ground (arith, whole), (tt, parts))
      | inr letter ↦ (
        c ∷ first,
        rest,
        ground (arith, e),
        join-cons c first rest ∙ ap (λ t. c ∷ t) whole,
        (((λ same. ground arith), parts.0), parts.1),
      )
    ]

split-join :
    (first : Bytes) (rest : List Bytes)
    → All IsPart (first ∷ rest)
    → split (join first rest) b',' ≡ first ∷ rest
unfolding split
split-join [] [] parts = refl
split-join [] (second ∷ rest) (none_in, parts) = ap (λ t. [] ∷ t) (split-join second rest parts)
split-join (c ∷ first) rest ((other, others), parts) =
    rw (join-cons c first rest) (ground (arith, other, split-join first rest (others, parts)))

pub parse_tag-IsReadAs : (tag : Bytes) → IsReadAs tag (parse_tag tag).0 (parse_tag tag).1
unfolding parse_tag named
parse_tag-IsReadAs tag =
    let (first, rest, e, whole, parts) = split-parts tag in
    record {
      first = first;
      rest = rest;
      whole = whole;
      parts = parts;
      name_trimmed = rw e refl;
      opts_trimmed = rw e (sym (trim_all_lem rest));
    }

pub IsReadAs-parse_tag :
    (tag name : Bytes) (opts : List Bytes) → IsReadAs tag name opts → parse_tag tag ≡ (name, opts)
unfolding parse_tag named
IsReadAs-parse_tag tag name opts r =
    let e = split-join r.first r.rest r.parts in
    let same = trim_all_lem r.rest in rw (← r.whole, e, same, r.name_trimmed, r.opts_trimmed) refl

abbrev pub Has : Bytes → List Bytes → Type 0
Has item [] = ⊥
Has item (s ∷ ss) = (s ≡ item) ⊎ Has item ss

pub contains-Has : (opts : List Bytes) (item : Bytes) → contains opts item ≡ true → Has item opts
unfolding contains
contains-Has [] item h = absurd (ground arith)
contains-Has (s ∷ ss) item h = elim (Bool-cases (str_eq s item)) [
  | inl here ↦ inl ((str_eq_iff s item).0 here)
  | inr other ↦ inr (contains-Has ss item (ground arith))
]

pub Has-contains : (opts : List Bytes) (item : Bytes) → Has item opts → contains opts item ≡ true
unfolding contains
Has-contains [] item h = absurd h
Has-contains (s ∷ ss) item (inl here) = ground (arith, (str_eq_iff s item).1 here)
Has-contains (s ∷ ss) item (inr there) = ground (arith, Has-contains ss item there)
