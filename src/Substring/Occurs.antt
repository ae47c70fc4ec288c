-- ===== src/Substring/Occurs.antt =====
-- response_helpers.go: containsString decides whether one text occurs in another.
use vecto.Base.{
  ℕ, zero, suc, ◌+◌, ◌≤◌, ◌<◌, ◌≡◌, refl, sym, ◌∙◌, ap, ◌≢◌, ◌↔◌, true, false, [], ◌∷◌, ◌++◌, List,
  Bytes, str_eq, str_eq_complete, str_eq_sound, length, length-append, take, drop, arith,
  Bool-cases, inl, inr,
}
use vecto.Substring.{occurs_from, contains_string}

-- `substr` stands in `s` between two texts.
pub record Occurs (substr s : Bytes) : Type 0 where
  pub before : Bytes
  pub after : Bytes
  pub split : s ≡ before ++ (substr ++ after)

take-append-drop {ℓ} : {A : Type ℓ} (n : ℕ) (xs : List A) → take n xs ++ drop n xs ≡ xs
take-append-drop zero xs = refl
take-append-drop (suc n) [] = refl
take-append-drop (suc n) (x ∷ xs) = rw (take-append-drop n xs)

drop-length {ℓ} : {A : Type ℓ} (xs ys : List A) → drop (length xs) (xs ++ ys) ≡ ys
drop-length [] ys = refl
drop-length (x ∷ xs) ys = drop-length xs ys

take-length {ℓ} : {A : Type ℓ} (xs ys : List A) → take (length xs) (xs ++ ys) ≡ xs
take-length [] ys = refl
take-length (x ∷ xs) ys = rw (take-length xs ys)

Occurs-at : (s substr : Bytes) (i : ℕ) → take (length substr) (drop i s) ≡ substr → Occurs substr s
Occurs-at s substr i e = record {
  before = take i s;
  after = drop (length substr) (drop i s);
  split =
      sym (take-append-drop i s)
      ∙ ap (λ t. take i s ++ t)
          (sym (take-append-drop (length substr) (drop i s))
            ∙ ap (λ t. t ++ drop (length substr) (drop i s)) e);
}

occurs_from_sound :
    (s substr : Bytes) (i rounds : ℕ) → occurs_from s substr i rounds ≡ true → Occurs substr s
unfolding occurs_from
occurs_from_sound s substr i zero h = cc
occurs_from_sound s substr i (suc rounds) h =
    elim (Bool-cases (str_eq (take (length substr) (drop i s)) substr)) [
      | inl here ↦ Occurs-at s substr i (str_eq_sound _ _ here)
      | inr later ↦ occurs_from_sound s substr (i + 1) rounds (ground arith)
    ]

occurs-differs :
    (s substr : Bytes) (i k : ℕ)
    → str_eq (take (length substr) (drop i s)) substr ≡ false
    → take (length substr) (drop k s) ≡ substr
    → i ≢ k
occurs-differs s substr i k later e same =
    let here : take (length substr) (drop i s) ≡ substr = rw same e in
    cc (later, str_eq_complete (take (length substr) (drop i s)) substr here)

-- A match at `k`, within the rounds left, is found.
occurs_from_complete :
    (s substr : Bytes) (i rounds k : ℕ)
    → i ≤ k
    → k < i + rounds
    → take (length substr) (drop k s) ≡ substr
    → occurs_from s substr i rounds ≡ true
unfolding occurs_from
occurs_from_complete s substr i zero k lo hi e = absurd (omega arith)
occurs_from_complete s substr i (suc rounds) k lo hi e =
    elim (Bool-cases (str_eq (take (length substr) (drop i s)) substr)) [
      | inl here ↦ rw here
      | inr later ↦
          let differs : i ≢ k = occurs-differs s substr i k later e in
          rw later (occurs_from_complete s substr (i + 1) rounds k (omega arith) (omega arith) e)
    ]

length-Occurs :
    (s substr : Bytes) (o : Occurs substr s)
    → length s ≡ length o.before + (length substr + length o.after)
length-Occurs s substr o = omega (
  arith,
  ap length o.split,
  length-append o.before (substr ++ o.after),
  length-append substr o.after,
)

take-Occurs :
    (s substr : Bytes) (o : Occurs substr s)
    → take (length substr) (drop (length o.before) s) ≡ substr
take-Occurs s substr o =
    rw (o.split, drop-length o.before (substr ++ o.after)) (take-length substr o.after)

Occurs-complete :
    (s substr : Bytes) → substr ≢ [] → Occurs substr s → contains_string s substr ≡ true
unfolding contains_string
Occurs-complete s [] h o = absurd (h refl)
Occurs-complete [] (c ∷ cs) h o = absurd (omega (arith, length-Occurs [] (c ∷ cs) o))
Occurs-complete (b ∷ s) (c ∷ cs) h o =
    occurs_from_complete (b ∷ s) (c ∷ cs) 0 _ (length o.before) (omega arith)
      (omega (arith, length-Occurs (b ∷ s) (c ∷ cs) o)) (take-Occurs (b ∷ s) (c ∷ cs) o)

contains_string_sound :
    (s substr : Bytes) → contains_string s substr ≡ true → (substr ≢ []) × Occurs substr s
unfolding contains_string
contains_string_sound [] substr h = cc
contains_string_sound (b ∷ s) [] h = cc
contains_string_sound (b ∷ s) (c ∷ cs) h = ((λ e. cc), occurs_from_sound (b ∷ s) (c ∷ cs) 0 _ h)

-- A text that is not empty is contained exactly when it occurs; the empty text never is, unlike
-- with strings.Contains.
pub contains_string_iff :
    (s substr : Bytes) → (contains_string s substr ≡ true) ↔ ((substr ≢ []) × Occurs substr s)
contains_string_iff s substr =
    (contains_string_sound s substr, λ h. Occurs-complete s substr h.0 h.1)
