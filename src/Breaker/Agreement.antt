-- ===== src/Breaker/Agreement.antt =====
-- circuit_breaker.go: a list of failures that was cleaned up agrees with the whole history.
use vecto.Base.{◌≤ℤ◌, ◌≡◌, refl, ◌∙◌, Bool, true, List, [], ◌∷◌, ◌++◌, keep, arith, -ℤ_parts}
use vecto.Breaker.{Time, Duration, FailureRecord, in_window}

in_window_later :
    (window : Duration) (now later : Time) (f : FailureRecord)
    → now ≤ℤ later
    → in_window window later f ≡ true
    → in_window window now f ≡ true
unfolding in_window
in_window_later window now later f h e = ground (arith, -ℤ_parts now window, -ℤ_parts later window)

pub keep-keep :
    (window : Duration) (now later : Time) (fs : List FailureRecord)
    → now ≤ℤ later
    → keep (in_window window later) (keep (in_window window now) fs)
      ≡ keep (in_window window later) fs
keep-keep window now later [] h = refl
keep-keep window now later (f ∷ fs) h =
    ground (arith, in_window_later window now later f h, keep-keep window now later fs h)

keep-append {ℓ} :
    {A : Type ℓ} (p : A → Bool) (xs ys : List A) → keep p (xs ++ ys) ≡ keep p xs ++ keep p ys
keep-append p [] ys = refl
keep-append p (x ∷ xs) ys = ground (arith, keep-append p xs ys)

-- From `now` on the list of the breaker and the history agree on every window.
abbrev pub Agree : Duration → Time → List FailureRecord → List FailureRecord → Type 0
Agree window now fs history =
    (t : Time) → now ≤ℤ t → keep (in_window window t) fs ≡ keep (in_window window t) history

pub Agree-keep :
    (window : Duration) (before now : Time) (fs history : List FailureRecord)
    → before ≤ℤ now
    → Agree window before fs history
    → Agree window now (keep (in_window window now) fs) history
Agree-keep window before now fs history h agree t later =
    keep-keep window now t fs later ∙ agree t (omega arith)

pub Agree-append :
    (window : Duration) (before now : Time) (fs history new : List FailureRecord)
    → before ≤ℤ now
    → Agree window before fs history
    → Agree window now (fs ++ new) (history ++ new)
Agree-append window before now fs history new h agree t later =
    rw (keep-append (in_window window t) fs new, keep-append (in_window window t) history new)
      (rw (agree t (omega arith)))
