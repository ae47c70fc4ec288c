-- ===== src/Breaker/Manager/Keyed.antt =====
-- circuit_breaker.go: the breaker that the manager has under a key was made for that key.
use vecto.Base.{
  get_elem?-length, ℕ, zero, suc, ◌≡◌, refl, sym, ◌∙◌, Option, none, some, List, [], ◌∷◌, ◌++◌,
  length, get_elem?, set, arith, Bytes, lookup, insert, str_eq, lookup-insert, lookup-delete,
  Option-cases, inl, inr, Bool-cases, str_eq_sound,
}
use mathlib.Core.Path.{subst}
use vecto.Breaker.{
  Time, CircuitBreakerConfig, CircuitBreaker, new_circuit_breaker, allow_request, record_result,
}
use vecto.Breaker.Calls.{Call, arrives, returns, call}
use vecto.Breaker.Manager.{
  CircuitBreakerManager, find_or_allocate, remove, clear, call_at, Action, creates, removes, clears,
  uses, act, act_all, config_for, get, new_circuit_breaker_manager,
}

-- Every registered address holds a breaker made for its key.
abbrev IsKeyed : CircuitBreakerManager → Type 0
IsKeyed m =
    (key : Bytes) (a : ℕ)
    → lookup key m.breakers ≡ some a
    → (cb : CircuitBreaker) × (get_elem? m.heap a ≡ some cb) × (cb.key ≡ key)

get_elem?-append :
    {A : Type 0} (xs ys : List A) (i : ℕ) (x : A)
    → get_elem? xs i ≡ some x
    → get_elem? (xs ++ ys) i ≡ some x
get_elem?-append [] ys i x h = cc
get_elem?-append (y ∷ xs) ys zero x h = h
get_elem?-append (y ∷ xs) ys (suc i) x h = get_elem?-append xs ys i x h

set-keyed :
    (heap : List CircuitBreaker) (i j : ℕ) (old new cb : CircuitBreaker)
    → get_elem? heap i ≡ some old
    → new.key ≡ old.key
    → get_elem? heap j ≡ some cb
    → (cb' : CircuitBreaker) × (get_elem? (set heap i new) j ≡ some cb') × (cb'.key ≡ cb.key)
set-keyed [] i j old new cb e k h = cc
set-keyed (x ∷ xs) zero zero old new cb e k h = (new, refl, ground arith)
set-keyed (x ∷ xs) zero (suc j) old new cb e k h = (cb, h, refl)
set-keyed (x ∷ xs) (suc i) zero old new cb e k h = (cb, h, refl)
set-keyed (x ∷ xs) (suc i) (suc j) old new cb e k h = set-keyed xs i j old new cb e k h

key-call : (cb : CircuitBreaker) (c : Call) → (call cb c).key ≡ cb.key
unfolding call allow_request record_result
key-call cb (arrives now) = ground arith
key-call cb (returns res err now) = ground arith

key-new :
    (key : Bytes) (c : CircuitBreakerConfig) (now : Time)
    → (new_circuit_breaker key c now).key ≡ key
unfolding new_circuit_breaker
key-new key c now = refl

abbrev allocated :
    CircuitBreakerManager → Bytes → Option CircuitBreakerConfig → Time → CircuitBreakerManager
allocated m key config now = record m {
  breakers = insert key (length m.heap) m.breakers;
  heap = m.heap ++ new_circuit_breaker key (config_for m config) now ∷ [];
}

find_or_allocate-missing :
    (m : CircuitBreakerManager) (key : Bytes) (config : Option CircuitBreakerConfig) (now : Time)
    → lookup key m.breakers ≡ none
    → find_or_allocate m key config now ≡ (allocated m key config now, length m.heap)
unfolding find_or_allocate
find_or_allocate-missing m key config now h = ground arith

find_or_allocate-found :
    (m : CircuitBreakerManager) (key : Bytes) (config : Option CircuitBreakerConfig) (now : Time)
    (a : ℕ)
    → lookup key m.breakers ≡ some a
    → find_or_allocate m key config now ≡ (m, a)
unfolding find_or_allocate
find_or_allocate-found m key config now a h = ground arith

call_at-dangling :
    (m : CircuitBreakerManager) (i : ℕ) (c : Call) → get_elem? m.heap i ≡ none → call_at m i c ≡ m
unfolding call_at
call_at-dangling m i c h = ground arith

call_at-found :
    (m : CircuitBreakerManager) (i : ℕ) (c : Call) (cb : CircuitBreaker)
    → get_elem? m.heap i ≡ some cb
    → call_at m i c ≡ record m { heap = set m.heap i (call cb c) }
unfolding call_at
call_at-found m i c cb h = ground arith

module _ (m : CircuitBreakerManager) (keyed : IsKeyed m) where
  allocated-IsKeyed :
      (key : Bytes) (config : Option CircuitBreakerConfig) (now : Time)
      → IsKeyed (allocated m key config now)
  allocated-IsKeyed key config now k a h = elim (Bool-cases (str_eq key k)) [
    | inl same ↦
        let here : length m.heap ≡ a =
          ground (arith, lookup-insert key k (length m.heap) m.breakers) in
        (
          new_circuit_breaker key (config_for m config) now,
          rw (← here) (get_elem?-length m.heap _),
          key-new key (config_for m config) now ∙ str_eq_sound key k same,
        )
    | inr other ↦
        let old : lookup k m.breakers ≡ some a =
          ground (arith, lookup-insert key k (length m.heap) m.breakers) in
        let (cb, at_a, own) = keyed k a old in (cb, get_elem?-append m.heap _ a cb at_a, own)
  ]

  creates-IsKeyed :
      (key : Bytes) (config : Option CircuitBreakerConfig) (now : Time)
      → IsKeyed (find_or_allocate m key config now).0
  creates-IsKeyed key config now = elim (Option-cases (lookup key m.breakers)) [
    | inl missing ↦
        subst (λ r. IsKeyed r.0) (sym (find_or_allocate-missing m key config now missing))
          (allocated-IsKeyed key config now)
    | inr (b, found) ↦
        subst (λ r. IsKeyed r.0) (sym (find_or_allocate-found m key config now b found)) keyed
  ]

  call_at-IsKeyed : (i : ℕ) (c : Call) → IsKeyed (call_at m i c)
  call_at-IsKeyed i c = elim (Option-cases (get_elem? m.heap i)) [
    | inl missing ↦ subst IsKeyed (sym (call_at-dangling m i c missing)) keyed
    | inr (old, found) ↦ subst IsKeyed (sym (call_at-found m i c old found)) (λ k a h.
        let (cb, at_a, own) = keyed k a h in
        let (cb', at_a', same) =
          set-keyed m.heap i a old (call old c) cb found (key-call old c) at_a in
        (cb', at_a', same ∙ own))
  ]

  remove-IsKeyed : (key : Bytes) → IsKeyed (remove m key)
  unfolding remove
  remove-IsKeyed key k a h = keyed k a (ground (arith, lookup-delete key k m.breakers))

  act-IsKeyed : (x : Action) → IsKeyed (act m x)
  unfolding act clear lookup
  act-IsKeyed (creates key config now) = creates-IsKeyed key config now
  act-IsKeyed (removes key) = remove-IsKeyed key
  act-IsKeyed clears = λ k a h. cc
  act-IsKeyed (uses i c) = call_at-IsKeyed i c

act_all-IsKeyed :
    (m : CircuitBreakerManager) (xs : List Action) → IsKeyed m → IsKeyed (act_all m xs)
unfolding act_all
act_all-IsKeyed m [] keyed = keyed
act_all-IsKeyed m (x ∷ xs) keyed = act_all-IsKeyed (act m x) xs (act-IsKeyed m keyed x)

-- After any actions of any goroutines on a new manager, what Get returns for a key is a breaker
-- that was made for that key.
pub get-keyed :
    (heap : List CircuitBreaker) (config : CircuitBreakerConfig) (logger : Option ℕ)
    (xs : List Action) (key : Bytes) (a : ℕ)
    → get (act_all (new_circuit_breaker_manager heap config logger) xs) key ≡ some a
    → (cb : CircuitBreaker) × (get_elem?
          (act_all (new_circuit_breaker_manager heap config logger) xs).heap
          a
        ≡ some cb)
      × (cb.key ≡ key)
unfolding get new_circuit_breaker_manager lookup
get-keyed heap config logger xs key a h =
    act_all-IsKeyed (new_circuit_breaker_manager heap config logger) xs (λ k b e. cc) key a h
