-- ===== src/Breaker/Manager/Sharing.antt =====
-- circuit_breaker.go: all goroutines that ask for a key share one breaker.
use vecto.Base.{
  ℕ, ◌≡◌, ◌≢◌, Option, some, List, [], ◌∷◌, length, All, arith, Bytes, lookup, str_eq_iff,
  lookup-insert, lookup-delete, lookup-insert_self,
}
use vecto.Breaker.{Time, CircuitBreakerConfig}
use vecto.Breaker.Manager.{
  CircuitBreakerManager, find_or_allocate, get_or_create, remove, call_at, Action, creates, removes,
  clears, uses, act, act_all,
}

-- The action leaves the entry of the key in the map.
abbrev pub Keeps : Bytes → Action → Type 0
Keeps key (removes k) = k ≢ key
Keeps key clears = ⊥
Keeps key _ = Unit

act-lookup :
    (m : CircuitBreakerManager) (x : Action) (key : Bytes) (a : ℕ)
    → Keeps key x
    → lookup key m.breakers ≡ some a
    → lookup key (act m x).breakers ≡ some a
unfolding act find_or_allocate remove call_at
act-lookup m (creates k config now) key a keeps h =
    ground (arith, lookup-insert k key (length m.heap) m.breakers, str_eq_iff k key)
act-lookup m (removes k) key a keeps h =
    ground (arith, lookup-delete k key m.breakers, str_eq_iff k key)
act-lookup m clears key a keeps h = absurd keeps
act-lookup m (uses b c) key a keeps h = ground arith

act_all-lookup :
    (m : CircuitBreakerManager) (xs : List Action) (key : Bytes) (a : ℕ)
    → All (Keeps key) xs
    → lookup key m.breakers ≡ some a
    → lookup key (act_all m xs).breakers ≡ some a
unfolding act_all
act_all-lookup m [] key a keeps h = h
act_all-lookup m (x ∷ xs) key a (k, ks) h =
    act_all-lookup (act m x) xs key a ks (act-lookup m x key a k h)

find_or_allocate-lookup :
    (m : CircuitBreakerManager) (key : Bytes) (config : Option CircuitBreakerConfig) (now : Time)
    → let (m', a) = find_or_allocate m key config now in lookup key m'.breakers ≡ some a
unfolding find_or_allocate
find_or_allocate-lookup m key config now =
    ground (arith, lookup-insert_self key (length m.heap) m.breakers)

pub get_or_create-lookup :
    (m : CircuitBreakerManager) (key : Bytes) (config : Option CircuitBreakerConfig) (now : Time)
    (meanwhile : CircuitBreakerManager → CircuitBreakerManager)
    → let (m', a) = get_or_create m key config now meanwhile in lookup key m'.breakers ≡ some a
unfolding get_or_create
get_or_create-lookup m key config now meanwhile =
    ground (arith, find_or_allocate-lookup (meanwhile m) key config now)

found-get_or_create :
    (m : CircuitBreakerManager) (key : Bytes) (config : Option CircuitBreakerConfig) (now : Time)
    (meanwhile : CircuitBreakerManager → CircuitBreakerManager) (a : ℕ)
    → lookup key m.breakers ≡ some a
    → get_or_create m key config now meanwhile ≡ (m, a)
unfolding get_or_create
found-get_or_create m key config now meanwhile a h = ground arith

-- Whatever other goroutines do in between, the breaker that GetOrCreate returned for a key is the
-- one that every later GetOrCreate of the key returns, and the map is left as it is, until the key
-- is removed or the manager cleared.
pub get_or_create-shared :
    (m : CircuitBreakerManager) (key : Bytes) (config config' : Option CircuitBreakerConfig)
    (now now' : Time) (meanwhile meanwhile' : CircuitBreakerManager → CircuitBreakerManager)
    (xs : List Action)
    → All (Keeps key) xs
    → let (m', a) = get_or_create m key config now meanwhile in
      get_or_create (act_all m' xs) key config' now' meanwhile' ≡ (act_all m' xs, a)
get_or_create-shared m key config config' now now' meanwhile meanwhile' xs keeps =
    found-get_or_create _ key config' now' meanwhile' _
      (act_all-lookup _ xs key _ keeps (get_or_create-lookup m key config now meanwhile))
