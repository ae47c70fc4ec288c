-- ===== src/Breaker/Manager.antt =====
-- circuit_breaker.go: CircuitBreakerManager. A *CircuitBreaker is an address: an index into `heap`,
-- where NewCircuitBreaker allocates at the end and nothing is freed, so that goroutines which hold
-- the same address share the breaker.
pub mod Sharing
pub mod Keyed
use vecto.Base.{
  ℕ, zero, suc, ◌+◌, ◌≤◌, ◌<◌, ◌≡◌, refl, sym, ◌∙◌, ◌≢◌, Option, none, some, Bool, true, false,
  List, [], ◌∷◌, ◌++◌, length, get_elem?, set, arith, Bytes, Dict, lookup, insert, delete, str_eq,
  str_eq_iff, lookup-insert, lookup-delete, lookup-insert_self, Option-cases, inl, inr,
  if◌then◌else◌, is_some, str_eq_refl, Bool-cases,
}
use vecto.Breaker.{Time, CircuitBreakerConfig, CircuitBreaker, new_circuit_breaker}
use vecto.Breaker.Calls.{Call, call, arrives, returns}

pub record CircuitBreakerManager : Type 0 where
  pub breakers : Dict ℕ
  pub heap : List CircuitBreaker
  pub default_config : CircuitBreakerConfig
  pub logger : Option ℕ

unfoldable pub new_circuit_breaker_manager :
    List CircuitBreaker → CircuitBreakerConfig → Option ℕ → CircuitBreakerManager
new_circuit_breaker_manager heap default_config logger = record {
  breakers = [];
  heap = heap;
  default_config = default_config;
  logger = logger;
}

abbrev or_logger : Option ℕ → Option ℕ → Option ℕ
or_logger (some l) fallback = some l
or_logger none fallback = fallback

-- The configuration of a breaker that GetOrCreate makes.
unfoldable pub config_for :
    CircuitBreakerManager → Option CircuitBreakerConfig → CircuitBreakerConfig
config_for m none = record (m.default_config) {
  logger = or_logger m.default_config.logger m.logger;
}
config_for m (some config) = record config { logger = or_logger config.logger m.logger }

-- `m.mu.RLock` … `m.mu.RUnlock`.
unfoldable pub find : CircuitBreakerManager → Bytes → Option ℕ
find m key = lookup key m.breakers

-- From `m.mu.Lock` on: the map is read again.
unfoldable pub find_or_allocate :
    CircuitBreakerManager → Bytes → Option CircuitBreakerConfig → Time → CircuitBreakerManager × ℕ
unfolding config_for
find_or_allocate m key config now = elim (lookup key m.breakers) [
  | some a ↦ (m, a)
  | none ↦ (
    record m {
      breakers = insert key (length m.heap) m.breakers;
      heap = m.heap ++ new_circuit_breaker key (config_for m config) now ∷ [];
    },
    length m.heap,
  )
]

-- `meanwhile` is what other goroutines do to the manager between the two critical sections.
unfoldable pub get_or_create :
    CircuitBreakerManager
    → Bytes
    → Option CircuitBreakerConfig
    → Time
    → (CircuitBreakerManager → CircuitBreakerManager)
    → CircuitBreakerManager × ℕ
unfolding find find_or_allocate
get_or_create m key config now meanwhile = elim (find m key) [
  | some a ↦ (m, a)
  | none ↦ find_or_allocate (meanwhile m) key config now
]

unfoldable pub get : CircuitBreakerManager → Bytes → Option ℕ
get m key = lookup key m.breakers

unfoldable pub remove : CircuitBreakerManager → Bytes → CircuitBreakerManager
remove m key = record m { breakers = delete key m.breakers }

unfoldable pub clear : CircuitBreakerManager → CircuitBreakerManager
clear m = record m { breakers = [] }

-- A call of the breaker at an address.
unfoldable pub call_at : CircuitBreakerManager → ℕ → Call → CircuitBreakerManager
call_at m a c = elim (get_elem? m.heap a) [
  | none ↦ m
  | some cb ↦ record m { heap = set m.heap a (call cb c) }
]

-- The critical sections of goroutines that share a manager.
pub data Action : Type 0 where
  creates : Bytes → Option CircuitBreakerConfig → Time → Action
  removes : Bytes → Action
  clears : Action
  uses : ℕ → Call → Action

unfoldable pub act : CircuitBreakerManager → Action → CircuitBreakerManager
act m (creates key config now) = (find_or_allocate m key config now).0
act m (removes key) = remove m key
act m clears = clear m
act m (uses a c) = call_at m a c

unfoldable pub act_all : CircuitBreakerManager → List Action → CircuitBreakerManager
act_all m [] = m
act_all m (x ∷ xs) = act_all (act m x) xs
