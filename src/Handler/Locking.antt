-- ===== src/Handler/Locking.antt =====
-- request_handler.go: the key of a circuit breaker is computed under a lock that is then asked for
-- again.
use vecto.Base.{◌≡◌, refl, Bool, true, false, none, some, if◌then◌else◌}
use mathlib.Core.Path.{subst, sym}
use vecto.Handler.{get_circuit_breaker_key, get_or_set_circuit_breaker_key, key_of}
use vecto.Http.{Request}
use vecto.Request.Builder.{unlocked}

abbrev freed : Request → Request
freed r = record r { mu = unlocked }

freed-eq : (r : Request) → r.mu ≡ unlocked → freed r ≡ r
freed-eq r free = sym (λ i. record r { mu = free i })

key_freed :
    (r : Request) → get_circuit_breaker_key (freed r) ≡ some (key_of r.scheme r.host, freed r)
unfolding get_circuit_breaker_key
key_freed r = refl

cached_freed :
    (r : Request) (cached : Bool)
    → get_or_set_circuit_breaker_key (record (freed r) { cb_key_cached = cached })
      ≡ (if cached then some (r.cb_key, record (freed r) { cb_key_cached = cached }) else none)
unfolding get_or_set_circuit_breaker_key
cached_freed r true = refl
cached_freed r false = refl

-- Called while nobody holds the lock, getCircuitBreakerKey returns the key of the request's scheme
-- and host, and leaves the request as it was.
pub get_circuit_breaker_key-unlocked :
    (r : Request) → r.mu ≡ unlocked → get_circuit_breaker_key r ≡ some (key_of r.scheme r.host, r)
get_circuit_breaker_key-unlocked r free =
    subst (λ q. get_circuit_breaker_key q ≡ some (key_of q.scheme q.host, q)) (freed-eq r free)
      (key_freed r)

-- For a request whose key is not cached yet and whose lock is free, getOrSetCircuitBreakerKey never
-- returns: it takes the write lock and then calls Scheme, which waits for it. If the key is cached
-- it is returned, and the request is left as it was.
pub get_or_set_circuit_breaker_key-blocks :
    (r : Request)
    → r.mu ≡ unlocked
    → get_or_set_circuit_breaker_key r ≡ (if r.cb_key_cached then some (r.cb_key, r) else none)
get_or_set_circuit_breaker_key-blocks r free =
    subst
      (λ q.
        get_or_set_circuit_breaker_key q ≡ (if q.cb_key_cached then some (q.cb_key, q) else none))
      (freed-eq r free) (cached_freed r r.cb_key_cached)
