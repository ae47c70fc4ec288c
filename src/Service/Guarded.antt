-- ===== src/Service/Guarded.antt =====
-- vecto.go: a call that a circuit breaker guards, taken apart.
use vecto.Base.{
  ◌≡◌, Option, none, some, arith, Option-cases, get_elem?, set, if◌then◌else◌, inl, inr,
}
use vecto.Breaker.{CircuitBreaker, allow_request}
use vecto.Breaker.Manager.{CircuitBreakerManager, get_or_create}
use vecto.Call.{Objects, CallEnv, CallOutcome, Libraries}
use vecto.Config.{Config}
use vecto.Handler.{get_or_set_circuit_breaker_key}
use vecto.Middleware.{MiddlewareCollection}
use vecto.Pipeline.{Served, serve_guarded}
use vecto.Retry.{RetryConfig}
use vecto.Service.{concluded, answer, validate_status, guarded}

module _ {S Req Res : Type 0} (libs : Libraries) (objects : Objects S Req Res)
    (middleware : MiddlewareCollection S Req Res) (config : Config) (env : CallEnv S Req) where
  pub guarded-concluded :
      (s : S) (m : CircuitBreakerManager) (p : Req) (retry : Option RetryConfig)
      (out : CallOutcome S)
      → guarded libs objects middleware config env s m p retry ≡ some out
      → (s1 : S) × (s2 : S) × (m' : CircuitBreakerManager) × (breaker : CircuitBreaker)
        × (served : Served) × (last : CircuitBreaker) × (serve_guarded
              (validate_status libs objects middleware config env)
              breaker
              env.asked
              (λ b. (answer libs objects middleware config env s1 p retry (some b), env.others b))
              env.returned
              env.finished
            ≡ some (served, last))
        × (concluded libs objects middleware config env s2 (some m') p (some served) ≡ some out)
  unfolding guarded
  guarded-concluded s m p retry out h = elim (Option-cases (objects.request_at s p)) [
    | inl nil ↦ absurd (ground arith)
    | inr (req, there) ↦ elim (Option-cases (get_or_set_circuit_breaker_key req)) [
      | inl blocks ↦ absurd (ground arith)
      | inr ((key, req'), asked) ↦
          let s1 = objects.write_request s p req' in
          let (m1, a) = get_or_create m key none env.asked env.meanwhile in
          elim (Option-cases (get_elem? m1.heap a)) [
            | inl dangling ↦ absurd (ground arith)
            | inr (breaker, at) ↦
                let s2 = if (allow_request breaker env.asked).1 then env.attempted s1 p else s1 in
                let go =
                  serve_guarded (validate_status libs objects middleware config env) breaker
                    env.asked
                    (λ b.
                      (answer libs objects middleware config env s1 p retry (some b), env.others b))
                    env.returned env.finished in
                elim (Option-cases go) [
                  | inl lost ↦ absurd (ground arith)
                  | inr ((served, last), e) ↦ (
                    s1,
                    s2,
                    record m1 { heap = set m1.heap a last },
                    breaker,
                    served,
                    last,
                    e,
                    ground arith,
                  )
                ]
          ]
    ]
  ]
