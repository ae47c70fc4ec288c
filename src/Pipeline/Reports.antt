-- ===== src/Pipeline/Reports.antt =====
-- vecto.go: what a circuit breaker learns of a request.
use vecto.Base.{
  ◌≡◌, refl, Bool, true, false, Option, none, some, inl, inr, arith, Bool-cases, Option-cases,
}
use vecto.Breaker.{Time, CircuitBreaker, allow_request, execute, record_result}
use vecto.Http.{Response, Err, breaker_error, Result}
use vecto.Pipeline.{Served, ended, goes_on, checked, handle_error, serve_guarded}

module _ (validate_status : Option Response → Bool) (breaker : CircuitBreaker) (now : Time)
    (send : CircuitBreaker → Result × CircuitBreaker) (returned finished : Time) where
  abbrev admitted : CircuitBreaker
  admitted = (allow_request breaker now).0

  abbrev answer : Result
  answer = (send admitted).0

  abbrev after : CircuitBreaker
  after = (send admitted).1

  -- How the breaker ends up, and with what the caller or the middleware goes on.
  pub data Reported (served : Served) (last : CircuitBreaker) : Type 0 where
    failed :
        (e : Err)
        → (allow_request breaker now).1 ≡ true
        → answer.err ≡ some e
        → last ≡ record_result after answer.res (some e) returned
        → served ≡ ended (handle_error e)
        → Reported served last
    passed :
        (res : Response)
        → (allow_request breaker now).1 ≡ true
        → answer.err ≡ none
        → answer.res ≡ some res
        → last ≡ record_result after (some (checked validate_status res)) none finished
        → served ≡ goes_on (checked validate_status res)
        → Reported served last
    blocked :
        (allow_request breaker now).1 ≡ false
        → last ≡ admitted
        → served
          ≡ ended (record { res = none; err = some (breaker_error admitted.state admitted.key) })
        → Reported served last

  -- Unless the client returns neither a response nor an error, this part of a request ends. A
  -- request that the breaker admits is reported to it exactly once: an error together with what was
  -- sent along with it when the client returns, and else the response with its checked status and no
  -- error. One that it does not admit is not sent and not reported, and the caller gets the breaker's
  -- own error.
  pub serve_guarded-Reported :
      ¬ ((answer.err ≡ none) × (answer.res ≡ none))
      → (served : Served) × (last : CircuitBreaker) × (serve_guarded validate_status breaker now
            send returned finished
          ≡ some (served, last))
        × Reported served last
  unfolding serve_guarded execute
  serve_guarded-Reported not_nil = elim (Bool-cases (allow_request breaker now).1) [
    | inl allowed ↦ elim (Option-cases answer.err) [
      | inl fine ↦ elim (Option-cases answer.res) [
        | inl nil ↦ absurd (not_nil (fine, nil))
        | inr (res, e) ↦ (_, _, ground arith, passed res allowed fine e refl refl)
      ]
      | inr (err, e) ↦ (_, _, ground arith, failed err allowed e refl refl)
    ]
    | inr refused ↦ (_, _, (unfold handle_error in ground arith), blocked refused refl refl)
  ]
