-- ===== src/Pipeline/Sources.antt =====
-- vecto.go: the response that goes on is the one that the client gave.
use vecto.Base.{◌≡◌, Bool, Option, some, arith, Bool-cases, Option-cases, inl, inr}
use vecto.Breaker.{Time, CircuitBreaker, execute, allow_request}
use vecto.Http.{Response, Result}
use vecto.Pipeline.{goes_on, serve_guarded, serve_unguarded, checked}

pub serve_unguarded-goes_on :
    (validate_status : Option Response → Bool) (r : Result) (res' : Response)
    → serve_unguarded validate_status r ≡ some (goes_on res')
    → (res : Response) × (r.res ≡ some res) × (res' ≡ checked validate_status res)
unfolding serve_unguarded checked
serve_unguarded-goes_on validate_status r res' h = elim (Option-cases r.res) [
  | inl missing ↦ absurd (ground arith)
  | inr (res, e) ↦ (res, e, ground arith)
]

execute-sends :
    (breaker : CircuitBreaker) (now : Time) (send : CircuitBreaker → Result × CircuitBreaker)
    (returned : Time) (res : Response)
    → (execute breaker now send returned).0.res ≡ some res
    → (b : CircuitBreaker) × ((send b).0.res ≡ some res)
unfolding execute
execute-sends breaker now send returned res h = elim (Bool-cases (allow_request breaker now).1) [
  | inl allowed ↦ ((allow_request breaker now).0, ground arith)
  | inr refused_now ↦ absurd (ground arith)
]

pub serve_guarded-goes_on :
    (validate_status : Option Response → Bool) (breaker : CircuitBreaker) (now : Time)
    (send : CircuitBreaker → Result × CircuitBreaker) (returned finished : Time) (res' : Response)
    (last : CircuitBreaker)
    → serve_guarded validate_status breaker now send returned finished ≡ some (goes_on res', last)
    → (b : CircuitBreaker) × (res : Response) × ((send b).0.res ≡ some res)
      × (res' ≡ checked validate_status res)
unfolding serve_guarded checked
serve_guarded-goes_on validate_status breaker now send returned finished res' last h =
    elim (Option-cases (execute breaker now send returned).0.res) [
      | inl missing ↦ absurd (ground arith)
      | inr (res, e) ↦
          let (b, sent) = execute-sends breaker now send returned res e in
          (b, res, sent, ground arith)
    ]
