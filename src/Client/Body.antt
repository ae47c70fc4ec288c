-- ===== src/Client/Body.antt =====
-- client.go: the body of a response is whole and within the limit, and no response is a success yet.
use vecto.Base.{
  ℕ, ◌≤◌, ◌<◌, ◌≡◌, ◌≢◌, refl, ◌↔◌, false, Option, none, some, Bytes, length, take, arith, zero,
  true, Bool-cases, suc, [], ◌∷◌, ap, ◌⊎◌, inl, inr, sym, ◌∙◌, codes, decimal, ◌++◌,
}
use mathlib.Core.Option.{none-ne-some}
use native.Mathlib.Decide.{dec_lt, ℕ_discrete}
use vecto.Breaker.{Time}
use vecto.Client.{DefaultClient, Stream, HttpAnswer, read_body, respond, client_do, body_limit}
use vecto.Http.{RawRequest, Transform, Request, Response, Err, message, Result}
use vecto.Request.{HttpLib}
use vecto.Retry.Execute.{succeeded}

length-take_le : (n : ℕ) (xs : Bytes) → n ≤ length xs → length (take n xs) ≡ n
length-take_le zero xs h = refl
length-take_le (suc n) [] h = omega arith
length-take_le (suc n) (x ∷ xs) h = ap suc (length-take_le n xs (omega arith))

read_body_short :
    (s : Stream) (limit : ℕ) → length s.content < limit → read_body s limit ≡ (s.content, s.failure)
unfolding read_body
read_body_short s limit h = ground arith

read_body_full :
    (s : Stream) (limit : ℕ)
    → length s.content ≡ limit
    → s.with_last_bytes ≡ false
    → read_body s limit ≡ (s.content, none)
unfolding read_body
read_body_full s limit h apart = ground arith

read_body_last :
    (s : Stream) (limit : ℕ)
    → length s.content ≡ limit
    → s.with_last_bytes ≡ true
    → read_body s limit ≡ (s.content, s.failure)
unfolding read_body
read_body_last s limit h together = ground arith

abbrev too_long : ℕ → Err
too_long limit =
    message (codes "response body exceeded maximum size of " ++ (decimal limit ++ codes " bytes"))

read_body_long :
    (s : Stream) (limit : ℕ)
    → limit < length s.content
    → read_body s limit ≡ (take limit s.content, some (too_long limit))
unfolding read_body
read_body_long s limit h = ground (arith, length-take_le limit s.content (omega arith))

long_not_whole :
    (s : Stream) (limit : ℕ) → limit < length s.content → read_body s limit ≢ (s.content, none)
long_not_whole s limit h eq =
    none-ne-some (too_long limit) (sym (ap (λ t. t.1) (sym (read_body_long s limit h) ∙ eq)))

-- A body is returned without an error exactly if it has at most as many bytes as the limit, and either
-- does not break off with an error, or has as many as the limit and the error does not come together
-- with the last of them; then it is the whole content.
pub read_body_iff :
    (s : Stream) (limit : ℕ)
    → (read_body s limit ≡ (s.content, none)) ↔ (
        (length s.content ≤ limit)
        × ((s.failure ≡ none) ⊎ ((length s.content ≡ limit) × (s.with_last_bytes ≡ false))))
read_body_iff s limit = elim (dec_lt (length s.content) limit) [
  | yes short ↦ (
    λ eq. (omega arith, inl (ap (λ t. t.1) (sym (read_body_short s limit short) ∙ eq))),
    λ p. elim p.1 [
      | inl ended ↦ read_body_short s limit short ∙ ap (λ t. (s.content, t)) ended
      | inr full ↦ absurd (omega (arith, full.0))
    ],
  )
  | no not_short ↦ elim (ℕ_discrete (length s.content) limit) [
    | yes full ↦ elim (Bool-cases s.with_last_bytes) [
      | inl together ↦ (
        λ eq. (omega arith, inl (ap (λ t. t.1) (sym (read_body_last s limit full together) ∙ eq))),
        λ p. elim p.1 [
          | inl ended ↦ read_body_last s limit full together ∙ ap (λ t. (s.content, t)) ended
          | inr apart ↦ absurd (cc (together, apart.1))
        ],
      )
      | inr apart ↦ (λ eq. (omega arith, inr (full, apart)), λ p. read_body_full s limit full apart)
    ]
    | no not_full ↦
        (λ eq. absurd (long_not_whole s limit (omega arith) eq), λ p. absurd (omega (arith, p.0)))
  ]
]

read_body-le :
    (s : Stream) (limit : ℕ) → (read_body s limit).1 ≡ none → length (read_body s limit).0 ≤ limit
unfolding read_body
read_body-le s limit h = ground (arith, length-take_le limit s.content)

-- A response without tracing.
abbrev pub IsWithin : ℕ → Option Response → Type 0
IsWithin limit none = Unit
IsWithin limit (some res) = (length res.body ≤ limit) × (res.trace_info ≡ none)

respond-IsWithin :
    (c : DefaultClient) (req : Request) (raw : RawRequest) (a : HttpAnswer) (start end : Time)
    → c.enable_trace ≡ false
    → IsWithin (body_limit c) (respond c req raw a start end).res
unfolding respond
respond-IsWithin c req raw a start end off = grind (arith, read_body-le)

pub client_do-IsWithin :
    (lib : HttpLib) (run : Transform → Request → Bytes × Option Err) (c : DefaultClient)
    (req : Request) (start end : Time) (req' : Request) (result : Result)
    → c.enable_trace ≡ false
    → client_do lib run c req start end ≡ some (req', result)
    → IsWithin (body_limit c) result.res
unfolding client_do
client_do-IsWithin lib run c req start end req' result off h = grind (arith, respond-IsWithin)

respond-no_success :
    (c : DefaultClient) (req : Request) (raw : RawRequest) (a : HttpAnswer) (start end : Time)
    → succeeded (respond c req raw a start end) ≡ false
unfolding respond succeeded
respond-no_success c req raw a start end = ground arith

-- Whatever the network answers, a result of the client is not marked as a success: the loop that
-- retries it sees `success` unset.
pub client_do-no_success :
    (lib : HttpLib) (run : Transform → Request → Bytes × Option Err) (c : DefaultClient)
    (req : Request) (start end : Time) (req' : Request) (result : Result)
    → client_do lib run c req start end ≡ some (req', result)
    → succeeded result ≡ false
unfolding client_do succeeded
client_do-no_success lib run c req start end req' result h = grind (arith, respond-no_success)
