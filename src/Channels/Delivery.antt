-- ===== src/Channels/Delivery.antt =====
-- channels.go: which channels get the event.
use vecto.Base.{
  ℕ, ◌+◌, ◌≡◌, ◌∙◌, refl, if◌then◌else◌, Bool, true, false, Option, some, List, [], ◌∷◌, arith,
  is_some, Bool-cases, inl, inr,
}
use vecto.Http.{Request, Response}
use vecto.Response.{deep_copy}
use vecto.Channels.{
  ChannelEnv, Dispatched, delivered, warned_not_ready, dispatch, offer, choose, warning,
}

-- The channels that got an event, with the event, in order.
abbrev pub deliveries : List Dispatched → List (ℕ × Option Response)
deliveries [] = []
deliveries (delivered ch event ∷ ds) = (ch, event) ∷ deliveries ds
deliveries (warned_not_ready ∷ ds) = deliveries ds

-- The channels that take a value when their turn comes, each with the event.
unfoldable pub ready_from :
    (ℕ → ℕ → Bool) → Option Response → ℕ → List ℕ → List (ℕ × Option Response)
ready_from ready event n [] = []
ready_from ready event n (ch ∷ chs) =
    let rest = ready_from ready event (n + 1) chs in if ready n ch then (ch, event) ∷ rest else rest

-- No channel is closed while it is offered an event.
abbrev pub IsUnclosed : ChannelEnv → Type 0
IsUnclosed env = (k ch : ℕ) → env.closed k ch ≡ false

offer-returns :
    (env : ChannelEnv) (event : Option Response) (n : ℕ) (chs : List ℕ)
    → IsUnclosed env
    → is_some (offer env event n chs) ≡ true
unfolding offer choose warning
offer-returns env event n [] unclosed = refl
offer-returns env event n (ch ∷ chs) unclosed =
    ground (arith, unclosed n ch, offer-returns env event (n + 1) chs unclosed)

pub dispatch-returns :
    (env : ChannelEnv) (res : Response)
    → IsUnclosed env
    → is_some res.request ≡ true
    → is_some (dispatch env (some res)) ≡ true
unfolding dispatch
dispatch-returns env res unclosed h = grind (arith, offer-returns)

offer-live :
    (env : ChannelEnv) (event : Option Response) (n : ℕ) (chs : List ℕ)
    → IsUnclosed env
    → ((k : ℕ) → env.done k ≡ false)
    → (ds : List Dispatched) × (offer env event n chs ≡ some ds)
      × (deliveries ds ≡ ready_from env.ready event n chs)
unfolding offer ready_from choose warning
offer-live env event n [] unclosed live = ([], refl, refl)
offer-live env event n (ch ∷ chs) unclosed live =
    let (ds, e, same) = offer-live env event (n + 1) chs unclosed live in
    elim (Bool-cases (env.ready n ch)) [
      | inl on ↦ (delivered ch event ∷ ds, ground (arith, unclosed n ch, live n), ground arith)
      | inr off ↦ elim (Bool-cases env.noop) [
        | inl quiet ↦ (ds, ground (arith, unclosed n ch, live n), ground arith)
        | inr loud ↦ (warned_not_ready ∷ ds, ground (arith, unclosed n ch, live n), ground arith)
      ]
    ]

-- While the context is not done and no channel is closed, dispatch returns, and exactly the channels
-- that are ready when their turn comes get a deep copy of the response, once each time that they are
-- registered, in the order of registration.
pub dispatch-delivers :
    (env : ChannelEnv) (res : Response) (request : Request)
    → res.request ≡ some request
    → IsUnclosed env
    → ((k : ℕ) → env.done k ≡ false)
    → (ds : List Dispatched) × (dispatch env (some res) ≡ some ds)
      × (deliveries ds ≡ ready_from env.ready (deep_copy (some res)) 0 request.channels)
unfolding dispatch
dispatch-delivers env res request h unclosed live =
    let (ds, e, same) = offer-live env (deep_copy (some res)) 0 request.channels unclosed live in
    let asked : dispatch env (some res) ≡ offer env (deep_copy (some res)) 0 request.channels =
      simp h in
    (ds, asked ∙ e, same)
