-- ===== src/Channels.antt =====
-- channels.go: the completion event is offered to the channels of a request, and nobody is waited for.
pub mod Delivery
use vecto.Base.{ℕ, ◌+◌, if◌then◌else◌, Bool, true, false, ◌||◌, Option, none, some, List, [], ◌∷◌}
use vecto.Http.{Request, Response}
use vecto.Response.{deep_copy}

-- How the `select` for the n-th channel finds the world: whether the context is done, whether the
-- channel takes a value or is closed, and which case is chosen if there are two. `noop` is
-- `d.logger.IsNoop()`.
pub record ChannelEnv : Type 0 where
  pub done : ℕ → Bool
  pub ready : ℕ → ℕ → Bool
  pub closed : ℕ → ℕ → Bool
  pub prefers_done : ℕ → Bool
  pub noop : Bool

pub data Dispatched : Type 0 where
  delivered : ℕ → Option Response → Dispatched
  warned_not_ready : Dispatched

pub data Choice : Type 0 where
  cancelled taken skipped : Choice

-- A `select` takes a ready case, any if both are, and its default only if none is.
choose : Bool → Bool → Bool → Choice
choose true true prefers_done = if prefers_done then cancelled else taken
choose true false prefers_done = cancelled
choose false true prefers_done = taken
choose false false prefers_done = skipped

abbrev and_then : Dispatched → Option (List Dispatched) → Option (List Dispatched)
and_then d none = none
and_then d (some ds) = some (d ∷ ds)

module _ (env : ChannelEnv) (event : Option Response) where
  warning : Bool → Option (List Dispatched) → Option (List Dispatched)
  warning true rest = rest
  warning false rest = and_then warned_not_ready rest

  -- The loop over the channels, from the n-th on. A closed channel is a case that can go on, and
  -- panics if it is chosen.
  offer : ℕ → List ℕ → Option (List Dispatched)
  unfolding choose warning
  offer n [] = some []
  offer n (ch ∷ chs) =
      let rest = offer (n + 1) chs in
      elim (choose (env.done n) (env.closed n ch || env.ready n ch) (env.prefers_done n)) [
        | cancelled ↦ some []
        | taken ↦ if env.closed n ch then none else and_then (delivered ch event) rest
        | skipped ↦ warning env.noop rest
      ]

-- `none` is the panic of a nil response, of a response without its request, or of a send on a closed
-- channel.
unfoldable pub dispatch : ChannelEnv → Option Response → Option (List Dispatched)
unfolding offer
dispatch env none = none
dispatch env (some res) = elim res.request [
  | none ↦ none
  | some request ↦ offer env (deep_copy (some res)) 0 request.channels
]
