-- ===== src/Handler/Getters.antt =====
-- request.go: the getters of a request, each under its read lock.
use vecto.Base.{
  ℕ, suc, ◌-◌, ◌≡◌, refl, ap, arith, ◌∙◌, if◌then◌else◌, Bool, true, false, Option, none, some,
  Bytes,
}
use vecto.Handler.{Locked, ◌>>=◌, ◌>>◌, reading, r_lock, r_unlock}
use vecto.Http.{Any, RawRequest, RwMutex, Request}

-- The deferred unlock comes after the field is read.
unfoldable pub under_lock : {A : Type 0} → (Request → A) → Locked A
unfolding r_lock r_unlock
under_lock field = do r_lock; a ← reading field; r_unlock; reading (λ _. a)

abbrev pub base_url : Locked Bytes
base_url = under_lock (λ r. r.base_url)

abbrev pub full_url : Locked Bytes
full_url = under_lock (λ r. r.url)

abbrev pub path : Locked Bytes
path = under_lock (λ r. r.path)

abbrev pub method : Locked Bytes
method = under_lock (λ r. r.method)

abbrev pub body : Locked (Option Any)
body = under_lock (λ r. r.body)

abbrev pub raw_request : Locked (Option RawRequest)
raw_request = under_lock (λ r. r.raw_req)

held_by : Request → Bool → ℕ → Request
held_by r writer readers = record r { mu = record { writer = writer; readers = readers } }

under_lock-held_by :
    {A : Type 0} (field : Request → A)
    → ((r : Request) (mu : RwMutex) → field (record r { mu = mu }) ≡ field r)
    → (r : Request) (writer : Bool) (n : ℕ)
    → under_lock field (held_by r writer n)
      ≡ (if writer then none else some (field r, held_by r writer n))
unfolding under_lock held_by
under_lock-held_by field blind r true n = refl
under_lock-held_by field blind r false n =
    ap (λ k. some (field (held_by r false (suc n)), held_by r false k)) same
    ∙ ap (λ a. some (a, held_by r false n)) (blind r _)
  where
    same : suc n - 1 ≡ n
    same = omega arith

-- A getter whose field is not the lock gives the field and leaves the request and its lock as they
-- were, however many others read it; while somebody writes it, it waits.
pub under_lock_lem :
    {A : Type 0} (field : Request → A)
    → ((r : Request) (mu : RwMutex) → field (record r { mu = mu }) ≡ field r)
    → (r : Request) → under_lock field r ≡ (if r.mu.writer then none else some (field r, r))
unfolding held_by
under_lock_lem field blind r = under_lock-held_by field blind r r.mu.writer r.mu.readers
