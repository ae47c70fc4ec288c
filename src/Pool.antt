-- ===== src/Pool.antt =====
-- pool.go: the pool of string builders. sync.Pool gives back any of the values put into it, or makes a
-- new one; which, and what the collector has taken away meanwhile, is its own choice.
use vecto.Base.{
  ℕ, zero, suc, ◌≤◌, ◌≡◌, refl, List, [], ◌∷◌, Bytes, ltb, get_or, get_elem?, All, arith,
  if◌then◌else◌,
}

-- bytes.Buffer, with the capacity that it keeps over a Reset.
pub record Buffer : Type 0 where
  pub content : Bytes
  pub cap : ℕ

abbrev new_buffer : Buffer
new_buffer = record { content = []; cap = 0 }

abbrev without : List Buffer → ℕ → List Buffer
without [] i = []
without (b ∷ bs) zero = bs
without (b ∷ bs) (suc i) = b ∷ without bs i

-- `choice` is the place of the value that the pool gives, or none there.
unfoldable pub get_string_builder : List Buffer → ℕ → Buffer × List Buffer
get_string_builder pool choice =
    (record (get_or (get_elem? pool choice) new_buffer) { content = [] }, without pool choice)

unfoldable pub put_string_builder : List Buffer → Buffer → List Buffer
put_string_builder pool sb = if ltb 4096 sb.cap then pool else sb ∷ pool

-- What users and the collector do with the pool.
pub data PoolStep : Type 0 where
  gets : ℕ → PoolStep
  puts : Buffer → PoolStep
  collects : ℕ → PoolStep

unfoldable pub pool_after : List Buffer → List PoolStep → List Buffer
unfolding get_string_builder put_string_builder
pool_after pool [] = pool
pool_after pool (gets i ∷ steps) = pool_after (get_string_builder pool i).1 steps
pool_after pool (puts b ∷ steps) = pool_after (put_string_builder pool b) steps
pool_after pool (collects i ∷ steps) = pool_after (without pool i) steps

abbrev pub IsSmall : Buffer → Type 0
IsSmall b = b.cap ≤ 4096

without-IsSmall : (pool : List Buffer) (i : ℕ) → All IsSmall pool → All IsSmall (without pool i)
without-IsSmall [] i h = tt
without-IsSmall (b ∷ bs) zero (small, h) = h
without-IsSmall (b ∷ bs) (suc i) (small, h) = (small, without-IsSmall bs i h)

put_string_builder-IsSmall :
    (pool : List Buffer) (b : Buffer) → All IsSmall pool → All IsSmall (put_string_builder pool b)
unfolding put_string_builder
put_string_builder-IsSmall pool b h = ground arith

-- The pool never keeps a buffer of more than 4 KiB, and gives out empty ones alone.
pub pool_after-IsSmall :
    (pool : List Buffer) (steps : List PoolStep) (i : ℕ)
    → All IsSmall pool
    → All IsSmall (pool_after pool steps)
      × ((get_string_builder (pool_after pool steps) i).0.content ≡ [])
unfolding pool_after
pool_after-IsSmall pool [] i h = (h, unfold get_string_builder in refl)
pool_after-IsSmall pool (gets j ∷ steps) i h =
    pool_after-IsSmall (without pool j) steps i (without-IsSmall pool j h)
pool_after-IsSmall pool (puts b ∷ steps) i h =
    pool_after-IsSmall (put_string_builder pool b) steps i (put_string_builder-IsSmall pool b h)
pool_after-IsSmall pool (collects j ∷ steps) i h =
    pool_after-IsSmall (without pool j) steps i (without-IsSmall pool j h)
