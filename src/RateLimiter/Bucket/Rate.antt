-- ===== src/RateLimiter/Bucket/Rate.antt =====
-- src/lib/rate-limiter.ts, class TokenBucket: what a bucket lets through over a stretch of time.
use io_broker_govee_smart.Base.{
  ℕ, ◌+◌, ◌-◌, ◌*◌, ◌≤◌, ◌<◌, Bool, true, false, List, [], ◌∷◌, if◌then◌else◌, arith, ◌≡◌, All, ◌⊎◌,
}
use io_broker_govee_smart.RateLimiter.Bucket.{
  TokenBucket, make_bucket, refill, has_token, take_token, give_token,
}

pub record IsBucket (burst rate : ℕ) (b : TokenBucket) : Type 0 where
  pub same_burst : b.capacity ≡ burst
  pub same_rate : b.per_second ≡ rate
  pub full_at_most : b.tokens ≤ burst * 1000

module _ {burst rate : ℕ} where
  pub refill-IsBucket :
      {b : TokenBucket} (now : ℕ) → IsBucket burst rate b → IsBucket burst rate (refill b now)
  unfolding refill
  refill-IsBucket now h = ground arith

  pub has_token-IsBucket :
      {b : TokenBucket} (now : ℕ) → IsBucket burst rate b → IsBucket burst rate (has_token b now).0
  unfolding has_token
  has_token-IsBucket now h = refill-IsBucket now h

  pub take_token-IsBucket :
      {b : TokenBucket} (now : ℕ) → IsBucket burst rate b → IsBucket burst rate (take_token b now)
  unfolding take_token
  take_token-IsBucket now h = ground (arith, refill-IsBucket now h)

  pub give_token-IsBucket :
      {b : TokenBucket} (now : ℕ) → IsBucket burst rate b → IsBucket burst rate (give_token b now)
  unfolding give_token
  give_token-IsBucket now h = ground (arith, refill-IsBucket now h)

pub make_bucket-IsBucket : (burst rate now : ℕ) → IsBucket burst rate (make_bucket burst rate now)
unfolding make_bucket
make_bucket-IsBucket burst rate now = ground arith

-- A caller that asks at each of the times and takes a token where there is one.
unfoldable pub take_if : TokenBucket → ℕ → TokenBucket × Bool
unfolding has_token take_token
take_if b now = let (r, ok) = has_token b now in if ok then (take_token r now, true) else (r, false)

abbrev one_if : Bool → ℕ
one_if true = 1
one_if false = 0

-- The bucket after the times, and how many tokens were taken.
unfoldable pub take_all : TokenBucket → List ℕ → TokenBucket × ℕ
unfolding take_if
take_all b [] = (b, 0)
take_all b (t ∷ ts) = let (c, ok) = take_if b t in let (d, n) = take_all c ts in (d, one_if ok + n)

sub_mul : (a b r : ℕ) → b ≤ a → (a - b) * r + b * r ≡ a * r
sub_mul a b r h = grind arith

refill-rate :
    (b : TokenBucket) (now : ℕ)
    → ((refill b now).per_second ≡ b.per_second)
      × ((refill b now).tokens + b.updated_at * b.per_second
          ≤ b.tokens + (refill b now).updated_at * b.per_second)
unfolding refill
refill-rate b now = ground (arith, sub_mul now b.updated_at b.per_second)

refill_again : (b : TokenBucket) (now : ℕ) → refill (refill b now) now ≡ refill b now
unfolding refill
refill_again b now = ground arith

mul_le_mul : (a b r : ℕ) → a ≤ b → a * r ≤ b * r
mul_le_mul a b r h = grind arith

take_if-rate :
    (b : TokenBucket) (now : ℕ)
    → ((take_if b now).0.per_second ≡ b.per_second)
      × ((take_if b now).0.tokens + 1000 * one_if (take_if b now).1 + b.updated_at * b.per_second
          ≤ b.tokens + (take_if b now).0.updated_at * b.per_second)
unfolding take_if
take_if-rate b now = ground (arith, refill-rate b now, refill_again b now)

take_all-rate :
    (b : TokenBucket) (ts : List ℕ)
    → (take_all b ts).0.tokens + 1000 * (take_all b ts).1 + b.updated_at * b.per_second
      ≤ b.tokens + (take_all b ts).0.updated_at * b.per_second
unfolding take_all
take_all-rate b [] = omega arith
take_all-rate b (t ∷ ts) =
    let h = take_all-rate (take_if b t).0 ts in
    let k = take_if-rate b t in omega (arith, (rw k.0 at h), k.1)

take_if-updated_at :
    (b : TokenBucket) (now : ℕ)
    → ((take_if b now).0.updated_at ≡ b.updated_at) ⊎ ((take_if b now).0.updated_at ≡ now)
unfolding take_if refill
take_if-updated_at b now = ground arith

take_all-updated_at :
    (b : TokenBucket) (ts : List ℕ) (last : ℕ)
    → b.updated_at ≤ last
    → All (λ t. t ≤ last) ts
    → (take_all b ts).0.updated_at ≤ last
unfolding take_all
take_all-updated_at b [] last h all = h
take_all-updated_at b (t ∷ ts) last h (le, all) =
    take_all-updated_at (take_if b t).0 ts last (ground (arith, take_if-updated_at b t)) all

-- Whoever takes a token from a new bucket whenever it has one, at whatever times up to `last` and
-- in whatever order, is given at most `burst + (last - now) / 1000 * rate` tokens since `now`.
pub take_all_bounded :
    (burst rate now last : ℕ) (ts : List ℕ)
    → now ≤ last
    → All (λ t. t ≤ last) ts
    → 1000 * (take_all (make_bucket burst rate now) ts).1 ≤ 1000 * burst + (last - now) * rate
unfolding make_bucket
take_all_bounded burst rate now last ts h all =
    let b = make_bucket burst rate now in
    let bound = take_all-updated_at b ts last h all in
    let wide = mul_le_mul _ _ rate bound in
    omega (arith, take_all-rate b ts, wide, sub_mul last now rate h)

-- A bucket of at least one token has one again as soon as the time since its last refill is worth
-- one, however empty it was.
pub has_token_again :
    (b : TokenBucket) (now : ℕ)
    → 1 ≤ b.capacity
    → b.updated_at < now
    → 1000 ≤ (now - b.updated_at) * b.per_second
    → (has_token b now).1 ≡ true
unfolding has_token refill
has_token_again b now c l h = ground arith
