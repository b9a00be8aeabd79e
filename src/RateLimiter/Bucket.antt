-- ===== src/RateLimiter/Bucket.antt =====
-- src/lib/rate-limiter.ts, class TokenBucket. Times are milliseconds. Tokens are counted in
-- thousandths: `(now - updatedAt) / 1000 * perSecond` tokens are `(now - updated_at) * per_second`
-- thousandths, a whole number, since the rates are whole.
pub mod Rate
use io_broker_govee_smart.Base.{ℕ, ◌+◌, ◌-◌, ◌*◌, ◌/◌, min, Bool, ltb, leb, if◌then◌else◌}

pub record TokenBucket : Type 0 where
  pub capacity : ℕ
  pub per_second : ℕ
  pub tokens : ℕ
  pub updated_at : ℕ

unfoldable pub make_bucket : ℕ → ℕ → ℕ → TokenBucket
make_bucket burst rate now = record {
  capacity = burst;
  per_second = rate;
  tokens = burst * 1000;
  updated_at = now;
}

unfoldable pub refill : TokenBucket → ℕ → TokenBucket
refill b now =
    if ltb b.updated_at now
    then record b {
      tokens = min (b.capacity * 1000) (b.tokens + (now - b.updated_at) * b.per_second);
      updated_at = now;
    }
    else b

-- The refilled bucket, and whether it holds a whole token.
unfoldable pub has_token : TokenBucket → ℕ → TokenBucket × Bool
has_token b now = let r = refill b now in (r, leb 1000 r.tokens)

-- `Math.max(0, tokens - 1)` is truncated subtraction.
unfoldable pub take_token : TokenBucket → ℕ → TokenBucket
take_token b now = let r = refill b now in record r { tokens = r.tokens - 1000 }

unfoldable pub give_token : TokenBucket → ℕ → TokenBucket
give_token b now =
    let r = refill b now in record r { tokens = min (r.capacity * 1000) (r.tokens + 1000) }

unfoldable pub available : TokenBucket → ℕ → TokenBucket × ℕ
available b now = let r = refill b now in (r, r.tokens / 1000)
