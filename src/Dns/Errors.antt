-- ===== src/Dns/Errors.antt =====
-- Go errors as far as the probers inspect them: prober/retry.go, IsTimeout.
use dnshealth_exporter.Prelude.{Bool, false}

-- `net_error` is a net.Error with its Timeout(); `wrapped` is fmt.Errorf with %w.
pub data Error : Type 0 where
  net_error : (timeout : Bool) → Error
  plain : Error
  wrapped : Error → Error

-- IsTimeout: errors.As walks the chain of wrapped errors to the first net.Error.
unfoldable pub is_timeout : Error → Bool
is_timeout (net_error timeout) = timeout
is_timeout plain = false
is_timeout (wrapped e) = is_timeout e

-- A result with Go's error beside it.
pub data Result (A : Type 0) : Type 0 where
  ok : A → Result A
  err : Error → Result A
