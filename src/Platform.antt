-- ===== src/Platform.antt =====
-- What the program calls and does not implement.
use new_humans.Prelude.{String, Bool}

-- `sha256_hex` is `createHash('sha256').update(s).digest('hex')` of node:crypto, and `is_timestamp`
-- tells whether `Date.parse(s)` is a finite number, which the language leaves to the host.
pub record Platform : Type 0 where
  pub sha256_hex : String → String
  pub is_timestamp : String → Bool
