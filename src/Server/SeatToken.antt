-- ===== src/Server/SeatToken.antt =====
-- apps/game-server/src/seat-token.ts: seat tokens over the library of JSON Web Tokens, which is the
-- parameter `Jwt`: what `verify` decodes at the time of the call (`none` if it throws) and the
-- token that `sign` makes, both with the server's secret. A claim that is not a text is `none`.
use agent_poker.Base.{ℕ, ◌*◌, Option, none, some}
use agent_poker.History.HashChain.{Text}

pub record SeatTokenPayload : Type 0 where
  pub agent_id : ℕ
  pub table_id : Text

pub record Claims : Type 0 where
  pub agent_id : Option ℕ
  pub table_id : Option Text

pub record Jwt : Type 0 where
  pub verify : ℕ → Option Claims
  pub sign : SeatTokenPayload → ℕ → ℕ

-- 30 minutes
abbrev pub default_expiry_seconds : ℕ
default_expiry_seconds = 30 * 60

abbrev expiry_of : Option ℕ → ℕ
expiry_of none = default_expiry_seconds
expiry_of (some seconds) = seconds

unfoldable pub sign_seat_token : Jwt → SeatTokenPayload → Option ℕ → ℕ
sign_seat_token jwt payload expires = jwt.sign payload (expiry_of expires)

abbrev payload_of : Option ℕ → Option Text → Option SeatTokenPayload
payload_of (some agent_id) (some table_id) =
    some (record { agent_id = agent_id; table_id = table_id })
payload_of none table_id = none
payload_of (some agent_id) none = none

unfoldable pub verify_seat_token : Jwt → ℕ → Option SeatTokenPayload
verify_seat_token jwt token = elim (jwt.verify token) [
  | none ↦ none
  | some claims ↦ payload_of claims.agent_id claims.table_id
]

unfoldable pub refresh_seat_token : Jwt → ℕ → Option ℕ → Option ℕ
unfolding verify_seat_token sign_seat_token
refresh_seat_token jwt old_token expires = elim (verify_seat_token jwt old_token) [
  | none ↦ none
  | some payload ↦ some (sign_seat_token jwt payload expires)
]
