-- ===== src/Relay.antt =====
-- core/internal/relay/protocol.go: the envelope that a connector signs, and the peer it is known as.
pub mod Protocol
pub mod Storage
pub mod Nonce
pub mod Receipt
pub mod Ingress
mod Tests
use agentbell.Common.{ℕ, Bool, List, Str, Result}
use agentbell.Common.Int.{ℤ}
use agentbell.Event
use agentbell.Event.{Notification}

pub record Origin : Type 0 where
  pub id : Str
  pub runtime : Str

pub record Delivery : Type 0 where
  pub key : Str
  pub producer_key : Str

pub record Envelope : Type 0 where
  pub protocol_version : Str
  pub team_id : Str
  pub origin : Origin
  pub delivery : Delivery
  pub sent_at : ℕ
  pub nonce : Str
  pub hop : ℤ
  pub event : Notification

pub record Peer : Type 0 where
  pub id : Str
  pub team_id : Str
  pub origin_id : Str
  pub public_key : Str
  pub scopes : List Str
  pub allowed_sources : List Str
  pub allowed_runtimes : List Str
  pub revoked : Bool

-- What `json.Decoder` finds behind or in place of the one value.
pub data Malformed : Type 0 where
  undecodable trailing_json trailing_data : Malformed

-- The errors of protocol.go, one constructor to a return.
pub data Invalid : Type 0 where
  empty too_large : Invalid
  json : Malformed → Invalid
  protocol_version runtime runtime_mismatch producer_key delivery_key event_key : Invalid
  sent_at nonce hop : Invalid
  identifier : Str → Invalid
  event : Event.Invalid → Invalid
  no_scopes no_allowlist source peer_runtime public_key private_key : Invalid
  method target body signature forged : Invalid
  revoked scope team origin source_denied runtime_denied no_time expired future : Invalid

-- The libraries that the protocol calls: SHA-256, Ed25519, the printing of an instant
-- by RFC 3339, and the strict JSON decoder.
pub record Host : Type 0 where
  pub sha256 : Str → Str
  pub ed25519_verify : Str → Str → Str → Bool
  pub ed25519_sign : Str → Str → Str
  pub print_time : ℕ → Str
  pub decode_json : Str → Result Malformed Envelope
