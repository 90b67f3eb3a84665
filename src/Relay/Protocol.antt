-- ===== src/Relay/Protocol.antt =====
-- core/internal/relay/protocol.go: decoding and validation of envelopes, what is signed, and the
-- verification of a peer's request. The method of a request is ASCII.
pub mod Verified
use agentbell.Common.{
  ℕ, zero, suc, ◌+◌, ◌-◌, ◌*◌, ◌/◌, ◌%◌, ◌^◌, Bool, true, false, ◌&&◌, ◌||◌, not, List, [], ◌∷◌,
  ◌++◌, Str, codes, str_eq, is_empty, contains, length, drop, take, ltb, leb, ◌==◌, Result, ok, err,
  ◌>>=◌, ◌>>◌, require, reject, if◌then◌else◌,
}
use agentbell.Common.Int.{ℤ, pos, negsuc}
use agentbell.Event
use agentbell.Event.{allowed_sources, allowed_runtimes}
use agentbell.Frame.{put_uint32}
use agentbell.Settings.Text.{is_lower, is_letter, is_digit, every, has_byte}
use agentbell.Queue.Enqueue.{trim_space}
use agentbell.Relay.{Envelope, Peer, Malformed, Invalid, Host}

abbrev pub max_body_bytes : ℕ
max_body_bytes = 64 * 1024

abbrev pub max_hop : ℕ
max_hop = 4

abbrev pub scope_ingest : Str
scope_ingest = codes "relay:ingest"

-- 5 minutes.
abbrev pub default_max_skew : ℕ
default_max_skew = 300 * 10 ^ 9

abbrev is_identifier_byte : ℕ → Bool
is_identifier_byte c =
    is_letter c || (is_digit c || (c == b'.' || (c == b'_' || (c == b':' || c == b'-'))))

-- `^[A-Za-z0-9][A-Za-z0-9._:-]{0,127}$`
unfoldable pub identifier_pattern : Str → Bool
unfolding every
identifier_pattern [] = false
identifier_pattern (c ∷ s) =
    (is_letter c || is_digit c) && (every is_identifier_byte s && leb (length s) 127)

abbrev pub is_hex : ℕ → Bool
is_hex c = is_digit c || (leb b'a' c && leb c b'f')

-- `^[0-9a-f]{32}$`
unfoldable pub nonce_pattern : Str → Bool
unfolding every
nonce_pattern s = every is_hex s && length s == 32

-- `^sha256:[0-9a-f]{64}$`
unfoldable pub delivery_pattern : Str → Bool
unfolding every str_eq
delivery_pattern s =
    str_eq (take 7 s) (codes "sha256:") && (every is_hex (drop 7 s) && length (drop 7 s) == 64)

unfoldable pub validate_identifier : Str → Str → Result Invalid (Unit {0})
unfolding identifier_pattern
validate_identifier name value = require (identifier_pattern value) (Invalid.identifier name)

unfoldable pub validate_nonce : Str → Result Invalid (Unit {0})
unfolding nonce_pattern
validate_nonce value = require (nonce_pattern value) Invalid.nonce

-- A field before its hash: the length in four bytes, the most significant first.
abbrev pub hash_field : Str → Str
hash_field s = put_uint32 (length s) ++ s

abbrev pub hex_digit : ℕ → ℕ
hex_digit d = if ltb d 10 then 48 + d else 87 + d

-- `hex.EncodeToString`.
unfoldable pub hex : Str → Str
hex [] = []
hex (c ∷ s) = hex_digit (c / 16) ∷ hex_digit (c % 16) ∷ hex s

abbrev pub checked_producer_key : Str → Result Invalid (Unit {0})
checked_producer_key k = reject (is_empty k || ltb 512 (length k)) Invalid.producer_key

-- `0 <= hop && hop <= MaxHop`.
abbrev pub hop_in_range : ℤ → Bool
hop_in_range (pos n) = leb n max_hop
hop_in_range (negsuc n) = false

abbrev pub event_error : Result Event.Invalid (Unit {0}) → Result Invalid (Unit {0})
event_error (ok _) = ok tt
event_error (err e) = err (Invalid.event e)

abbrev pub json_error : Result Malformed Envelope → Result Invalid Envelope
json_error (ok e) = ok e
json_error (err m) = err (Invalid.json m)

-- `strings.ToUpper` of ASCII.
unfoldable pub to_upper : Str → Str
to_upper [] = []
to_upper (c ∷ s) = (if is_lower c then c - 32 else c) ∷ to_upper s

-- `strings.ContainsAny(s, "\x00\r\n")`.
abbrev pub breaks_line : Str → Bool
breaks_line s = has_byte 0 s || (has_byte 13 s || has_byte 10 s)

module _ (h : Host) where
  unfoldable pub derive_delivery_key : Str → Str → Str → Result Invalid Str
  unfolding hex validate_identifier
  derive_delivery_key team_id origin_id producer_key = do
    validate_identifier (codes "teamId") team_id
    validate_identifier (codes "origin.id") origin_id
    checked_producer_key producer_key
    ok (
        codes "sha256:"
        ++ hex (
            h.sha256 (
              codes "agentbell-relay-delivery-v1"
              ++ (hash_field team_id ++ (hash_field origin_id ++ hash_field producer_key)))))

  unfoldable pub validate : Envelope → Result Invalid (Unit {0})
  unfolding str_eq contains validate_identifier validate_nonce derive_delivery_key delivery_pattern
      Event.validate
  validate e = do
    require (str_eq e.protocol_version (codes "1")) Invalid.protocol_version
    validate_identifier (codes "teamId") e.team_id
    validate_identifier (codes "origin.id") e.origin.id
    require (contains allowed_runtimes e.origin.runtime) Invalid.runtime
    require (str_eq e.origin.runtime e.event.runtime) Invalid.runtime_mismatch
    checked_producer_key e.delivery.producer_key
    expected ← derive_delivery_key e.team_id e.origin.id e.delivery.producer_key
    require (delivery_pattern e.delivery.key && str_eq e.delivery.key expected) Invalid.delivery_key
    require (str_eq e.delivery.producer_key e.event.idempotency_key) Invalid.event_key
    reject (e.sent_at == 0) Invalid.sent_at
    validate_nonce e.nonce
    require (hop_in_range e.hop) Invalid.hop
    event_error (Event.validate e.event)

  unfoldable pub decode : Str → Result Invalid Envelope
  unfolding validate
  decode body = do
    reject (is_empty body) Invalid.empty
    reject (ltb max_body_bytes (length body)) Invalid.too_large
    e ← json_error (h.decode_json body)
    validate e
    ok e

  -- The lines of the text that is signed, joined by line feeds.
  unfoldable pub signing_material : Str → Str → ℕ → Str → Str → Result Invalid Str
  unfolding to_upper trim_space has_byte validate_nonce hex
  signing_material method target sent_at nonce body = do
    reject (is_empty (to_upper (trim_space method)) || breaks_line (to_upper (trim_space method)))
        Invalid.method
    reject (is_empty target || (ltb 2048 (length target) || breaks_line target)) Invalid.target
    reject (sent_at == 0) Invalid.sent_at
    validate_nonce nonce
    reject (is_empty body || ltb max_body_bytes (length body)) Invalid.body
    ok (
        codes "AGENTBELL-RELAY-SIGNATURE-V1\n"
        ++ (to_upper (trim_space method)
            ++ (codes "\n"
                ++ (target
                    ++ (codes "\n"
                        ++ (h.print_time sent_at
                            ++ (codes "\n" ++ (nonce ++ (codes "\n" ++ hex (h.sha256 body))))))))))

  unfoldable pub verify : Str → Str → Str → ℕ → Str → Str → Str → Result Invalid (Unit {0})
  unfolding signing_material
  verify public_key method target sent_at nonce body signature = do
    require (length public_key == 32) Invalid.public_key
    require (length signature == 64) Invalid.signature
    material ← signing_material method target sent_at nonce body
    require (h.ed25519_verify public_key material signature) Invalid.forged

  unfoldable pub sign : Str → Str → Str → ℕ → Str → Str → Result Invalid Str
  unfolding signing_material
  sign private_key method target sent_at nonce body = do
    require (length private_key == 64) Invalid.private_key
    material ← signing_material method target sent_at nonce body
    ok (h.ed25519_sign private_key material)

-- A loop that stops at the first fault.
unfoldable pub for_each :
    {X : Type 0} → List X → (X → Result Invalid (Unit {0})) → Result Invalid (Unit {0})
for_each [] f = ok tt
for_each (x ∷ xs) f = f x >> for_each xs f

unfoldable pub validate_peer : Peer → Result Invalid (Unit {0})
unfolding validate_identifier for_each contains
validate_peer p = do
  validate_identifier (codes "peer id") p.id
  validate_identifier (codes "peer teamId") p.team_id
  validate_identifier (codes "peer originId") p.origin_id
  require (length p.public_key == 32) Invalid.public_key
  reject (length p.scopes == 0) Invalid.no_scopes
  for_each p.scopes (λ s. validate_identifier (codes "peer scope") s)
  reject (length p.allowed_sources == 0 || length p.allowed_runtimes == 0) Invalid.no_allowlist
  for_each p.allowed_sources (λ s. require (contains allowed_sources s) Invalid.source)
  for_each p.allowed_runtimes (λ r. require (contains allowed_runtimes r) Invalid.peer_runtime)

-- A skew of nothing stands for the default one.
abbrev pub skew_or_default : ℕ → ℕ
skew_or_default max_skew = if max_skew == 0 then default_max_skew else max_skew

module _ (h : Host) where
  unfoldable pub verify_peer : Peer → Str → Str → Str → Str → Str → ℕ → ℕ → Result Invalid Envelope
  unfolding decode validate_peer contains str_eq verify
  verify_peer peer required_scope method target body signature now max_skew = do
    e ← decode h body
    validate_peer peer
    reject peer.revoked Invalid.revoked
    require (not (is_empty required_scope) && contains peer.scopes required_scope) Invalid.scope
    require (str_eq peer.team_id e.team_id) Invalid.team
    require (str_eq peer.origin_id e.origin.id) Invalid.origin
    require (contains peer.allowed_sources e.event.source) Invalid.source_denied
    require (contains peer.allowed_runtimes e.event.runtime) Invalid.runtime_denied
    reject (now == 0) Invalid.no_time
    reject (ltb (e.sent_at + skew_or_default max_skew) now) Invalid.expired
    reject (ltb (now + skew_or_default max_skew) e.sent_at) Invalid.future
    verify h peer.public_key method target e.sent_at e.nonce body signature
    ok e
