-- ===== src/Relay/Ingress/Request.antt =====
-- core/internal/relay/ingress.go: the request, and what is checked of it before anything is read from
-- the disk.
use agentbell.Common.{
  ℕ, Bool, ◌&&◌, ◌||◌, not, List, Option, none, some, Str, str_eq, is_empty, ◌==◌, Result, ok, err,
  ◌>>=◌, ◌>>◌, require, if◌then◌else◌,
}
use agentbell.Queue.Enqueue.{Wait, trim_space}
use agentbell.Relay.{Envelope, Peer, Host}
use agentbell.Relay.Protocol.{verify_peer, scope_ingest}
use agentbell.Relay.Nonce.{checked}
use agentbell.Relay.Storage.{Error}

pub record IngressRequest : Type 0 where
  pub key_id : Str
  pub method : Str
  pub target : Str
  pub sent_at : ℕ
  pub nonce : Str
  pub exact_body : Str
  pub signature : Str

-- `!ok || peer.ID != request.KeyID`.
abbrev pub known_peer : Str → Option Peer → Result Error Peer
known_peer key_id none = err Error.unknown_peer
known_peer key_id (some p) = if str_eq p.id key_id then ok p else err Error.unknown_peer

abbrev pub is_complete : IngressRequest → Bool
is_complete q = not (is_empty (trim_space q.key_id) || (q.sent_at == 0 || is_empty q.nonce))

-- An ingress and what the world gives to one call of it: the clock, the random id and the waits of
-- its reservation.
pub record Ingress : Type 0 where
  pub host : Host
  pub peer : Str → Option Peer
  pub retention : ℕ
  pub max_skew : ℕ
  pub key_file : Str → Str

pub record Call : Type 0 where
  pub now : ℕ
  pub random : Option Str
  pub waits : List Wait

module _ (g : Ingress) (c : Call) where
  -- The peer and the envelope that a request is verified for.
  unfoldable pub verified : IngressRequest → Result Error (Peer × Envelope)
  unfolding trim_space str_eq verify_peer
  verified q = do
    require (is_complete q) Error.incomplete
    p ← known_peer q.key_id (g.peer q.key_id)
    e ← checked (
        verify_peer g.host p scope_ingest q.method q.target q.exact_body q.signature c.now
          g.max_skew)
    require (q.sent_at == e.sent_at && str_eq q.nonce e.nonce) Error.header_mismatch
    ok (p, e)
