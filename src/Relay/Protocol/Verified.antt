-- ===== src/Relay/Protocol/Verified.antt =====
-- core/internal/relay/protocol.go: what a request that `VerifyPeer` accepts satisfies, and that it accepts
-- what `Sign` has signed.
use agentbell.Common.{
  ℕ, ◌+◌, ◌≤◌, Bool, true, false, ◌&&◌, not, Str, str_eq, str_eq_iff, contains, is_empty, length,
  ltb, ◌==◌, ok, require-ok, reject-ok, bind-ok, ok-injective, ◌≡◌, subst, arith,
}
use agentbell.Relay.{Envelope, Peer, Host, Invalid}
use agentbell.Relay.Protocol.{
  decode, validate_peer, verify, verify_peer, skew_or_default, sign, signing_material,
}

and_right : (a b : Bool) → (a && b) ≡ true → b ≡ true
and_right a b h = ground arith

ltb→ge : (a b : ℕ) → ltb a b ≡ false → b ≤ a
ltb→ge a b h = ground arith

-- A request that a peer may make, at an instant.
pub record IsAllowed (h : Host) (p : Peer) (scope method target body signature : Str)
    (now max_skew : ℕ) (e : Envelope) : Type 0 where
  pub decoded : decode h body ≡ ok e
  pub peer : validate_peer p ≡ ok tt
  pub standing : p.revoked ≡ false
  pub scoped : contains p.scopes scope ≡ true
  pub team : p.team_id ≡ e.team_id
  pub origin : p.origin_id ≡ e.origin.id
  pub source : contains p.allowed_sources e.event.source ≡ true
  pub runtime : contains p.allowed_runtimes e.event.runtime ≡ true
  pub not_expired : now ≤ e.sent_at + skew_or_default max_skew
  pub not_future : e.sent_at ≤ now + skew_or_default max_skew
  pub signed : verify h p.public_key method target e.sent_at e.nonce body signature ≡ ok tt

-- A request that is accepted is decoded from its body, comes from a valid peer that is not revoked and
-- has the scope, is of the peer's team, origin, sources and runtimes, lies within the skew of the
-- clock, and carries a signature of exactly its method, target and body.
pub verify_peer-IsAllowed :
    (h : Host) (p : Peer) (scope method target body signature : Str) (now max_skew : ℕ)
    (e : Envelope)
    → verify_peer h p scope method target body signature now max_skew ≡ ok e
    → IsAllowed h p scope method target body signature now max_skew e
unfolding verify_peer
verify_peer-IsAllowed h p scope method target body signature now max_skew e accepted =
    let (d, e0, r0) = bind-ok (decode h body) _ accepted in
    let (u, e1, r1) = bind-ok (validate_peer p) _ r0 in
    let (standing, r2) = reject-ok p.revoked Invalid.revoked _ r1 in
    let (scoped, r3) =
      require-ok (not (is_empty scope) && contains p.scopes scope) Invalid.scope _ r2 in
    let (team, r4) = require-ok (str_eq p.team_id d.team_id) Invalid.team _ r3 in
    let (origin, r5) = require-ok (str_eq p.origin_id d.origin.id) Invalid.origin _ r4 in
    let (source, r6) =
      require-ok (contains p.allowed_sources d.event.source) Invalid.source_denied _ r5 in
    let (runtime, r7) =
      require-ok (contains p.allowed_runtimes d.event.runtime) Invalid.runtime_denied _ r6 in
    let (timed, r8) = reject-ok (now == 0) Invalid.no_time _ r7 in
    let (past, r9) =
      reject-ok (ltb (d.sent_at + skew_or_default max_skew) now) Invalid.expired _ r8 in
    let (ahead, r10) =
      reject-ok (ltb (now + skew_or_default max_skew) d.sent_at) Invalid.future _ r9 in
    let (v, e11, r11) =
      bind-ok (verify h p.public_key method target d.sent_at d.nonce body signature) _ r10 in
    subst (IsAllowed h p scope method target body signature now max_skew) (ok-injective r11)
      (record {
        decoded = e0;
        peer = e1;
        standing = standing;
        scoped = and_right (not (is_empty scope)) (contains p.scopes scope) scoped;
        team = (str_eq_iff p.team_id d.team_id).0 team;
        origin = (str_eq_iff p.origin_id d.origin.id).0 origin;
        source = source;
        runtime = runtime;
        not_expired = ltb→ge (d.sent_at + skew_or_default max_skew) now past;
        not_future = ltb→ge (now + skew_or_default max_skew) d.sent_at ahead;
        signed = e11;
      })

-- A verifier accepts what was signed with the key that its library pairs with the public key.
pub verify-sign :
    (h : Host) (public_key private_key method target : Str) (sent_at : ℕ)
    (nonce body signature : Str)
    → ((m : Str) → h.ed25519_verify public_key m (h.ed25519_sign private_key m) ≡ true)
    → ((m : Str) → length (h.ed25519_sign private_key m) ≡ 64)
    → length public_key ≡ 32
    → sign h private_key method target sent_at nonce body ≡ ok signature
    → verify h public_key method target sent_at nonce body signature ≡ ok tt
unfolding sign verify
verify-sign h public_key private_key method target sent_at nonce body signature paired size key
      signed =
    let (u, r) = require-ok (length private_key == 64) Invalid.private_key _ signed in
    let (m, made, done) = bind-ok (signing_material h method target sent_at nonce body) _ r in
    let made_of : h.ed25519_sign private_key m ≡ signature = ok-injective done in
    subst (λ s. verify h public_key method target sent_at nonce body s ≡ ok tt) made_of
      (rw (key, size m, made, paired m))
