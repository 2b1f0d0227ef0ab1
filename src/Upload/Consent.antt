-- ===== src/Upload/Consent.antt =====
-- What must hold when a chunk leaves the device, and when its body is deleted.
use skillmeter_claude_code_m.Prelude.{
  ℕ, Bool, true, false, not, if◌then◌else◌, ◌&&◌, ◌||◌, Option, none, some, String, str_eq, ◌≡◌,
  inl, inr, refl, sym, ap, ◌∙◌, Bool-cases, eq_iff, arith,
}
use mathlib.Core.Option.{some-injective}
use skillmeter_claude_code_m.Host.{Host}
use skillmeter_claude_code_m.Jwt.{is_jwt_expired}
use skillmeter_claude_code_m.Session.{get_license_token}
use skillmeter_claude_code_m.Queue.{
  Disposition, send, pause, delete, QueueContext, imported, backfill_tenant_matches,
}
use skillmeter_claude_code_m.Upload.{
  Sidecar, chunk_of, is_import, ChunkFiles, Disk, Moment, Request, Answer, response, no_response,
  Outcome, refused, settle_answer, is_queued, is_send, is_delete, jwt_expiry_grace_seconds, Body,
  unreadable, loaded, Client, usable_token, disposition_at, allowed_at, may_send, request_of,
  send_chunk, send_to, send_with, drop_chunk, consider_chunk, upload_delta_chunk,
  telemetry_endpoint, build_chunk_headers,
}

-- A choice whose second outcome sends nothing.
sent_if :
    (b : Bool) (x y : Outcome) (r : Request)
    → y.sent ≡ none
    → (if b then x else y).sent ≡ some r
    → (b ≡ true) × (x.sent ≡ some r)
sent_if true x y r n e = (refl, e)
sent_if false x y r n e = absurd (ground (arith, n, e))

-- A choice whose first outcome sends nothing.
sent_unless :
    (b : Bool) (x y : Outcome) (r : Request)
    → x.sent ≡ none
    → (if b then x else y).sent ≡ some r
    → (b ≡ false) × (y.sent ≡ some r)
sent_unless true x y r n e = absurd (ground (arith, n, e))
sent_unless false x y r n e = (refl, e)

pub usable_token-some :
    ⦃h : Host⦄ (before : Moment) (t : String)
    → usable_token before ≡ some t
    → (get_license_token before.account ≡ some t)
      × (is_jwt_expired (some t) before.now jwt_expiry_grace_seconds true ≡ false)
unfolding usable_token
usable_token-some before t e =
    let token = get_license_token before.account in
    elim (Bool-cases (is_jwt_expired token before.now jwt_expiry_grace_seconds true)) [
      | inl old ↦ absurd (ground (arith, old, e))
      | inr fresh ↦
          let same : token ≡ some t = ground (arith, fresh, e) in (same, rw (sym same) fresh)
    ]

pub is_send-true : (d : Disposition) → is_send d ≡ true → d ≡ send
is_send-true send e = refl
is_send-true pause e = absurd (ground (arith, e))
is_send-true delete e = absurd (ground (arith, e))

conditions :
    (d : Disposition) (allowed import tenant : Bool)
    → is_send d && allowed && (not import || tenant) ≡ true
    → (d ≡ send) × (allowed ≡ true) × (import ≡ true → tenant ≡ true)
conditions send allowed import tenant e = ground (arith, e)
conditions pause allowed import tenant e = absurd (ground (arith, e))
conditions delete allowed import tenant e = absurd (ground (arith, e))

pub settle_answer-sent :
    ⦃h : Host⦄ (disk : Disk) (now : ℕ) (f : ChunkFiles) (q : Request) (a : Answer)
    → (settle_answer disk now f q a).sent ≡ some q
unfolding settle_answer
settle_answer-sent disk now f q (no_response why) = refl
settle_answer-sent disk now f q (response status) = ground arith

module _ ⦃h : Host⦄ (client : Client) (answer : Request → Answer) (disk : Disk) where
  module _ (before later : Moment) (f : ChunkFiles) (c : QueueContext) (r : Request) where
    send_chunk-sent :
        (token endpoint : String) (body : Body)
        → (send_chunk client answer disk later f c token endpoint body).sent ≡ some r
        → (may_send client later f.content c token ≡ true) × (r.headers.bearer ≡ token)
    unfolding send_chunk build_chunk_headers
    send_chunk-sent token endpoint (unreadable why) e = absurd (ground (arith, e))
    send_chunk-sent token endpoint (loaded raw) e =
        let q = request_of client f.content token endpoint raw in
        let (allowed, sent) = sent_if (may_send client later f.content c token) _ _ r refl e in
        let same =
          some-injective q r (sym (settle_answer-sent disk later.now f q (answer q)) ∙ sent) in
        (allowed, ap (λ x. x.headers.bearer) (sym same))

    send_to-sent :
        (body : Body) (token : String) (endpoint : Option String)
        → (send_to client answer disk later f c body token endpoint).sent ≡ some r
        → (may_send client later f.content c token ≡ true) × (r.headers.bearer ≡ token)
    unfolding send_to
    send_to-sent body token none e = absurd (ground (arith, e))
    send_to-sent body token (some endpoint) e = send_chunk-sent token endpoint body e

    send_with-sent :
        (body : Body) (token : Option String)
        → (send_with client answer disk later f c body token).sent ≡ some r
        → (token ≡ some r.headers.bearer)
          × (may_send client later f.content c r.headers.bearer ≡ true)
    unfolding send_with
    send_with-sent body none e = absurd (ground (arith, e))
    send_with-sent body (some token) e =
        let (allowed, same) =
          send_to-sent body token (telemetry_endpoint client.override (some token)) e in
        (ap some (sym same), rw same allowed)

    consider_chunk-sent :
        (body : Body)
        → (consider_chunk client answer disk before later f c body).sent ≡ some r
        → (usable_token before ≡ some r.headers.bearer)
          × (may_send client later f.content c r.headers.bearer ≡ true)
    unfolding consider_chunk drop_chunk
    consider_chunk-sent body e =
        let gone = is_delete (disposition_at client before f.content c) in
        let (_, e1) = sent_unless (gone && is_import f.content) _ _ r refl e in
        let (_, e2) = sent_unless gone _ _ r refl e1 in
        let (_, e3) = sent_unless _ _ _ r refl e2 in send_with-sent body (usable_token before) e3

  may_send-true :
      (later : Moment) (s : Sidecar) (c : QueueContext) (token : String)
      → may_send client later s c token ≡ true
      → (disposition_at client later s c ≡ send)
        × (allowed_at later s c ≡ true)
        × (imported (chunk_of s) ≡ true
            → backfill_tenant_matches later.backfill (chunk_of s) (client.fingerprint token) ≡ true)
  unfolding may_send
  may_send-true later s c token e =
      conditions (disposition_at client later s c) (allowed_at later s c) (imported (chunk_of s))
        (backfill_tenant_matches later.backfill (chunk_of s) (client.fingerprint token)) e

  -- A chunk leaves the device only under a license of the moment it began, signed in and unexpired,
  -- and only if just before the request the chunk's disposition is to be sent, its transmission is
  -- allowed, and, for a chunk of the import, the tenant of the very license that the request
  -- carries is the one that accepted the offer. Both of its files were in a queue whose repository
  -- the sidecar names.
  pub sent_with_consent :
      (before later : Moment) (f : ChunkFiles) (context : Option QueueContext) (body : Body)
      (r : Request)
      → (upload_delta_chunk client answer disk before later f context body).sent ≡ some r
      → (c : QueueContext) × (context ≡ some c)
        × (f.content.repo_key ≡ c.repo_key)
        × (is_queued f.body && is_queued f.sidecar ≡ true)
        × (get_license_token before.account ≡ some r.headers.bearer)
        × (is_jwt_expired (some r.headers.bearer) before.now jwt_expiry_grace_seconds true ≡ false)
        × (disposition_at client later f.content c ≡ send)
        × (allowed_at later f.content c ≡ true)
        × (imported (chunk_of f.content) ≡ true
            → backfill_tenant_matches later.backfill
                (chunk_of f.content)
                (client.fingerprint r.headers.bearer)
              ≡ true)
  unfolding upload_delta_chunk drop_chunk
  sent_with_consent before later f none body r e =
      let waits = not (is_queued f.body) || not (is_queued f.sidecar) in
      let (_, e1) = sent_unless waits (refused f) (drop_chunk f "invalid_queue_context") r refl e in
      absurd (ground (arith, e1))
  sent_with_consent before later f (some c) body r e =
      let waits = not (is_queued f.body) || not (is_queued f.sidecar) in
      let stray = str_eq f.content.repo_key "" || not (str_eq f.content.repo_key c.repo_key) in
      let dropped = drop_chunk f "invalid_queue_context" in
      let considered = consider_chunk client answer disk before later f c body in
      let (here, e1) =
        sent_unless waits (refused f) (if stray then dropped else considered) r refl e in
      let (key, e2) = sent_unless stray dropped considered r refl e1 in
      let (token, may) = consider_chunk-sent before later f c r body e2 in
      let (held, fresh) = usable_token-some before r.headers.bearer token in
      let (disposed, allowed, tenant) = may_send-true later f.content c r.headers.bearer may in
      (
        c,
        refl,
        ground (arith, key, eq_iff f.content.repo_key c.repo_key),
        ground (arith, here),
        held,
        fresh,
        disposed,
        allowed,
        tenant,
      )
