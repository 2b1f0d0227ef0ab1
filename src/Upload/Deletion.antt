-- ===== src/Upload/Deletion.antt =====
-- Why an upload deletes a chunk.
use skillmeter_claude_code_m.Prelude.{
  ℕ, true, false, not, if_intro, if_given, ◌&&◌, ◌||◌, Option, none, some, String, str_eq, ◌≡◌, ◌≢◌,
  ◌⊎◌, inl, inr, refl, Bool-cases, eq_iff, arith,
}
use skillmeter_claude_code_m.Host.{Host}
use skillmeter_claude_code_m.Queue.{Disposition, send, pause, delete, QueueContext}
use skillmeter_claude_code_m.Upload.Consent.{settle_answer-sent}
use skillmeter_claude_code_m.Upload.{
  is_import, queued, removed, ChunkFiles, Disk, Moment, Request, Answer, response, no_response,
  Outcome, note_chunk_upload_failure, note_chunk_upload_deferral, is_success, settle_answer,
  is_queued, is_send, is_delete, Body, unreadable, loaded, Client, usable_token, disposition_at,
  allowed_at, may_send, request_of, send_chunk, send_to, send_with, consider_chunk,
  upload_delta_chunk, telemetry_endpoint, http_error,
}

unfoldable pub IsDeleted : Outcome → Type 0
IsDeleted o = o.files.body ≡ removed

is_delete-true : (d : Disposition) → is_delete d ≡ true → d ≡ delete
is_delete-true send e = absurd (ground (arith, e))
is_delete-true pause e = absurd (ground (arith, e))
is_delete-true delete e = refl

still_queued : (f : ChunkFiles) → f.body ≡ queued → f.body ≢ removed
still_queued f q e = ground (arith, q, e)

note_failure_keeps :
    (d : Disk) (now : ℕ) (f : ChunkFiles) (error : String)
    → f.body ≡ queued
    → (note_chunk_upload_failure d now f error).1.body ≢ removed
unfolding note_chunk_upload_failure
note_failure_keeps d now f error q = ground (arith, q)

note_deferral_keeps :
    (d : Disk) (now : ℕ) (f : ChunkFiles) (error : String)
    → f.body ≡ queued
    → (note_chunk_upload_deferral d now f error).body ≢ removed
unfolding note_chunk_upload_deferral
note_deferral_keeps d now f error q = ground (arith, q)

module _ ⦃h : Host⦄ (disk : Disk) (now : ℕ) (f : ChunkFiles) (q : f.body ≡ queued) where
  settle_answer-deleted :
      (r : Request) (a : Answer)
      → IsDeleted (settle_answer disk now f r a)
      → (status : ℕ) × (a ≡ response status) × (is_success status ≡ true)
  unfolding IsDeleted settle_answer
  settle_answer-deleted r (no_response why) e = absurd (note_deferral_keeps disk now f why q e)
  settle_answer-deleted r (response status) e =
      let failed = note_failure_keeps disk now f (http_error status) q in
      let deferred = note_deferral_keeps disk now f (http_error status) q in
      (status, refl, ground (arith, q, e, failed, deferred))

module _ ⦃h : Host⦄ (client : Client) (answer : Request → Answer) (disk : Disk) where
  -- The collector took the request that the upload sent.
  pub Delivered : Outcome → Type 0
  Delivered o =
      (r : Request) × (status : ℕ) × (o.sent ≡ some r)
      × (answer r ≡ response status)
      × (is_success status ≡ true)

  Justified : Outcome → Type 0
  Justified o = IsDeleted o → Delivered o

  module _ (later : Moment) (f : ChunkFiles) (c : QueueContext) (q : f.body ≡ queued) where
    send_chunk-Justified :
        (token endpoint : String) (body : Body)
        → Justified (send_chunk client answer disk later f c token endpoint body)
    unfolding IsDeleted Delivered Justified send_chunk
    send_chunk-Justified token endpoint (unreadable why) =
        λ e. absurd (note_failure_keeps disk later.now f "gzip_failed" q e)
    send_chunk-Justified token endpoint (loaded raw) =
        let r = request_of client f.content token endpoint raw in
        if_intro Justified (may_send client later f.content c token) _ _
          (λ e.
            let (status, answered, success) =
              settle_answer-deleted disk later.now f q r (answer r) e in
            (r, status, settle_answer-sent disk later.now f r (answer r), answered, success))
          (λ e. absurd (still_queued f q e))

    send_to-Justified :
        (body : Body) (token : String) (endpoint : Option String)
        → Justified (send_to client answer disk later f c body token endpoint)
    unfolding send_to IsDeleted Justified
    send_to-Justified body token none = λ e. absurd (still_queued f q e)
    send_to-Justified body token (some endpoint) = send_chunk-Justified token endpoint body

    send_with-Justified :
        (body : Body) (token : Option String)
        → Justified (send_with client answer disk later f c body token)
    unfolding send_with IsDeleted Justified
    send_with-Justified body none = λ e. absurd (still_queued f q e)
    send_with-Justified body (some token) =
        send_to-Justified body token (telemetry_endpoint client.override (some token))

  module _ (before later : Moment) (f : ChunkFiles) (c : QueueContext) where
    -- The chunk was delivered, or its consent was gone when the upload began.
    Excused : Outcome → Type 0
    Excused o = IsDeleted o → Delivered o ⊎ (disposition_at client before f.content c ≡ delete)

    consider_chunk-Excused :
        (body : Body)
        → f.body ≡ queued
        → Excused (consider_chunk client answer disk before later f c body)
    unfolding consider_chunk Excused Justified IsDeleted
    consider_chunk-Excused body q =
        let d = disposition_at client before f.content c in
        let gone = is_delete d in
        if_given Excused (gone && is_import f.content) _ _
          (λ e _. inr (is_delete-true d (ground (arith, e))))
          (λ _.
            if_given Excused gone _ _ (λ e _. inr (is_delete-true d e))
              (λ _.
                if_intro Excused (not (is_send d) || not (allowed_at before f.content c)) _ _
                  (λ e. absurd (still_queued f q e))
                  (λ e. inl (send_with-Justified later f c q body (usable_token before) e))))

    -- The same, or the chunk does not belong to the queue.
    Explained : Outcome → Type 0
    Explained o =
        IsDeleted o
        → Delivered o
          ⊎ (disposition_at client before f.content c ≡ delete)
          ⊎ ((f.content.repo_key ≡ "") ⊎ (f.content.repo_key ≢ c.repo_key))

    Excused-Explained : (o : Outcome) → Excused o → Explained o
    unfolding Excused Explained
    Excused-Explained o x e = elim (x e) [ inl d ↦ inl d | inr g ↦ inr (inl g) ]

    -- When an upload deletes a chunk that was in a queue, the collector has answered with a 2xx
    -- status to the request that carried it, or the chunk's disposition was to be deleted, or its
    -- sidecar names no repository or another one than the queue's. Every other answer, error and
    -- refusal keeps it.
    pub deleted_for_a_reason :
        (body : Body)
        → f.body ≡ queued
        → IsDeleted (upload_delta_chunk client answer disk before later f (some c) body)
        → Delivered (upload_delta_chunk client answer disk before later f (some c) body)
          ⊎ (disposition_at client before f.content c ≡ delete)
          ⊎ ((f.content.repo_key ≡ "") ⊎ (f.content.repo_key ≢ c.repo_key))
    unfolding upload_delta_chunk Explained IsDeleted
    deleted_for_a_reason body q =
        let stray = str_eq f.content.repo_key "" || not (str_eq f.content.repo_key c.repo_key) in
        if_intro Explained (not (is_queued f.body) || not (is_queued f.sidecar)) _ _
          (λ e. absurd (still_queued f q e))
          (if_given Explained stray _ _
            (λ e _. inr (inr (foreign (Bool-cases (str_eq f.content.repo_key "")) e)))
            (λ _. Excused-Explained _ (consider_chunk-Excused body q)))
      where
        foreign :
            (str_eq f.content.repo_key "" ≡ true) ⊎ (str_eq f.content.repo_key "" ≡ false)
            → (str_eq f.content.repo_key "" || not (str_eq f.content.repo_key c.repo_key)) ≡ true
            → (f.content.repo_key ≡ "") ⊎ (f.content.repo_key ≢ c.repo_key)
        foreign (inl empty) e = inl (ground (arith, empty, eq_iff f.content.repo_key ""))
        foreign (inr full) e = inr (ground (arith, full, e, eq_iff f.content.repo_key c.repo_key))
