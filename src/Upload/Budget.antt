-- ===== src/Upload/Budget.antt =====
-- What an upload costs a chunk: which answers spend its retry budget, and when it is set aside.
use skillmeter_claude_code_m.Prelude.{
  ℕ, ◌+◌, Bool, Bool-cases, true, not, if◌then◌else◌, if_intro, if_given, ◌&&◌, ◌||◌, ◌==◌, leb,
  Option, none, some, List, [], ◌∷◌, String, str_eq, ◌≡◌, ◌⊎◌, inl, inr, refl, sym, ap, ◌∙◌, length,
  arith,
}
use mathlib.Core.Path.{subst}
use mathlib.Core.Option.{some-injective}
use skillmeter_claude_code_m.Host.{Host, units}
use skillmeter_claude_code_m.Retry.{
  record_upload_failure, record_upload_deferral, is_chunk_exhausted, counted, max_upload_attempts,
}
use skillmeter_claude_code_m.Queue.{QueueContext}
use skillmeter_claude_code_m.Upload.Consent.{settle_answer-sent}
use skillmeter_claude_code_m.Upload.{
  is_import, Sidecar, queued, quarantined, ChunkFiles, Disk, Moment, Request, Answer, response,
  no_response, Outcome, note_chunk_upload_failure, note_chunk_upload_deferral, is_success,
  settle_answer, is_queued, is_send, is_delete, Body, unreadable, loaded, Client, usable_token,
  disposition_at, allowed_at, may_send, request_of, send_chunk, send_to, send_with, drop_chunk,
  consider_chunk, upload_delta_chunk, telemetry_endpoint, http_error, is_deferred_status,
}

-- The chunk itself is refused: no success, no question of the license, no unavailable collector.
abbrev pub rejects : ℕ → Bool
rejects status = not (is_success status) && not (status == 401) && not (is_deferred_status status)

-- A property of outcomes that holds of every upload if it holds of every result that sends nothing
-- and leaves the chunk's retry state, of every answer, and of a body that cannot be read.
module _ ⦃h : Host⦄ (client : Client) (answer : Request → Answer) (disk : Disk) where
  module _ (before later : Moment) (f : ChunkFiles) (body : Body) (P : Outcome → Type 0)
      (silent : (o : Outcome) → o.sent ≡ none → o.files.content ≡ f.content → P o)
      (unread : (o : Outcome) (why : String)
        → body ≡ unreadable why
        → o.sent ≡ none
        → o.files ≡ (note_chunk_upload_failure disk later.now f "gzip_failed").1
        → P o)
      (answered : (o : Outcome) (r : Request)
        → o.sent ≡ some r
        → o.files ≡ (settle_answer disk later.now f r (answer r)).files
        → P o) where
    send_chunk-every :
        (c : QueueContext) (token endpoint : String) (b : Body)
        → b ≡ body
        → P (send_chunk client answer disk later f c token endpoint b)
    unfolding send_chunk
    send_chunk-every c token endpoint (unreadable why) e = unread _ why (sym e) refl refl
    send_chunk-every c token endpoint (loaded raw) e =
        let r = request_of client f.content token endpoint raw in
        if_intro P (may_send client later f.content c token) _ _
          (answered _ r (settle_answer-sent disk later.now f r (answer r)) refl)
          (silent _ refl refl)

    send_to-every :
        (c : QueueContext) (token : String) (endpoint : Option String)
        → P (send_to client answer disk later f c body token endpoint)
    unfolding send_to
    send_to-every c token none = silent _ refl refl
    send_to-every c token (some endpoint) = send_chunk-every c token endpoint body refl

    send_with-every :
        (c : QueueContext) (token : Option String)
        → P (send_with client answer disk later f c body token)
    unfolding send_with
    send_with-every c none = silent _ refl refl
    send_with-every c (some token) =
        send_to-every c token (telemetry_endpoint client.override (some token))

    consider_chunk-every :
        (c : QueueContext) → P (consider_chunk client answer disk before later f c body)
    unfolding consider_chunk drop_chunk
    consider_chunk-every c =
        let d = disposition_at client before f.content c in
        if_intro P (is_delete d && is_import f.content) _ _ (silent _ refl refl) (
          if_intro P (is_delete d) _ _ (silent _ refl refl) (
            if_intro P (not (is_send d) || not (allowed_at before f.content c)) _ _
              (silent _ refl refl) (send_with-every c (usable_token before))))

    every_upload :
        (context : Option QueueContext)
        → P (upload_delta_chunk client answer disk before later f context body)
    unfolding upload_delta_chunk drop_chunk
    every_upload none =
        if_intro P (not (is_queued f.body) || not (is_queued f.sidecar)) _ _ (silent _ refl refl)
          (silent _ refl refl)
    every_upload (some c) =
        let stray = str_eq f.content.repo_key "" || not (str_eq f.content.repo_key c.repo_key) in
        if_intro P (not (is_queued f.body) || not (is_queued f.sidecar)) _ _ (silent _ refl refl)
          (if_intro P stray _ _ (silent _ refl refl) (consider_chunk-every c))

unfoldable pub attempts : ChunkFiles → Option ℕ
attempts f = f.content.retry.upload_attempts

deferral-attempts :
    (d : Disk) (now : ℕ) (f : ChunkFiles) (error : String)
    → attempts (note_chunk_upload_deferral d now f error) ≡ attempts f
unfolding attempts note_chunk_upload_deferral record_upload_deferral
deferral-attempts d now f error = ground arith

answer-attempts :
    ⦃h : Host⦄ (d : Disk) (now : ℕ) (f : ChunkFiles) (r : Request) (a : Answer)
    → (attempts (settle_answer d now f r a).files ≡ attempts f)
      ⊎ ((status : ℕ) × (a ≡ response status) × (rejects status ≡ true))
unfolding attempts settle_answer
answer-attempts d now f r (no_response why) = inl (deferral-attempts d now f why)
answer-attempts d now f r (response status) =
    let P : Outcome → Type 0 = λ o.
      (attempts o.files ≡ attempts f)
      ⊎ ((s : ℕ) × (response status ≡ response s) × (rejects s ≡ true)) in
    if_given P (is_success status) _ _ (λ _. inl refl)
      (λ s.
        if_given P (status == 401) _ _ (λ _. inl refl)
          (λ u.
            if_given P (is_deferred_status status) _ _
              (λ _. inl (deferral-attempts d now f (http_error status)))
              (λ e. inr (status, refl, ground (arith, s, u, e)))))

failure_files :
    ⦃h : Host⦄ (d : Disk) (now : ℕ) (f : ChunkFiles) (r : Request) (status : ℕ)
    → rejects status ≡ true
    → (settle_answer d now f r (response status)).files
      ≡ (note_chunk_upload_failure d now f (http_error status)).1
unfolding settle_answer
failure_files d now f r status e = ground (arith, e)

module _ ⦃h : Host⦄ (client : Client) (answer : Request → Answer) (disk : Disk) where
  -- An upload leaves the number of failed attempts as it was, unless the collector answered the
  -- request it sent with a status that refuses the chunk itself (not a 2xx, 401, 402, 403, 408,
  -- 429, 502, 503 or 504), or the body could not be read: without a license, without consent, or
  -- offline, a chunk never comes nearer to being given up.
  pub only_rejections_spend :
      (before later : Moment) (f : ChunkFiles) (context : Option QueueContext) (body : Body)
      → (attempts (upload_delta_chunk client answer disk before later f context body).files
          ≡ attempts f)
        ⊎ ((why : String) × (body ≡ unreadable why))
        ⊎ ((r : Request) × (status : ℕ) × ((upload_delta_chunk client answer disk before later f
                context body).sent
              ≡ some r)
            × (answer r ≡ response status)
            × (rejects status ≡ true))
  unfolding attempts
  only_rejections_spend before later f context body =
      every_upload client answer disk before later f body
        (λ o.
          (attempts o.files ≡ attempts f)
          ⊎ ((why : String) × (body ≡ unreadable why))
          ⊎ ((r : Request) × (status : ℕ) × (o.sent ≡ some r)
              × (answer r ≡ response status)
              × (rejects status ≡ true)))
        (λ o none same. inl (ap (λ x. x.retry.upload_attempts) same))
        (λ o why e none same. inr (inl (why, e)))
        (λ o r sent same. elim (answer-attempts disk later.now f r (answer r)) [
          | inl kept ↦ inl (ap attempts same ∙ kept)
          | inr (status, a, e) ↦ inr (inr (r, status, sent, a, e))
        ])
        context

  refused_upload :
      (before later : Moment) (f : ChunkFiles) (context : Option QueueContext) (body : Body)
      (r : Request) (status : ℕ)
      → (upload_delta_chunk client answer disk before later f context body).sent ≡ some r
      → answer r ≡ response status
      → rejects status ≡ true
      → (upload_delta_chunk client answer disk before later f context body).files
        ≡ (note_chunk_upload_failure disk later.now f (http_error status)).1
  refused_upload before later f context body r status =
      every_upload client answer disk before later f body
        (λ o.
          o.sent ≡ some r
          → answer r ≡ response status
          → rejects status ≡ true
          → o.files ≡ (note_chunk_upload_failure disk later.now f (http_error status)).1)
        (λ o nothing same sent. absurd (ground (arith, nothing, sent)))
        (λ o why e nothing same sent. absurd (ground (arith, nothing, sent)))
        (λ o q its same sent a e.
          let one : q ≡ r = some-injective q r (sym its ∙ sent) in
          same
          ∙ ap (λ x. (settle_answer disk later.now f x (answer x)).files) one
          ∙ ap (λ x. (settle_answer disk later.now f r x).files) a
          ∙ failure_files disk later.now f r status e)
        context

-- What one drain after another finds when it tries a chunk.
pub record Trial : Type 0 where
  pub before : Moment
  pub later : Moment
  pub body : Body

-- A disk that takes every write.
abbrev pub sound_disk : Disk
sound_disk = record { writes = true; renames_sidecar = true; renames_body = true }

failure_step :
    (now : ℕ) (f : ChunkFiles) (error : String)
    → f.body ≡ queued
    → ((note_chunk_upload_failure sound_disk now f error).1.body
        ≡ (if leb 8 (counted (attempts f) + 1) then quarantined else queued))
      × (attempts (note_chunk_upload_failure sound_disk now f error).1
          ≡ some (counted (attempts f) + 1))
      × ((note_chunk_upload_failure sound_disk now f error).1.sidecar
          ≡ (if leb 8 (counted (attempts f) + 1) then quarantined else f.sidecar))
unfolding attempts note_chunk_upload_failure record_upload_failure is_chunk_exhausted
failure_step now f error q = ground (arith, q)

-- Of what the sidecar says only the retry budget differs.
abbrev pub SameContent : Sidecar → Sidecar → Type 0
SameContent old new = new ≡ record old { retry = new.retry }

failure_content :
    (now : ℕ) (f : ChunkFiles) (error : String)
    → SameContent f.content (note_chunk_upload_failure sound_disk now f error).1.content
unfolding note_chunk_upload_failure
failure_content now f error =
    let updated = record_upload_failure (some f.content.retry) now (units error) in
    elim (Bool-cases (is_chunk_exhausted (some updated) max_upload_attempts)) [
      | inl e ↦ rw (e) refl
      | inr e ↦ rw (e) refl
    ]

module _ ⦃h : Host⦄ (client : Client) (answer : Request → Answer)
    (context : Option QueueContext) where
  abbrev pub upload_trial : Trial → ChunkFiles → Outcome
  upload_trial t f = upload_delta_chunk client answer sound_disk t.before t.later f context t.body

  unfoldable pub run_trials : List Trial → ChunkFiles → ChunkFiles
  run_trials [] f = f
  run_trials (t ∷ trials) f = run_trials trials (upload_trial t f).files

  -- Each of the uploads sends the chunk, and the collector refuses it.
  unfoldable pub AllRefused : List Trial → ChunkFiles → Type 0
  AllRefused [] f = Unit
  AllRefused (t ∷ trials) f =
      ((r : Request) × (status : ℕ) × ((upload_trial t f).sent ≡ some r)
        × (answer r ≡ response status)
        × (rejects status ≡ true))
      × AllRefused trials (upload_trial t f).files

  -- What the files of a chunk that is set aside say of those before.
  abbrev pub SetAside : ChunkFiles → ChunkFiles → Type 0
  SetAside f g =
      (g.body ≡ quarantined) × (g.sidecar ≡ quarantined) × SameContent f.content g.content

  -- A chunk that the collector refuses again and again does not stay in the queue for ever: on a
  -- disk that takes every write and every rename, the upload that brings its failed attempts to
  -- eight sets its body and its sidecar aside; neither is deleted, and the sidecar says what it said
  -- before, but for the retry budget.
  pub refused_is_set_aside :
      (t : Trial) (trials : List Trial) (f : ChunkFiles)
      → f.body ≡ queued
      → counted (attempts f) + length (t ∷ trials) ≡ 8
      → AllRefused (t ∷ trials) f
      → ((run_trials (t ∷ trials) f).body ≡ quarantined)
        × ((run_trials (t ∷ trials) f).sidecar ≡ quarantined)
        × SameContent f.content (run_trials (t ∷ trials) f).content
  unfolding run_trials AllRefused
  refused_is_set_aside t [] f q n ((r, status, sent, a, e), _) =
      let files =
        refused_upload client answer sound_disk t.before t.later f context t.body r status sent a
          e in
      let (body, _, sidecar) = failure_step t.later.now f (http_error status) q in
      let content = failure_content t.later.now f (http_error status) in
      subst (SetAside f) (sym files) (ground (arith, body, n), ground (arith, sidecar, n), content)
  refused_is_set_aside t (u ∷ trials) f q n ((r, status, sent, a, e), rest) =
      let files =
        refused_upload client answer sound_disk t.before t.later f context t.body r status sent a
          e in
      let (body, tries, _) = failure_step t.later.now f (http_error status) q in
      let content =
        subst (λ x. SameContent f.content x.content) (sym files)
          (failure_content t.later.now f (http_error status)) in
      let (set, beside, same) =
        refused_is_set_aside u trials (upload_trial t f).files
          (ap (λ x. x.body) files ∙ ground (arith, body, n))
          (ground (arith, ap attempts files ∙ tries, n)) rest in
      let last = run_trials (u ∷ trials) (upload_trial t f).files in
      (
        set,
        beside,
        same
            ∙ ap {A = Sidecar} {B = Sidecar} (λ c. record c { retry = last.content.retry }) content,
      )
