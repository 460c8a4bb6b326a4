-- ===== src/Api/Webhook/Guards.antt =====
-- What stands before a delivery changes anything.
use openpreflight.Prelude.{
  ◌≡◌, refl, true, false, Bool-cases, inl, inr, ◌⊎◌, not, ◌&&◌, Option, none, some, ◌==◌, take,
}
use openpreflight.Go.Strings.{Text, codes, str_eq}
use openpreflight.Store.Models.{RepoBinding}
use openpreflight.Store.Bindings.{enabled_binding, branch_allowed}
use openpreflight.Webhook.Signature.{SignatureError, verify_signature}
use openpreflight.Webhook.Payload.{
  RawPayload, Event, Parsed, actionable, ignored, malformed, event_check_run, parse,
}
use openpreflight.Queue.Runner.{Runner}
use openpreflight.Api.Webhook.{
  App, Server, Request, Response, max_webhook_body, job_input, admit, allow, on_event, verified,
  with_body, with_secret, with_app, handle_webhook,
}

module _ (hmac_sha256 : Text → Text → Text) (decode_hex : Text → Option Text)
    (decode : Text → Option RawPayload) (id now : Text) (s : Server) (q : Request)
    (r : Runner) where
  -- A delivery that was let in: the App of its slug is known, its bytes are signed with the secret of
  -- that App, its event is one to act on, a binding for the repository is enabled and takes the
  -- branch; and what the handler then does.
  pub record Admitted (result : Response × Runner) : Type 0 where
    pub app : App
    pub secret : Text
    pub body : Text
    pub event : Event
    pub binding : RepoBinding
    pub known : s.app_by_slug q.slug ≡ some app
    pub has_secret : app.webhook_secret ≡ some secret
    pub read : q.body ≡ some body
    pub signed :
        verify_signature hmac_sha256 decode_hex secret (take max_webhook_body body) q.signature
        ≡ none
    pub acts : parse decode q.event_name (take max_webhook_body body) ≡ actionable event
    pub own :
        (str_eq event.name event_check_run && not (event.check_run_app_id == app.app_id)) ≡ false
    pub enabled : enabled_binding app.id event.repo s.bindings ≡ some binding
    pub branch : branch_allowed binding event.branch ≡ true
    pub effect : result ≡ admit id now event.action (job_input s app binding q.delivery_id event) r

  abbrev pub Guarded : Response × Runner → Type 0
  Guarded result = (result.1 ≡ r) ⊎ Admitted result

  module _ (app : App) (secret body : Text) (known : s.app_by_slug q.slug ≡ some app)
      (has_secret : app.webhook_secret ≡ some secret) (read : q.body ≡ some body)
      (signed : verify_signature hmac_sha256 decode_hex secret
          (take max_webhook_body body)
          q.signature
        ≡ none) where
    allow-Guarded :
        (ev : Event) (o : Option RepoBinding)
        → parse decode q.event_name (take max_webhook_body body) ≡ actionable ev
        → (str_eq ev.name event_check_run && not (ev.check_run_app_id == app.app_id)) ≡ false
        → enabled_binding app.id ev.repo s.bindings ≡ o
        → Guarded (allow id now s app q.delivery_id ev r o)
    unfolding allow
    allow-Guarded ev none acts own e = inl refl
    allow-Guarded ev (some b) acts own e = elim (Bool-cases (branch_allowed b ev.branch)) [
      | inl br ↦ inr (record {
        app = app;
        secret = secret;
        body = body;
        event = ev;
        binding = b;
        known = known;
        has_secret = has_secret;
        read = read;
        signed = signed;
        acts = acts;
        own = own;
        enabled = e;
        branch = br;
        effect = rw br refl;
      })
      | inr br ↦ inl (rw br refl)
    ]

    on_event-Guarded :
        (p : Parsed Event)
        → parse decode q.event_name (take max_webhook_body body) ≡ p
        → Guarded (on_event id now s app q.delivery_id r p)
    unfolding on_event
    on_event-Guarded (malformed e) acts = inl refl
    on_event-Guarded (ignored why) acts = inl refl
    on_event-Guarded (actionable ev) acts =
        elim (Bool-cases
          (str_eq ev.name event_check_run && not (ev.check_run_app_id == app.app_id))) [
            | inl e ↦ inl (rw e refl)
            | inr e ↦
                simp e (allow-Guarded ev (enabled_binding app.id ev.repo s.bindings) acts e refl)
          ]

  verified-Guarded :
      (app : App) (secret body : Text) (v : Option SignatureError)
      → s.app_by_slug q.slug ≡ some app
      → app.webhook_secret ≡ some secret
      → q.body ≡ some body
      → verify_signature hmac_sha256 decode_hex secret (take max_webhook_body body) q.signature ≡ v
      → Guarded
          (verified hmac_sha256 decode_hex decode id now s app q (take max_webhook_body body) r v)
  unfolding verified
  verified-Guarded app secret body (some e) known has read signed = inl refl
  verified-Guarded app secret body none known has read signed =
      elim (Bool-cases (str_eq q.event_name (codes "ping"))) [
        | inl e ↦ inl (rw e refl)
        | inr e ↦ simp e (on_event-Guarded app secret body known has read signed _ refl)
      ]

  with_body-Guarded :
      (app : App) (secret : Text) (o : Option Text)
      → s.app_by_slug q.slug ≡ some app
      → app.webhook_secret ≡ some secret
      → q.body ≡ o
      → Guarded (with_body hmac_sha256 decode_hex decode id now s app q r secret o)
  unfolding with_body
  with_body-Guarded app secret none known has read = inl refl
  with_body-Guarded app secret (some body) known has read =
      verified-Guarded app secret body _ known has read refl

  with_secret-Guarded :
      (app : App) (o : Option Text)
      → s.app_by_slug q.slug ≡ some app
      → app.webhook_secret ≡ o
      → Guarded (with_secret hmac_sha256 decode_hex decode id now s app q r o)
  unfolding with_secret
  with_secret-Guarded app none known has = inl refl
  with_secret-Guarded app (some secret) known has =
      with_body-Guarded app secret q.body known has refl

  with_app-Guarded :
      (o : Option App)
      → s.app_by_slug q.slug ≡ o
      → Guarded (with_app hmac_sha256 decode_hex decode id now s q r o)
  unfolding with_app
  with_app-Guarded none known = inl refl
  with_app-Guarded (some app) known = with_secret-Guarded app app.webhook_secret known refl

  -- A delivery changes nothing, unless it comes under a known App, is signed with the secret of that
  -- App, has an event to act on, and concerns a repository with an enabled binding that takes the
  -- branch.
  pub handle_webhook-Guarded : Guarded (handle_webhook hmac_sha256 decode_hex decode id now s q r)
  unfolding handle_webhook
  handle_webhook-Guarded = with_app-Guarded (s.app_by_slug q.slug) refl
