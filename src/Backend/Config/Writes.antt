-- ===== src/Backend/Config/Writes.antt =====
-- backend/app/routers/config.py: what one write does.
use radiation_tracking.Prelude.{
  ℕ, String, ◌≡◌, refl, ap, not, if◌then◌else◌, ◌⊎◌, inl, inr, Bool, true, false, Option, none, [],
  ◌∷◌, ◌++◌, Bool-cases, Option-cases,
}
use radiation_tracking.Python.{Number, Datetime, Fields}
use radiation_tracking.Backend.Metrics.{record_config_publish_failure}
use radiation_tracking.Backend.Config.{
  Answer, acknowledged, ack_lost, not_written, ConfigProducer, ConfigPayload, ConfigResponse,
  Response, accepted, http_error, require_write_auth, validate_payload, merge, model_dump,
  after_send, publish_config, ConfigState, commit, update_config, post_config,
}

module _ {F : Type 0} (dumps : Fields F → String) (answer : Answer) (p : ConfigProducer)
    (message : Fields F) where
  publish_available :
      p.available ≡ true
      → publish_config dumps answer p message ≡ after_send answer p (dumps message)
  unfolding publish_config
  publish_available e =
      ap
        (λ b.
          if not b
          then (false, record p { metrics = record_config_publish_failure p.metrics })
          else after_send answer p (dumps message))
        e

  publish_unavailable :
      p.available ≡ false
      → publish_config dumps answer p message
        ≡ (false, record p { metrics = record_config_publish_failure p.metrics })
  unfolding publish_config
  publish_unavailable e =
      ap
        (λ b.
          if not b
          then (false, record p { metrics = record_config_publish_failure p.metrics })
          else after_send answer p (dumps message))
        e

module _ {F D : Type 0} ⦃n : Number F⦄ (t : Datetime D) (dumps : Fields F → String)
    (ascii : String → Bool) (expected header : Option String) (answer : Answer)
    (s : ConfigState F D) (payload : ConfigPayload F D) where
  -- The payload passes every check before the publication.
  pub record Passes : Type 0 where
    pub authorised : require_write_auth ascii expected header ≡ none
    pub valid : validate_payload t payload ≡ none
    pub ordered :
        n.le
          (merge s.active payload).cpm_danger_threshold
          (merge s.active payload).cpm_warn_threshold
        ≡ false
    pub available : s.producer.available ≡ true

  abbrev pub Appends : Response F D × ConfigState F D → Type 0
  Appends r =
      r.1.producer.published
      ≡ s.producer.published ++ dumps (model_dump t (merge s.active payload)) ∷ []

  -- The write is accepted: authorised, valid when merged, acknowledged, and only then committed.
  pub record Committed (r : Response F D × ConfigState F D) : Type 0 where
    pub passes : Passes
    pub answered : answer ≡ acknowledged
    pub response : r.0 ≡ accepted (merge s.active payload)
    pub active : r.1.active ≡ merge s.active payload
    pub published : Appends r

  -- The write is refused and the settings do not change; nor does the topic, but for a message that
  -- is written and not acknowledged.
  pub record Refused (r : Response F D × ConfigState F D) : Type 0 where
    pub code : ℕ
    pub response : r.0 ≡ http_error code
    pub active : r.1.active ≡ s.active
    pub published :
        (r.1.producer.published ≡ s.producer.published)
        ⊎ ((answer ≡ ack_lost) × (code ≡ 503) × Passes × Appends r)

  sent_lem :
      (a : Answer)
      → answer ≡ a
      → Passes
      → let r =
          commit t dumps s
            (merge s.active payload)
            (after_send answer s.producer (dumps (model_dump t (merge s.active payload)))) in
        Committed r ⊎ Refused r
  unfolding commit after_send
  sent_lem acknowledged e p = inl (record {
    passes = p;
    answered = e;
    response = rw e refl;
    active = rw e refl;
    published = rw e refl;
  })
  sent_lem ack_lost e p = inr (record {
    code = 503;
    response = rw e refl;
    active = rw e refl;
    published = inr (e, refl, p, rw e refl);
  })
  sent_lem not_written e p =
      inr (record {
        code = 503;
        response = rw e refl;
        active = rw e refl;
        published = inl (rw e refl);
      })

  -- A write either is accepted or leaves the active settings as they are. It is accepted only with
  -- the token, with a valid payload, with merged thresholds in order and with the broker's
  -- acknowledgement, and then the merged settings are both active and the last message on
  -- config.updates. Where it is not accepted, nothing is written on config.updates, but for one
  -- case: a write that passes every check, of which the acknowledgement is lost, is answered 503,
  -- and its merged settings are the last message.
  pub post_config_lem :
      let r = post_config t dumps ascii expected header answer s payload in Committed r ⊎ Refused r
  unfolding post_config update_config commit
  post_config_lem = elim (Option-cases (require_write_auth ascii expected header)) [
    | inr (code, ea) ↦ inr (record {
      code = code;
      response = rw ea refl;
      active = rw ea refl;
      published = inl (rw ea refl);
    })
    | inl ea ↦ elim (Option-cases (validate_payload t payload)) [
      | inr (code, ev) ↦ inr (record {
        code = code;
        response = rw (ea, ev) refl;
        active = rw (ea, ev) refl;
        published = inl (rw (ea, ev) refl);
      })
      | inl ev ↦ elim (Bool-cases over) [
        | inl eo ↦ inr (record {
          code = 422;
          response = rw (ea, ev, eo) refl;
          active = rw (ea, ev, eo) refl;
          published = inl (rw (ea, ev, eo) refl);
        })
        | inr eo ↦ elim (Bool-cases s.producer.available) [
          | inl ep ↦
              rw (ea, ev, eo, publish_available dumps answer s.producer (model_dump t updated) ep)
                (sent_lem answer refl
                  (record { authorised = ea; valid = ev; ordered = eo; available = ep }))
          | inr ep ↦ inr (record {
            code = 503;
            response =
                rw
                  (
                    ea,
                    ev,
                    eo,
                    publish_unavailable dumps answer s.producer (model_dump t updated) ep,
                  )
                  refl;
            active =
                rw
                  (
                    ea,
                    ev,
                    eo,
                    publish_unavailable dumps answer s.producer (model_dump t updated) ep,
                  )
                  refl;
            published = inl (
                rw
                  (
                    ea,
                    ev,
                    eo,
                    publish_unavailable dumps answer s.producer (model_dump t updated) ep,
                  )
                  refl);
          })
        ]
      ]
    ]
  ]
    where
      updated : ConfigResponse F D
      updated = merge s.active payload

      over : Bool
      over =
          n.le (merge s.active payload).cpm_danger_threshold
            (merge s.active payload).cpm_warn_threshold
