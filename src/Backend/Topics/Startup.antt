-- ===== src/Backend/Topics/Startup.antt =====
-- What a start of the backend makes of the broker's topics.
use radiation_tracking.Prelude.{
  ℕ, zero, suc, ◌+◌, ◌-◌, ◌≤◌, ◌≡◌, refl, ap, ◌∙◌, inl, inr, String, Bool, true, false, not, ◌||◌,
  Option, none, some, List, [], ◌∷◌, All, All-imp, filter-none, ltb, str_eq, eq_iff, eq_refl, arith,
  if◌then◌else◌, Bool-cases,
}
use radiation_tracking.Prelude.Attempts.{FirstUp, FirstUp-here, FirstUp-later}
use radiation_tracking.Backend.Topics.{
  TopicSettings, named, missing, project_topics, connect_from, connect_admin, create_missing,
  ensure_topics,
}

-- How often `_connect_admin` sleeps and how many clients it closes, by the attempt that succeeded.
abbrev pub Spent : ℕ → ℕ → Option ℕ → ℕ → ℕ → Type 0
Spent attempts attempt none sleeps closed =
    (sleeps ≡ attempts - attempt) × (closed ≡ attempts + 1 - attempt)
Spent attempts attempt (some a) sleeps closed = (sleeps ≡ a - attempt) × (closed ≡ a - attempt)

module _ (up : ℕ → Bool) (attempts : ℕ) where
  Spent-later :
      (attempt left sleeps closed : ℕ) (admin : Option ℕ)
      → attempt + suc left ≡ attempts + 1
      → FirstUp up (attempt + 1) left admin
      → Spent attempts (attempt + 1) admin sleeps closed
      → Spent attempts attempt admin
          (if ltb attempt attempts then sleeps + 1 else sleeps)
          (closed + 1)
  Spent-later attempt left sleeps closed none h first spent = (ground arith, omega arith)
  Spent-later attempt left sleeps closed (some a) h (above, below, here, before) spent =
      (ground arith, omega arith)

  connect_from_lem :
      (attempt left : ℕ)
      → attempt + left ≡ attempts + 1
      → let c = connect_from up attempts attempt left in
        FirstUp up attempt left c.admin × Spent attempts attempt c.admin c.sleeps c.closed
  unfolding connect_from
  connect_from_lem attempt zero h =
      (λ a above below. absurd (omega arith), (omega arith, omega arith))
  connect_from_lem attempt (suc left) h =
      let rest = connect_from up attempts (attempt + 1) left in
      let (first, spent) = connect_from_lem (attempt + 1) left (omega arith) in
      elim (Bool-cases (up attempt)) [
        | inl e ↦ rw e (FirstUp-here up attempt left e, (omega arith, omega arith))
        | inr e ↦ rw e (
          FirstUp-later up attempt left rest.admin e first,
          Spent-later attempt left rest.sleeps rest.closed rest.admin h first spent,
        )
      ]

  -- `_connect_admin` returns the client of the first attempt that succeeds, and none where all fail;
  -- it sleeps between two attempts and closes the client of each attempt that fails.
  pub connect_admin_lem :
      let c = connect_admin up attempts in
      FirstUp up 1 attempts c.admin × Spent attempts 1 c.admin c.sleeps c.closed
  unfolding connect_admin
  connect_admin_lem = connect_from_lem 1 attempts (omega arith)

module _ (up : ℕ → Bool) (create_topics : List String → List String → List String) where
  -- `create_topics` makes each of the topics that it is asked for, and keeps the others.
  abbrev pub Creates : Type 0
  Creates =
      (existing topics : List String) (t : String)
      → named t (create_topics existing topics) ≡ (named t existing || named t topics)

  module _ (creates : Creates) where
    pub named-missing :
        (existing topics : List String) (t : String)
        → (named t existing || named t (missing existing topics))
          ≡ (named t existing || named t topics)
    unfolding missing
    named-missing existing [] t = refl
    named-missing existing (x ∷ topics) t = elim (Bool-cases (str_eq x t)) [
      | inl e ↦
          let same : x ≡ t = (eq_iff x t).0 e in
          let hx : named x existing ≡ named t existing = ap (λ z. named z existing) same in
          ground (arith, named-missing existing topics t)
      | inr e ↦ ground (arith, named-missing existing topics t)
    ]

    pub named-create_missing :
        (topics : List String) (attempt : ℕ) (existing : List String) (t : String)
        → named t (create_missing up create_topics topics (some attempt) existing)
          ≡ (named t existing || named t topics)
    unfolding create_missing
    named-create_missing topics attempt existing t =
        made (missing existing topics) (named-missing existing topics t)
      where
        made :
            (wanted : List String)
            → (named t existing || named t wanted) ≡ (named t existing || named t topics)
            → named t (elim wanted [
              | [] ↦ existing
              | w ∷ to_create ↦ create_topics existing (w ∷ to_create)
            ])
              ≡ (named t existing || named t topics)
        made [] h = ground arith
        made (w ∷ to_create) h = creates existing (w ∷ to_create) t ∙ h

All-named : (topics : List String) → All (λ t. named t topics ≡ true) topics
All-named [] = tt
All-named (t ∷ topics) =
    (rw (eq_refl t) refl, All-imp (λ x h. ground arith) topics (All-named topics))

missing-none :
    (existing topics : List String)
    → ((t : String) → named t topics ≡ true → named t existing ≡ true)
    → missing existing topics ≡ []
unfolding missing
missing-none existing topics h =
    filter-none (λ t. not (named t existing)) topics
      (All-imp {Q = λ t. not (named t existing) ≡ false} (λ t present. rw (h t present) refl) topics
        (All-named topics))

module _ (up : ℕ → Bool) (create_topics : List String → List String → List String)
    (creates : Creates up create_topics) (s : TopicSettings) where
  -- If create_topics makes what it is asked for and keeps the rest, topic creation is enabled and one
  -- of the attempts reaches the broker: after a start the broker has exactly the topics that it had
  -- and the five of the project, and a second start finds none to create.
  pub ensure_topics_lem :
      (a : ℕ) (existing : List String)
      → s.kafka_topic_init_enabled ≡ true
      → 1 ≤ a
      → a ≤ s.kafka_admin_retry_attempts
      → up a ≡ true
      → let after = ensure_topics up create_topics s existing in
        ((t : String) → named t after ≡ (named t existing || named t (project_topics s)))
        × (missing after (project_topics s) ≡ [])
  unfolding ensure_topics
  ensure_topics_lem a existing enabled above below reached =
      (exactly, missing-none after (project_topics s) (λ t h. exactly t ∙ present _ _ h))
    where
      after : List String
      after = ensure_topics up create_topics s existing

      present : (x y : Bool) → y ≡ true → (x || y) ≡ true
      present x y h = ground arith

      connected :
          (c : Option ℕ)
          → FirstUp up 1 s.kafka_admin_retry_attempts c
          → (first : ℕ) × (c ≡ some first)
      connected none h = absurd (cc (h a above (omega arith)))
      connected (some first) h = (first, refl)

      exactly : (t : String) → named t after ≡ (named t existing || named t (project_topics s))
      exactly t =
          let (first, e) = connected _ (connect_admin_lem up s.kafka_admin_retry_attempts).0 in
          rw (enabled, e)
            (named-create_missing up create_topics creates (project_topics s) first existing t)
