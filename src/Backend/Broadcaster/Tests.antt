-- ===== src/Backend/Broadcaster/Tests.antt =====
-- Subscribers and the broadcaster on concrete messages.
use radiation_tracking.Prelude.{
  ℕ, ◌+◌, String, ◌≡◌, refl, Option, none, some, List, [], ◌∷◌, arith, length, str_eq, eq_iff, ltb,
  false, Bool, if◌then◌else◌, Bool-cases, inl, inr,
}
use radiation_tracking.Prelude.Int.{ℤ, pos}
use radiation_tracking.Python.{Result, ok, num, str, obj, field, end, get, attribute_get, truthy}
use radiation_tracking.Python.Integers.{integers, beq_ℤ, beq_ℤ_iff}
use radiation_tracking.Backend.Metrics.{new_metrics}
use radiation_tracking.Backend.Broadcaster.Subscribers.{
  KeyEq, Subscriber, offer, accept, enqueue, coalesce, shed, contains, without, supersede, is_full,
  drain, filter_out, after_view, hides,
}
use radiation_tracking.Backend.Broadcaster.Subscribers.Lanes.{lookup}
use radiation_tracking.Backend.Broadcaster.Subscribers.Bounds.{IsValid, offer-IsValid}
use radiation_tracking.Backend.Broadcaster.Subscribers.Accounts.{
  publish, flush, run, accounted, run_accounts,
}
use radiation_tracking.Backend.Broadcaster.Subscribers.Delivery.{
  offers, offers-fifo, offers-newest, updates,
}
use radiation_tracking.Backend.Broadcaster.{
  Broadcaster, MessageKey, Message, HashKey, text, coalesce_key, key_in, hashed, bucket_of,
}
use radiation_tracking.Backend.Broadcaster.FanOut.{receive_all, total_dropped, publish_lem}
use radiation_tracking.Backend.Broadcaster

-- Text keys, and messages that are a key and a number; the key "" stands for none.
instance abbrev text_keys : KeyEq String
text_keys = record { beq = str_eq; beq_iff = eq_iff }

abbrev Update : Type 0
Update = String × ℕ

abbrev key_of : Update → Result (Option String)
key_of (t, v) = if str_eq t "" then ok none else ok (some t)

abbrev client : Subscriber String Update
client = record {
  max_pending = 2;
  coalesced_max = 4;
  coalesced = [];
  fifo = [];
  ready = false;
  coalesced_count = 0;
  dropped_count = 0;
  filtered_count = 0;
  view_filter = some (λ (u : Update). ok (ltb u.1 100));
}

client-IsValid : IsValid client
client-IsValid = record {
  fifo_fits = omega arith;
  lane_fits = omega arith;
  distinct = tt;
  fifo_ready = λ h. refl;
  lane_ready = λ h. refl;
}

-- Three alerts, two states of one sensor, and one message that the view hides.
abbrev traffic : List Update
traffic = ("", 1) ∷ ("s1", 2) ∷ ("", 3) ∷ ("s1", 4) ∷ ("", 5) ∷ ("s2", 100) ∷ []

batch : (drain (offers key_of new_metrics client traffic).1).0 ≡ ("", 3) ∷ ("", 5) ∷ ("s1", 4) ∷ []
unfolding drain offers offer accept enqueue coalesce shed contains supersede without is_full
    filter_out after_view
batch = refl

offer-IsValid_example : IsValid (offer key_of new_metrics client ("s1", 2)).2
offer-IsValid_example = offer-IsValid key_of new_metrics client ("s1", 2) client-IsValid

total : (u : Update) → (k : Option String) × (key_of u ≡ ok k)
total u = elim (Bool-cases (str_eq u.0 "")) [ inl e ↦ (none, rw e) | inr e ↦ (some u.0, rw e) ]

sees : (u : Update) → (b : Bool) × (hides client.view_filter u ≡ ok b)
sees u = (_, refl)

run_accounts_example :
    length (run key_of new_metrics client (publish ("", 1) ∷ flush ∷ publish ("s1", 2) ∷ [])).0
      + accounted
          (run key_of new_metrics client (publish ("", 1) ∷ flush ∷ publish ("s1", 2) ∷ [])).2
    ≡ 2
run_accounts_example =
    run_accounts key_of total (publish ("", 1) ∷ flush ∷ publish ("s1", 2) ∷ []) new_metrics client
      sees

offers-fifo_example : (offers key_of new_metrics client traffic).1.fifo ≡ ("", 3) ∷ ("", 5) ∷ []
offers-fifo_example = offers-fifo key_of new_metrics client traffic client-IsValid

offers-newest_example :
    lookup (offers key_of new_metrics client (("s1", 2) ∷ ("s1", 4) ∷ [])).1.coalesced "s1"
    ≡ some ("s1", 4)
unfolding lookup updates
offers-newest_example =
    offers-newest key_of new_metrics client "s1" (("s1", 2) ∷ ("s1", 4) ∷ []) client-IsValid
      (omega arith)

instance abbrev integer_keys : KeyEq ℤ
integer_keys = record { beq = beq_ℤ; beq_iff = beq_ℤ_iff }

abbrev reading : Message ℤ
reading = record {
  kind = "clean";
  payload = obj (field "sensor_id" (str "s1") (field "cpm" (num (pos 30)) end));
}

abbrev hub : Broadcaster ℤ
hub = record {
  max_pending = 10;
  coalesced_maxsize = 10;
  flush_interval = 100;
  subscribers =
      (
        0,
        record {
          max_pending = 10;
          coalesced_max = 10;
          coalesced = [];
          fifo = [];
          ready = false;
          coalesced_count = 0;
          dropped_count = 0;
          filtered_count = 0;
          view_filter = none;
        },
      )
      ∷ [];
  next_handle = 1;
}

key-reading : coalesce_key reading ≡ ok (some (record { stream = "clean"; id = text "s1" }))
unfolding coalesce_key key_in hashed attribute_get truthy get
key-reading = refl

publish_lem_example :
    ((Broadcaster.publish new_metrics hub reading).0 ≡ ok tt)
    × ((Broadcaster.publish new_metrics hub reading).2
        ≡ record hub { subscribers = receive_all reading hub.subscribers })
    × ((Broadcaster.publish new_metrics hub reading).1.ws_dropped + total_dropped hub.subscribers
        ≡ 0 + total_dropped (Broadcaster.publish new_metrics hub reading).2.subscribers)
publish_lem_example =
    publish_lem new_metrics hub reading (some (record { stream = "clean"; id = text "s1" }))
      key-reading ((false, refl), tt)
