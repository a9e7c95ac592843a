-- ===== src/Backend/KafkaConsumer/Tests.antt =====
-- The consume loop on concrete messages.
use radiation_tracking.Prelude.{
  String, ◌≡◌, refl, none, some, [], ◌∷◌, str_eq, if◌then◌else◌, false, arith,
}
use radiation_tracking.Prelude.Int.{ℤ, pos}
use radiation_tracking.Python.{
  ok, raise, json_decode_error, type_error, attribute_error, num, str, arr, obj, field, end, cons,
  nil, get, attribute_get, truthy,
}
use radiation_tracking.Python.Integers.{integers, beq_ℤ, beq_ℤ_iff}
use radiation_tracking.Backend.Metrics.{new_metrics}
use radiation_tracking.Backend.RingBuffer.Append.{appends}
use radiation_tracking.Backend.Broadcaster.Subscribers.{KeyEq}
use radiation_tracking.Backend.Broadcaster.{coalesce_key, key_in, hashed}
use radiation_tracking.Backend.KafkaConsumer.{Msg, Topics, Codec, World, consume_loop}
use radiation_tracking.Backend.KafkaConsumer.Loop.{IsTame, Keyed, consume_loop-ok}
use radiation_tracking.Backend.KafkaConsumer.Poison.{consume_loop_stops}

instance abbrev pub integer_keys : KeyEq ℤ
integer_keys = record { beq = beq_ℤ; beq_iff = beq_ℤ_iff }

-- The event of a text is the text; a JSON text is `[1]`, or else no JSON.
abbrev pub codec : Codec ℤ String
codec = record {
  loads = λ v. elim v [
    | none ↦ raise type_error
    | some t ↦ if str_eq t "[1]" then ok (arr (cons (num (pos 1)) nil)) else raise json_decode_error
  ];
  model_validate_json = λ v. v;
  model_dump = λ e. obj (field "sensor_id" (str e) end);
}

abbrev pub topics : Topics
topics = record {
  clean = "radiation.clean";
  alerts = "radiation.alerts";
  aggregated = "radiation.aggregated";
}

abbrev pub message : String → String → Msg
message topic value = record { topic = topic; value = some value }

abbrev pub start : World ℤ String
start = record {
  metrics = new_metrics;
  buffer = record { maxsize = 2; entries = []; next_seq = 0 };
  broadcaster = record {
    max_pending = 10;
    coalesced_maxsize = 10;
    flush_interval = 100;
    subscribers =
        (
          0,
          record {
            max_pending = 10;
            coalesced_max = 10;
            coalesced = [];
            fifo = [];
            ready = false;
            coalesced_count = 0;
            dropped_count = 0;
            filtered_count = 0;
            view_filter = none;
          },
        )
        ∷ [];
    next_handle = 1;
  };
}

pub dumps : (event : String) → Keyed "clean" (codec.model_dump event)
unfolding coalesce_key key_in hashed attribute_get truthy get
dumps event = (_, refl)

pub bad_json : IsTame codec topics (message "radiation.alerts" "oops")
bad_json = record { caught = λ x e. ground arith; keyed = λ v e. ground arith }

pub a_reading : IsTame codec topics (message "radiation.clean" "s1")
a_reading = record { caught = λ x e. ground arith; keyed = λ v e. ground arith }

consume_loop-ok_example :
    ((consume_loop codec topics start
        (message "radiation.alerts" "oops" ∷ message "radiation.clean" "s1" ∷ [])).0
      ≡ ok tt)
    × ((consume_loop codec topics start
          (message "radiation.alerts" "oops" ∷ message "radiation.clean" "s1" ∷ [])).1.buffer
        ≡ appends start.buffer ("s1" ∷ []))
consume_loop-ok_example =
    consume_loop-ok codec topics dumps start
      (message "radiation.alerts" "oops" ∷ message "radiation.clean" "s1" ∷ [])
      (bad_json, (a_reading, tt)) (tt, (((false, refl), tt), tt))

consume_loop_stops_example :
    ((consume_loop codec topics start
        (message "radiation.aggregated" "[1]" ∷ message "radiation.clean" "s1" ∷ [])).0
      ≡ raise attribute_error)
    × ((consume_loop codec topics start
          (message "radiation.aggregated" "[1]" ∷ message "radiation.clean" "s1" ∷ [])).1.buffer
        ≡ start.buffer)
unfolding truthy
consume_loop_stops_example =
    consume_loop_stops codec topics start (message "radiation.aggregated" "[1]")
      (message "radiation.clean" "s1" ∷ []) (arr (cons (num (pos 1)) nil)) 0 _ [] refl refl refl
      refl refl refl refl refl
