-- ===== src/Lib.antt =====
-- Verification of the radiation tracking pipeline: a Kafka and Flink pipeline over Safecast
-- readings, and the backend service that serves them to map clients.
--
-- Prelude and Python hold what all parts share. Numbers (int and float) are a type F with the
-- operations the program calls (Python.Number); theorems that need laws of the comparisons take
-- them as Python.Order, which NaN meets too. JSON values are Python.Value; exceptions are values
-- of Python.Result. What no handler of the source catches leaves the model's function too:
-- OverflowError of float() (Number.fits), of astimezone and of time.sleep, and the division by
-- zero of the replay speed among them.
--
-- Backend/RingBuffer models backend/app/core/ring_buffer.py: RingBuffer.append, recent and page
-- are append, recent and page.
--
-- Backend/Metrics models the counters of backend/app/core/metrics.py.
--
-- Backend/Broadcaster models backend/app/core/broadcaster.py: Subscribers has Subscriber.offer
-- and drain over any keys and messages, and Broadcaster.antt has _coalesce_key and
-- Broadcaster.publish.
--
-- Backend/KafkaConsumer models the handlers and the consume loop of
-- backend/app/core/kafka_consumer.py, with JSON decoding and the pydantic model as the parameter
-- Codec.
--
-- Flink models the job of flink-jobs/, one module per operator. Timestamps has _parse_timestamp,
-- to_epoch_millis and the timestamp assigners; Model the events and configuration messages
-- (flink-jobs/model, flink-jobs/serde) and _parse_record; Classifier the filters, classify and
-- the broadcast classifier; Dedup sensor_dedup.py; Cooldown alert_dedup.py; Series, Trend and
-- RollingStats the two operators over the averages of a cell; Region region_filter.py; RegionJoin
-- alert_region_join.py; GeoAggregation geo_aggregation.py and geo_bucket.py; AlertDetection
-- alert_detection.py. A handler takes the state and returns the new one with what it yields.
-- Keyed streams are lists: Flink hands each key its elements in order. The windows, the
-- watermarks, the checkpoints and the wiring are Flink's own and are not modelled; json, datetime
-- and pygeohash are parameters.
--
-- Backend/Config models backend/app/routers/config.py and backend/app/core/kafka_producer.py:
-- require_write_auth, update_config and ConfigProducer; its settings are read by config_from_dict
-- of Flink/Model. A message may be written on the topic and its acknowledgement lost (Answer).
-- Backend/ViewFilter models backend/app/core/view_filter.py, the filter that a client of the
-- stream subscribes with.
--
-- Backend/Recent models GET /recent of backend/app/routers/recent.py, and Backend/Stream the
-- frames of a client of backend/app/routers/stream.py.
--
-- Provider/SensorClassifier models data-provider/sensor_classifier.py, which labels sensors fixed
-- or mobile.
--
-- Sink models aggregated_sink/: Rows has _decode, record_to_row and build_rows, Settings the
-- environment, Connect connect_with_retry, and Consumer process_batch and the loop of run. The
-- process may be killed before or after Postgres commits a batch, and starts again at the
-- committed offset (Consumer.BatchEvent).
--
-- Backend/Topics models backend/app/core/kafka_admin.py: _connect_admin and ensure_topics.
--
-- Provider/Reader models data-provider/csv_reader.py, Provider/Mapper data-provider/mapper.py,
-- Provider/Metrics data-provider/metrics.py, Provider/Speed the speed modes and Provider/Producer
-- the loop of data-provider/producer.py, which composes reader, mapper, sensor classifier and
-- metrics. Shared/Validator models shared/validator/schema_validator.py.
--
-- Backend/History models backend/app/core/history_db.py (BBox, _where, HistoryDB.connect, the
-- parameters of its queries) and the endpoints of backend/app/routers/history.py;
-- Scripts/Provisioning models scripts/provision_topics.py.
--
-- Flink/Security models flink-jobs/operators/kafka_config.py;
-- Flink.Security.Credentials.read_config reads what it writes.
--
-- Backend/Lifespan models the lifespan of backend/app/main.py and GET /health of
-- backend/app/routers/health.py: it starts the producer, the consumer (KafkaConsumer/Lifecycle),
-- the topics and the pool of the archive, serves, and stops them.
--
-- Backend/Stream/Session composes the connection of a client of /ws/stream (the function stream)
-- with the consume loop, the ring buffer and the broadcaster, as a list of steps: messages that
-- the consumer handles, other clients that come and go, flushes, and frames. Steps of the others
-- may also fall between the subscription and the reading of the snapshot.
--
-- Provider/Command models main of data-provider/__main__.py, with data-provider/presets.py, and
-- composes it with the reader and the loop of the producer.
--
-- Not modelled: backend/app/core/settings.py, which pydantic reads; the job graph of
-- flink-jobs/radiation_tracking_job.py, its checkpoint settings and its serializers, which are
-- calls of PyFlink and json.dumps; the client in TypeScript; scripts/failure_demo.py,
-- scripts/export_openapi.py and scripts/producer_load_test.py, which drive the system from
-- outside.
pub mod Prelude
pub mod Python
pub mod Backend
pub mod Flink
pub mod Provider
pub mod Sink
pub mod Shared
pub mod Scripts
