-- ===== src/Metrics.antt =====
-- What the sources use of the metrics registry of the spectator client: counters, which only grow, and
-- gauges, under one set of tags.
use titus_isolate.Prelude.{ℕ, ◌+◌, String, Option, some, if◌then◌else◌, ◌==◌, string_eq}

pub record Registry : Type 0 where
  pub counters : String → ℕ
  pub gauges : String → Option ℕ

-- `reg.counter(key, tags).increment(n)`
unfoldable pub increment : String → ℕ → Registry → Registry
increment key n reg = record reg {
  counters = λ k. if k == key then reg.counters k + n else reg.counters k;
}

-- `reg.gauge(key, tags).set(n)`
unfoldable pub set_gauge : String → ℕ → Registry → Registry
set_gauge key n reg = record reg { gauges = λ k. if k == key then some n else reg.gauges k }
