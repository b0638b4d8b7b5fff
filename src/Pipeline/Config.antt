-- ===== src/Pipeline/Config.antt =====
-- pipeline/config.py: the configuration of the Redis Stream pipeline and its constraints.
use Prim.Native.Char.{Char, code}
use nanexus_event_intelligen.Prelude.{ℕ, String, Bool, true, false, ◌&&◌, ◌||◌, leb, eqb}
use nanexus_event_intelligen.Prelude.Texts.{text_length}

pub record RedisStreamConfig : Type 0 where
  pub stream : String
  pub group : String
  pub dlq_stream : String
  pub batch_size : ℕ
  pub block_ms : ℕ
  pub pending_idle_ms : ℕ
  pub max_delivery_attempts : ℕ
  pub max_inflight_messages : ℕ

abbrev pub defaults : RedisStreamConfig
defaults = record {
  stream = "nanexus:canonical-events";
  group = "nanexus:canonical-workers";
  dlq_stream = "nanexus:canonical-events:dlq";
  batch_size = 50;
  block_ms = 1000;
  pending_idle_ms = 30000;
  max_delivery_attempts = 5;
  max_inflight_messages = 100000;
}

abbrev between : ℕ → ℕ → Char → Bool
between lo hi c = leb lo (code c) && leb (code c) hi

abbrev is_alphanumeric : Char → Bool
is_alphanumeric c = between b'A' b'Z' c || between b'a' b'z' c || between b'0' b'9' c

abbrev is_name_char : Char → Bool
is_name_char c =
    is_alphanumeric c
    || eqb (code c) b':'
    || eqb (code c) b'.'
    || eqb (code c) b'_'
    || eqb (code c) b'-'

all_name_chars : String → Bool
all_name_chars String.[] = true
all_name_chars (String.◌∷◌ c s) = is_name_char c && all_name_chars s

-- `_STREAM_NAME.fullmatch`
unfoldable pub is_redis_name : String → Bool
unfolding all_name_chars
is_redis_name String.[] = false
is_redis_name (String.◌∷◌ c s) = is_alphanumeric c && leb (text_length s) 127 && all_name_chars s

-- A configuration that its validation accepts.
unfoldable pub config_valid : RedisStreamConfig → Bool
config_valid c =
    is_redis_name c.stream
    && is_redis_name c.group
    && is_redis_name c.dlq_stream
    && leb 1 c.batch_size
    && leb c.batch_size 1000
    && leb c.block_ms 60000
    && leb c.pending_idle_ms 3600000
    && leb 1 c.max_delivery_attempts
    && leb c.max_delivery_attempts 100
    && leb 100 c.max_inflight_messages
    && leb c.max_inflight_messages 10000000
