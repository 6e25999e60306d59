-- ===== src/Examples/Serving.antt =====
-- The server at concrete requests, over a store that is an association list.
use xdas.Prelude.{
  String, List, [], ◌∷◌, Bytes, Option, some, none, true, false, lookup, insert, lookup-insert,
  string_eq, str_eq_refl, Result, ok, err, returns, ◌≡◌, refl, arith, to_upper,
}
use xdas.Errors.{Error, redis_nil}
use xdas.MagicByte.{new, new_magic_byte}
use xdas.Keyspaces.{ks_string}
use xdas.Conversion.{MetricsProvider, no_counts}
use xdas.Conversion.Layers.{payload}
use xdas.Server.{
  Request, at_eof, Response, new_response, fprintln, Redis, Entry, nil, string, KeyspaceConfig,
  KeyspaceFormat, Configuration, RedisConfig, World, Services, get_id, fill_formats, send_value,
  xdas_put, xdas_get, new_find_x, get_header,
}
use xdas.Server.RoundTrip.{Keeps, xdas_get-xdas_put}
use xdas.Examples.Fixtures.{toy_lib, toy-Works, toy_random, pa_metrics, document}

abbrev pub Memory : Type 0
Memory = List (String × Bytes)

abbrev found : Option Bytes → Result Error Bytes
found none = err redis_nil
found (some v) = ok v

abbrev pub entry : Option Bytes → Entry
entry none = nil
entry (some v) = string v

abbrev pub entries : Memory → List String → List Entry
entries s [] = []
entries s (k ∷ ks) = entry (lookup k s) ∷ entries s ks

abbrev pub memory : Redis Memory
memory = record {
  get = λ s key. found (lookup key s);
  set = λ s key value ttl. (insert key value s, ok "OK");
  del = λ s key. (s, ok 0);
  mget = λ s keys. ok (entries s keys);
  exists = λ s key. 0;
  incr_by = λ s key n. (s, ok n);
  expire = λ s key ttl. (s, ok true);
}

memory-Keeps : Keeps memory
memory-Keeps s key value ttl =
    (insert key value s, "OK", refl, rw (lookup-insert key key value s) (rw (str_eq_refl key) refl))

abbrev pub services : Services Memory Bytes
services = record {
  redis = memory;
  lib = toy_lib [];
  parse_duration = λ t. none;
  random = λ n. toy_random;
  boundary = "b";
  create_part = λ n. none;
  valid_string = λ b. true;
}

abbrev pub pa_config : KeyspaceConfig
pa_config = record {
  input = record { content_type = ""; content_encoding = ""; magic_byte = new_magic_byte 0 0 0 };
  store = record {
    content_type = "";
    content_encoding = "zstd";
    magic_byte = new_magic_byte 1 0 1;
  };
  output = record {
    content_type = "";
    content_encoding = "zstd";
    magic_byte = new_magic_byte 1 0 0;
  };
  kind = ks_string;
  find_x = some new_find_x;
  ttl_string = "24h";
  ttl = 86_400_000_000_000;
}

abbrev pub world : World Memory
world = record {
  store = [];
  config = record {
    no_metrics = false;
    validate_content = false;
    redis = record { addrs = "localhost:6379" ∷ []; encryption_key = "k" ∷ []; encryption = 1 };
    keyspaces = ("pa", pa_config) ∷ [];
    multipart_keyspaces = "pa" ∷ [];
    device_mapping_ttl = "";
    device_mapping_accel_ttl = "";
    dm_ttl = 0;
    accel_dm_ttl = 0;
  };
  metrics = pa_metrics;
  redis_read_err = 0;
  redis_write_err = 0;
  spawned = [];
  counter = [];
  duration = 0;
}

abbrev pub put_request : Request
put_request = record {
  keyspace = "pa";
  id = "ab01";
  query = [];
  header = ("Content-Type", "application/json") ∷ [];
  body = at_eof document;
}

abbrev pub get_request : Request
get_request = record put_request { id = "AB01"; header = []; body = at_eof [] }

xdas_get-xdas_put_example :
    (s' : World Memory) × (reply : String) × (xdas_put services world put_request new_response
      ≡ returns (s', fprintln reply new_response))
    × ((m : MetricsProvider) × (c : Bytes) × (xdas_get services s' get_request new_response
          ≡ returns (record s' { metrics = m }, send_value (new_magic_byte 1 1 0) c new_response))
        × (payload (toy_lib []) (new_magic_byte 1 1 0) c ≡ returns (ok document)))
unfolding lookup get_id get_header xdas.Server.mismatches new xdas.Conversion.decrypt
    xdas.Conversion.decompress xdas.Server.query_get
xdas_get-xdas_put_example =
    xdas_get-xdas_put services world put_request get_request new_response new_response pa_config
      document document (toy-Works []) memory-Keeps (no_counts, refl)
      (record {
        configured = refl;
        matching = refl;
        whole = refl;
        unchecked = refl;
        plain_or_packed = refl;
      })
      (ground arith) (record { cev_supported = omega arith; encryption_supported = omega arith })
      (record { cev_fits = omega arith; ctv_fits = omega arith; encryption_fits = omega arith })
      refl (record { cev_supported = omega arith; encryption_supported = omega arith }) refl refl
      refl refl refl

-- Letters outside ASCII have capitals too, but for those without one of a single letter.
folded : to_upper "éÿжß" ≡ "ÉŸЖß"
unfolding to_upper
folded = refl
