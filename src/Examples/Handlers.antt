-- ===== src/Examples/Handlers.antt =====
-- The handlers at concrete requests, and the limits around them.
use xdas.Prelude.{
  decimal, is_neg, ◌<◌, ◌↔◌, none, true, arith, ok, List, ℕ, ◌*◌, String, [], ◌∷◌, ◌++◌, Bytes,
  Option, some, none, false, lookup, string_eq, returns, ◌≡◌, refl, ◌⊎◌,
}
use xdas.MagicByte.{MagicByte, new, new_magic_byte}
use xdas.Conversion.{MetricsProvider, prometheus_metrics, no_counts}
use xdas.Server.Durations.{get_ttl-decimal}
use xdas.Server.{
  get_ttl, second, Request, Response, new_response, fprintln, part, closing, KeyspaceConfig,
  KeyspaceFormat, Configuration, World, xdas_put, xdas_multi_get, read_all, mismatches,
  validate_keyspace_config, hour,
}
use xdas.Server.Storing.{form_of}
use xdas.Server.Refusals.{IsRefused}
use xdas.Server.Writes.{IsWritten, xdas_put-IsWritten}
use xdas.Server.Filled.{IsFilled, validate_keyspace_config-IsFilled}
use xdas.Server.Reads.{Reads}
use xdas.Server.Parts.{Multipart, xdas_multi_get-Multipart}
use xdas.Server.Answers.Entries.{parts_of, Answers}
use xdas.Server.Answers.{xdas_multi_get-Answers}
use xdas.Server.{wanted, wanted_keys, req_keyspaces, get_id, Entry}
use xdas.Examples.Fixtures.{document, nonce, tag}
use xdas.Examples.Serving.{Memory, services, world, put_request, get_request, pa_config}

abbrev stored_world : World Memory
stored_world = record world {
  store = ("pa:{AB01}", 37 ∷ nonce ++ tag ++ 40 ∷ document) ∷ [];
  metrics = prometheus_metrics (("pa", record no_counts { content_encoding_suc = 1 }) ∷ []);
}

xdas_put-IsWritten_example :
    IsRefused services world stored_world (fprintln "OK" new_response)
    ⊎ ((ks_conf : KeyspaceConfig) × (content : Bytes) × (lookup put_request.keyspace
            world.config.keyspaces
          ≡ some ks_conf)
        × (mismatches ks_conf.input.magic_byte (form_of put_request) ≡ false)
        × (read_all put_request.body ≡ returns (content, none))
        × IsWritten services world put_request content ks_conf stored_world
            (fprintln "OK" new_response))
unfolding xdas_put xdas.Conversion.convert xdas.Conversion.convert_encoding xdas.Conversion.decrypt
    xdas.Conversion.decompress xdas.Conversion.compress xdas.Conversion.encrypt
    xdas.RedisCrypto.encrypt xdas.Conversion.inc xdas.MagicByte.get
xdas_put-IsWritten_example =
    xdas_put-IsWritten services world stored_world put_request (fprintln "OK" new_response) refl

abbrev multi_request : Request
multi_request = record get_request { keyspace = "multi"; query = ("ks", "pa,dm") ∷ [] }

abbrev multi_world : World Memory
multi_world = record stored_world {
  metrics =
      prometheus_metrics
        (("pa", record no_counts { content_encoding_suc = 1; encryption_suc = 1 }) ∷ []);
}

abbrev multi_response : Response
multi_response = record {
  header = ("Content-Type", "multipart/mixed; boundary=b") ∷ [];
  sent = some (200, ("Content-Type", "multipart/mixed; boundary=b") ∷ []);
  body =
      part
        (("Content-Type", "application/json")
          ∷ ("Content-Encoding", "zstd")
          ∷ ("Namespace", "pa")
          ∷ [])
        (40 ∷ document)
      ∷ closing
      ∷ [];
}

xdas_multi_get-Multipart_example :
    (multi_world.store ≡ stored_world.store) × Multipart multi_response
unfolding xdas_multi_get xdas.Conversion.convert xdas.Conversion.convert_encryption
    xdas.Conversion.decrypt xdas.RedisCrypto.decrypt xdas.Conversion.encrypt xdas.Conversion.inc
xdas_multi_get-Multipart_example =
    xdas_multi_get-Multipart services stored_world multi_world multi_request multi_response refl

xdas_multi_get-Answers_example :
    let ks =
      wanted stored_world.config.keyspaces
        (get_id multi_request)
        multi_request.query
        (req_keyspaces stored_world.config multi_request.query) in
    (results : List Entry) × (services.redis.mget stored_world.store (wanted_keys ks) ≡ ok results)
    × Answers services 0 ks results (parts_of multi_response.body)
unfolding xdas_multi_get xdas.Conversion.convert xdas.Conversion.convert_encryption
    xdas.Conversion.decrypt xdas.RedisCrypto.decrypt xdas.Conversion.encrypt xdas.Conversion.inc
xdas_multi_get-Answers_example =
    xdas_multi_get-Answers services stored_world multi_world multi_request multi_response refl refl

-- The configuration as it is read, with one encoding for the stored form.
abbrev bare : KeyspaceFormat
bare = record { content_type = ""; content_encoding = ""; magic_byte = new_magic_byte 0 0 0 }

abbrev given : Configuration
given = record world.config {
  keyspaces =
      (
        "pa",
        record pa_config {
          input = bare;
          store = record bare { content_encoding = "zstd" };
          output = bare;
          find_x = none;
          ttl = 0;
        },
      )
      ∷ [];
}

abbrev a_day : String → Option ℕ
a_day t = some (24 * hour)

abbrev filled_formats : KeyspaceConfig
filled_formats = record pa_config {
  input = bare;
  store = record {
    content_type = "";
    content_encoding = "zstd";
    magic_byte = new_magic_byte 1 0 1;
  };
  output = record {
    content_type = "";
    content_encoding = "zstd";
    magic_byte = new_magic_byte 1 0 0;
  };
}

abbrev validated : Configuration
validated = record given { keyspaces = ("pa", filled_formats) ∷ [] }

validate_keyspace_config-IsFilled_example :
    (validated ≡ record given { keyspaces = validated.keyspaces })
    × ((k : String) (c' : KeyspaceConfig)
        → lookup k validated.keyspaces ≡ some c'
        → (c : KeyspaceConfig) × (lookup k given.keyspaces ≡ some c) × IsFilled a_day 1 c c')
unfolding validate_keyspace_config
validate_keyspace_config-IsFilled_example =
    validate_keyspace_config-IsFilled a_day given validated refl

-- About 292 years, and a second more.
get_ttl-decimal_example :
    (get_ttl (λ t. none) (decimal 9_223_372_037) hour ≡ 9_223_372_037 * second)
    × ((is_neg (get_ttl (λ t. none) (decimal 9_223_372_037) hour) ≡ true)
        ↔ (9_223_372_036 < 9_223_372_037))
get_ttl-decimal_example = get_ttl-decimal (λ t. none) 9_223_372_037 hour (omega arith)
