-- ===== src/Server/Answering.antt =====
-- cmd/xdas: the requests to a server that `main` has started.
use xdas.Prelude.{
  String, Bytes, Option, none, Result, ok, returns, Returns, lookup, string_eq, ◌≡◌, refl, ◌∙◌, ◌≢◌,
  inl, inr, Option-cases,
}
use xdas.Errors.{Error}
use xdas.RedisCrypto.Keys.{filled}
use xdas.Conversion.Counting.{IsCounted}
use xdas.Conversion.Totality.{IsInitialised}
use xdas.FindX.Soundness.{IsSound-shut}
use xdas.Server.Http.{Request, Response, other_panic}
use xdas.Server.State.{World, Services}
use xdas.Server.Get.{xdas_common_get, xdas_get}
use xdas.Server.Put.{xdas_put}
use xdas.Server.Setup.{Flags, Started, Settings, Sources, new_settings, main}
use xdas.Server.Totality.{xdas_put-Returns, xdas_get-Returns}
use xdas.Server.Up.{IsServing, AllFresh}
use xdas.Server.Ready.{main-IsServing}
use xdas.Server.OwnMetrics.{Descriptor}

module _ {S Message : Type 0} (services : Services S Message) where
  unknown_put-Returns :
      (s : World S) (r : Request) (w : Response)
      → lookup r.keyspace s.config.keyspaces ≡ none
      → Returns (xdas_put services s r w)
  unfolding xdas_put
  unknown_put-Returns s r w unknown = rw (unknown, xdas_put) tt

  unknown_get-Returns :
      (s : World S) (r : Request) (w : Response)
      → lookup r.keyspace s.config.keyspaces ≡ none
      → Returns (xdas_get services s r w)
  unfolding xdas_get xdas_common_get
  unknown_get-Returns s r w unknown = rw (unknown, xdas_common_get) tt

  -- The conversions have the cipher that `main` has made.
  pub IsServing-IsInitialised :
      {Certificate CertPool : Type 0} (flags : Flags) (st : Started Certificate CertPool)
      → IsServing flags st
      → services.lib.crypto ≡ st.crypto
      → IsInitialised services.lib
  IsServing-IsInitialised flags st up cipher =
      let (key, bytes, only, size, digits, set) = up.keyed in
      record {
        gcm = filled bytes;
        gcm_set = cipher ∙ set;
        ready = record { cipher = bytes; gcm_set = refl; overhead_set = refl };
      }

  IsServing-answers :
      {Certificate CertPool : Type 0} (flags : Flags) (st : Started Certificate CertPool)
      (s : World S) (r : Request) (w : Response)
      → IsServing flags st
      → services.lib.crypto ≡ st.crypto
      → s.config ≡ st.settings.rest
      → s.metrics ≡ st.metrics
      → r.body ≢ other_panic
      → Returns (xdas_put services s r w) × Returns (xdas_get services s r w)
  IsServing-answers flags st s r w up cipher config metrics read =
      let initialised = IsServing-IsInitialised flags st up cipher in
      elim (Option-cases (lookup r.keyspace s.config.keyspaces)) [
        | inl unknown ↦ (unknown_put-Returns s r w unknown, unknown_get-Returns s r w unknown)
        | inr (c, known) ↦
            let (counted, (f, given, sound)) = up.keyspaces r.keyspace c (rw config at known) in
            let counted_here : IsCounted r.keyspace s.metrics = rw metrics counted in
            (
              xdas_put-Returns services initialised s r w counted_here read,
              xdas_get-Returns services initialised s r w counted_here (record {
                config = c;
                service = f;
                configured = known;
                present = given;
                shut = IsSound-shut f sound;
              }),
            )
      ]

-- A server that `main` has started, whatever the flags, the files and the registries hold, answers:
-- with the cipher, the configuration and the metrics that `main` has set, and whatever Redis holds and
-- answers, a PUT to any keyspace and a GET of any keyspace, configured or not, do not panic, unless
-- the reading of the body does.
pub main-answers :
    {S Message Certificate CertPool R : Type 0} (services : Services S Message)
    (sources : Sources Certificate CertPool)
    (fresh : (b : Bytes) (config : Settings Certificate CertPool)
      → sources.unmarshal b new_settings ≡ ok config
      → AllFresh config.rest.keyspaces)
    (parse_request_uri : String → Option Error)
    (register_find_x : String → String → String → Option Error)
    (register : R → String → String → String → Result Error R)
    (own : R → Descriptor → Result Error R) (reg : R) (flags : Flags)
    (st : Started Certificate CertPool) (s : World S) (r : Request) (w : Response)
    → main parse_request_uri register_find_x register own reg sources flags ≡ returns (ok st)
    → services.lib.crypto ≡ st.crypto
    → s.config ≡ st.settings.rest
    → s.metrics ≡ st.metrics
    → r.body ≢ other_panic
    → Returns (xdas_put services s r w) × Returns (xdas_get services s r w)
main-answers services sources fresh parse_request_uri register_find_x register own reg flags st s r
      w ran =
    IsServing-answers services flags st s r w
      (main-IsServing sources fresh parse_request_uri register_find_x register own reg flags st ran)
