-- ===== src/Examples/Sections.antt =====
-- The TLS sections and the label of a client, at concrete files and requests.
use xdas.Prelude.{
  ℕ, String, [], ◌∷◌, ◌++◌, some, none, true, false, ok, Bytes, utf8, ◌≡◌, refl, ◌⊎◌, ◌≢◌,
}
use xdas.Sections.{Tls, TlsConfig, validate_tls, get_server_tls}
use xdas.Sections.Settled.{get_server_tls_cases}
use xdas.Server.{Request, client_label}
use xdas.Examples.Setup.{files, secured}
use xdas.Examples.Serving.{get_request}

abbrev mutual_tls : Tls ℕ ℕ
mutual_tls = record secured { ca_file = "ca.pem" }

abbrev loaded : Tls ℕ ℕ
loaded = record mutual_tls { cert = 1 ∷ []; ca = some 2 }

get_server_tls_cases_example :
    ((get_server_tls loaded ≡ none) × (mutual_tls.cert_file ≡ ""))
    ⊎ ((c : TlsConfig ℕ ℕ) × (get_server_tls loaded ≡ some c)
        × (mutual_tls.cert_file ≢ "")
        × ((k : ℕ) × (files.load_key_pair mutual_tls.cert_file mutual_tls.key_file ≡ ok k)
            × (c.certificates ≡ k ∷ []))
        × (((mutual_tls.ca_file ≡ "") × (c.requires_client_cert ≡ false) × (c.client_cas ≡ none))
            ⊎ ((mutual_tls.ca_file ≢ "")
                × (c.requires_client_cert ≡ true)
                × ((pem : Bytes) × (pool : ℕ) × (files.read_file mutual_tls.ca_file ≡ ok pem)
                    × (files.append_certs_from_pem pem ≡ some pool)
                    × (c.client_cas ≡ some pool)))))
unfolding validate_tls
get_server_tls_cases_example = get_server_tls_cases files mutual_tls loaded refl refl refl

abbrev from_agent : String → Request
from_agent agent = record get_request { header = ("User-Agent", agent) ∷ [] }

-- A letter of two bytes at the twelfth place is cut in two.
cut_letter : client_label (from_agent "ABCDEFGHIJKé/1") ≡ utf8 "ABCDEFGHIJK" ++ 195 ∷ []
unfolding client_label
cut_letter = refl
