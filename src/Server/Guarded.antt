-- ===== src/Server/Guarded.antt =====
-- cmd/xdas/routes.go and the middleware of cmd/xdas/xdas.go: what reaches a handler.
use xdas.Prelude.{
  ℕ, String, [], Bytes, Option, none, some, lookup, nat_eq, string_eq, if◌then◌else◌, length, take,
  length-take, ltb, Run, returns, ◌≡◌, refl, ◌≢◌, ◌≤◌, arith, nat_beq-false, ap, subst,
}
use xdas.Errors.{Error, max_bytes_error, external}
use xdas.Keyspaces.{ks_atomic}
use xdas.Server.Http.{
  Method, Request, Reading, at_eof, broken, too_large, other_panic, Response, http_error,
}
use xdas.Server.Util.{read_all}
use xdas.Server.Config.{KeyspaceConfig}
use xdas.Server.State.{World, Services}
use xdas.Server.Routes.{
  max_size, limited, keyspace, inc, serve, validate_keyspace_first, validate_atomic_keyspace_first,
}

-- The cut of a body at any limit.
cut_at_eof :
    (n : ℕ) (b content : Bytes) (e : Option Error)
    → read_all (if ltb n (length b) then broken (take n b) max_bytes_error else at_eof b)
      ≡ returns (content, e)
    → (length content ≤ n) × (e ≡ none → b ≡ content)
unfolding read_all
cut_at_eof n b content e h = ground (arith, length-take n b)

cut_broken :
    (n : ℕ) (b content : Bytes) (x : Error) (e : Option Error)
    → read_all (if ltb n (length b) then broken (take n b) max_bytes_error else broken b x)
      ≡ returns (content, e)
    → (length content ≤ n) × (e ≢ none)
unfolding read_all
cut_broken n b content x e h = ground (arith, length-take n b)

-- What is read of a body is never above the limit, and a reading without an error is the whole body.
pub read_all-limited :
    (body : Reading) (content : Bytes) (e : Option Error)
    → read_all (limited body) ≡ returns (content, e)
    → (length content ≤ max_size) × (e ≡ none → body ≡ at_eof content)
unfolding read_all limited
read_all-limited (at_eof b) content e h =
    let (short, whole) = cut_at_eof max_size b content e h in (short, λ n. ap at_eof (whole n))
read_all-limited (broken b x) content e h =
    let (short, failed) = cut_broken max_size b content x e h in (short, λ n. absurd (failed n))
read_all-limited too_large content e h =
    let same : ◌≡◌ {A = Run (Bytes × Option Error)} (returns ([], some (external 5)))
        (returns (content, e)) =
      h in
    let nothing : ◌≡◌ {A = Bytes} [] content = cc same in
    (subst (λ c. length c ≤ max_size) nothing (omega arith), λ n. cc)
read_all-limited other_panic content e h = cc

module _ {S Message : Type 0} (services : Services S Message) (version_text : String) where
  -- A request to a keyspace that is not configured, by any method, and an increment in a keyspace that
  -- is not atomic, are refused with the status 400 before any handler, and change nothing.
  pub serve_guards :
      (m : Method) (k id : String) (s : World S) (r : Request) (w : Response)
      → (lookup k s.config.keyspaces ≡ none
          → (serve services version_text m (keyspace k id) s r w
              ≡ returns (s, http_error "Invalid keyspace" 400 w))
            × (serve services version_text m (inc k id) s r w
                ≡ returns (s, http_error "Invalid keyspace" 400 w)))
        × ((c : KeyspaceConfig)
            → lookup k s.config.keyspaces ≡ some c
            → c.kind ≢ ks_atomic
            → serve services version_text m (inc k id) s r w
              ≡ returns (s, http_error "Invalid keyspace" 400 w))
  unfolding serve validate_keyspace_first validate_atomic_keyspace_first
  serve_guards m k id s r w = (
    λ unknown. (
      rw (unknown, serve, validate_keyspace_first) refl,
      rw (unknown, serve, validate_atomic_keyspace_first) refl,
    ),
    λ c known kind.
        rw (known, serve, validate_atomic_keyspace_first)
          (rw (nat_beq-false c.kind ks_atomic kind) refl),
  )
