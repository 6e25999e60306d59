-- ===== src/Server/MultiTotality.antt =====
-- cmd/xdas/handler.go: when a GET over several keyspaces returns.
use xdas.Prelude.{
  ℕ, suc, ◌+◌, ◌≤◌, String, List, [], ◌∷◌, All, length, ok, Run, Returns, returns, Returns-and_then,
  Returns-and_then_eq, of_if, ◌≡◌, refl, ap, subst, inl, inr, arith, lookup, string_eq, nat_eq,
  Option-cases, Result-cases,
}
use xdas.MagicByte.{new_from}
use xdas.Conversion.{convert}
use xdas.Conversion.Totality.{IsInitialised, convert-Returns}
use xdas.Server.Http.{Request, Response}
use xdas.Server.Store.{Entry, nil, string, other}
use xdas.Server.Util.{parse_bool}
use xdas.Server.State.{World, Services, get_id, find_x}
use xdas.Server.Get.{not_found}
use xdas.Server.Multi.{
  Wanted, wanted, wanted_keys, req_keyspaces, Progress, multi_entry, multi_entries, multi_results,
  xdas_multi_get,
}
use xdas.Server.Tame.{IsTame, Known, Tames}
use xdas.Server.MultiTame.{at_progress, multi_entry-Tames}
use xdas.Server.Totality.{find_x-Returns}
use xdas.Server.Health.{IsHealthy, IsHealthy-tame, IsHealthy-IsServiced}

length-wanted_keys : (ks : List Wanted) → length (wanted_keys ks) ≡ length ks
length-wanted_keys [] = refl
length-wanted_keys (k ∷ ks) = ap suc (length-wanted_keys ks)

module _ {S : Type 0} where
  abbrev AllKnown : World S → List Wanted → Type 0
  AllKnown s = All (λ k. Known k.keyspace s)

  AllKnown-tame : (s s' : World S) (ks : List Wanted) → IsTame s s' → AllKnown s ks → AllKnown s' ks
  AllKnown-tame s s' [] v h = tt
  AllKnown-tame s s' (k ∷ ks) v (known, rest) =
      (v.none_lost k.keyspace known, AllKnown-tame s s' ks v rest)

  wanted-AllKnown :
      (s : World S) (id : String) (query : List (String × String)) (ks : List String)
      → AllKnown s (wanted s.config.keyspaces id query ks)
  unfolding wanted
  wanted-AllKnown s id query [] = tt
  wanted-AllKnown s id query (k ∷ ks) = elim (Option-cases (lookup k s.config.keyspaces)) [
    | inl unknown ↦ rw (unknown, wanted) (wanted-AllKnown s id query ks)
    | inr (c, known) ↦ rw (known, wanted) ((c, known), wanted-AllKnown s id query ks)
  ]

module _ {S Message : Type 0} (services : Services S Message)
    (set : IsInitialised services.lib) where
  open services use {redis, lib, random}

  multi_entry-Returns :
      (n : ℕ) (k : Wanted) (id : String) (query : List (String × String)) (p : Progress S)
      (e : Entry)
      → IsHealthy p.world
      → Known k.keyspace p.world
      → Returns (multi_entry services n k id query p e)
  unfolding multi_entry
  multi_entry-Returns n k id query p nil h known =
      of_if Returns (parse_bool "nofindx" query) _ _ tt (
        Returns-and_then (find_x k.keyspace id p.world) _
          (find_x-Returns k.keyspace id p.world (IsHealthy-IsServiced k.keyspace p.world h known))
          (λ s. tt))
  multi_entry-Returns n k id query p other h known = tt
  multi_entry-Returns n k id query p (string []) h known = tt
  multi_entry-Returns n k id query p (string (b ∷ rest)) h known =
      Returns-and_then
        (convert lib (random n) k.keyspace (new_from b) k.ks_conf.output.magic_byte rest
          p.world.metrics)
        _
        (convert-Returns lib (random n) k.keyspace (new_from b) k.ks_conf.output.magic_byte rest
          p.world.metrics set (h.countable k.keyspace known))
        (λ converted. tt)

  multi_entries-Returns :
      (n : ℕ) (ks : List Wanted) (id : String) (query : List (String × String)) (p : Progress S)
      (es : List Entry)
      → IsHealthy p.world
      → AllKnown p.world ks
      → length es ≤ length ks
      → Returns (multi_entries services n ks id query p es)
  unfolding multi_entries
  multi_entries-Returns n ks id query p [] h known few = tt
  multi_entries-Returns n [] id query p (e ∷ es) h known few = absurd (omega arith)
  multi_entries-Returns n (k ∷ ks) id query p (e ∷ es) h (known, others) few =
      Returns-and_then_eq (multi_entry services n k id query p e) _
        (multi_entry-Returns n k id query p e h known)
        (λ p' ran.
          let v =
            subst (Tames p.world (at_progress services)) ran
              (multi_entry-Tames services n k id query p e) in
          multi_entries-Returns (n + 1) ks id query p' es (IsHealthy-tame p.world p'.world v h)
            (AllKnown-tame p.world p'.world ks v others) (omega arith))

  -- A multi GET returns in a healthy world, where `MGET` answers with one value for each key.
  pub xdas_multi_get-Returns :
      ((store : S) (keys : List String) (results : List Entry)
        → redis.mget store keys ≡ ok results
        → length results ≡ length keys)
      → (s : World S) (r : Request) (w : Response) → IsHealthy s
      → Returns (xdas_multi_get services s r w)
  unfolding xdas_multi_get multi_results
  xdas_multi_get-Returns one_each s r w h =
      some_wanted (wanted s.config.keyspaces (get_id r) r.query (req_keyspaces s.config r.query))
        (wanted-AllKnown s (get_id r) r.query (req_keyspaces s.config r.query))
    where
      some_results :
          (k : Wanted) (ks : List Wanted)
          → AllKnown s (k ∷ ks)
          → Returns (multi_results services (k ∷ ks) (get_id r) s r w)
      some_results k ks known = elim (Result-cases (redis.mget s.store (wanted_keys (k ∷ ks)))) [
        | inr (e, failed) ↦ rw (failed, multi_results) tt
        | inl (results, read) ↦
            rw (read, multi_results)
              (Returns-and_then (multi_entries services 0 (k ∷ ks) (get_id r) r.query _ results) _
                (multi_entries-Returns 0 (k ∷ ks) (get_id r) r.query _ results h known (
                  omega (
                    arith,
                    one_each s.store (wanted_keys (k ∷ ks)) results read,
                    length-wanted_keys ks,
                  )))
                (λ p. tt))
      ]

      some_wanted :
          (ks : List Wanted)
          → AllKnown s ks
          → Returns (elim ks as (λ x. Run (World S × Response)) [
            | [] ↦ returns (s, not_found w)
            | k ∷ ks ↦ multi_results services (k ∷ ks) (get_id r) s r w
          ])
      some_wanted [] known = tt
      some_wanted (k ∷ ks) known = some_results k ks known
