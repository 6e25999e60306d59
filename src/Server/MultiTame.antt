-- ===== src/Server/MultiTame.antt =====
-- cmd/xdas/handler.go: a multi GET leaves a tame world.
use xdas.Prelude.{
  ℕ, ◌+◌, String, List, [], ◌∷◌, Run, returns, panics, ◌≡◌, refl, subst, inl, inr, arith, string_eq,
  nat_eq, Option-cases, Result-cases,
}
use xdas.Conversion.{MetricsProvider, Converted, convert}
use xdas.MagicByte.{new_from}
use xdas.Conversion.Keeping.{Keeps, Keeping, convert-Keeping}
use xdas.Server.Http.{Request, Response}
use xdas.Server.Store.{Entry, nil, string, other}
use xdas.Server.Util.{parse_bool}
use xdas.Server.State.{World, Services, get_id, find_x, send_redis_read_err}
use xdas.Server.Multi.{
  Wanted, wanted, wanted_keys, req_keyspaces, Progress, multi_part, multi_converted, multi_entry,
  multi_entries, multi_end, multi_results, xdas_multi_get,
}
use xdas.Server.Get.{not_found}
use xdas.Server.Tame.{
  IsTame, IsTame-refl, IsTame-trans, Tames, Tames-if, Tames-and_then, find_x-Tames,
}
use xdas.Server.Untouched.{world_of, quiet_IsTame, same_IsTame}

module _ {S Message : Type 0} (services : Services S Message) where
  open services use {redis, lib, random, boundary, create_part}

  abbrev pub at_progress : Progress S → World S
  at_progress p = p.world

  multi_part-world :
      (n : ℕ) (k : Wanted) (c : Converted) (p : Progress S)
      → (multi_part services n k c p).world ≡ p.world
  unfolding multi_part
  multi_part-world n k c p = ground arith

  multi_converted-IsTame :
      (n : ℕ) (k : Wanted) (p : Progress S) (m : MetricsProvider) (c : Converted)
      → Keeps p.world.metrics m
      → IsTame p.world (multi_converted services n k p (m, c)).world
  unfolding multi_converted
  multi_converted-IsTame n k p m c kept = elim (Option-cases c.error) [
    | inl fine ↦
        rw (fine, multi_converted)
          (rw (multi_part-world n k c (record p { world = record p.world { metrics = m } }))
            (quiet_IsTame p.world (record p.world { metrics = m }) refl refl kept))
    | inr (e, failed) ↦ rw (failed, multi_converted) (quiet_IsTame p.world _ refl refl kept)
  ]

  pub multi_entry-Tames :
      (n : ℕ) (k : Wanted) (id : String) (query : List (String × String)) (p : Progress S)
      (e : Entry)
      → Tames p.world at_progress (multi_entry services n k id query p e)
  unfolding multi_entry
  multi_entry-Tames n k id query p nil =
      Tames-if p.world at_progress (parse_bool "nofindx" query) _ _ (IsTame-refl p.world) (
        Tames-and_then p.world at_progress (find_x k.keyspace id p.world) _
          (λ s' ran. subst (Tames p.world (λ t. t)) ran (find_x-Tames k.keyspace id p.world)))
  multi_entry-Tames n k id query p other = IsTame-refl p.world
  multi_entry-Tames n k id query p (string []) = IsTame-refl p.world
  multi_entry-Tames n k id query p (string (b ∷ rest)) =
      Tames-and_then p.world at_progress
        (convert lib (random n) k.keyspace (new_from b) k.ks_conf.output.magic_byte rest
          p.world.metrics)
        _
        (λ (m', converted) ran. multi_converted-IsTame n k p m' converted (
          subst (Keeping p.world.metrics) ran (
            convert-Keeping lib (random n) k.keyspace (new_from b) k.ks_conf.output.magic_byte rest
              p.world.metrics)))

  Tames-after :
      {A : Type 0} (s t : World S) (at : A → World S) (m : Run A)
      → IsTame s t
      → Tames t at m
      → Tames s at m
  Tames-after s t at (returns a) v h = IsTame-trans s t (at a) v h
  Tames-after s t at panics v h = tt

  multi_entries-Tames :
      (n : ℕ) (ks : List Wanted) (id : String) (query : List (String × String)) (p : Progress S)
      (es : List Entry)
      → Tames p.world at_progress (multi_entries services n ks id query p es)
  unfolding multi_entries
  multi_entries-Tames n ks id query p [] = IsTame-refl p.world
  multi_entries-Tames n [] id query p (e ∷ es) = tt
  multi_entries-Tames n (k ∷ ks) id query p (e ∷ es) =
      Tames-and_then p.world at_progress (multi_entry services n k id query p e) _ (λ p' ran.
        Tames-after p.world p'.world at_progress (multi_entries services (n + 1) ks id query p' es)
          (subst (Tames p.world at_progress) ran (multi_entry-Tames n k id query p e))
          (multi_entries-Tames (n + 1) ks id query p' es))

  multi_end-world : (p : Progress S) → (multi_end services p).0 ≡ p.world
  unfolding multi_end
  multi_end-world p = ground arith

  multi_results-Tames :
      (ks : List Wanted) (id : String) (s : World S) (r : Request) (w : Response)
      → Tames s world_of (multi_results services ks id s r w)
  unfolding multi_results send_redis_read_err
  multi_results-Tames ks id s r w = elim (Result-cases (redis.mget s.store (wanted_keys ks))) [
    | inr (e, failed) ↦ rw (failed, multi_results) (same_IsTame s _ refl refl refl)
    | inl (results, read) ↦
        rw (read, multi_results)
          (Tames-and_then s world_of (multi_entries services 0 ks id r.query _ results) _ (λ p ran.
            rw (multi_end-world p)
              (subst (Tames s at_progress) ran (multi_entries-Tames 0 ks id r.query _ results))))
  ]

  pub xdas_multi_get-Tames :
      (s : World S) (r : Request) (w : Response) → Tames s world_of (xdas_multi_get services s r w)
  unfolding xdas_multi_get
  xdas_multi_get-Tames s r w =
      some_wanted (wanted s.config.keyspaces (get_id r) r.query (req_keyspaces s.config r.query))
    where
      some_wanted :
          (ks : List Wanted)
          → Tames s world_of (elim ks as (λ x. Run (World S × Response)) [
            | [] ↦ returns (s, not_found w)
            | k ∷ ks ↦ multi_results services (k ∷ ks) (get_id r) s r w
          ])
      some_wanted [] = IsTame-refl s
      some_wanted (k ∷ ks) = multi_results-Tames (k ∷ ks) (get_id r) s r w
