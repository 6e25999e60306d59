-- ===== src/FindX/Requests.antt =====
-- internal/findx/findx.go: `getReq`, and the bodies of the loops of `run` and `runDM`.
use xdas.Prelude.{
  ℕ, String, List, ◌∷◌, ltb, if◌then◌else◌, Run, returns, panics, split, ◌<>◌, ◌==◌, string_eq,
}
use xdas.FindX.Metrics.{Metrics, inc_sent_suc, inc_sent_fail, inc_sent_rej}

-- What the HTTP library makes of a URL: no request, no response, or a response with its status.
pub data Reply : Type 0 where
  not_created not_answered : Reply
  answered : ℕ → Reply

-- `getReq`. Where no request can be made, `req` is nil, and setting a header of it panics.
unfoldable pub get_req : Reply → Metrics → Run Metrics
get_req not_created m = panics
get_req not_answered m = returns (inc_sent_fail m)
get_req (answered status_code) m =
    if ltb status_code 300
    then returns (inc_sent_suc m)
    else if ltb status_code 500
    then returns (inc_sent_rej m)
    else returns (inc_sent_fail m)

module _ (reply : String → Reply) (url : String) where
  -- The URLs of the two loops.
  abbrev pub run_url : String → String
  run_url id = url <> id

  abbrev pub dm_url : String → String → String
  dm_url id devices = url <> id <> "?devices=" <> devices

  -- One round of `run`
  unfoldable pub run_id : String → Metrics → Run Metrics
  unfolding get_req
  run_id id m = get_req (reply (run_url id)) m

  -- One round of `runDM`, on the parts of the id
  unfoldable pub run_dm_parts : List String → Metrics → Run Metrics
  unfolding get_req
  run_dm_parts (id ∷ devices ∷ rest) m = get_req (reply (dm_url id devices)) m
  run_dm_parts ids m = returns (inc_sent_fail m)

  unfoldable pub run_dm : String → Metrics → Run Metrics
  unfolding run_dm_parts split
  run_dm id m = run_dm_parts (split "," id) m

  -- The loop body that `Start` chooses by the keyspace.
  unfoldable pub process : String → String → Metrics → Run Metrics
  unfolding run_id run_dm
  process keyspace id m = if keyspace == "dm" then run_dm id m else run_id id m
