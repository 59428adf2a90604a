-- ===== src/Store/Apply.antt =====
-- `apply`, `appendRing`, `removeRequest` and `removeJob` of internal/store/store.go. The copies
-- that `cloneRequest` and its kin make have no counterpart: values here are never shared.
pub mod Frame
pub mod Ring
pub mod Sound
pub mod Indexed
pub mod Added
pub mod Kept
pub mod Consistent
pub mod Gone
use mathlib.Core.List.{foldl}
use relaybox.Prelude.{
  ℕ, ◌+◌, ◌-◌, Text, not, ◌&&◌, ◌||◌, ◌==◌, Option, none, some, List, [], ◌∷◌, ◌++◌, is_empty,
  length, take, select, map, ltb, leb, if◌then◌else◌,
}
use relaybox.Map.{Map, TextSet, get, put, delete, keys}
use relaybox.Store.Model.{Request, Attempt, Job, Event}
use relaybox.Store.Env.{Env}
use relaybox.Store.Options.{Options}
use relaybox.Store.Tables.{Tables, RecordRef, Image, get_list}

-- `lower`: ASCII letters only
unfoldable pub lower : Text → Text
lower = map (λ c. if leb b'A' c && leb c b'Z' then c + 32 else c)

-- `len` of what `json.Marshal` gives, whose error `appendRing` drops
unfoldable pub encoded_size : Env → Event → ℕ
encoded_size env e = elim (env.encode e) [ none ↦ 0 | some b ↦ length b ]

-- The loop that drops the oldest events while the ring is over one of its bounds. On an empty
-- ring over the byte bound the source would fault; `ring_bytes` is the sum of the sizes, so that
-- does not come up.
unfoldable pub trim_ring : Env → Options → List Event → ℕ → List Event × ℕ
trim_ring env o [] bytes = ([], bytes)
trim_ring env o (e ∷ ring) bytes =
    let rest = trim_ring env o ring (bytes - encoded_size env e) in
    if ltb o.max_catch_up_events (length (e ∷ ring)) || ltb o.max_catch_up_bytes bytes
    then rest
    else (e ∷ ring, bytes)

unfoldable pub append_ring : Env → Options → Event → Tables → Tables
append_ring env o e t =
    let (ring, bytes) = trim_ring env o (t.ring ++ e ∷ []) (t.ring_bytes + encoded_size env e) in
    record t { ring = ring; ring_bytes = bytes }

-- The entry of a job in the index by request; an index that becomes empty goes.
unindex_job : Text → Text → Map TextSet → Map TextSet
unindex_job id rid m = elim (get rid m) [
  | none ↦ m
  | some ids ↦ let rest = delete id ids in if is_empty rest then delete rid m else put rid rest m
]

-- `for _, a := range attempts { delete(m, a.ID) }`
delete_ids {ℓ} : {V : Type ℓ} → List Attempt → Map V → Map V
delete_ids attempts m = foldl (λ m a. delete a.id m) m attempts

keep_attempts : Text → List Attempt → Map (List Attempt) → Map (List Attempt)
keep_attempts rid kept m = if is_empty kept then delete rid m else put rid kept m

drop_job : Text → Job → Tables → Tables
unfolding unindex_job delete_ids keep_attempts
drop_job id j t =
    let attempts = get_list j.request_id t.attempts in
    let gone = select (λ a. a.job_id == id) attempts in
    record t {
      jobs = delete id t.jobs;
      jobs_by_request = unindex_job id j.request_id t.jobs_by_request;
      attempts =
          keep_attempts j.request_id (select (λ a. not (a.job_id == id)) attempts) t.attempts;
      attempt_ids = delete_ids gone t.attempt_ids;
      attempt_record = delete_ids gone t.attempt_record;
    }

unfoldable pub remove_job : Tables → Text → Tables
unfolding drop_job
remove_job t id = elim (get id t.jobs) [ none ↦ t | some j ↦ drop_job id j t ]

-- `if m[k] == id { delete(m, k) }`
unpoint : Text → Text → Map Text → Map Text
unpoint k id m = elim (get k m) [ none ↦ m | some i ↦ if i == id then delete k m else m ]

pub drop_keys : Text → Request → Tables → Tables
unfolding unpoint
drop_keys id r t =
    if is_empty r.delivery_id
    then record t { body = unpoint r.body_sha256 id t.body }
    else record t { delivery = unpoint r.delivery_id id t.delivery }

pub drop_rows : Text → Tables → Tables
unfolding delete_ids
drop_rows id t =
    let attempts = get_list id t.attempts in
    record t {
      jobs_by_request = delete id t.jobs_by_request;
      requests = delete id t.requests;
      attempt_ids = delete_ids attempts t.attempt_ids;
      attempt_record = delete_ids attempts t.attempt_record;
      attempts = delete id t.attempts;
      request_record = delete id t.request_record;
      request_bytes = delete id t.request_bytes;
      search = delete id t.search;
    }

unfoldable pub remove_request : Tables → Text → Tables
unfolding drop_keys drop_rows remove_job
remove_request t id = elim (get id t.requests) [
  | none ↦ t
  | some r ↦
      drop_rows id (foldl remove_job (drop_keys id r t) (keys (get_list id t.jobs_by_request)))
]

abbrev space : Text
space = b' ' ∷ []

add_request : Options → RecordRef → Option Request → Tables → Tables
unfolding lower
add_request o ref none t = t
add_request o ref (some r) t =
    let t' = record t {
      requests = put r.id (record r { body = [] }) t.requests;
      request_record = put r.id ref t.request_record;
      request_bytes = put r.id (length r.body) t.request_bytes;
      search =
          put r.id
            (lower (
              r.id
              ++ space
              ++ r.path
              ++ space
              ++ r.delivery_id
              ++ space
              ++ take o.max_search_bytes r.body))
            t.search;
    } in
    if is_empty r.delivery_id
    then record t' { body = put r.body_sha256 r.id t.body }
    else record t' { delivery = put r.delivery_id r.id t.delivery }

add_attempt : RecordRef → Option Attempt → Tables → Tables
add_attempt ref none t = t
add_attempt ref (some a) t = record t {
  attempts =
      put a.request_id (get_list a.request_id t.attempts ++ record a { response_body = [] } ∷ [])
        t.attempts;
  attempt_ids = put a.id tt t.attempt_ids;
  attempt_record = put a.id ref t.attempt_record;
}

add_job : Option Job → Tables → Tables
add_job none t = t
add_job (some j) t = record t {
  jobs = put j.id j t.jobs;
  jobs_by_request =
      put j.request_id (put j.id tt (get_list j.request_id t.jobs_by_request)) t.jobs_by_request;
}

-- What an event does to the tables, before it enters the ring.
unfoldable pub apply_rows : Options → Event → RecordRef → Tables → Tables
unfolding remove_job remove_request add_request add_attempt add_job
apply_rows o e ref t =
    let t₁ = foldl remove_request (foldl remove_job t e.evicted_job_ids) e.evicted_request_ids in
    add_job e.job (add_attempt ref e.attempt (add_request o ref e.request t₁))

unfoldable pub apply : Env → Options → Event → RecordRef → Image → Image
apply env o e ref s = record {
  seq = if ltb s.seq e.seq then e.seq else s.seq;
  tables = append_ring env o e (apply_rows o e ref s.tables);
}
