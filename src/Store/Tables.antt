-- ===== src/Store/Tables.antt =====
-- The maps of `Store`, its catch-up ring, and what a log determines: the tables and the sequence.
use relaybox.Prelude.{ℕ, Text, List, [], none, some}
use relaybox.Map.{Map, TextSet, get, keys}
use relaybox.Store.Model.{Request, Attempt, Job, Event, zero_job}

-- `recordRef`: where the line of an event stands in the file.
pub record RecordRef : Type 0 where
  pub offset : ℕ
  pub length : ℕ
  pub seq : ℕ

pub record Tables : Type 0 where
  pub requests : Map Request
  pub attempts : Map (List Attempt)
  pub attempt_ids : TextSet
  pub jobs : Map Job
  pub jobs_by_request : Map TextSet
  pub delivery : Map Text
  pub body : Map Text
  pub request_record : Map RecordRef
  pub request_bytes : Map ℕ
  pub attempt_record : Map RecordRef
  pub search : Map Text
  pub ring : List Event
  pub ring_bytes : ℕ

pub record Image : Type 0 where
  pub seq : ℕ
  pub tables : Tables
  pub open tables use *

abbrev pub no_tables : Tables
no_tables = record {
  requests = [];
  attempts = [];
  attempt_ids = [];
  jobs = [];
  jobs_by_request = [];
  delivery = [];
  body = [];
  request_record = [];
  request_bytes = [];
  attempt_record = [];
  search = [];
  ring = [];
  ring_bytes = 0;
}

-- `m[k]` where a missing key reads as an empty list or map.
abbrev pub get_list {ℓ} : {A : Type ℓ} → Text → Map (List A) → List A
get_list k m = elim (get k m) [ none ↦ [] | some l ↦ l ]

-- `s.jobs[id]`, the zero `Job` where there is none
unfoldable pub job_at : Tables → Text → Job
job_at t id = elim (get id t.jobs) [ none ↦ zero_job | some j ↦ j ]

-- The keys of `s.jobsByRequest[id]`.
unfoldable pub job_ids : Tables → Text → List Text
job_ids t id = keys (get_list id t.jobs_by_request)
