-- ===== src/Cmd/Tests.antt =====
-- An example of the theorem about the flags.
use relaybox.Prelude.{pos, refl}
use relaybox.Cmd.Serve.{Flags, flag_error, store_options, app_limits}
use relaybox.Cmd.Serve.Bounds.{IsServable, accepted_flags-IsServable}

abbrev flags : Flags
flags = record {
  max_body = pos 1048576;
  attempts = pos 5;
  concurrency = pos 4;
  queue_size = pos 64;
  max_in_flight = pos 64;
  retention_captures = pos 1000;
  retention_events = pos 100000;
  jobs_per_request = pos 8;
  search_bytes = pos 65536;
}

accepted_flags-IsServable_example : IsServable (store_options flags) (app_limits flags)
unfolding flag_error
accepted_flags-IsServable_example = accepted_flags-IsServable flags refl
