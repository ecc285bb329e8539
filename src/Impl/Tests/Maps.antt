-- ===== src/Impl/Tests/Maps.antt =====
-- Runs of the header, body and metadata wrappers, the shared data, the manager and the scheduler of
-- abi_impl/internal.go, and the theorems on them at concrete inputs.
use luwes.Base.{
  ℕ, ◌+◌, ◌≡◌, refl, true, Option, none, some, List, [], ◌∷◌, ◌++◌, if◌then◌else◌, ◌==◌, arith,
}
use luwes.Base.Bytes.{Bytes, ascii, bytes_eq, lookup, insert}
use luwes.Abi.Buffer.{null, view}
use luwes.Abi.Common.{HttpHeaderType, MetadataSource}
use luwes.Abi.Http.{HttpBodyType}
use luwes.Sahl.Writer.{set_response_body, append_response_body}
use luwes.Impl.Buffers.{string_to_module_buffer}
use luwes.Impl.HeaderMap.{get, get_one, set, remove, get_single_header, get_counted, as_header_map}
use luwes.Impl.HeaderMap.Updates.{get-set, as_header_map_lem, first}
use luwes.Impl.BodyBuffer.{
  read_body, read_whole_request_body, read_whole_response_body, get_size, append, drain,
  on_response_body_call, on_response_body_calls,
}
use luwes.Impl.BodyBuffer.Laws.{read_body_lem, set_response_body_lem, content}
use luwes.Impl.GoMap.{find}
use luwes.Impl.Manager.{Operation, recording, removal, new_manager, perform_all, search}
use luwes.Impl.Manager.Laws.{search-perform_all, perform_all_flat}
use luwes.Impl.Metadata.{
  NumberKind, GoValue, get_metadata_string, get_metadata_number, get_metadata_bool, set_metadata,
}
use luwes.Impl.Metadata.Laws.{get_metadata-set_metadata}
use luwes.Impl.Scheduler.{
  DymScheduler, new_dym_scheduler, schedule, on_scheduled, step, Event, scheduling, delivery, steps,
}
use luwes.Impl.Scheduler.Laws.{on_scheduled-schedule, find-steps}
use luwes.Impl.SharedData.{SharedData, get_data, set_data, clear_data}
use luwes.Impl.SharedData.Laws.{get_data-set_data}
use luwes.Impl.Tests.Hosts.{
  Values, header_host, header_laws, Bodies, body_host, body_laws, Metadata, metadata_host,
  metadata_laws,
}

abbrev head : Bytes → ℕ
head [] = 0
head (c ∷ s) = c

abbrev some_headers : Values
some_headers = (ascii "x-id", ascii "1" ∷ ascii "2" ∷ []) ∷ (ascii "host", ascii "a" ∷ []) ∷ []

get-set_example :
    ((get header_host true
        (set header_host true some_headers HttpHeaderType.request_header (ascii "x-id") (ascii "3"))
        HttpHeaderType.request_header
        (ascii "x-id"))
      ≡ view (ascii "3") ∷ [])
    × ((get_one header_host true
          (set header_host true some_headers HttpHeaderType.request_header
            (ascii "x-id")
            (ascii "3"))
          HttpHeaderType.request_header
          (ascii "x-id"))
        ≡ view (ascii "3"))
    × (((as_header_map header_host true
            (set header_host true some_headers HttpHeaderType.request_header
              (ascii "x-id")
              (ascii "3"))
            HttpHeaderType.request_header).get_one_into
          (ascii "x-id"))
        ≡ some (ascii "3"))
    × ((get header_host true
          (remove header_host true some_headers HttpHeaderType.request_header (ascii "x-id"))
          HttpHeaderType.request_header
          (ascii "x-id"))
        ≡ [])
    × ((get_one header_host true
          (remove header_host true some_headers HttpHeaderType.request_header (ascii "x-id"))
          HttpHeaderType.request_header
          (ascii "x-id"))
        ≡ null)
    × (((as_header_map header_host true
            (remove header_host true some_headers HttpHeaderType.request_header (ascii "x-id"))
            HttpHeaderType.request_header).get_one_into
          (ascii "x-id"))
        ≡ none)
get-set_example =
    get-set header_host header_laws true some_headers HttpHeaderType.request_header (ascii "x-id")
      51 [] refl refl

-- An empty value under a nil pointer removes the header.
set_empty :
    get header_host true
      (set header_host true some_headers HttpHeaderType.request_header (ascii "x-id") [])
      HttpHeaderType.request_header
      (ascii "x-id")
    ≡ []
unfolding get set get_single_header get_counted string_to_module_buffer lookup insert bytes_eq
set_empty = refl

as_header_map_lem_example :
    ((as_header_map header_host true some_headers HttpHeaderType.request_header).get_one_into
        (ascii "x-id")
      ≡ first (ascii "1" ∷ ascii "2" ∷ []))
    × ((as_header_map header_host true some_headers HttpHeaderType.request_header).get_all
        ≡ (ascii "x-id", ascii "1") ∷ (ascii "x-id", ascii "2") ∷ (ascii "host", ascii "a") ∷ [])
unfolding lookup bytes_eq header_laws
as_header_map_lem_example =
    as_header_map_lem header_host header_laws true some_headers HttpHeaderType.request_header
      (ascii "x-id")

abbrev two_bodies : Bodies
two_bodies HttpBodyType.received_request_body = ascii "c" ∷ []
two_bodies HttpBodyType.buffered_request_body = ascii "a" ∷ ascii "b" ∷ []
two_bodies HttpBodyType.received_response_body = ascii "z" ∷ []
two_bodies HttpBodyType.buffered_response_body = ascii "x" ∷ ascii "y" ∷ []

read_body_lem_example :
    (read_body body_host true two_bodies ≡ ascii "abc")
    × (read_whole_request_body body_host true two_bodies ≡ read_body body_host true two_bodies)
    × (read_whole_response_body body_host true two_bodies ≡ ascii "xyz")
unfolding body_laws
read_body_lem_example = read_body_lem body_host body_laws true two_bodies

set_response_body_lem_example :
    content body_host body_laws true
      (on_response_body_calls body_host true
        (set_response_body
            (some (get_size body_host true two_bodies HttpBodyType.buffered_response_body))
            (ascii "new")
          ++ append_response_body (some 3) (ascii "er"))
        two_bodies)
      HttpBodyType.buffered_response_body
    ≡ ascii "newer"
unfolding body_laws drain append get_size on_response_body_calls on_response_body_call
    set_response_body
set_response_body_lem_example =
    set_response_body_lem body_host body_laws true two_bodies (ascii "new") (ascii "er") refl refl
      refl

abbrev operations : List (Operation ℕ)
operations = recording 8 1 ∷ recording 40 2 ∷ removal 8 ∷ []

search-perform_all_example :
    search 40 (perform_all operations new_manager) ≡ find 40 (perform_all_flat operations [])
search-perform_all_example = search-perform_all operations 40

abbrev keep_bits : NumberKind → ℕ → ℕ
keep_bits kind n = n

get_metadata-set_metadata_example :
    (get_metadata_number metadata_host true keep_bits
        (set_metadata metadata_host true keep_bits []
          (ascii "ns")
          (ascii "k")
          (GoValue.number NumberKind.uint8 7))
        MetadataSource.dynamic
        (ascii "ns")
        (ascii "k")
      ≡ (true, 7))
    × (get_metadata_bool metadata_host true keep_bits
          (set_metadata metadata_host true keep_bits []
            (ascii "ns")
            (ascii "k")
            (GoValue.boolean true))
          MetadataSource.dynamic
          (ascii "ns")
          (ascii "k")
        ≡ (true, true))
    × (get_metadata_string metadata_host true keep_bits
          (set_metadata metadata_host true keep_bits []
            (ascii "ns")
            (ascii "k")
            (GoValue.text (ascii "v")))
          MetadataSource.dynamic
          (ascii "ns")
          (ascii "k")
        ≡ (true, view (ascii "v")))
get_metadata-set_metadata_example =
    get_metadata-set_metadata metadata_host metadata_laws true keep_bits [] (ascii "ns") (ascii "k")
      NumberKind.uint8 7 true (ascii "v")

-- Numbers of one digit.
abbrev format_digit : ℕ → Bytes
format_digit n = (48 + n) ∷ []

abbrev parse_digit : Bytes → Option ℕ
parse_digit [] = none
parse_digit (c ∷ s) = if c == 53 then some 5 else none

abbrev no_data : SharedData Metadata ℕ
no_data = record { host_state = []; recorded_shared_data = []; shared_data_manager = new_manager }

get_data-set_data_example :
    (get_data metadata_host true keep_bits format_digit parse_digit
        (ascii "k")
        (set_data metadata_host true keep_bits format_digit parse_digit 5 (ascii "k") 9 no_data)
      ≡ some 9)
    × (get_data metadata_host true keep_bits format_digit parse_digit (ascii "k") (
          clear_data metadata_host true keep_bits format_digit parse_digit (
            set_data metadata_host true keep_bits format_digit parse_digit 5 (ascii "k") 9 no_data))
        ≡ none)
unfolding new_manager
get_data-set_data_example =
    get_data-set_data metadata_host metadata_laws true keep_bits format_digit parse_digit refl 5
      refl (ascii "k") 9 no_data refl

abbrev other_events : List (Event ℕ)
other_events = scheduling 8 ∷ delivery 1 ∷ []

abbrev first_task : ℕ
first_task = 7

abbrev new_one : DymScheduler ℕ
new_one = record { scheduler_ptr = 0; next_task_id = 0; tasks = [] }

on_scheduled-schedule_example :
    ((on_scheduled
        (schedule first_task new_one).0
        (steps other_events (schedule first_task new_one).1)).0
      ≡ some first_task)
    × ((on_scheduled (schedule first_task new_one).0 (
          steps other_events
            (on_scheduled
              (schedule first_task new_one).0
              (steps other_events (schedule first_task new_one).1)).1)).0
        ≡ none)
unfolding schedule
on_scheduled-schedule_example =
    on_scheduled-schedule first_task other_events other_events new_one (omega arith)
      (λ e. omega (arith, e), tt)

find-steps_example : find 1 (steps other_events (new_dym_scheduler 0)).tasks ≡ none
unfolding steps step schedule on_scheduled new_dym_scheduler
find-steps_example = find-steps 0 other_events 1 (omega arith) (omega arith)
