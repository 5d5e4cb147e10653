-- ===== src/Examples/Application.antt =====
-- The handlers of the simulator on concrete requests.
use gobac.Prelude.{◌≡◌, ◌*◌, refl, arith, [], ◌∷◌, length, replicate, true, false, none, some, ◌==◌}
use gobac.Result.{ok}
use gobac.Prelude.{All, map, ◌++◌}
use gobac.Prelude.Maps.{number_key, lookup}
use gobac.Simulator.Errors
use gobac.Pdu.ReadMultiple.Ack
use gobac.Pdu.ReadMultiple.Ack.{marshal_ack, marshal_access, marshal_result}
use gobac.Types.Property.{marshal_pointers}
use gobac.Types.PropertyValue.{marshal, payload_of}
use gobac.Types.GoValue.{convert_float32}
use gobac.Types.Context.{write_context, write_constructed_tag}
use gobac.Types.Tag.{encode_context_tag, encode_opening_tag, encode_closing_tag, encode_tag}
use gobac.Types.ObjectId
use gobac.Types.ObjectId.{object_word}
use gobac.Types.Unsigned.{marshal_uint32, encode_var_uint}
use gobac.Types.Scalars.{marshal_real}
use gobac.Pdu.ReadMultiple.Request.{marshal_index}
use gobac.Simulator.Services.ReadMultiple.Ack.{client_ack, client_results}
use gobac.Simulator.Services.ReadMultiple.Request.{received_spec}
use gobac.Types.ObjectId.{instance_number, set_instance_number}
use gobac.Types.Bytes.{Bytes}
use gobac.Types.GoValue.{object_ref_key, real, date, time}
use gobac.Types.Property.{zero_property}
use gobac.Types.Property.RoundTrip.{property_read}
use gobac.Pdu.Property.{marshal_read_property, unmarshal_read_property}
use gobac.Simulator.Property.{Property, read, effective_values, values_under}
use gobac.Simulator.Object.{Object, local_date, local_time}
use gobac.Simulator.Device.{Device, find_object, read_property}
use gobac.Simulator.Response.{complex_ack}
use gobac.Simulator.SubscribeRequest.{from_object_id}
use gobac.Simulator.Services.Convert.{
  to_object_id, to_property_value, converted, to_property_values,
}
use gobac.Simulator.Services.ReadProperty.{result_property}
use gobac.Simulator.Application.{Runtime, handle_read_property}
use gobac.Simulator.Application.Invariant.{IsApplication}
use gobac.Simulator.Application.Reachable.{
  new_application, run, write_request, subscribe_request, new_application-IsApplication,
}
use gobac.Simulator.Application.Reads.{reference_in, handle_read_property-marshal}
use gobac.Simulator.Application.Writes.{Answers}
use gobac.Simulator.Application.TimeSync.{own_object, handle_time_sync, handle_time_sync-marshal}
use gobac.Prelude.{ℕ, List, Member, ◌↔◌}
use gobac.Simulator.Application.ReadMultiple.{plain_reference}
use gobac.Simulator.Application.ReadMultiple.{
  access_all, expand_property_references, read_all, handle_read_property_multiple,
}
use gobac.Simulator.Application.ReadMultiple.Expansion.{Reads, expand-Reads}
use gobac.Simulator.Application.ReadMultiple.Sorting.{IsAscending}
use gobac.Simulator.Application.ReadMultiple.Answers.{handle_read_property_multiple-marshal}
use gobac.Simulator.Services.ReadMultiple.{ReadAccessSpecification}
use gobac.Pdu.TimeSync.{TimeSyncPdu, marshal_time_sync}
use gobac.Pdu.ReadMultiple.Request.{ReadAccessSpec, marshal_read_multiple}
use gobac.Prelude.{◌&&◌, leb, if◌then◌else◌}
use gobac.Pdu.ReadMultiple.Ack.{decode_values}
use gobac.Simulator.Application.WhoIs.{handle_who_is, identity, i_am_response, handle_who_is-range}
use gobac.Examples.Network.{same_bits}
use gobac.Examples.Properties.{level, level-IsObjectId, one, present-IsProperty, present_request}

-- A clock that advances by a second at each reading.
abbrev runtime : Runtime
runtime = record {
  floats = same_bits;
  tests = record {
    positive = λ x. false;
    apart = λ x y z. false;
    same32 = λ x y. x == y;
    same64 = λ x y. x == y;
  };
  clock = λ n. 1_000_000_000 * n;
  show = λ e. [];
}

-- An analog value with the present value 1.0, which can be written.
abbrev stored : Property
stored = record {
  id = 85;
  values = record { tag = 4; value = real 0x3f80_0000 } ∷ [];
  writable = true;
  array = false;
  cov_increment = 0;
  relinquish_default = none;
  minimum_unsigned = 0;
  maximum_unsigned = 0;
  scalar = true;
  expected_tag = 4;
  priorities = replicate 16 none;
}

abbrev analog : Object
analog = record {
  id = from_object_id level;
  name = [];
  properties = (85, stored) ∷ [];
  out_of_service_flag = false;
}

abbrev device : Device
device = record {
  id = 1001;
  name = [];
  address = [];
  port = 47808;
  vendor_id = 0;
  model_name = [];
  objects = (from_object_id level, analog) ∷ [];
}

handle_read_property-marshal_example :
    (request : Bytes) × (b : Bytes) × (marshal_read_property same_bits present_request ≡ ok request)
    × (handle_read_property same_bits device request ≡ complex_ack b)
    × (unmarshal_read_property present_request b
        ≡ ok (record present_request {
          property =
              property_read zero_property
                (result_property level (reference_in present_request) (one ∷ []))
                (one ∷ [])
                (length b);
        }))
unfolding read_property find_object read effective_values values_under to_property_values
    to_property_value converted lookup instance_number
handle_read_property-marshal_example =
    handle_read_property-marshal same_bits device present_request present_request level (one ∷ [])
      stored.values one [] present-IsProperty refl refl ((refl, omega arith, refl), tt)

-- A subscription to the analog value, a write that notifies its subscriber, and a request that is not well
-- formed.
new_application-IsApplication_example : IsApplication (
    run runtime (new_application device) (
      subscribe_request
        (record { ip = 127 ∷ 0 ∷ 0 ∷ 1 ∷ []; port = 47808; network = 0; mac = [] })
        (0x09 ∷ 1 ∷ 0x1c ∷ 0 ∷ 128 ∷ 0 ∷ 3 ∷ 0x29 ∷ 1 ∷ 0x39 ∷ 60 ∷ [])
      ∷ write_request
          (0x0c ∷ 0 ∷ 128 ∷ 0 ∷ 3 ∷ 0x19 ∷ 85 ∷ 0x3e ∷ 0x44 ∷ 0x40 ∷ 0 ∷ 0 ∷ 0 ∷ 0x3f ∷ [])
      ∷ write_request (0x0c ∷ 0 ∷ [])
      ∷ []))
new_application-IsApplication_example = new_application-IsApplication runtime device (
    subscribe_request (record { ip = 127 ∷ 0 ∷ 0 ∷ 1 ∷ []; port = 47808; network = 0; mac = [] })
      (0x09 ∷ 1 ∷ 0x1c ∷ 0 ∷ 128 ∷ 0 ∷ 3 ∷ 0x29 ∷ 1 ∷ 0x39 ∷ 60 ∷ [])
    ∷ write_request
        (0x0c ∷ 0 ∷ 128 ∷ 0 ∷ 3 ∷ 0x19 ∷ 85 ∷ 0x3e ∷ 0x44 ∷ 0x40 ∷ 0 ∷ 0 ∷ 0 ∷ 0x3f ∷ [])
    ∷ write_request (0x0c ∷ 0 ∷ [])
    ∷ [])

-- A device with its device object.
abbrev clocked : Device
clocked = record device {
  objects =
      (own_object device, record analog { id = own_object device; properties = [] })
      ∷ (from_object_id level, analog)
      ∷ [];
}

abbrev noon : TimeSyncPdu
noon = record {
  date = record { year = 2026; month = 2; day = 3; weekday = 2 };
  time = record { hour = 12; minute = 0; second = 0; hundredths = 0 };
}

handle_time_sync-marshal_example :
    (b : Bytes) × (marshal_time_sync same_bits noon ≡ ok b)
    × (read_property
          (handle_time_sync (new_application clocked) b).device
          (own_object clocked)
          local_date
          none
        ≡ Errors.ok (record { tag = 10; value = date noon.date } ∷ []))
    × (read_property
          (handle_time_sync (new_application clocked) b).device
          (own_object clocked)
          local_time
          none
        ≡ Errors.ok (record { tag = 11; value = time noon.time } ∷ []))
unfolding lookup
handle_time_sync-marshal_example =
    handle_time_sync-marshal same_bits (new_application clocked)
      (record analog { id = own_object device; properties = [] }) noon (omega arith) refl

abbrev all_of_level : ReadAccessSpecification
all_of_level = record {
  object = from_object_id level;
  properties = record { id = 8; array_index = none } ∷ [];
}

-- The status flags, which the object computes.
expand-Reads_example :
    ((ids : List ℕ) × (expand_property_references device all_of_level ≡ map plain_reference ids)
      × IsAscending ids)
    × All (Reads device (from_object_id level)) (expand_property_references device all_of_level)
    × (Member (plain_reference 111) (expand_property_references device all_of_level)
        ↔ Reads device (from_object_id level) (plain_reference 111))
unfolding find_object lookup instance_number
expand-Reads_example = expand-Reads device all_of_level analog 111 refl refl

abbrev present_of_level : ReadAccessSpec
present_of_level = record {
  object_id = some level;
  properties = record { id = 85; index = 0; has_index = false } ∷ [];
}

abbrev answer : Ack.ReadAccessResult
answer = record {
  object_id = some level;
  results =
      record { id = 85; index = 0; has_index = false; values = some (some one ∷ []); error = none }
      ∷ [];
}

abbrev answer_bytes : Bytes
answer_bytes =
    0x0c ∷ 0 ∷ 0x80 ∷ 0 ∷ 3 ∷ 0x1e ∷ 0x29 ∷ 85 ∷ 0x4e ∷ 0x44 ∷ 0x3f ∷ 0x80 ∷ 0 ∷ 0 ∷ 0x4f ∷ 0x1f
    ∷ []

answer-written : marshal_ack same_bits (answer ∷ []) ≡ ok answer_bytes
unfolding marshal_ack marshal_access marshal_result marshal_pointers marshal payload_of
    convert_float32 write_context encode_context_tag ObjectId.marshal marshal_uint32 object_word
    write_constructed_tag instance_number encode_opening_tag encode_closing_tag encode_var_uint
    marshal_index encode_tag marshal_real
answer-written = refl

answer-read :
    client_ack (access_all device (map received_spec (present_of_level ∷ []))) ≡ ok (answer ∷ [])
unfolding client_ack client_results access_all expand_property_references read_all read_property
    find_object lookup read effective_values values_under to_property_values to_property_value
    converted to_object_id set_instance_number instance_number
answer-read = refl

handle_read_property_multiple-marshal_example :
    (request : Bytes) × (marshal_read_multiple (present_of_level ∷ []) ≡ ok request)
    × (handle_read_property_multiple same_bits device request ≡ ok (complex_ack answer_bytes))
unfolding access_all read_all expand_property_references
handle_read_property_multiple-marshal_example =
    handle_read_property_multiple-marshal same_bits device (present_of_level ∷ []) (answer ∷ [])
      answer_bytes (omega arith)
      (((level, refl, level-IsObjectId), omega arith, ((omega arith, omega arith), tt)), tt)
      answer-read (omega arith, tt) answer-written

handle_who_is-range_example :
    (b : Bytes) × (decode_values b ≡ ok (identity device))
    × (handle_who_is same_bits device 47808
          (write_context 0 (encode_var_uint 1000) ++ write_context 1 (encode_var_uint 2000))
        ≡ ok (if leb 1000 1001 && leb 1001 2000 then i_am_response 47808 b ∷ [] else []))
handle_who_is-range_example =
    handle_who_is-range same_bits device 47808 1000 2000 (omega arith) (omega arith) (omega arith)
      (omega arith)
