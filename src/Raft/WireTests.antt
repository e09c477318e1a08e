-- ===== src/Raft/WireTests.antt =====
-- Concrete frames, proposals and routing tables.
use hands_on_sqldb_in_cpp.Prelude.{
  ◌<◌, ◌≡◌, ◌≢◌, refl, ap, ◌==◌, true, false, none, some, [], ◌∷◌, arith, u64_mod, ◌%◌,
  if◌then◌else◌,
}
use hands_on_sqldb_in_cpp.Prelude.Order.{Bytes, bytes_lt, bytes_order}
use hands_on_sqldb_in_cpp.Kv.Batch.{
  KeyRange, WriteBatch, effects, make_put, make_remove_range, forward,
}
use hands_on_sqldb_in_cpp.Kv.Iterator.{contains}
use hands_on_sqldb_in_cpp.Raft.Types.{ok, LogEntry, Result, Message, append_entries_request}
use hands_on_sqldb_in_cpp.Raft.Wire.{put_u32, put_u64, put_be, put_bytes}
use hands_on_sqldb_in_cpp.Raft.Codec.{
  put_message, put_entries, put_entry, encode_message, encode_frame, decode_frame, frame_payload,
  FrameDecoder, pending, next,
}
use hands_on_sqldb_in_cpp.Raft.Codec.RoundTrip.{decode_frame-encode_frame}
use hands_on_sqldb_in_cpp.Raft.Codec.Stream.{IsValid, next-frame_payload}
use hands_on_sqldb_in_cpp.Raft.Payload.{
  ProposalPayload, encode_proposal_payload, decode_proposal_payload,
}
use hands_on_sqldb_in_cpp.Raft.Payload.RoundTrip.{
  AllSent, sent_put, sent_remove_range, decode_proposal_payload-encode_proposal_payload,
}
use hands_on_sqldb_in_cpp.Prelude.Decimal.{decimal, all_digits}
use hands_on_sqldb_in_cpp.Raft.Router
use hands_on_sqldb_in_cpp.Prelude.Maps.{find}
use hands_on_sqldb_in_cpp.Raft.StateMachine.{KvStateMachine, apply, applied, find_result}
use hands_on_sqldb_in_cpp.Raft.StateMachine.Once.{apply-apply}
use hands_on_sqldb_in_cpp.Raft.StateMachine.Encoded.{apply-encode_proposal_payload}
use hands_on_sqldb_in_cpp.Raft.Router.{
  check_ranges, check_range, check_ids, is_system_key, starts_with, any_crosses, crosses, lookup,
  ops_group, op_group, find_group, Range, GroupRouter, validate, group_for, group_count,
  range_group, batch_group, group_range,
}
use hands_on_sqldb_in_cpp.Raft.Router.Ranges.{range_group_sound}
use hands_on_sqldb_in_cpp.Raft.Router.Batches.{
  batch_group_sound, group_for-lt-group_count, group_range-exact,
}
use hands_on_sqldb_in_cpp.Raft.Router.Parse.{parse_u64, parse_u64-decimal}

abbrev one_append : Message
one_append = append_entries_request (record {
  term = 4;
  leader_id = 2;
  prev_log_index = 6;
  prev_log_term = 3;
  entries = record { index = 7; term = 4; payload = 9 ∷ 0 ∷ [] } ∷ [];
  leader_commit = 6;
  round = 11;
})

decode_frame-encode_frame_example :
    decode_frame (encode_frame 3 one_append) ≡ ok (record { group_id = 3; message = one_append })
unfolding encode_message put_message put_entries put_entry put_u64 put_be put_bytes
decode_frame-encode_frame_example =
    decode_frame-encode_frame 3 one_append (omega arith)
      (
        omega arith,
        omega arith,
        omega arith,
        omega arith,
        omega arith,
        omega arith,
        omega arith,
        (record { index = omega arith; term = omega arith; payload = omega arith }, tt),
      )
      (omega arith)

abbrev two_frames : FrameDecoder
two_frames = record { buffer = 0 ∷ 0 ∷ 0 ∷ 0 ∷ 0 ∷ 0 ∷ 0 ∷ 1 ∷ 7 ∷ 0 ∷ 0 ∷ []; consumed = 4 }

next-frame_payload_example :
    ((next two_frames).0 ≡ ok (some (7 ∷ [])))
    × (pending (next two_frames).1 ≡ 0 ∷ 0 ∷ [])
    × IsValid (next two_frames).1
unfolding pending frame_payload put_u32 put_be
next-frame_payload_example =
    next-frame_payload two_frames (7 ∷ []) (0 ∷ 0 ∷ []) (omega arith) (omega arith) refl

abbrev two_ops : ProposalPayload
two_ops = record {
  client_id = 5;
  request_id = 6;
  batch = record {
    ops = make_put (1 ∷ []) (2 ∷ []) ∷ make_remove_range (3 ∷ []) (4 ∷ []) ∷ [];
    sync = true;
  };
}

two_ops_sent : AllSent two_ops.batch.ops
unfolding bytes_lt
two_ops_sent = (
  sent_put (1 ∷ []) (2 ∷ []) (omega arith) (omega arith),
  (sent_remove_range (3 ∷ []) (4 ∷ []) (omega arith) (omega arith) refl, tt),
)

decode_proposal_payload-encode_proposal_payload_example :
    decode_proposal_payload (encode_proposal_payload two_ops)
    ≡ ok (record two_ops { batch = record { ops = two_ops.batch.ops; sync = false } })
unfolding bytes_lt
decode_proposal_payload-encode_proposal_payload_example =
    decode_proposal_payload-encode_proposal_payload two_ops (omega arith) (omega arith)
      (omega arith) two_ops_sent

-- An open store without rows, and no request so far.
abbrev fresh_machine : KvStateMachine
fresh_machine = record {
  local = record { rows = []; fail_writes = false; is_open = true; write_owner = none };
  request_results = [];
}

abbrev two_ops_entry : LogEntry
two_ops_entry = record { index = 1; term = 1; payload = encode_proposal_payload two_ops }

apply-encode_proposal_payload_example :
    ((apply two_ops_entry fresh_machine).0 ≡ ok applied)
    × (find (1 ∷ []) (apply two_ops_entry fresh_machine).1.local.rows
        ≡ effects (1 ∷ []) (find (1 ∷ []) fresh_machine.local.rows) two_ops.batch.ops)
unfolding find_result find bytes_lt
apply-encode_proposal_payload_example =
    apply-encode_proposal_payload two_ops two_ops_entry fresh_machine (1 ∷ []) refl (omega arith)
      (omega arith) (omega arith) two_ops_sent refl refl refl tt

abbrev next_machine : KvStateMachine
next_machine = (apply two_ops_entry fresh_machine).1

applied_first : apply two_ops_entry fresh_machine ≡ (ok applied, next_machine)
unfolding find_result find
applied_first =
    ap (λ (r : Result Bytes). (r, next_machine))
      (apply-encode_proposal_payload two_ops two_ops_entry fresh_machine [] refl (omega arith)
        (omega arith) (omega arith) two_ops_sent refl refl refl tt).0

apply-apply_example : apply two_ops_entry next_machine ≡ (ok applied, next_machine)
apply-apply_example = apply-apply two_ops_entry fresh_machine next_machine applied applied_first

-- ["b", "f") belongs to group 1, and ["f", "k") to group 2.
abbrev two_ranges : GroupRouter
two_ranges = record {
  ranges =
      record { start = 98 ∷ []; end = 102 ∷ []; group_id = 1 }
      ∷ record { start = 102 ∷ []; end = 107 ∷ []; group_id = 2 }
      ∷ [];
}

two_ranges-valid : validate two_ranges ≡ none
unfolding validate check_ranges check_range Router.contains check_ids is_system_key starts_with
    bytes_lt
two_ranges-valid = refl

c_to_e : range_group two_ranges (99 ∷ []) (some (101 ∷ [])) ≡ some 1
unfolding range_group any_crosses crosses group_for lookup is_system_key starts_with bytes_lt
c_to_e = refl

range_group_sound_example : group_for two_ranges (100 ∷ []) ≡ 1
unfolding bytes_lt
range_group_sound_example =
    range_group_sound two_ranges (99 ∷ []) (some (101 ∷ [])) 1 (100 ∷ []) two_ranges-valid c_to_e
      refl refl

abbrev one_group : WriteBatch
one_group = record {
  ops = make_put (99 ∷ []) (1 ∷ []) ∷ make_remove_range (98 ∷ []) (101 ∷ []) ∷ [];
  sync = false;
}

one_group-first : batch_group two_ranges one_group ≡ some 1
unfolding batch_group ops_group op_group range_group any_crosses crosses group_for lookup
    is_system_key starts_with bytes_lt
one_group-first = refl

g_in_second : group_for two_ranges (103 ∷ []) ≢ 1
unfolding group_for lookup is_system_key starts_with bytes_lt
g_in_second = omega arith

batch_group_sound_example : effects (103 ∷ []) (some (5 ∷ [])) one_group.ops ≡ some (5 ∷ [])
batch_group_sound_example =
    batch_group_sound two_ranges one_group 1 (103 ∷ []) (some (5 ∷ [])) two_ranges-valid
      one_group-first g_in_second

abbrev second_range : KeyRange
second_range = record {
  start = some (102 ∷ []);
  end = some (107 ∷ []);
  limit = 0;
  direction = forward;
}

second_found : group_range two_ranges 2 ≡ some second_range
unfolding group_range find_group
second_found = refl

group_range-exact_example :
    contains second_range (103 ∷ []) ≡ (group_for two_ranges (103 ∷ []) == 2)
group_range-exact_example =
    group_range-exact two_ranges 2 second_range (103 ∷ []) two_ranges-valid second_found

group_for-lt-group_count_example : group_for two_ranges (103 ∷ []) < group_count two_ranges
group_for-lt-group_count_example =
    group_for-lt-group_count two_ranges (103 ∷ []) (omega arith, (omega arith, tt))

parse_u64-decimal_example :
    parse_u64 (49 ∷ 50 ∷ [])
    ≡ (if all_digits (49 ∷ 50 ∷ []) then some (decimal (49 ∷ 50 ∷ []) % u64_mod) else none)
parse_u64-decimal_example = parse_u64-decimal 49 (50 ∷ [])
