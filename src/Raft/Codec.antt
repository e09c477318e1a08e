-- ===== src/Raft/Codec.antt =====
-- raft/message_codec.h and message_codec.cpp: the wire format of the messages, and the frames of a
-- byte stream. An error message that quotes a number leaves the number out.
pub mod RoundTrip
pub mod Stream
use hands_on_sqldb_in_cpp.Prelude.{
  ℕ, zero, suc, ◌+◌, ◌-◌, ◌==◌, not, Bool, true, false, Option, none, some, List, [], ◌∷◌, ◌++◌,
  ltb, length, take, drop, if◌then◌else◌, u64_mod, ◌%◌,
}
use hands_on_sqldb_in_cpp.Prelude.Order.{Bytes}
use hands_on_sqldb_in_cpp.Raft.Types.{
  Error, Result, ok, err, LogEntry, Message, request_vote_request, request_vote_response,
  append_entries_request, append_entries_response, install_snapshot_request,
  install_snapshot_response,
}
use hands_on_sqldb_in_cpp.Raft.Wire.{
  Reader, bind, ◌>>=◌, pure, reject, invalid, put_u8, put_u32, put_u64, put_bytes, read_u8,
  read_u32, read_u64, read_bytes, read_bool, bool_byte,
}

abbrev pub message_version : ℕ
message_version = 3

abbrev pub max_frame_bytes : ℕ
max_frame_bytes = 67108864

pub record DecodedRaftMessage : Type 0 where
  pub group_id : ℕ
  pub message : Message

unfoldable pub put_entry : LogEntry → Bytes
put_entry e = put_u64 e.index ++ (put_u64 e.term ++ put_bytes e.payload)

unfoldable pub put_entries : List LogEntry → Bytes
unfolding put_entry
put_entries [] = []
put_entries (e ∷ es) = put_entry e ++ put_entries es

-- The type byte and the fields.
unfoldable pub put_message : Message → Bytes
put_message (request_vote_request m) =
    put_u8 1
    ++ (put_u64 m.term
        ++ (put_u64 m.candidate_id ++ (put_u64 m.last_log_index ++ put_u64 m.last_log_term)))
put_message (request_vote_response m) =
    put_u8 2 ++ (put_u64 m.term ++ put_u8 (bool_byte m.vote_granted))
put_message (append_entries_request m) =
    put_u8 3
    ++ (put_u64 m.term
        ++ (put_u64 m.leader_id
            ++ (put_u64 m.prev_log_index
                ++ (put_u64 m.prev_log_term
                    ++ (put_u64 m.leader_commit
                        ++ (put_u64 m.round
                            ++ (put_u64 (length m.entries) ++ put_entries m.entries)))))))
put_message (append_entries_response m) =
    put_u8 4
    ++ (put_u64 m.term
        ++ (put_u8 (bool_byte m.success)
            ++ (put_u64 m.match_index ++ (put_u64 m.round ++ put_u64 m.hint_last_index))))
put_message (install_snapshot_request m) =
    put_u8 5
    ++ (put_u64 m.term
        ++ (put_u64 m.leader_id
            ++ (put_u64 m.last_included_index
                ++ (put_u64 m.last_included_term
                    ++ (put_u64 m.offset
                        ++ (put_u8 (bool_byte m.is_done) ++ put_bytes m.payload))))))
put_message (install_snapshot_response m) =
    put_u8 6 ++ (put_u64 m.term ++ put_u8 (bool_byte m.success))

unfoldable pub encode_message : ℕ → Message → Bytes
encode_message group_id m = put_u8 message_version ++ (put_u64 group_id ++ put_message m)

-- The fields of a message are read one after the other, and a failure of any of them is reported
-- as this error: the source reads on after a failure and then reports the same.
abbrev replace_error {ℓ} : {A : Type ℓ} → Error → Result A → Result A
replace_error e (ok a) = ok a
replace_error e (err e') = err e

abbrev within : {A : Type 0} → Error → Reader A → Reader A
within e r bytes = replace_error e (r bytes)

unfoldable pub read_entry : Reader LogEntry
read_entry = within (invalid "truncated raft message while reading AppendEntriesRequest entry") do
  index ← read_u64
  term ← read_u64
  payload ← read_bytes
  pure (record { index = index; term = term; payload = payload })

unfoldable pub read_log_entries : ℕ → Reader (List LogEntry)
read_log_entries zero = pure []
read_log_entries (suc count) = do
  entry ← read_entry
  entries ← read_log_entries count
  pure (entry ∷ entries)

unfoldable pub read_vote_request : Reader Message
read_vote_request = within (invalid "truncated raft message while reading RequestVoteRequest") do
  term ← read_u64
  candidate_id ← read_u64
  last_log_index ← read_u64
  last_log_term ← read_u64
  pure (
      request_vote_request (record {
        term = term;
        candidate_id = candidate_id;
        last_log_index = last_log_index;
        last_log_term = last_log_term;
      }))

unfoldable pub read_vote_response : Reader Message
read_vote_response = within (invalid "truncated raft message while reading RequestVoteResponse") do
  term ← read_u64
  vote_granted ← read_bool
  pure (request_vote_response (record { term = term; vote_granted = vote_granted }))

-- The fields before the entries, with the number of the entries.
abbrev AppendHead : Type 0
AppendHead = ℕ × ℕ × ℕ × ℕ × ℕ × ℕ × ℕ

unfoldable pub read_append_head : Reader AppendHead
read_append_head = within (invalid "truncated raft message while reading AppendEntriesRequest") do
  term ← read_u64
  leader_id ← read_u64
  prev_log_index ← read_u64
  prev_log_term ← read_u64
  leader_commit ← read_u64
  round ← read_u64
  count ← read_u64
  pure (term, leader_id, prev_log_index, prev_log_term, leader_commit, round, count)

unfoldable pub read_append_request : ℕ → Reader Message
read_append_request payload_size = read_append_head >>= λ h.
    if ltb payload_size h.6
    then reject (invalid "malformed raft message: entry count exceeds payload size")
    else read_log_entries h.6 >>= λ entries. pure (
        append_entries_request (record {
          term = h.0;
          leader_id = h.1;
          prev_log_index = h.2;
          prev_log_term = h.3;
          entries = entries;
          leader_commit = h.4;
          round = h.5;
        }))

unfoldable pub read_append_response : Reader Message
read_append_response =
    within (invalid "truncated raft message while reading AppendEntriesResponse") do
      term ← read_u64
      success ← read_bool
      match_index ← read_u64
      round ← read_u64
      hint_last_index ← read_u64
      pure (
          append_entries_response (record {
            term = term;
            success = success;
            match_index = match_index;
            round = round;
            hint_last_index = hint_last_index;
          }))

unfoldable pub read_snapshot_request : Reader Message
read_snapshot_request =
    within (invalid "truncated raft message while reading InstallSnapshotRequest") do
      term ← read_u64
      leader_id ← read_u64
      last_included_index ← read_u64
      last_included_term ← read_u64
      offset ← read_u64
      is_done ← read_bool
      payload ← read_bytes
      pure (
          install_snapshot_request (record {
            term = term;
            leader_id = leader_id;
            last_included_index = last_included_index;
            last_included_term = last_included_term;
            offset = offset;
            is_done = is_done;
            payload = payload;
          }))

unfoldable pub read_snapshot_response : Reader Message
read_snapshot_response =
    within (invalid "truncated raft message while reading InstallSnapshotResponse") do
      term ← read_u64
      success ← read_bool
      pure (install_snapshot_response (record { term = term; success = success }))

-- The `switch` over the message type.
unfoldable pub read_message : ℕ → ℕ → Reader Message
read_message payload_size type =
    if type == 1
    then read_vote_request
    else if type == 2
    then read_vote_response
    else if type == 3
    then read_append_request payload_size
    else if type == 4
    then read_append_response
    else if type == 5
    then read_snapshot_request
    else if type == 6
    then read_snapshot_response
    else reject (invalid "malformed raft message: unknown message type")

unfoldable pub read_typed : ℕ → Reader Message
read_typed payload_size = read_u8 >>= read_message payload_size

-- `finish`: nothing may be left.
abbrev pub finish_decode : DecodedRaftMessage × Bytes → Result DecodedRaftMessage
finish_decode (m, []) = ok m
finish_decode (m, b ∷ bytes) = err (invalid "malformed raft message: trailing bytes")

abbrev check_version : ℕ → Reader (Unit {0})
check_version version =
    if version == message_version
    then pure tt
    else reject (invalid "malformed raft message: unsupported version")

unfoldable pub read_payload : ℕ → Reader DecodedRaftMessage
read_payload payload_size = do
  version ← read_u8
  checked ← check_version version
  group_id ← read_u64
  message ← read_typed payload_size
  pure (record { group_id = group_id; message = message })

unfoldable pub decode_message : Bytes → Result DecodedRaftMessage
decode_message payload = bind (read_payload (length payload) payload) finish_decode

-- The size is cut to 32 bits.
unfoldable pub frame_payload : Bytes → Bytes
frame_payload payload = put_u32 (length payload) ++ payload

unfoldable pub encode_frame : ℕ → Message → Bytes
encode_frame group_id m = frame_payload (encode_message group_id m)

abbrev check_size : ℕ × Bytes → Result Bytes
check_size (size, rest) =
    if length rest == size
    then ok rest
    else err (invalid "malformed raft message: frame size does not match the bytes of payload")

unfoldable pub unframe_payload : Bytes → Result Bytes
unframe_payload frame = bind (read_u32 frame) check_size

unfoldable pub decode_frame : Bytes → Result DecodedRaftMessage
decode_frame frame = bind (unframe_payload frame) decode_message

pub record FrameDecoder : Type 0 where
  pub buffer : Bytes
  pub consumed : ℕ

unfoldable pub append : Bytes → FrameDecoder → FrameDecoder
append bytes d = record d { buffer = d.buffer ++ bytes }

-- The end of `next`: a buffer that is used up is cleared.
unfoldable pub consume : ℕ → FrameDecoder → FrameDecoder
consume count d =
    if d.consumed + count == length d.buffer
    then record { buffer = []; consumed = 0 }
    else record d { consumed = d.consumed + count }

-- `next` once the size is read: `none` stands for `false`, a frame that is not complete.
unfoldable pub take_frame : ℕ × Bytes → FrameDecoder → Result (Option Bytes) × FrameDecoder
take_frame (size, rest) d =
    if ltb max_frame_bytes size
    then (err (invalid "malformed raft message: frame size exceeds the limit"), d)
    else if ltb (length rest) size
    then (ok none, d)
    else (ok (some (take size rest)), consume (4 + size) d)

abbrev with_size : Result (ℕ × Bytes) → FrameDecoder → Result (Option Bytes) × FrameDecoder
with_size (ok p) d = take_frame p d
with_size (err e) d = (err e, d)

-- The source clears the buffer and leaves `consumed` where it was.
unfoldable pub clear : FrameDecoder → FrameDecoder
clear d = record d { buffer = [] }

unfoldable pub buffered_bytes : FrameDecoder → ℕ
buffered_bytes d = length d.buffer

unfoldable pub pending : FrameDecoder → Bytes
pending d = drop d.consumed d.buffer

-- The output is always given here. `consumed` must not pass the end of the buffer: the source then
-- reads outside of it.
unfoldable pub next : FrameDecoder → Result (Option Bytes) × FrameDecoder
next d = if ltb (length (pending d)) 4 then (ok none, d) else with_size (read_u32 (pending d)) d
