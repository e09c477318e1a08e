-- ===== src/Raft/Codec/RoundTrip.antt =====
-- A message that is encoded and decoded again is the same message.
use mathlib.Core.List.{append_assoc, append-nil}
use hands_on_sqldb_in_cpp.Prelude.{
  ℕ, ◌<◌, ◌≤◌, ◌≡◌, refl, ap, sym, ◌∙◌, true, false, List, [], ◌∷◌, ◌++◌, arith, ltb, length,
  length-append, u64_mod, ◌^◌, ◌==◌,
}
use hands_on_sqldb_in_cpp.Prelude.Order.{Bytes}
use hands_on_sqldb_in_cpp.Raft.Types.{
  ok, LogEntry, AppendEntriesRequest, Message, request_vote_request, request_vote_response,
  append_entries_request, append_entries_response, install_snapshot_request,
  install_snapshot_response,
}
use hands_on_sqldb_in_cpp.Raft.Wire.{put_u64, put_bytes, read_u64, read_bytes}
use hands_on_sqldb_in_cpp.Raft.Wire.Numbers.{
  read_u8-put_u8, read_u64-put_u64, read_u32-put_u32, read_bytes-put_bytes, read_bool-bool_byte,
  length-put_u64,
}
use hands_on_sqldb_in_cpp.Raft.Codec.{
  put_entry, put_entries, put_message, encode_message, read_entry, read_log_entries,
  read_vote_request, read_vote_response, read_append_head, read_append_request,
  read_append_response, read_snapshot_request, read_snapshot_response, read_message, read_typed,
  read_payload, decode_message, frame_payload, encode_frame, unframe_payload, decode_frame,
  message_version,
}

-- The numbers of a log entry, and the length of its bytes, are 64 bits wide.
pub record EntryFits (e : LogEntry) : Type 0 where
  pub index : e.index < u64_mod
  pub term : e.term < u64_mod
  pub payload : length e.payload < u64_mod

abbrev pub EntriesFit : List LogEntry → Type 0
EntriesFit [] = Unit {0}
EntriesFit (e ∷ es) = EntryFits e × EntriesFit es

-- So are the numbers of a message, and the lengths of what it holds.
abbrev pub Fits : Message → Type 0
Fits (request_vote_request m) =
    (m.term < u64_mod)
    × (m.candidate_id < u64_mod)
    × (m.last_log_index < u64_mod)
    × (m.last_log_term < u64_mod)
Fits (request_vote_response m) = m.term < u64_mod
Fits (append_entries_request m) =
    (m.term < u64_mod)
    × (m.leader_id < u64_mod)
    × (m.prev_log_index < u64_mod)
    × (m.prev_log_term < u64_mod)
    × (m.leader_commit < u64_mod)
    × (m.round < u64_mod)
    × (length m.entries < u64_mod)
    × EntriesFit m.entries
Fits (append_entries_response m) =
    (m.term < u64_mod)
    × (m.match_index < u64_mod)
    × (m.round < u64_mod)
    × (m.hint_last_index < u64_mod)
Fits (install_snapshot_request m) =
    (m.term < u64_mod)
    × (m.leader_id < u64_mod)
    × (m.last_included_index < u64_mod)
    × (m.last_included_term < u64_mod)
    × (m.offset < u64_mod)
    × (length m.payload < u64_mod)
Fits (install_snapshot_response m) = m.term < u64_mod

read_u64_last : (v : ℕ) → v < u64_mod → read_u64 (put_u64 v) ≡ ok (v, [])
read_u64_last v h = ap read_u64 (sym (append-nil (put_u64 v))) ∙ read_u64-put_u64 v [] h

read_bytes_last : (v : Bytes) → length v < u64_mod → read_bytes (put_bytes v) ≡ ok (v, [])
read_bytes_last v h = ap read_bytes (sym (append-nil (put_bytes v))) ∙ read_bytes-put_bytes v [] h

read_entry-put_entry :
    (e : LogEntry) (rest : Bytes) → EntryFits e → read_entry (put_entry e ++ rest) ≡ ok (e, rest)
unfolding read_entry put_entry
read_entry-put_entry e rest f =
    rw
      (
        append_assoc (put_u64 e.index) (put_u64 e.term ++ put_bytes e.payload) rest,
        append_assoc (put_u64 e.term) (put_bytes e.payload) rest,
        read_u64-put_u64 e.index (put_u64 e.term ++ (put_bytes e.payload ++ rest)) f.index,
        read_u64-put_u64 e.term (put_bytes e.payload ++ rest) f.term,
        read_bytes-put_bytes e.payload rest f.payload,
      )
      refl

read_log_entries-put_entries :
    (es : List LogEntry)
    → EntriesFit es
    → read_log_entries (length es) (put_entries es) ≡ ok (es, [])
unfolding read_log_entries put_entries
read_log_entries-put_entries [] f = refl
read_log_entries-put_entries (e ∷ es) f =
    rw (read_entry-put_entry e (put_entries es) f.0, read_log_entries-put_entries es f.1) refl

length-put_entries : (es : List LogEntry) → length es ≤ length (put_entries es)
unfolding put_entries put_entry
length-put_entries [] = omega arith
length-put_entries (e ∷ es) =
    let tail = put_u64 e.term ++ put_bytes e.payload in
    omega (
      arith,
      length-append (put_u64 e.index ++ tail) (put_entries es),
      length-append (put_u64 e.index) tail,
      length-put_u64 e.index,
      length-put_entries es,
    )

entries-le-length :
    (m : AppendEntriesRequest) → length m.entries ≤ length (put_message (append_entries_request m))
unfolding put_message
entries-le-length m =
    let es = put_entries m.entries in
    let a = put_u64 (length m.entries) ++ es in
    let b = put_u64 m.round ++ a in
    let c = put_u64 m.leader_commit ++ b in
    let d = put_u64 m.prev_log_term ++ c in
    let e = put_u64 m.prev_log_index ++ d in
    let f = put_u64 m.leader_id ++ e in
    omega (
      arith,
      length-append (put_u64 m.term) f,
      length-append (put_u64 m.leader_id) e,
      length-append (put_u64 m.prev_log_index) d,
      length-append (put_u64 m.prev_log_term) c,
      length-append (put_u64 m.leader_commit) b,
      length-append (put_u64 m.round) a,
      length-append (put_u64 (length m.entries)) es,
      length-put_entries m.entries,
    )

read_append :
    (m : AppendEntriesRequest) (n : ℕ)
    → Fits (append_entries_request m)
    → ltb n (length m.entries) ≡ false
    → read_append_request n (
        put_u64 m.term
        ++ (put_u64 m.leader_id
            ++ (put_u64 m.prev_log_index
                ++ (put_u64 m.prev_log_term
                    ++ (put_u64 m.leader_commit
                        ++ (put_u64 m.round
                            ++ (put_u64 (length m.entries) ++ put_entries m.entries)))))))
      ≡ ok (append_entries_request m, [])
unfolding read_append_request read_append_head
read_append m n (a, b, c, d, e, f, g, fit) small =
    rw
      (
        read_u64-put_u64 m.term _ a,
        read_u64-put_u64 m.leader_id _ b,
        read_u64-put_u64 m.prev_log_index _ c,
        read_u64-put_u64 m.prev_log_term _ d,
        read_u64-put_u64 m.leader_commit _ e,
        read_u64-put_u64 m.round _ f,
        read_u64-put_u64 (length m.entries) _ g,
        small,
        read_log_entries-put_entries m.entries fit,
      )
      refl

-- The reader of each kind of message reads back what was written after the type byte.
read_typed-put_message :
    (m : Message) (n : ℕ)
    → Fits m
    → length (put_message m) ≤ n
    → read_typed n (put_message m) ≡ ok (m, [])
unfolding read_typed put_message read_message read_vote_request read_vote_response
    read_append_response read_snapshot_request read_snapshot_response
read_typed-put_message (request_vote_request m) n (a, b, c, d) h =
    rw
      (
        read_u8-put_u8 1,
        read_u64-put_u64 m.term _ a,
        read_u64-put_u64 m.candidate_id _ b,
        read_u64-put_u64 m.last_log_index _ c,
        read_u64_last m.last_log_term d,
      )
      refl
read_typed-put_message (request_vote_response m) n a h =
    rw (read_u8-put_u8 2, read_u64-put_u64 m.term _ a, read_bool-bool_byte m.vote_granted) refl
read_typed-put_message (append_entries_request m) n (a, b, c, d, e, f, g, fit) h =
    let k : length m.entries ≤ n = omega (arith, h, entries-le-length m) in
    let small : ltb n (length m.entries) ≡ false = ground arith in
    rw (read_u8-put_u8 3) (read_append m n (a, b, c, d, e, f, g, fit) small)
read_typed-put_message (append_entries_response m) n (a, b, c, d) h =
    rw
      (
        read_u8-put_u8 4,
        read_u64-put_u64 m.term _ a,
        read_bool-bool_byte m.success,
        read_u64-put_u64 m.match_index _ b,
        read_u64-put_u64 m.round _ c,
        read_u64_last m.hint_last_index d,
      )
      refl
read_typed-put_message (install_snapshot_request m) n (a, b, c, d, e, f) h =
    rw
      (
        read_u8-put_u8 5,
        read_u64-put_u64 m.term _ a,
        read_u64-put_u64 m.leader_id _ b,
        read_u64-put_u64 m.last_included_index _ c,
        read_u64-put_u64 m.last_included_term _ d,
        read_u64-put_u64 m.offset _ e,
        read_bool-bool_byte m.is_done,
        read_bytes_last m.payload f,
      )
      refl
read_typed-put_message (install_snapshot_response m) n a h =
    rw (read_u8-put_u8 6, read_u64-put_u64 m.term _ a, read_bool-bool_byte m.success) refl

-- A receiver that decodes an encoded message gets the group and the message back, if the numbers
-- are 64 bits wide.
decode_message-encode_message :
    (group_id : ℕ) (m : Message)
    → group_id < u64_mod
    → Fits m
    → decode_message (encode_message group_id m) ≡ ok (record { group_id = group_id; message = m })
unfolding decode_message encode_message read_payload
decode_message-encode_message group_id m h f =
    let rest = put_u64 group_id ++ put_message m in
    let longer : length (put_message m) ≤ length (message_version ∷ rest) =
      omega (arith, length-append (put_u64 group_id) (put_message m)) in
    rw
      (
        read_u8-put_u8 message_version rest,
        read_u64-put_u64 group_id (put_message m) h,
        read_typed-put_message m (length (message_version ∷ rest)) f longer,
      )
      refl

-- A receiver that decodes the frame of a message, of any kind, gets the group and the message back,
-- if the numbers and lengths in it are 64 bits wide and the length of the payload 32.
pub decode_frame-encode_frame :
    (group_id : ℕ) (m : Message)
    → group_id < u64_mod
    → Fits m
    → length (encode_message group_id m) < 2 ^ 32
    → decode_frame (encode_frame group_id m) ≡ ok (record { group_id = group_id; message = m })
unfolding decode_frame encode_frame unframe_payload frame_payload
decode_frame-encode_frame group_id m h f small =
    let payload = encode_message group_id m in
    let same : (length payload == length payload) ≡ true = ground arith in
    rw
      (
        read_u32-put_u32 (length payload) payload small,
        same,
        decode_message-encode_message group_id m h f,
      )
      refl
