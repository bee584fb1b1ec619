-- ===== src/Lib.antt =====
-- A runner that drives an app-server child process over line-delimited JSON, keeps a journal of what
-- it did, and projects that journal after a restart. Modelled are the parts that decide:
--   * the worker and turn state machine, SessionState in src/state.rs, which also keeps a bounded
--     queue of internal events and is poisoned for good by a call that it refuses;
--   * the JSONL transport, src/jsonl.rs, from the single-byte frame reader up to the three waits:
--     read_next_message, read_until_match, and read_response_dispatching_requests, which hands the
--     server's own requests (approvals) to its caller's handler while a call waits for its response;
--   * the journal, src/journal.rs: its events, the redaction of a payload or a text, and the
--     projection that a startup makes of the rows, with the events that persist_recovery of
--     src/orchestrator.rs then appends.
--   * the runtime owner, OwnerState and owner_loop in src/api.rs: one task that holds all threads,
--     turns and approvals and takes one command at a time. Each turn keeps its last events for
--     subscribers, under a budget of bytes that all turns share; terminal turns are pruned to make
--     room for new ones; an interrupt ends a turn and denies what it still waits for.
--   * the client's policy, src/client.rs: which rate limits admit a turn, which requests for approval
--     are duplicates, what of a request is shown to a reviewer, which requests can be allowed at all,
--     and what an Allow answers.
-- The orchestrator feeds notifications of the transport to the session's methods and to the journal.
-- Here each part is a library of functions and of theorems about them; the calls that a session gets
-- are a list in any order, so are the commands that the owner gets, and the handler of a transport
-- wait is a parameter.
--
-- Which file models what:
--   * Prelude: tests, lists, u64 counters (next_u64 wraps, saturating_add and saturating_sub stop at
--     the ends), results and their monad (Exec), texts (Text), and maps and sets sorted by key (Maps).
--   * Session: SessionState and its methods as functions from a state to a result and a state; the
--     loop of emit is evict, its rest push_internal. Session/Queue, Keeps, Sound, Fields, Machine,
--     Approval, Terminal and Resume hold the proofs, Tests the runs.
--   * Jsonl: the error type, ReaderState as Reader, push_pending and remove_pending. Jsonl/Frame has
--     read_bounded_frame (read_frame), Jsonl/Trim has trim_ascii, Jsonl/Wait the waits. Stream says
--     which messages a reader takes off its bytes, Passed what a wait has read and kept so far.
--     Pending, Turn, Delivery, Raw and Dispatch hold the proofs, Tests the runs.
--   * Json: the variants of serde_json's Value and the readers of it that the sources call.
--   * Journal: the events and their columns. Journal/Recovery has project_recovery and
--     recovery_events (persist_recovery), Journal/Redact redact_value, redact_string and
--     is_sensitive_key. Replay, Settle, Masked, Clean and CleanValue hold the proofs, Tests the runs.
--   * Owner: OwnerState and its records, push_event and its loop, make_room. Owner/Names has the
--     identifiers, Owner/Updates the writes to one record, Owner/Terminal terminalize, Owner/Decide
--     claim_approval and owner_decide, Owner/Admit owner_create_turn with admit_turn and
--     prune_terminal_records, Owner/Interrupt the cancellation of a turn, Owner/Loop the commands
--     (step) and their sequence (run). Turns and Oldest are about the map of turns, Room about the
--     loop of push_event, Replay and Push about the whole of it, Same about what it leaves alone,
--     Settled about approvals at the end of a turn, Once about terminalize, Decided about owner_decide, Pruned, Changes, Admitted, Invariant, Keeps
--     and History about what every command keeps, Liveness about admission; Tests and HistoryTests
--     hold the runs.
--   * Client: Seen has SeenApprovals, Quota rate_limit_windows, credits_available and quota_available,
--     Sanitize sanitize_approval_text, Permissions the validators of a permission profile, Exposed its
--     description, Matrix APPROVAL_SCHEMA_MATRIX, Patch the changes of a patch, Request and Verdict
--     ApprovalDescriptor::from_request by its arms, and approval_response. Handle and Serve have
--     handle_server_request_parts and dispatch_server_request_during_call, which put these together
--     with SessionState. Admission and Capacity are about the quota, Shown about the texts, Token and
--     Hidden about tokens that get past the redaction of a text, Described and Counted about profiles, Exact and Informed about requests that can be allowed, Answered,
--     Served, Backed and Answers about what a request is answered; Tests and RequestTests
--     hold the runs.
--
-- Conventions:
--   * A text is the list of its code points; byte_len counts the bytes of its UTF-8 form. Offsets
--     that the source counts in bytes are positions in the list.
--   * What the child writes is a list of bytes and an ending: closed at end of file, silent where
--     the caller's timeout fires, or broken by a read error. A timeout keeps the bytes of the
--     partial frame, which the reader's state holds.
--   * serde_json is the record JsonLib, without any law: a value has a method and an id or not.
--     Redaction and the client look into values, whose variants are a data type in Json: a number is
--     an integer from 0 or below it, or neither. The bytes that serde_json::to_vec gives for a
--     permission profile are a parameter, of which nothing is assumed.
--   * While a server request is handled others act: the journal, the owner, the writer and the token
--     provider. What each does is a field of World, and what the client hands to them is kept in order
--     in Live. The hasher of approval keys and the text of a value are parameters.
--   * A hash set is the list of its members. A Rust struct that a function changes as it goes is passed
--     from step to step; `descriptor.reviewable &= b` is requires b.
--   * A BTreeMap or BTreeSet is an association list sorted by key. project_recovery works on rows
--     that have been parsed; SQLite is not modelled.
--   * Loops are recursion on their list where they have one. The transport's loops run on fuel, which
--     is enough when it exceeds the bytes at hand (read_raw_message, read_until_match), and for the
--     dispatching wait twice the reader's size and its buffered messages besides. The loops of
--     redact_string run on fuel that is enough beyond the length of the text. A result of none is
--     fuel that ran out. The loop of push_event runs on the number of events that are left, which
--     each round lowers; at zero no turn has an event, which is where the source returns.
--   * The owner's hash map of turns is the list of its records, each with its key; the encoding of an
--     event is a parameter, of which nothing is assumed, as are the payloads; whether the
--     runtime takes a decision in time is a parameter too.
--
-- Not modelled are the child process and its standard error, the writing half of the transport, the
-- HTTP routes, the SSE stream and the authentication of src/api.rs, the RPC calls of src/client.rs,
-- the orchestrator's flow, the configuration's checks, and the SQL tables of the journal: neither
-- append_record, which writes execution_id, turn_id and approval_key as they are beside the redacted
-- payload, nor the names of a payload's fields, which redact_value keeps, are covered by the
-- theorems about redaction. Clocks, threads and the file system are the environment's.
pub mod Prelude
pub mod Json
pub mod Session
pub mod Jsonl
pub mod Journal
pub mod Owner
pub mod Client
