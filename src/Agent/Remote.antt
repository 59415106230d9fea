-- ===== src/Agent/Remote.antt =====
-- pkg/agent/remote: the calls to the other end. Each opens a stream, writes a request and reads what the other
-- end answers to the bytes that were sent. What OpenStreamSync gives and the answers are parameters, and the
-- state is the number of open streams; deadlines and the context of a call are not modelled.
pub mod Listing
use colnk.Common.{
  ℕ, zero, suc, ◌+◌, ◌-◌, ◌^◌, Bytes, [], ◌∷◌, ◌++◌, List, Option, none, some, Bool, true, false,
  not, is_empty, length, if◌then◌else◌, ℤ, pos, negsuc, is_zero, Result, ok, err, bind, or_error,
  Error, remote_error, decode_failed, Outcome, done, failed, Io, ◌>>=◌, ◌>>◌, pure, fail, lift,
  fail_if, codes,
}
use colnk.Protocol.Types.{DirEntry, Request, Response, kind_file, kind_tcp, kind_dns}
use colnk.Protocol.Frame.{Json, Writer}
use colnk.Protocol.Payload.{Flate}
use colnk.Protocol.Message.{write_request, read_response}
use colnk.Protocol.Directory.{decode_dir_entries}

-- `protocol.Request{Kind: …, Operation: …, Path: …, Target: …}`
abbrev pub call_for : Bytes → Bytes → Bytes → Bytes → Request
call_for kind operation path target = record {
  kind = kind;
  operation = operation;
  path = path;
  new_path = [];
  target = target;
  offset = pos 0;
  size = pos 0;
  mode = 0;
  mod_time_ns = pos 0;
  set_mod_time = false;
  sync = false;
  data_length = pos 0;
  data_encoding = [];
  raw_data_length = pos 0;
}

-- `syscall.Errno(response.ErrorCode)`, an unsigned word.
unfoldable pub errno_code : ℤ → ℕ
errno_code (pos n) = n
errno_code (negsuc n) = 2 ^ 64 - 1 - n

-- `if response.ErrorCode != 0 { return …RemoteError… }`
unfoldable pub check_code : {S : Type 0} → Response → Io S (Unit {0})
unfolding errno_code
check_code response =
    fail_if (not (is_zero response.error_code))
      (remote_error (errno_code response.error_code) response.error)

abbrev pub result_of : {S A : Type 0} → Outcome S A → Result A
result_of (done a s) = ok a
result_of (failed e s) = err e

-- The pages of a listing, with a round for each response as fuel.
module _ (f : Flate) (responses : Json Response) (entries : Json (List DirEntry)) where
  -- `if len(payload) > 0`
  unfoldable pub page_entries : Bytes → Result (List DirEntry)
  unfolding decode_dir_entries
  page_entries payload = if is_empty payload then ok [] else decode_dir_entries entries payload

  unfoldable pub read_pages : ℕ → List DirEntry → Io Bytes (List DirEntry)
  unfolding read_response check_code page_entries
  read_pages zero listed = fail decode_failed
  read_pages (suc fuel) listed = do
    answer ← read_response f responses
    check_code answer.0
    page ← lift (page_entries answer.1)
    (let next = read_pages fuel (listed ++ page) in
        if answer.0.more then next else pure (listed ++ page))

module _ (f : Flate) (requests : Json Request) (responses : Json Response)
    (entries : Json (List DirEntry)) (addresses : Json (List Bytes)) (open_stream : Result Writer)
    (answer : Bytes → Bytes) where
  -- The request on the stream, and then the answer to what was sent.
  unfoldable pub exchange : {A : Type 0} → Request → Bytes → Io Bytes A → Writer → Result A
  unfolding write_request
  exchange request content reader w = elim (write_request f requests request content w) [
    | failed e _ ↦ err e
    | done _ w' ↦ result_of (reader (answer w'.written))
  ]

  -- `defer stream.Close()`: a stream that was opened is closed, however the call ends.
  unfoldable pub with_stream : {A : Type 0} → (Writer → Result A) → Io ℕ A
  with_stream body n = elim open_stream [
    | err e ↦ failed e n
    | ok w ↦ elim (body w) [ err e ↦ failed e (n + 1 - 1) | ok a ↦ done a (n + 1 - 1) ]
  ]

  unfoldable pub file : Request → Bytes → Io ℕ (Response × Bytes)
  unfolding with_stream exchange read_response check_code
  file request content = with_stream (
      exchange (record request { kind = kind_file }) content
        (do response ← read_response f responses; check_code response.0; pure response))

  -- As many rounds as there are bytes are enough, since a response has some.
  unfoldable pub read_dir : Bytes → Io ℕ (List DirEntry)
  unfolding with_stream exchange read_pages
  read_dir path = with_stream (
      exchange (call_for kind_file (codes "readdir") path []) []
        (λ incoming. read_pages f responses entries (length incoming + 1) [] incoming))

  unfoldable pub lookup_dns : Bytes → Io ℕ (List Bytes)
  unfolding with_stream exchange read_response check_code
  lookup_dns name = with_stream (
      exchange (call_for kind_dns [] [] name) [] (do
        response ← read_response f responses
        check_code response.0
        lift (or_error (addresses.unmarshal response.1) decode_failed)))

  -- The stream stays open where the call succeeds; the caller closes it.
  unfoldable pub open_tcp : Bytes → Io ℕ (Unit {0})
  unfolding exchange read_response check_code
  open_tcp target n = elim open_stream [
    | err e ↦ failed e n
    | ok w ↦
        elim (exchange (call_for kind_tcp [] [] target) []
          (do response ← read_response f responses; check_code response.0) w) [
            | err e ↦ failed e (n + 1 - 1)
            | ok _ ↦ done tt (n + 1)
          ]
  ]

-- contextStream.Close: the first call stops the context and closes the stream, and any later one does nothing.
-- The state tells whether it ran, the result whether the stream is closed by this call.
unfoldable pub close_once : Bool → Bool × Bool
close_once true = (true, false)
close_once false = (true, true)
