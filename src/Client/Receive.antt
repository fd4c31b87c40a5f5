-- ===== src/Client/Receive.antt =====
-- file_server/src/client/client_proc.c: `while (remain > 0)` of `get_proc` and `read_proc`.
pub mod Chunks
pub mod Outgoing
pub mod Places
pub mod Whole
use file_server.Base.{
  ℕ, zero, suc, ◌+◌, Bool, true, false, not, ◌&&◌, ◌||◌, Option, none, some, List, [], ◌==◌, ltb,
  if◌then◌else◌,
}
use file_server.Base.Word.{sub_word, is_positive, is_negative}
use file_server.Contents.{store}
use file_server.Sock.{Sock}
use file_server.Msg.{err_none}
use file_server.Msg.Exchange.{recv_msg}
use file_server.Client.{Answer, Got, null, answer, fault, got_of}
use file_server.Client.Fileio.{AioCalls, FileEnd, aborted, failed, done, write_file}

-- How a procedure ends: at the end of its loop, by `goto exit`, by an `assert` that fails or an
-- access outside of its memory, or, in the model only, with its fuel used up.
pub data Ended : Type 0 where
  finished : Ended
  stopped : Ended
  crashed : Ended
  out_of_fuel : Ended

-- What a round does with a reply: it ends the procedure, or goes on with `remain` bytes to come.
-- Either way it leaves the file or the buffer that the bytes go to.
pub data Stepped : Type 0 where
  over : Ended → (ℕ → ℕ) → Stepped
  again : ℕ → (ℕ → ℕ) → Stepped

-- The loop from its `k`-th round on.
unfoldable pub receive_loop :
    (ℕ → ℕ → Answer → (ℕ → ℕ) → Stepped) → ℕ → ℕ → ℕ → (ℕ → ℕ) → Sock → Ended × (ℕ → ℕ) × Sock
receive_loop round zero k remain bytes s = (out_of_fuel, bytes, s)
receive_loop round (suc fuel) k remain bytes s =
    let (r, s') = recv_msg true s in
    if is_positive remain
    then elim (got_of r) [
      | null ↦ (stopped, bytes, s')
      | fault ↦ (crashed, bytes, s')
      | answer x ↦ elim (round k remain x bytes) [
        | over e bytes' ↦ (e, bytes', s')
        | again remain' bytes' ↦ receive_loop round fuel (k + 1) remain' bytes' s'
      ]
    ]
    else (finished, bytes, s)

-- The stream, of which there is none where `buflen` is not positive.
abbrev pub stream_bytes : Option (List ℕ) → List ℕ
stream_bytes none = []
stream_bytes (some bytes) = bytes

abbrev after_write : ℕ → FileEnd × (ℕ → ℕ) → Stepped
after_write remain (aborted, file) = over crashed file
after_write remain (failed, file) = over stopped file
after_write remain (done, file) = again remain file

-- A round of `get_proc`: the bytes go to the local file. The kernel's answers to the `k`-th
-- `write_file` are `calls k`.
unfoldable pub get_round : (ℕ → AioCalls) → ℕ → ℕ → Answer → (ℕ → ℕ) → Stepped
get_round calls k remain x file =
    if not (x.err == err_none) then over stopped file else elim x.second [
      | none ↦ over crashed file
      | some offset ↦
          after_write (sub_word remain x.buflen)
            (write_file (calls k) (stream_bytes x.stream) x.buflen offset file)
    ]

-- `buf` of `read_proc`: `MAX_READ_BUF_SIZE + 1` bytes
abbrev pub read_buf_size : ℕ
read_buf_size = 100_001

-- `memcpy` of `len` bytes, an `int`, to the buffer from `at` on, an `int` too.
unfoldable pub copy_in : ℕ → ℕ → ℕ → List ℕ → (ℕ → ℕ) → Stepped
copy_in remain at len bytes buf =
    if len == 0
    then again remain buf
    else if is_negative len || is_negative at || ltb read_buf_size (at + len)
    then over crashed buf
    else again (sub_word remain len) (store at bytes buf)

-- A round of `read_proc`: the bytes go to the buffer, by their distance from `fileoffset`.
unfoldable pub read_round : ℕ → ℕ → ℕ → Answer → (ℕ → ℕ) → Stepped
unfolding copy_in
read_round fileoffset k remain x buf =
    if not (x.err == err_none) then over stopped buf else elim x.second [
      | none ↦ over crashed buf
      | some offset ↦
          copy_in remain (sub_word offset fileoffset) x.buflen (stream_bytes x.stream) buf
    ]
