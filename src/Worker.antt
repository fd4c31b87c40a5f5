-- ===== src/Worker.antt =====
-- file_server/src/server/wthr.c: what a worker thread does with a message, and what the event
-- thread does with a finished transfer.
pub mod Commands
pub mod Transfers
pub mod Dispatch
pub mod Events
pub mod Cycle
pub mod PutRun
pub mod PutCycle
pub mod Threads
use file_server.Base.{
  ℕ, ◌+◌, ◌-◌, Bool, true, false, Option, none, some, List, [], ◌∷◌, ltb, if◌then◌else◌,
}
use file_server.Base.Word.{add_word, sub_word, div_int}
use file_server.Filemeta.{FileInfo, FileList}
use file_server.Msg.{
  Commsg, Datamsg, Msg, command, transfer, blank_command, blank_data, file_stripe, err_unknown,
}

-- An asynchronous transfer that `io_submit` took: which way it goes (`reads` for
-- IO_CMD_PREAD), its descriptor, range, and the reply that goes out when it is finished.
pub record Aio : Type 0 where
  pub reads : Bool
  pub fd : ℕ
  pub len : ℕ
  pub offset : ℕ
  pub answer : Datamsg

-- What the worker threads share: the list of files, and the transfers in the order of submission.
pub record Server : Type 0 where
  pub list : FileList
  pub aios : List Aio

-- What the kernel answers during one message: the descriptor that `open` returns if it is called,
-- and whether the `k`-th `io_submit` takes its transfer.
pub record Kernel : Type 0 where
  pub opened : ℕ
  pub submits : ℕ → Bool

-- A handler's value: a reply to send, NULL, a reply that is sent once the thread has been woken
-- with the lock taken, or an access outside of the array, through NULL or by an unset pointer.
pub data Outcome : Type 0 where
  reply : Msg → Outcome
  no_reply : Outcome
  sleeping : Msg → Outcome
  crash : Outcome

-- `(remain + (FILE_STRIPE-1))/FILE_STRIPE` on `int`s
abbrev pub lock_units : ℕ → ℕ
lock_units remain = div_int (add_word remain (file_stripe - 1)) file_stripe

-- `offset + reqlen > filesize ? filesize - offset : reqlen` on `uint32_t`s
abbrev pub range_remain : ℕ → ℕ → ℕ → ℕ
range_remain filesize offset reqlen =
    if ltb filesize (add_word offset reqlen) then sub_word filesize offset else reqlen

abbrev pub command_reply : ℕ → ℕ → Commsg
command_reply op err = record blank_command {
  hd = record (blank_command.hd) { op = op; err = err };
}

abbrev pub data_reply : ℕ → ℕ → ℕ → Datamsg
data_reply op err sfilefd = record blank_data {
  hd = record (blank_data.hd) { op = op; err = err };
  sfilefd = sfilefd;
}
