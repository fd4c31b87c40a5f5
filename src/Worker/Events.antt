-- ===== src/Worker/Events.antt =====
-- file_server/src/server/wthr.c: `ethr_main`, on the transfers that `io_getevents` reports.
pub mod Release
use file_server.Base.{ℕ, Bool, true, false, Option, none, some, List, [], ◌∷◌, ◌++◌}
use file_server.Filemeta.{WaitJob, FileList}
use file_server.Filemeta.Lock.{decrease_lock_cnt}
use file_server.Msg.{Datamsg}
use file_server.Worker.{Aio}

-- What a round leaves: the list of files, the replies written to the main thread, in order, and the
-- jobs that were signalled.
pub record Round : Type 0 where
  pub list : FileList
  pub replies : List Datamsg
  pub woken : List WaitJob

-- The loop over the events: each reply is written first, then a unit of the file's lock is given
-- back. The file and its index are those of the reply as it was written; the code reads the index
-- afterwards, from memory that the main thread may have converted and freed. `none` is an access outside of the array. The two opcodes are the only ones submitted.
unfoldable pub events_loop : List Aio → Round → Option Round
events_loop [] r = some r
events_loop (a ∷ more) r = elim (decrease_lock_cnt a.answer.sfilefd a.reads r.list) [
  | none ↦ none
  | some (l, woken) ↦
      events_loop more
        (record { list = l; replies = r.replies ++ (a.answer ∷ []); woken = r.woken ++ woken })
]
