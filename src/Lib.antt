-- ===== src/Lib.antt =====
-- A file server and its client, in C: the server keeps named files, and a client reads, writes,
-- puts, gets and lists them over a connection. Models and proofs of the server, of the messages, of
-- the client, and of both together.
--
-- The parts, and how they work together. The main thread (file_server/src/server/server.c) receives
-- messages and hands them to the worker threads (file_server/src/server/wthr.c), by way of a queue
-- (file_server/src/server/msg_queue.c) where all of them run. A request comes in two phases. A
-- MSG_COMMAND names a file: the handler looks it up in the list of files
-- (file_server/src/server/filemeta.c), takes the file's lock for one unit for each stripe of 1 MB
-- that will be transferred, and answers with the file's index. A MSG_DATA names the index: the
-- handler opens the file and submits asynchronous transfers. The event thread sends the answer of
-- each finished transfer and gives one unit of the lock back. The client
-- (file_server/src/client/client_proc.c) sends the command and then the data or the request for it,
-- and moves its local file through file_server/src/client/fileio.c.
--
-- Which file models which part:
--   Base, Base/*      lists and tests over the native numbers, and the 32-bit integers of C. An `int` is
--                     kept as its bit pattern, so a negative index is a number from 2 ^ 31 on.
--                     Reorder is about lists up to their order
--   Contents          the bytes of a file or a buffer by their position
--   Filemeta          the data of file_server/src/server/filemeta.h and file_server/src/common/fileinfo.h
--   Filemeta/Names    `strcmp` on the arrays of names
--   Filemeta/Index    `add_file_to_list`, `get_file_index_from_list`, `get_filemeta_by_idx`,
--                     `get_file_cnt`; Catalog is the list as its clients see it, Refine and Stable relate
--                     the two
--   Filemeta/Disk     `filelist_init`, `filelist_destory`; Restart is about the meta file
--   Filemeta/Lock     `wait_lock`, `decrease_lock_cnt`, `get_fd_by_fidx`; System is the threads at one
--                     file as a step relation, Batch, Units, Invariant, Wakeup, Orderly,
--                     Exclusion and Stray are about it
--   Sock              `sock_send` and `sock_recv` of file_server/src/common/sock.c
--   Msg               the structures and the byte order of file_server/src/common/msg.h and msg.c;
--                     Bytes is their memory, and Serialize the conversion of their fields
--   Msg/Exchange      `send_msg` and `recv_msg`
--   Worker            the state and the outcomes of file_server/src/server/wthr.c
--   Worker/Commands   the MSG_COMMAND branches of the handlers
--   Worker/Transfers  the MSG_DATA branches of READ, WRITE, PUT and GET
--   Worker/Dispatch   the five handlers, LIST's data branch, and `msg_proc`
--   Worker/Events     the event thread's loop; Worker/Cycle and Worker/PutCycle (by
--                     way of Worker/PutRun) join a command, its
--                     data and its events; Worker/Threads is `wthr_main`, and `mthr_main` with
--                     `lock_timeout` and `release_lock` of file_server/src/server/filemeta.c
--   Queue             the queue of jobs, file_server/src/server/msg_queue.c, as nodes in a heap
--   Jobs              `assign_job`, `get_new_job` and the answer of a worker, of
--                     file_server/src/server/server.c
--   Main              the rounds of the main loop of file_server/src/server/server.c
--   Client            what the client reads of a reply; Client/Fileio is `read_file` and `write_file`
--                     of file_server/src/client/fileio.c, Client/Command the loop over the attempts,
--                     Client/Receive the loops of `get_proc` and `read_proc`, Client/Send those of
--                     `put_proc` and `write_proc`, Client/Procedures the four procedures and the quoted
--                     input of a WRITE, Client/Listing `list_proc`, all of
--                     file_server/src/client/client_proc.c; Client/Console the choice of the procedure
--                     in file_server/src/client/client.c
--   System            the replies as `send_msg_to_client` sends them, and GET, PUT, READ and LIST from
--                     the client's procedure to the server's handlers and back
--   Tests             runs on concrete states
--
-- State and operations. What a thread does while it holds a mutex is one function from the state to
-- the state. `pthread_cond_wait` cuts `wait_lock` in two: `park` before it and `take_lock` after
-- it, and the handler's value is then `sleeping`. An access outside of the array or through NULL is
-- a value of its own, `crash`, `none` or `bad_access`, and is not followed further. The kernel's
-- answers are parameters: how much each `read` and `write` moves, what `open` returns, whether
-- `io_submit` takes a transfer, what `io_getevents` reports, and what `poll` finds. A transfer that
-- `io_submit` took is carried out as it was prepared. The steps at a file's lock have no condition on
-- the callers; a theorem that needs one counts what the callers hold beside the steps, and says so. A connection's incoming bytes are given in
-- advance, so that a theorem about both sides says what each makes of the bytes that the other sends.
--
-- Bounds and fuel. Sizes, offsets and counters are 32-bit words and wrap round. The array has 1000
-- slots, of which the code uses 999. The loop over the stripes runs on `rounds` rounds, one for
-- each whole stripe, one for the last and one for the test. The loops of the sockets run over the
-- kernel's list of answers, and end where it is used up, as for an error. The loop of
-- `queue_destroy` runs on fuel, of which one round for each node and one for the test are enough. The
-- receiving loops of the client run on one round more than there are bytes to come, which are enough
-- as each reply takes its header; those of WRITE run on the rounds of the stripes.
-- The layout of the structures is that of x86-64: 496 bytes for a slot, 436 for a command, 32 for a
-- data message.
--
-- Not modelled: the set-up and the end of both programs, with the creation of threads and the
-- opening of connections; a `poll` that fails; the log; a failure of `malloc`; a
-- transfer that fails after it was taken, which neither side looks at; the memory behind an array of
-- a name that has no terminator, into which `strcmp` reads on; the race of the event thread with the
-- main thread on a reply that it has written, whose index it reads afterwards; the pointer `buf` of
-- a reply without a stream, which the code leaves unset; and the client's terminal, which is `scanf`, the progress display, and
-- the blanks of the table.
pub mod Base
pub mod Contents
pub mod Client
pub mod Filemeta
pub mod Sock
pub mod Msg
pub mod Worker
pub mod Queue
pub mod Jobs
pub mod Main
pub mod System
mod Tests
