-- ===== src/System.antt =====
-- The client and the server together: the replies as the server's main thread sends them,
-- `send_msg_to_client` of file_server/src/server/server.c, and the data on both sides.
pub mod Replies
pub mod Get
pub mod Put
pub mod Read
pub mod Listing
pub mod Acks
pub mod Puts
use file_server.Base.{
  ℕ, zero, suc, true, not, ◌&&◌, ◌==◌, if◌then◌else◌, Option, none, some, List, [], ◌∷◌, take,
}
use file_server.Filemeta.{FileInfo}
use file_server.Client.Listing.Rows.{infos_bytes}
use file_server.Contents.{slice, store}
use file_server.Sock.{Sock}
use file_server.Msg.{Datamsg, transfer}
use file_server.Msg.Exchange.{Received, send_msg, recv_msg}
use file_server.Worker.{Aio, Outcome, reply, no_reply, sleeping, crash}

-- The main thread gets the finished transfers of a read in the order in which the event thread writes
-- them to its pipe. Each buffer has the bytes of the file that its transfer read.
unfoldable pub send_msg_to_client : (ℕ → ℕ) → Aio → Sock → Sock
send_msg_to_client content a s =
    (send_msg (transfer a.answer) (some (slice content a.offset a.len)) s).2

unfoldable pub send_replies : (ℕ → ℕ) → List Aio → Sock → Sock
unfolding send_msg_to_client
send_replies content [] s = s
send_replies content (a ∷ more) s = send_replies content more (send_msg_to_client content a s)

-- The reply to a command has no stream.
unfoldable pub send_outcome : Outcome → Sock → Sock
send_outcome (reply m) s = (send_msg m none s).2
send_outcome no_reply s = s
send_outcome (sleeping m) s = s
send_outcome crash s = s

-- The answers of the transfers of a write as `send_msg_to_client` sends them: `buflen` is 0, so there
-- is no stream.
unfoldable pub send_answers : List Datamsg → Sock → Sock
send_answers [] s = s
send_answers (d ∷ more) s = send_answers more (send_msg (transfer d) none s).2

-- `recv_msg` in the main thread, for the next `n` messages of a client.
unfoldable pub recv_all : ℕ → Sock → List Received × Sock
recv_all zero s = ([], s)
recv_all (suc n) s = let (r, s1) = recv_msg true s in let (rs, s2) = recv_all n s1 in (r ∷ rs, s2)

-- A data message and its stream.
pub record Incoming : Type 0 where
  pub message : Datamsg
  pub stream : List ℕ

-- A transfer of `put_proc` or `write_proc`, and the buffer that it takes its bytes from, which is the
-- stream of the message.
pub record Store : Type 0 where
  pub transfer : Aio
  pub stream : List ℕ

-- The transfers that the handlers submitted, one for each message, with the messages' streams.
abbrev pub stores : List Aio → List (List ℕ) → List Store
stores (a ∷ taken) (xs ∷ streams) = record { transfer = a; stream = xs } ∷ stores taken streams
stores _ _ = []

-- What the transfers make of the file behind descriptor `fd`, in the order in which they are carried
-- out: a write to that descriptor puts its number of bytes at its offset.
unfoldable pub written : ℕ → List Store → (ℕ → ℕ) → ℕ → ℕ
written fd [] file = file
written fd (x ∷ more) file =
    let after : ℕ → ℕ = store x.transfer.offset (take x.transfer.len x.stream) file in
    written fd more (if not x.transfer.reads && x.transfer.fd == fd then after else file)

-- The reply to the request of a LIST goes out with the files' infos as they are in memory.
unfoldable pub send_listing : Outcome × Option (List FileInfo) → Sock → Sock
send_listing (reply m, some fs) s = (send_msg m (some (infos_bytes fs)) s).2
send_listing _ s = s
