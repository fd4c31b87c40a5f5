-- ===== src/System/Listing.antt =====
-- A LIST on both sides: the client's table is the server's list.
use file_server.Base.{ℕ, ◌*◌, some, List}
use file_server.Sock.{Sock}
use file_server.Msg.{err_none, sizeof_file_info}
use file_server.Msg.Exchange.Wire.{payload}
use file_server.Client.{Answer}

-- The reply as the client has it.
abbrev listing_answer : ℕ → List ℕ → Answer
listing_answer n bytes = record {
  err = err_none;
  buflen = n * sizeof_file_info;
  first = some 0;
  second = some 0;
  stream = payload bytes;
}
