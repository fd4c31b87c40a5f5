-- ===== src/Client.antt =====
-- file_server/src/client: what the client reads of the messages that it receives.
pub mod Fileio
pub mod Command
pub mod Receive
pub mod Send
pub mod Procedures
pub mod Listing
pub mod Console
use file_server.Base.{ℕ, Option, none, some, List, map}
use file_server.Msg.{Header, Msg, command, transfer}
use file_server.Msg.Bytes.{read_word}
use file_server.Msg.Exchange.{Received, no_msg, received, untyped, bad_access}

-- A reply through the pointers that the client has. They are to a `commsg_t` or a `datamsg_t`
-- whatever the message is, so its words behind the header are known by their place: `first` is
-- `sfilefd`, and `second` is `fi.filesize` or `offset`. `none` is a word behind the end of the memory.
pub record Answer : Type 0 where
  pub err : ℕ
  pub buflen : ℕ
  pub first : Option ℕ
  pub second : Option ℕ
  pub stream : Option (List ℕ)

-- The value of `recv_msg` for the client: NULL, a reply, or a bad access within `recv_msg`.
pub data Got : Type 0 where
  null : Got
  answer : Answer → Got
  fault : Got

abbrev pub first_word : List ℕ → Option ℕ
first_word bytes = elim (read_word bytes) [ none ↦ none | some (w, rest) ↦ some w ]

abbrev pub second_word : List ℕ → Option ℕ
second_word bytes = elim (read_word bytes) [ none ↦ none | some (w, rest) ↦ first_word rest ]

abbrev answer_with : Header → Option ℕ → Option ℕ → Option (List ℕ) → Got
answer_with h first second buf =
    answer (record { err = h.err; buflen = h.buflen; first = first; second = second; stream = buf })

unfoldable pub got_of : Received → Got
unfolding read_word
got_of no_msg = null
got_of (received (command c) buf) = answer_with c.hd (some c.sfilefd) (some c.fi.filesize) buf
got_of (received (transfer d) buf) = answer_with d.hd (some d.sfilefd) (some d.offset) buf
got_of (untyped h body buf) = answer_with h (first_word body) (second_word body) buf
got_of bad_access = fault
