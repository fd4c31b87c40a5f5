-- ===== src/Sock.antt =====
-- file_server/src/common/sock.c: `sock_send` and `sock_recv`, the loops over partial transfers.
pub mod Transfer
use Prim.Native.Nat.{min}
use file_server.Base.{ℕ, ◌-◌, List, [], ◌∷◌, ◌++◌, ◌==◌, if◌then◌else◌, length, take, drop}
use file_server.Base.Word.{is_negative}

-- One end of a connection: the bytes that will come in and those that went out. The kernel decides
-- how much each `read` and `write` moves: the next number of its list at most, and nothing, as for
-- an error or a closed peer, where that is 0 or the list is used up.
pub record Sock : Type 0 where
  pub incoming : List ℕ
  pub outgoing : List ℕ
  pub reads : List ℕ
  pub writes : List ℕ

-- What a loop moved, the kernel's answers that are left, and the bytes that are left.
pub record Moved : Type 0 where
  pub moved : List ℕ
  pub answers : List ℕ
  pub rest : List ℕ

-- `while (remain > 0 && (len = read(…, remain)) > 0)` over the answers; `write` moves bytes of the
-- buffer in the same way.
unfoldable pub move_loop : List ℕ → ℕ → List ℕ → Moved
move_loop [] remain bytes = record { moved = []; answers = []; rest = bytes }
move_loop (c ∷ cs) remain bytes =
    let len : ℕ = min c (min remain (length bytes)) in
    let more : Moved = move_loop cs (remain - len) (drop len bytes) in
    if remain == 0
    then record { moved = []; answers = c ∷ cs; rest = bytes }
    else if len == 0
    then record { moved = []; answers = cs; rest = bytes }
    else record { moved = take len bytes ++ more.moved; answers = more.answers; rest = more.rest }

-- `int remain = size`: nothing is asked for where that is negative.
abbrev pub to_move : ℕ → ℕ
to_move size = if is_negative size then 0 else size

-- `sock_recv` with the bytes that it stores; its value is their number.
unfoldable pub sock_recv : ℕ → Sock → List ℕ × Sock
unfolding move_loop
sock_recv size s =
    let m : Moved = move_loop s.reads (to_move size) s.incoming in
    (m.moved, record s { reads = m.answers; incoming = m.rest })

-- `sock_send` of the first `size` bytes at `buf`; its value is the number of bytes sent.
unfoldable pub sock_send : List ℕ → ℕ → Sock → ℕ × Sock
unfolding move_loop
sock_send buf size s =
    let m : Moved = move_loop s.writes (to_move size) (take (to_move size) buf) in
    (length m.moved, record s { writes = m.answers; outgoing = s.outgoing ++ m.moved })
