-- ===== src/Main.antt =====
-- file_server/src/server/server.c: a round of the main loop, from `poll` on.
pub mod Connections
pub mod Full
pub mod Waiting
use file_server.Base.{
  ℕ, zero, suc, ◌+◌, ◌-◌, Bool, true, false, not, Option, none, some, List, [], ◌∷◌, ◌++◌, ◌==◌,
  leb, if◌then◌else◌, get_elem?, set,
}
use file_server.Base.Word.{add_word, sub_word, is_negative}
use file_server.Jobs.{IpcMsg, Jobs, assign_job, worker_done}

-- `MAX_CLIENT` and `WTHR_NUM`
abbrev pub max_client : ℕ
max_client = 200

abbrev pub wthr_num : ℕ
wthr_num = 20

-- The clients' part of `fds`, with `none` for -1; how many of its entries are polled, which is
-- `maxidx + 1 - clientidx`; the connections that are counted; the jobs; and the messages that were
-- sent to clients.
pub record Main : Type 0 where
  pub fds : List (Option ℕ)
  pub polled : ℕ
  pub cur_con : ℕ
  pub jobs : Jobs
  pub sent : List IpcMsg

-- What `poll` finds: how many descriptors are ready, whether there is a connection to accept and
-- what `accept` returns for slot `c`, what worker `i` and the event thread wrote to their pipes, and
-- the clients that can be read, with the message of `recv_msg` and what `malloc` returns for its copy
-- and its node.
pub record Poll : Type 0 where
  pub nread : ℕ
  pub listening : Bool
  pub accepts : ℕ → ℕ
  pub workers : ℕ → Option IpcMsg
  pub ethr : Option IpcMsg
  pub clients : ℕ → Option (Option IpcMsg)
  pub pcopy : ℕ → ℕ
  pub pnode : ℕ → ℕ

-- The loop over the slots from `c` on: the slot that took the connection, and the slots. `none` is
-- the end of the loop.
unfoldable pub accept_client : (ℕ → ℕ) → ℕ → List (Option ℕ) → Option (ℕ × List (Option ℕ))
accept_client accepts c [] = none
accept_client accepts c (some fd ∷ fds) = elim (accept_client accepts (c + 1) fds) [
  | none ↦ none
  | some (k, fds') ↦ some (k, some fd ∷ fds')
]
accept_client accepts c (none ∷ fds) =
    let later : Option (ℕ × List (Option ℕ)) = elim (accept_client accepts (c + 1) fds) [
      | none ↦ none
      | some (k, fds') ↦ some (k, none ∷ fds')
    ] in
    if is_negative (accepts c) then later else some (c, some (accepts c) ∷ fds)

-- A worker's answer goes out unless it is NULL.
abbrev pub send_answer : IpcMsg → List IpcMsg → List IpcMsg
send_answer msg sent = if msg.pmsg == 0 then sent else sent ++ (msg ∷ [])

-- The loop over the workers from worker `i` on, for `n` of them, with `nread` descriptors left:
-- `none` is a bad access.
unfoldable pub worker_loop : (ℕ → Option IpcMsg) → ℕ → ℕ → ℕ → Main → Option (ℕ × Main)
worker_loop workers zero i nread m = some (nread, m)
worker_loop workers (suc n) i nread m = elim (workers i) [
  | none ↦ worker_loop workers n (i + 1) nread m
  | some msg ↦ elim (worker_done i m.jobs) [
    | none ↦ none
    | some jobs ↦
        let m' : Main = record m { jobs = jobs; sent = send_answer msg m.sent } in
        elim (leb nread 1) [
          | true ↦ some (0, m')
          | false ↦ worker_loop workers n (i + 1) (nread - 1) m'
        ]
  ]
]

-- A client that can be read: it is gone where `recv_msg` returns NULL, which leaves its descriptor
-- open; or its message becomes a job.
unfoldable pub serve_client : Poll → ℕ → Option IpcMsg → Main → Option Main
serve_client p c none m = some (record m { fds = set m.fds c none; cur_con = sub_word m.cur_con 1 })
serve_client p c (some msg) m = elim (assign_job (p.pcopy c) (p.pnode c) msg m.jobs) [
  | none ↦ none
  | some jobs ↦ some (record m { jobs = jobs })
]

abbrev pub slot_read : Option (Option ℕ) → Option (Option IpcMsg) → Option (Option IpcMsg)
slot_read (some (some fd)) ready = ready
slot_read _ ready = none

-- What can be read from slot `c`, if it has a connection.
abbrev pub readable : Poll → Main → ℕ → Option (Option IpcMsg)
readable p m c = slot_read (get_elem? m.fds c) (p.clients c)

-- The loop over the clients from slot `c` on, for `n` slots. A client that is gone is not counted
-- off `nread`.
unfoldable pub client_loop : Poll → ℕ → ℕ → ℕ → Main → Option Main
unfolding serve_client
client_loop p zero c nread m = some m
client_loop p (suc n) c nread m = elim (readable p m c) [
  | none ↦ client_loop p n (c + 1) nread m
  | some got ↦ elim (serve_client p c got m) [
    | none ↦ none
    | some m' ↦ elim got [
      | none ↦ client_loop p n (c + 1) nread m'
      | some msg ↦ elim (leb nread 1) [
        | true ↦ some m'
        | false ↦ client_loop p n (c + 1) (nread - 1) m'
      ]
    ]
  ]
]

-- The event thread's pipe, then the clients.
unfoldable pub after_workers : Poll → Option (ℕ × Main) → Option Main
unfolding client_loop
after_workers p none = none
after_workers p (some (zero, m)) = some m
after_workers p (some (suc nread, m)) = elim p.ethr [
  | none ↦ client_loop p m.polled 0 (suc nread) m
  | some msg ↦
      let m' : Main = record m { sent = m.sent ++ (msg ∷ []) } in
      elim nread [ zero ↦ some m' | suc left ↦ client_loop p m.polled 0 (suc left) m' ]
]

unfoldable pub after_accept : Poll → ℕ → Main → Option Main
unfolding worker_loop after_workers
after_accept p zero m = some m
after_accept p (suc nread) m = after_workers p (worker_loop p.workers wthr_num 0 (suc nread) m)

-- The connection in slot `k`.
abbrev pub connected : ℕ → List (Option ℕ) → Main → Main
connected k fds m = record m {
  fds = fds;
  cur_con = add_word m.cur_con 1;
  polled = if leb (suc k) m.polled then m.polled else suc k;
}

-- A round of `while(!stop_main_thread)`. Where no slot is free the round ends at once.
unfoldable pub main_round : Poll → Main → Option Main
unfolding accept_client after_accept
main_round p m =
    if p.nread == 0
    then some m
    else if p.listening
    then elim (accept_client p.accepts 0 m.fds) [
      | none ↦ some m
      | some (k, fds) ↦ after_accept p (p.nread - 1) (connected k fds m)
    ]
    else after_accept p p.nread m
