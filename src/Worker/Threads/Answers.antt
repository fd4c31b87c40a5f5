-- ===== src/Worker/Threads/Answers.antt =====
-- How many answers a worker writes.
use file_server.Base.{
  ℕ, zero, suc, ◌+◌, ◌≤◌, ◌<◌, ◌^◌, ◌≡◌, refl, ap, ◌∙◌, true, false, Option, none, some, List, [],
  ◌∷◌, get_elem?,
}
use file_server.Base.Word.{is_negative}
use file_server.Filemeta.{FileMeta, FileList, IsValid, infos}
use file_server.Filemeta.Index.Catalog.{position}
use file_server.Filemeta.Lock.{take_lock, open_fd}
use file_server.Msg.{Commsg, Datamsg, Msg, command, transfer, file_stripe, op_get, op_get_reply}
use file_server.Worker.{Server, Kernel, Outcome, reply, no_reply, lock_units}
use file_server.Worker.Commands.{get_command, sized_reply}
use file_server.Worker.Transfers.{get_data}
use file_server.Worker.Dispatch.{msg_proc, get_proc}
use file_server.Worker.Cycle.{IsIdle, reader, get_cycle}
use file_server.Worker.Threads.{
  PipeAnswer, polling, wthr_round, wthr_main, answer_turn, lock_timeout, timeouts_loop, mthr_round,
}

answered :
    (k : Kernel) (m : Msg) (written : List PipeAnswer) (s : Server) (o : Outcome) (s' : Server)
    → msg_proc k m s ≡ (o, s', none)
    → wthr_round k (some m) written s ≡ answer_turn written o none s'
unfolding wthr_round
answered k m written s o s' e = rw (e, wthr_round) refl

get_command_msg :
    (k : Kernel) (c : Commsg) (s : Server)
    → c.hd.op ≡ op_get
    → msg_proc k (command c) s ≡ ((get_command c s).0, (get_command c s).1, none)
unfolding msg_proc get_proc
get_command_msg k c s e = rw e refl

get_data_msg :
    (k : Kernel) (d : Datamsg) (s : Server)
    → d.hd.op ≡ op_get
    → msg_proc k (transfer d) s ≡ ((get_data k d s).0, (get_data k d s).1, none)
unfolding msg_proc get_proc
get_data_msg k d s e = rw e refl

wthr_main-step :
    (k : Kernel) (m : Msg) (more : List (Kernel × Option Msg)) (written written' : List PipeAnswer)
    (s s' : Server)
    → wthr_round k (some m) written s ≡ polling written' s'
    → wthr_main ((k, some m) ∷ more) written s ≡ wthr_main more written' s'
unfolding wthr_main
wthr_main-step k m more written written' s s' e = rw (e, wthr_main) refl

answer_turn-reply :
    (m : Msg) (s : Server) → answer_turn [] (reply m) none s ≡ polling ((m, none) ∷ []) s
unfolding answer_turn
answer_turn-reply m s = refl

answer_turn-none :
    (written : List PipeAnswer) (s : Server)
    → answer_turn written no_reply none s ≡ polling written s
unfolding answer_turn
answer_turn-none written s = refl

-- Two messages of which the second is answered by NULL.
two_rounds :
    (k k' : Kernel) (m m' a : Msg) (s s' s'' : Server)
    → msg_proc k m s ≡ (reply a, s', none)
    → msg_proc k' m' s' ≡ (no_reply, s'', none)
    → wthr_main ((k, some m) ∷ (k', some m') ∷ []) [] s ≡ polling ((a, none) ∷ []) s''
unfolding wthr_main
two_rounds k k' m m' a s s' s'' e e' =
    wthr_main-step k m ((k', some m') ∷ []) [] ((a, none) ∷ []) s s'
      (answered k m [] s (reply a) s' e ∙ answer_turn-reply a s')
    ∙ wthr_main-step k' m' [] ((a, none) ∷ []) ((a, none) ∷ []) s' s''
        (answered k' m' ((a, none) ∷ []) s' no_reply s'' e' ∙ answer_turn-none ((a, none) ∷ []) s'')

-- A worker writes one answer for the two messages of a GET. Take a list that is well formed, a file
-- of at least one byte and at most 2 GB less a stripe that nobody holds or waits for, a GET command
-- of its name and a GET data message with its index, and a kernel that returns a descriptor and
-- takes every transfer. Then the worker that is handed both polls its pipe again, and all that it
-- has written is the answer to the command, with the index and the size.
pub one_answer_for_two :
    (k k' : Kernel) (c : Commsg) (d : Datamsg) (s : Server) (m : FileMeta)
    → c.hd.op ≡ op_get
    → d.hd.op ≡ op_get
    → IsValid s.list
    → position c.fi.filename (infos s.list) ≡ some d.sfilefd
    → get_elem? s.list.filearr d.sfilefd ≡ some m
    → IsIdle m
    → 0 < m.fi.filesize
    → m.fi.filesize + file_stripe ≤ 2 ^ 31
    → is_negative (open_fd true k'.opened (take_lock (reader (lock_units m.fi.filesize)) m)).0
      ≡ false
    → ((j : ℕ) → k'.submits j ≡ true)
    → (s' : Server) × (wthr_main ((k, some (command c)) ∷ (k', some (transfer d)) ∷ []) [] s
        ≡ polling ((command (sized_reply op_get_reply d.sfilefd m.fi.filesize), none) ∷ []) s')
one_answer_for_two k k' c d s m is_get gets v at e idle p small opens all =
    let (told, whole) = get_cycle k' c d s m v at e idle p small opens all in
    let (_, _, _, silent, _, _, _, _, _, _, _, _) = whole in
    let got = (get_command c s).1 in
    let left = (get_data k' d got).1 in
    (
      left,
      two_rounds k k' (command c) (transfer d)
          (command (sized_reply op_get_reply d.sfilefd m.fi.filesize)) s got left
          (get_command_msg k c s is_get ∙ ap (λ x. (x.0, got, none)) told)
          (get_data_msg k' d got gets ∙ ap (λ o. (o, left, none)) silent),
    )

timeouts_loop-same : (n i : ℕ) (l : FileList) → timeouts_loop n i l ≡ l
unfolding timeouts_loop lock_timeout
timeouts_loop-same zero i l = refl
timeouts_loop-same (suc n) i l = timeouts_loop-same n (i + 1) l

-- The thread that looks for locks to release never releases one.
mthr_round-same : (l : FileList) → mthr_round l ≡ l
unfolding mthr_round
mthr_round-same l = timeouts_loop-same _ 0 l
