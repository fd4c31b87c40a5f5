-- ===== src/Filemeta/Lock/Stray.antt =====
-- A unit that is given back without having been taken, as by a data message without a command.
use file_server.Base.{ℕ, true, false}
use file_server.Filemeta.{WaitJob}

abbrev reader : WaitJob
reader = record { read = true; cnt = 1 }

abbrev writer : ℕ → WaitJob
writer n = record { read = false; cnt = n }
