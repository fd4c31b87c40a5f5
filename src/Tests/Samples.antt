-- ===== src/Tests/Samples.antt =====
-- A server with one file of three stripes and 5 bytes, that nobody uses.
use file_server.Base.{
  ◌≡◌, some, ◌≡◌, refl, true, [], ◌∷◌, arith, length, replicate, length-replicate,
}
use file_server.Base.Word.{minus_one}
use file_server.Filemeta.Index.Catalog.{position}
use file_server.Filemeta.{infos, str_eq}
use file_server.Filemeta.{FileInfo, FileMeta, MetaFile, FileList, IsValid}
use file_server.Filemeta.Disk.{zero_meta, listsize}
use file_server.Filemeta.Disk.Restart.{IsSynced}
use file_server.Msg.{Commsg, Datamsg, blank_command, blank_data}
use file_server.Worker.{Server, Kernel}

-- "a.txt"
abbrev pub notes : FileInfo
notes = record {
  filesize = 3_145_733;
  filename = 97 ∷ 46 ∷ 116 ∷ 120 ∷ 116 ∷ 0 ∷ [];
  fileowner = [];
}

-- The same text with other bytes behind it, and "b".
abbrev pub notes_again : FileInfo
notes_again = record {
  filesize = 7;
  filename = 97 ∷ 46 ∷ 116 ∷ 120 ∷ 116 ∷ 0 ∷ 98 ∷ [];
  fileowner = [];
}

abbrev pub other : FileInfo
other = record { filesize = 10; filename = 98 ∷ 0 ∷ []; fileowner = [] }

abbrev pub idle_meta : FileInfo → FileMeta
idle_meta info = record {
  fi = info;
  rcnt = 0;
  wcnt = 0;
  rfd = minus_one;
  wfd = minus_one;
  jobs = [];
  wait_job_cnt = 0;
  timestamp = 0;
}

abbrev pub notes_file : MetaFile
notes_file = record {
  slots = idle_meta notes ∷ replicate 999 zero_meta;
  stored_cnt = 1;
  size = listsize;
}

abbrev pub notes_list : FileList
notes_list = record {
  filearr = idle_meta notes ∷ replicate 999 zero_meta;
  cnt = 1;
  file = notes_file;
}

pub length-slots : (m : FileMeta) → length (m ∷ replicate 999 zero_meta) ≡ 1000
length-slots m = omega (arith, length-replicate 999 zero_meta)

pub notes_list-IsValid : IsValid notes_list
notes_list-IsValid = record {
  slots = omega (arith, length-slots (idle_meta notes));
  within = omega arith;
}

pub notes_list-IsSynced : IsSynced notes_list
notes_list-IsSynced = record {
  whole = omega arith;
  room = omega (arith, length-slots (idle_meta notes));
  count = refl;
  same = refl;
}

abbrev pub notes_server : Server
notes_server = record { list = notes_list; aios = [] }

-- A command about a file, for 2 MB from 1 MB on.
abbrev pub about : FileInfo → Commsg
about info = record blank_command { fi = info; offset = 1_048_576; reqlen = 2_097_152 }

abbrev pub range : Datamsg
range = record blank_data { offset = 1_048_576; reqlen = 2_097_152 }

-- A kernel that opens descriptor 9 and takes every transfer.
abbrev pub willing : Kernel
willing = record { opened = 9; submits = λ j. true }

pub notes_at : position notes.filename (infos notes_list) ≡ some 0
unfolding position str_eq
notes_at = refl
