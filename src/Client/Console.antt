-- ===== src/Client/Console.antt =====
-- file_server/src/client/client.c: which procedure a command that was typed in leads to.
use file_server.Base.{ℕ, List, [], ◌∷◌, ◌||◌, if◌then◌else◌}
use file_server.Filemeta.{str_eq}

-- The branches of the loop.
pub data Command : Type 0 where
  read : Command
  write : Command
  put : Command
  get : Command
  list : Command
  quit : Command
  invalid : Command

-- "read", "READ" and so on, each with its final 0.
abbrev pub lower_read : List ℕ
lower_read = 114 ∷ 101 ∷ 97 ∷ 100 ∷ 0 ∷ []

abbrev pub upper_read : List ℕ
upper_read = 82 ∷ 69 ∷ 65 ∷ 68 ∷ 0 ∷ []

abbrev pub lower_write : List ℕ
lower_write = 119 ∷ 114 ∷ 105 ∷ 116 ∷ 101 ∷ 0 ∷ []

abbrev pub upper_write : List ℕ
upper_write = 87 ∷ 82 ∷ 73 ∷ 84 ∷ 69 ∷ 0 ∷ []

abbrev pub lower_put : List ℕ
lower_put = 112 ∷ 117 ∷ 116 ∷ 0 ∷ []

abbrev pub upper_put : List ℕ
upper_put = 80 ∷ 85 ∷ 84 ∷ 0 ∷ []

abbrev pub lower_get : List ℕ
lower_get = 103 ∷ 101 ∷ 116 ∷ 0 ∷ []

abbrev pub upper_get : List ℕ
upper_get = 71 ∷ 69 ∷ 84 ∷ 0 ∷ []

abbrev pub lower_list : List ℕ
lower_list = 108 ∷ 105 ∷ 115 ∷ 116 ∷ 0 ∷ []

abbrev pub upper_list : List ℕ
upper_list = 76 ∷ 73 ∷ 83 ∷ 84 ∷ 0 ∷ []

abbrev pub ls : List ℕ
ls = 108 ∷ 115 ∷ 0 ∷ []

abbrev pub lower_q : List ℕ
lower_q = 113 ∷ 0 ∷ []

abbrev pub upper_q : List ℕ
upper_q = 81 ∷ 0 ∷ []

abbrev pub lower_quit : List ℕ
lower_quit = 113 ∷ 117 ∷ 105 ∷ 116 ∷ 0 ∷ []

abbrev pub upper_quit : List ℕ
upper_quit = 81 ∷ 85 ∷ 73 ∷ 84 ∷ 0 ∷ []

-- The chain of `strcmp`s in `main`.
unfoldable pub command_of : List ℕ → Command
unfolding str_eq
command_of c =
    if str_eq c lower_read || str_eq c upper_read
    then read
    else if str_eq c lower_write || str_eq c upper_write
    then write
    else if str_eq c lower_put || str_eq c upper_put
    then put
    else if str_eq c lower_get || str_eq c upper_get
    then get
    else if str_eq c lower_list || str_eq c upper_list || str_eq c ls
    then list
    else if str_eq c lower_q || str_eq c upper_q || str_eq c lower_quit || str_eq c upper_quit
    then quit
    else invalid
