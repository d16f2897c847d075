-- ===== src/Parser/Word.antt =====
-- The words of the commands.
use gen_os.Common.{ℕ, List, [], ◌∷◌}

abbrev pub help : List ℕ
help = 104 ∷ 101 ∷ 108 ∷ 112 ∷ []

abbrev pub uname : List ℕ
uname = 117 ∷ 110 ∷ 97 ∷ 109 ∷ 101 ∷ []

abbrev pub net : List ℕ
net = 110 ∷ 101 ∷ 116 ∷ []

abbrev pub mem : List ℕ
mem = 109 ∷ 101 ∷ 109 ∷ []

abbrev pub clear : List ℕ
clear = 99 ∷ 108 ∷ 101 ∷ 97 ∷ 114 ∷ []

abbrev pub ls : List ℕ
ls = 108 ∷ 115 ∷ []

abbrev pub ps : List ℕ
ps = 112 ∷ 115 ∷ []

abbrev pub echo : List ℕ
echo = 101 ∷ 99 ∷ 104 ∷ 111 ∷ []

abbrev pub cat : List ℕ
cat = 99 ∷ 97 ∷ 116 ∷ []

abbrev pub stat : List ℕ
stat = 115 ∷ 116 ∷ 97 ∷ 116 ∷ []

abbrev pub touch : List ℕ
touch = 116 ∷ 111 ∷ 117 ∷ 99 ∷ 104 ∷ []

abbrev pub write : List ℕ
write = 119 ∷ 114 ∷ 105 ∷ 116 ∷ 101 ∷ []

abbrev pub append : List ℕ
append = 97 ∷ 112 ∷ 112 ∷ 101 ∷ 110 ∷ 100 ∷ []

abbrev pub mkdir : List ℕ
mkdir = 109 ∷ 107 ∷ 100 ∷ 105 ∷ 114 ∷ []

abbrev pub rm : List ℕ
rm = 114 ∷ 109 ∷ []

abbrev pub run : List ℕ
run = 114 ∷ 117 ∷ 110 ∷ []

abbrev pub kill : List ℕ
kill = 107 ∷ 105 ∷ 108 ∷ 108 ∷ []

abbrev pub wait : List ℕ
wait = 119 ∷ 97 ∷ 105 ∷ 116 ∷ []

abbrev pub init : List ℕ
init = 105 ∷ 110 ∷ 105 ∷ 116 ∷ []

abbrev pub init_hold : List ℕ
init_hold = 105 ∷ 110 ∷ 105 ∷ 116 ∷ 32 ∷ 104 ∷ 111 ∷ 108 ∷ 100 ∷ []
