-- ===== src/Vfs/History.antt =====
-- Histories of the file system.
use gen_os.Common.{ℕ, List, [], ◌∷◌}
use gen_os.Vfs.{RamVfs, new, mkdir, touch, write, append, write_at, truncate, remove}
use gen_os.Vfs.Invariant.{IsValid, new-IsValid}
use gen_os.Vfs.Preserve.{
  mkdir-IsValid, touch-IsValid, append-IsValid, truncate-IsValid, remove-IsValid,
}
use gen_os.Vfs.Writes.{write-IsValid}
use gen_os.Vfs.Appends.{write_at-IsValid}

pub data Call : Type 0 where
  makes_directory touches truncates removes : (path : List ℕ) → Call
  writes appends : (path bytes : List ℕ) → Call
  writes_at : (path : List ℕ) (offset : ℕ) (bytes : List ℕ) → Call

abbrev pub step : RamVfs → Call → RamVfs
step v (makes_directory path) = (mkdir v path).1
step v (touches path) = (touch v path).1
step v (truncates path) = (truncate v path).1
step v (removes path) = (remove v path).1
step v (writes path bytes) = (write v path bytes).1
step v (appends path bytes) = (append v path bytes).1
step v (writes_at path offset bytes) = (write_at v path offset bytes).1

unfoldable pub run : RamVfs → List Call → RamVfs
run v [] = v
run v (c ∷ calls) = run (step v c) calls

step-IsValid : (v : RamVfs) (c : Call) → IsValid v → IsValid (step v c)
step-IsValid v (makes_directory path) valid = mkdir-IsValid v path valid
step-IsValid v (touches path) valid = touch-IsValid v path valid
step-IsValid v (truncates path) valid = truncate-IsValid v path valid
step-IsValid v (removes path) valid = remove-IsValid v path valid
step-IsValid v (writes path bytes) valid = write-IsValid v path bytes valid
step-IsValid v (appends path bytes) valid = append-IsValid v path bytes valid
step-IsValid v (writes_at path offset bytes) valid = write_at-IsValid v path offset bytes valid

pub run-IsValid : (v : RamVfs) (calls : List Call) → IsValid v → IsValid (run v calls)
unfolding run
run-IsValid v [] valid = valid
run-IsValid v (c ∷ calls) valid = run-IsValid (step v c) calls (step-IsValid v c valid)

-- After any sequence of calls on a new file system it has at most 32 nodes, each with its array of 512
-- bytes, a length within it and a valid path, and no two of its paths are equal but for case.
pub run-new_valid : (calls : List Call) → IsValid (run new calls)
run-new_valid calls = run-IsValid new calls new-IsValid
