-- ===== src/Vfs/Tests.antt =====
-- Runs of the file system, and the theorems at concrete states.
use gen_os.Common.{ℕ, ◌≡◌, refl, false, some, none, List, [], ◌∷◌, ◌++◌}
use gen_os.FixedText.{from_str, push_str}
use gen_os.PathPolicy.{root, valid_absolute_path, valid_name, split, paths_equal}
use gen_os.Vfs.{
  RamVfs, file, new, find_index, find, write_bytes, write_data, rfind_slash, check_parent,
  insert_error, insert, mkdir, write, append_at, append, read, ok,
}
use gen_os.Vfs.Lookup.{lookup}
use gen_os.Vfs.Invariant.{IsValid, new-IsValid}
use gen_os.Vfs.Preserve.{mkdir-IsValid}
use gen_os.Vfs.Writes.{write-IsValid, write-lookup}
use gen_os.Vfs.Appends.{append-lookup}
use gen_os.Vfs.History.{makes_directory, writes, appends, removes, run, run-new_valid}

-- `/a` and `/A`.
abbrev low : List ℕ
low = 47 ∷ 97 ∷ []

abbrev high : List ℕ
high = 47 ∷ 65 ∷ []

abbrev rooted : RamVfs
rooted = (mkdir new root).1

abbrev written : RamVfs
written = (write rooted low (1 ∷ 2 ∷ [])).1

rooted-IsValid : IsValid rooted
rooted-IsValid = mkdir-IsValid new root new-IsValid

written-IsValid : IsValid written
written-IsValid = write-IsValid rooted low (1 ∷ 2 ∷ []) rooted-IsValid

accepted : write rooted low (1 ∷ 2 ∷ []) ≡ (none, written)
unfolding write mkdir new insert insert_error find find_index check_parent rfind_slash write_data
    write_bytes valid_absolute_path valid_name split paths_equal from_str push_str
accepted = refl

write-lookup_example :
    (lookup written low ≡ some (file, 1 ∷ 2 ∷ []))
    × ((other : List ℕ)
        → paths_equal low other ≡ false
        → lookup written other ≡ lookup rooted other)
write-lookup_example = write-lookup rooted written low (1 ∷ 2 ∷ []) rooted-IsValid accepted

abbrev longer : RamVfs
longer = (append written low (3 ∷ [])).1

appended : append written low (3 ∷ []) ≡ (none, longer)
unfolding append append_at write mkdir new insert insert_error find find_index check_parent
    rfind_slash write_data write_bytes valid_absolute_path valid_name split paths_equal from_str
    push_str
appended = refl

append-lookup_example :
    (lookup longer low ≡ some (file, (1 ∷ 2 ∷ []) ++ (3 ∷ [])))
    × ((other : List ℕ)
        → paths_equal low other ≡ false
        → lookup longer other ≡ lookup written other)
append-lookup_example =
    append-lookup written longer low (1 ∷ 2 ∷ []) (3 ∷ []) written-IsValid write-lookup_example.0
      appended

run-new_valid_example : IsValid (
    run new (makes_directory root ∷ writes low (1 ∷ []) ∷ appends high (2 ∷ []) ∷ removes low ∷ []))
run-new_valid_example =
    run-new_valid
      (makes_directory root ∷ writes low (1 ∷ []) ∷ appends high (2 ∷ []) ∷ removes low ∷ [])

-- The other case names the same file, and the root is not removed while it is not empty.
same_file : read written high ≡ ok (1 ∷ 2 ∷ [])
unfolding read write mkdir new insert insert_error find find_index check_parent rfind_slash
    write_data write_bytes valid_absolute_path valid_name split paths_equal from_str push_str
same_file = refl
