-- ===== src/PathPolicy/Tests.antt =====
-- Runs of the path policy, and the theorem at concrete paths.
use gen_os.Common.{ℕ, ◌≡◌, refl, true, false, some, List, [], ◌∷◌, ◌++◌}
use gen_os.FixedText.{push_str}
use gen_os.PathPolicy.{
  separator, valid_absolute_path, valid_name, split, is_user_writable_path,
  is_user_writable_directory, paths_equal, join_child_path,
}
use gen_os.PathPolicy.Join.{join_child_path-valid}

-- `/user`, `a.b`, `/user/a.b`.
abbrev user_directory : List ℕ
user_directory = 47 ∷ 117 ∷ 115 ∷ 101 ∷ 114 ∷ []

abbrev name : List ℕ
name = 97 ∷ 46 ∷ 98 ∷ []

abbrev child : List ℕ
child = 47 ∷ 117 ∷ 115 ∷ 101 ∷ 114 ∷ 47 ∷ 97 ∷ 46 ∷ 98 ∷ []

joined : join_child_path user_directory name ≡ some child
unfolding join_child_path valid_absolute_path valid_name split push_str
joined = refl

join_child_path-valid_example :
    (child ≡ user_directory ++ separator user_directory ++ name)
    × (valid_absolute_path child ≡ true)
join_child_path-valid_example = join_child_path-valid user_directory name child joined

writable :
    (is_user_writable_path child ≡ true)
    × (is_user_writable_directory user_directory ≡ true)
    × (is_user_writable_path user_directory ≡ false)
unfolding is_user_writable_path is_user_writable_directory valid_absolute_path valid_name split
    paths_equal
writable = (refl, refl, refl)

-- Dots that navigate and doubled slashes are refused.
refused :
    (valid_absolute_path (47 ∷ 46 ∷ 46 ∷ []) ≡ false)
    × (valid_absolute_path (47 ∷ 47 ∷ 97 ∷ []) ≡ false)
unfolding valid_absolute_path valid_name split
refused = (refl, refl)
