-- ===== src/Fileops.antt =====
-- internal/fileops/fileops.go
use systats.Prelude.{Bool, false, not, Option, none, some, List, [], ◌∷◌, ◌++◌, if◌then◌else◌}
use systats.Prelude.Text.{Text, codes}
use systats.Go.Os.{Os, DirEntry}
use systats.Go.Outcome.{Outcome, ok, fail, file_not_found, no_dir, no_match}
use systats.Go.Strings.{contains}

abbrev or_empty : Option Text → Text
or_empty (some s) = s
or_empty none = []

unfoldable pub read_file : Os → Text → Text
read_file os path = or_empty (os.read_file path)

abbrev is_not_dir : Option Bool → Bool
is_not_dir none = false
is_not_dir (some d) = not d

unfoldable pub is_file : Os → Text → Bool
is_file os path = is_not_dir (os.stat path)

unfoldable pub read_file_with_error : Os → Text → Outcome Text
unfolding is_file read_file
read_file_with_error os path =
    if is_file os path then ok (read_file os path) else fail (file_not_found path)

find_in : Text → Text → List DirEntry → Outcome Text
find_in dir name [] = fail (no_match name)
find_in dir name (file ∷ files) =
    if contains file.name name then ok (dir ++ (codes "/" ++ file.name)) else find_in dir name files

unfoldable pub find_file_with_name_like : Os → Text → Text → Outcome Text
unfolding find_in contains
find_file_with_name_like os dir name = elim (os.read_dir dir) [
  | none ↦ fail no_dir
  | some files ↦ find_in dir name files
]
