-- ===== src/Python/Path.antt =====
-- What the tools use of `os.path`.
use sst_sat.Base.{◌++◌, ◌∷◌, ◌||◌, if◌then◌else◌}
use sst_sat.Python.Text.{Text, codes, starts_with, ends_with, null}

-- os.path.join(a, b)
unfoldable pub join_path : Text → Text → Text
join_path a b =
    if starts_with (codes "/") b
    then b
    else if null a || ends_with (codes "/") a
    then a ++ b
    else a ++ (b'/' ∷ b)
