-- ===== src/Fs/Recovery.antt =====
-- kernel/fs.c: the files that a mount finds under reserved names are kept under other names.
use nostalux_os.Base.{
  ℕ, zero, suc, ◌+◌, ◌*◌, ◌/◌, ◌%◌, Bool, true, false, not, ◌&&◌, ◌||◌, Option, none, some, List,
  [], ◌∷◌, ◌++◌, map, leb, ◌==◌, if◌then◌else◌, length, get_or, set,
}
use nostalux_os.Fs.{fs_max_files, fs_max_file_size, File, fs_clear}
use nostalux_os.Fs.Bytes.{bytes_of}
use nostalux_os.Fs.Files.Spec.Rename.{renamed}
use nostalux_os.Fs.Names.{
  fs_is_valid_name, system_log, fs_copy_name, fs_find_mutable, fs_allocate_slot,
  fs_file_is_self_test_artifact,
}
use nostalux_os.Fs.Table.{cleared_file}

unfoldable pub fs_clear_self_test_artifacts : List File → Bool × List File
fs_clear_self_test_artifacts [] = (false, [])
fs_clear_self_test_artifacts (file ∷ files) =
    let (changed, rest) = fs_clear_self_test_artifacts files in
    if fs_file_is_self_test_artifact file
    then (true, fs_clear file ∷ rest)
    else (changed, file ∷ rest)

abbrev pub digits_of_attempt : ℕ → List ℕ
digits_of_attempt attempt =
    (if leb 10 attempt then (48 + attempt / 10 % 10) ∷ [] else []) ++ ((48 + attempt % 10) ∷ [])

-- recovered-fs-test.bin, or with a number behind the name. All are shorter than the array.
unfoldable pub fs_recovered_self_test_name : ℕ → List ℕ
fs_recovered_self_test_name attempt =
    if attempt == 0
    then (114 ∷ 101 ∷ 99 ∷ 111 ∷ 118 ∷ 101 ∷ 114 ∷ 101 ∷ 100 ∷ 45 ∷ 102 ∷ 115 ∷ 45 ∷ 116 ∷ 101 ∷ 115
        ∷ 116 ∷ 46 ∷ 98 ∷ 105 ∷ 110 ∷ [])
    else (114 ∷ 101 ∷ 99 ∷ 111 ∷ 118 ∷ 101 ∷ 114 ∷ 101 ∷ 100 ∷ 45 ∷ 102 ∷ 115 ∷ 45 ∷ 116 ∷ 101 ∷ 115
        ∷ 116 ∷ 45 ∷ [])
      ++ digits_of_attempt attempt
      ++ (46 ∷ 98 ∷ 105 ∷ 110 ∷ [])

-- recovered-system-log.txt, or with a number behind the name.
unfoldable pub fs_recovered_log_name : ℕ → List ℕ
fs_recovered_log_name attempt =
    if attempt == 0
    then (114 ∷ 101 ∷ 99 ∷ 111 ∷ 118 ∷ 101 ∷ 114 ∷ 101 ∷ 100 ∷ 45 ∷ 115 ∷ 121 ∷ 115 ∷ 116 ∷ 101
        ∷ 109 ∷ 45 ∷ 108 ∷ 111 ∷ 103 ∷ 46 ∷ 116 ∷ 120 ∷ 116 ∷ [])
    else (114 ∷ 101 ∷ 99 ∷ 111 ∷ 118 ∷ 101 ∷ 114 ∷ 101 ∷ 100 ∷ 45 ∷ 115 ∷ 121 ∷ 115 ∷ 116 ∷ 101
        ∷ 109 ∷ 45 ∷ 108 ∷ 111 ∷ 103 ∷ 45 ∷ [])
      ++ digits_of_attempt attempt
      ++ (46 ∷ 116 ∷ 120 ∷ 116 ∷ [])

abbrev pub or_next : Option ℕ → List ℕ → Option (List ℕ) → Option (List ℕ)
or_next none candidate rest = some candidate
or_next (some i) candidate rest = rest

-- The loop over the attempts, with `left` to go: the first candidate that no file has.
unfoldable pub free_name : (ℕ → List ℕ) → ℕ → ℕ → List File → Option (List ℕ)
free_name names attempt zero files = none
free_name names attempt (suc left) files =
    or_next (fs_find_mutable files (names attempt)) (names attempt)
      (free_name names (attempt + 1) left files)

abbrev pub renamed_at : ℕ → Option (List ℕ) → List File → Bool × List File
renamed_at i none files = (false, files)
renamed_at i (some name) files =
    (true, set files i (record (get_or files i cleared_file) { name = fs_copy_name name }))

-- The loop over the files, with `left` to go from `i` on.
unfoldable pub quarantine_from : ℕ → ℕ → List File → Bool × List File
quarantine_from zero i files = (false, files)
quarantine_from (suc left) i files =
    let name = free_name fs_recovered_self_test_name 0 (fs_max_files + 1) files in
    let (renamed, files') =
      if fs_file_is_self_test_artifact (get_or files i cleared_file)
      then renamed_at i name files
      else (false, files) in
    let (changed, rest) = quarantine_from left (i + 1) files' in (renamed || changed, rest)

unfoldable pub fs_quarantine_self_test_artifacts : List File → Bool × List File
fs_quarantine_self_test_artifacts files = quarantine_from fs_max_files 0 files

abbrev pub quarantine_log : Option ℕ → List File → Bool × List File
quarantine_log none files = (false, files)
quarantine_log (some i) files =
    renamed_at i (free_name fs_recovered_log_name 0 (fs_max_files + 1) files) files

unfoldable pub fs_quarantine_physical_system_log : List File → Bool × List File
fs_quarantine_physical_system_log files = quarantine_log (fs_find_mutable files system_log) files

abbrev pub seed_at : Option ℕ → File → List ℕ → List File → Bool × List File
seed_at none file contents files = (false, files)
seed_at (some i) file contents files = (true, set files i (record file { contents = contents }))

abbrev pub seed_found : Option ℕ → List ℕ → List ℕ → List File → Bool × List File
seed_found (some i) name contents files =
    seed_at (some i) (get_or files i cleared_file) contents files
seed_found none name contents files =
    seed_at (fs_allocate_slot files)
      (record { in_use = true; name = fs_copy_name name; contents = [] }) contents files

unfoldable pub fs_seed_bytes : List ℕ → List ℕ → List File → Bool × List File
fs_seed_bytes name contents files =
    if not (fs_is_valid_name name) || leb fs_max_file_size (length contents)
    then (false, files)
    else seed_found (fs_find_mutable files name) name contents files

-- A pixel of the default picture, blue first.
unfoldable pub default_pixel : ℕ → ℕ → List ℕ
default_pixel x y =
    let logo = leb 2 y && leb y 14 && ((x == 3) || (x == 13) || (leb y (x + 1) && leb x (y + 1))) in
    let border = (x == 0) || (x == 16) || (y == 0) || (y == 16) in
    if logo
    then 196 ∷ 238 ∷ 86 ∷ []
    else if border
    then 148 ∷ 126 ∷ 36 ∷ []
    else ((58 + (x + y) * 2) % 256) ∷ ((28 + y * 4) % 256) ∷ ((12 + x * 3) % 256) ∷ []

-- A row of the picture from the column `x` on, and its byte of padding.
unfoldable pub default_row : ℕ → ℕ → ℕ → List ℕ
default_row zero x y = 0 ∷ []
default_row (suc left) x y = default_pixel x y ++ default_row left (x + 1) y

-- The rows, the last one first.
unfoldable pub default_rows : ℕ → List ℕ
default_rows zero = []
default_rows (suc y) = default_row 17 0 y ++ default_rows y

unfoldable pub default_bmp : List ℕ
default_bmp =
    (66 ∷ 77 ∷ [])
    ++ bytes_of 938
    ++ bytes_of 0
    ++ bytes_of 54
    ++ bytes_of 40
    ++ bytes_of 17
    ++ bytes_of 17
    ++ (1 ∷ 0 ∷ 24 ∷ 0 ∷ [])
    ++ bytes_of 0
    ++ bytes_of 884
    ++ bytes_of 2835
    ++ bytes_of 2835
    ++ bytes_of 0
    ++ bytes_of 0
    ++ default_rows 17

abbrev pub nostalux_bmp : List ℕ
nostalux_bmp = 110 ∷ 111 ∷ 115 ∷ 116 ∷ 97 ∷ 108 ∷ 117 ∷ 120 ∷ 46 ∷ 98 ∷ 109 ∷ 112 ∷ []

abbrev pub fs_seed_default_bmp : List File → Bool × List File
fs_seed_default_bmp files = fs_seed_bytes nostalux_bmp default_bmp files

abbrev pub readme_name : List ℕ
readme_name = 114 ∷ 101 ∷ 97 ∷ 100 ∷ 109 ∷ 101 ∷ 46 ∷ 116 ∷ 120 ∷ 116 ∷ []

abbrev pub motd_name : List ℕ
motd_name = 109 ∷ 111 ∷ 116 ∷ 100 ∷ 46 ∷ 116 ∷ 120 ∷ 116 ∷ []

abbrev pub colors_name : List ℕ
colors_name = 99 ∷ 111 ∷ 108 ∷ 111 ∷ 114 ∷ 115 ∷ 46 ∷ 109 ∷ 97 ∷ 112 ∷ []

abbrev pub readme_text : List ℕ
readme_text =
    78 ∷ 111 ∷ 115 ∷ 116 ∷ 97 ∷ 108 ∷ 117 ∷ 120 ∷ 79 ∷ 83 ∷ 32 ∷ 105 ∷ 115 ∷ 32 ∷ 97 ∷ 32 ∷ 114
    ∷ 101 ∷ 116 ∷ 114 ∷ 111 ∷ 45 ∷ 116 ∷ 104 ∷ 101 ∷ 109 ∷ 101 ∷ 100 ∷ 32 ∷ 112 ∷ 108 ∷ 97 ∷ 121
    ∷ 103 ∷ 114 ∷ 111 ∷ 117 ∷ 110 ∷ 100 ∷ 32 ∷ 107 ∷ 101 ∷ 114 ∷ 110 ∷ 101 ∷ 108 ∷ 46 ∷ 10 ∷ 85
    ∷ 115 ∷ 101 ∷ 32 ∷ 39 ∷ 104 ∷ 101 ∷ 108 ∷ 112 ∷ 39 ∷ 32 ∷ 116 ∷ 111 ∷ 32 ∷ 101 ∷ 120 ∷ 112 ∷ 108
    ∷ 111 ∷ 114 ∷ 101 ∷ 32 ∷ 116 ∷ 104 ∷ 101 ∷ 32 ∷ 98 ∷ 117 ∷ 105 ∷ 108 ∷ 116 ∷ 45 ∷ 105 ∷ 110 ∷ 32
    ∷ 117 ∷ 116 ∷ 105 ∷ 108 ∷ 105 ∷ 116 ∷ 105 ∷ 101 ∷ 115 ∷ 46 ∷ 10 ∷ []

abbrev pub motd_text : List ℕ
motd_text =
    72 ∷ 111 ∷ 108 ∷ 100 ∷ 32 ∷ 102 ∷ 97 ∷ 115 ∷ 116 ∷ 32 ∷ 116 ∷ 111 ∷ 32 ∷ 99 ∷ 117 ∷ 114 ∷ 105
    ∷ 111 ∷ 115 ∷ 105 ∷ 116 ∷ 121 ∷ 32 ∷ 97 ∷ 110 ∷ 100 ∷ 32 ∷ 107 ∷ 101 ∷ 101 ∷ 112 ∷ 32 ∷ 98 ∷ 117
    ∷ 105 ∷ 108 ∷ 100 ∷ 105 ∷ 110 ∷ 103 ∷ 33 ∷ 10 ∷ 84 ∷ 121 ∷ 112 ∷ 101 ∷ 32 ∷ 39 ∷ 104 ∷ 105 ∷ 115
    ∷ 116 ∷ 111 ∷ 114 ∷ 121 ∷ 39 ∷ 32 ∷ 116 ∷ 111 ∷ 32 ∷ 114 ∷ 101 ∷ 118 ∷ 105 ∷ 115 ∷ 105 ∷ 116
    ∷ 32 ∷ 112 ∷ 114 ∷ 101 ∷ 118 ∷ 105 ∷ 111 ∷ 117 ∷ 115 ∷ 32 ∷ 99 ∷ 111 ∷ 109 ∷ 109 ∷ 97 ∷ 110
    ∷ 100 ∷ 115 ∷ 46 ∷ 10 ∷ []

abbrev pub colors_text : List ℕ
colors_text =
    67 ∷ 111 ∷ 108 ∷ 111 ∷ 114 ∷ 32 ∷ 73 ∷ 68 ∷ 115 ∷ 32 ∷ 48 ∷ 45 ∷ 49 ∷ 53 ∷ 32 ∷ 102 ∷ 111 ∷ 108
    ∷ 108 ∷ 111 ∷ 119 ∷ 32 ∷ 116 ∷ 104 ∷ 101 ∷ 32 ∷ 115 ∷ 116 ∷ 97 ∷ 110 ∷ 100 ∷ 97 ∷ 114 ∷ 100 ∷ 32
    ∷ 73 ∷ 66 ∷ 77 ∷ 32 ∷ 80 ∷ 67 ∷ 32 ∷ 112 ∷ 97 ∷ 108 ∷ 101 ∷ 116 ∷ 116 ∷ 101 ∷ 46 ∷ 10 ∷ 82 ∷ 117
    ∷ 110 ∷ 32 ∷ 39 ∷ 112 ∷ 97 ∷ 108 ∷ 101 ∷ 116 ∷ 116 ∷ 101 ∷ 39 ∷ 32 ∷ 116 ∷ 111 ∷ 32 ∷ 112 ∷ 114
    ∷ 101 ∷ 118 ∷ 105 ∷ 101 ∷ 119 ∷ 32 ∷ 115 ∷ 119 ∷ 97 ∷ 116 ∷ 99 ∷ 104 ∷ 101 ∷ 115 ∷ 46 ∷ 10 ∷ []

-- The clean view of a volume that was not loaded.
unfoldable pub fresh_files : List File → List File
fresh_files files =
    let cleared = map fs_clear files in
    let with_readme = (fs_seed_bytes readme_name readme_text cleared).1 in
    let with_motd = (fs_seed_bytes motd_name motd_text with_readme).1 in
    let with_colors = (fs_seed_bytes colors_name colors_text with_motd).1 in
    (fs_seed_default_bmp with_colors).1
