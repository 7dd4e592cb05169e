-- ===== src/Fs/Names.antt =====
-- kernel/fs.c: the names that a file may have, and the files of a name.
use nostalux_os.Base.{
  ℕ, ◌+◌, ◌-◌, Bool, true, false, not, ◌&&◌, ◌||◌, Option, none, some, List, [], ◌∷◌, leb, ◌==◌,
  if◌then◌else◌, length, take,
}
use nostalux_os.Fs.{fs_max_filename, File}
use nostalux_os.KString.{kstrcmp}

unfoldable pub valid_from : ℕ → List ℕ → Bool
valid_from length [] = true
valid_from length (c ∷ name) =
    let rest = valid_from (length + 1) name in
    if (c == 32) || (c == 9) || (c == 47) || (c == 92)
    then false
    else if leb fs_max_filename (length + 1)
    then false
    else rest

unfoldable pub fs_is_valid_name : List ℕ → Bool
fs_is_valid_name [] = false
fs_is_valid_name (c ∷ name) = valid_from 0 (c ∷ name)

abbrev pub same_name : List ℕ → List ℕ → Bool
same_name a b = kstrcmp a b == 0

abbrev pub system_log : List ℕ
system_log = 115 ∷ 121 ∷ 115 ∷ 116 ∷ 101 ∷ 109 ∷ 46 ∷ 108 ∷ 111 ∷ 103 ∷ []

abbrev pub self_test_file : List ℕ
self_test_file =
    95 ∷ 95 ∷ 102 ∷ 115 ∷ 95 ∷ 115 ∷ 101 ∷ 108 ∷ 102 ∷ 95 ∷ 116 ∷ 101 ∷ 115 ∷ 116 ∷ 95 ∷ 95 ∷ []

abbrev pub self_renamed_file : List ℕ
self_renamed_file =
    95 ∷ 95 ∷ 102 ∷ 115 ∷ 95 ∷ 115 ∷ 101 ∷ 108 ∷ 102 ∷ 95 ∷ 114 ∷ 101 ∷ 110 ∷ 97 ∷ 109 ∷ 101 ∷ 100
    ∷ 95 ∷ 95 ∷ []

abbrev pub managed_names : List (List ℕ)
managed_names =
    (104 ∷ 101 ∷ 108 ∷ 108 ∷ 111 ∷ 46 ∷ 101 ∷ 108 ∷ 102 ∷ [])
    ∷ (102 ∷ 97 ∷ 117 ∷ 108 ∷ 116 ∷ 45 ∷ 112 ∷ 114 ∷ 111 ∷ 98 ∷ 101 ∷ 46 ∷ 101 ∷ 108 ∷ 102 ∷ [])
    ∷ (104 ∷ 97 ∷ 110 ∷ 103 ∷ 45 ∷ 112 ∷ 114 ∷ 111 ∷ 98 ∷ 101 ∷ 46 ∷ 101 ∷ 108 ∷ 102 ∷ [])
    ∷ (114 ∷ 102 ∷ 108 ∷ 97 ∷ 103 ∷ 115 ∷ 45 ∷ 112 ∷ 114 ∷ 111 ∷ 98 ∷ 101 ∷ 46 ∷ 101 ∷ 108 ∷ 102
        ∷ [])
    ∷ (115 ∷ 116 ∷ 97 ∷ 99 ∷ 107 ∷ 45 ∷ 112 ∷ 114 ∷ 111 ∷ 98 ∷ 101 ∷ 46 ∷ 101 ∷ 108 ∷ 102 ∷ [])
    ∷ (99 ∷ 97 ∷ 108 ∷ 99 ∷ 117 ∷ 108 ∷ 97 ∷ 116 ∷ 111 ∷ 114 ∷ 46 ∷ 101 ∷ 108 ∷ 102 ∷ [])
    ∷ (110 ∷ 111 ∷ 116 ∷ 101 ∷ 112 ∷ 97 ∷ 100 ∷ 46 ∷ 101 ∷ 108 ∷ 102 ∷ [])
    ∷ (105 ∷ 109 ∷ 97 ∷ 103 ∷ 101 ∷ 45 ∷ 118 ∷ 105 ∷ 101 ∷ 119 ∷ 101 ∷ 114 ∷ 46 ∷ 101 ∷ 108 ∷ 102
        ∷ [])
    ∷ (97 ∷ 105 ∷ 45 ∷ 97 ∷ 115 ∷ 115 ∷ 105 ∷ 115 ∷ 116 ∷ 97 ∷ 110 ∷ 116 ∷ 46 ∷ 101 ∷ 108 ∷ 102
        ∷ [])
    ∷ (98 ∷ 114 ∷ 111 ∷ 119 ∷ 115 ∷ 101 ∷ 114 ∷ 46 ∷ 101 ∷ 108 ∷ 102 ∷ [])
    ∷ (115 ∷ 121 ∷ 115 ∷ 116 ∷ 101 ∷ 109 ∷ 45 ∷ 97 ∷ 112 ∷ 112 ∷ 115 ∷ 46 ∷ 100 ∷ 98 ∷ [])
    ∷ []

abbrev pub is_among : List ℕ → List (List ℕ) → Bool
is_among name [] = false
is_among name (n ∷ names) = same_name name n || is_among name names

unfoldable pub fs_name_is_system_managed : List ℕ → Bool
fs_name_is_system_managed name = is_among name managed_names

unfoldable pub fs_name_is_system_log : List ℕ → Bool
fs_name_is_system_log name = same_name name system_log

unfoldable pub fs_name_is_self_test_file : List ℕ → Bool
fs_name_is_self_test_file name = same_name name self_test_file || same_name name self_renamed_file

-- What `fs_copy_name` leaves in the name of a file.
abbrev pub fs_copy_name : List ℕ → List ℕ
fs_copy_name name = take (fs_max_filename - 1) name

-- The index of the first file of a name, from the index `i` on.
unfoldable pub find_from : ℕ → List File → List ℕ → Option ℕ
find_from i [] name = none
find_from i (file ∷ files) name =
    let rest = find_from (i + 1) files name in
    if not file.in_use then rest else if same_name file.name name then some i else rest

abbrev pub fs_find_mutable : List File → List ℕ → Option ℕ
fs_find_mutable files name = find_from 0 files name

unfoldable pub allocate_from : ℕ → List File → Option ℕ
allocate_from i [] = none
allocate_from i (file ∷ files) =
    let rest = allocate_from (i + 1) files in if not file.in_use then some i else rest

abbrev pub fs_allocate_slot : List File → Option ℕ
fs_allocate_slot files = allocate_from 0 files

abbrev pub is_payload : List ℕ → Bool
is_payload (a ∷ b ∷ c ∷ d ∷ []) = (a == 66) && (b == 0) && (c == 77) && (d == 255)
is_payload _ = false

-- A file that a self test has left: its name, its size and its bytes.
unfoldable pub fs_file_is_self_test_artifact : File → Bool
fs_file_is_self_test_artifact file =
    file.in_use && fs_name_is_self_test_file file.name && is_payload file.contents
