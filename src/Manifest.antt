-- ===== src/Manifest.antt =====
-- kernel/app_manifest.c: the validation of application manifests and the registry of applications. A
-- text in an array of characters is the list of all the characters of the array.
pub mod Strings
pub mod Unique
pub mod Found
mod Examples
use nostalux_os.Base.{
  ℕ, ◌+◌, ◌-◌, ◌^◌, bit_and, Bool, true, false, not, ◌&&◌, ◌||◌, Option, none, some, List, [], ◌∷◌,
  ◌++◌, leb, ◌==◌, if◌then◌else◌, length, get_elem?, get_or, take, drop,
}

-- The loop of `string_is_terminated` from `index` on: the index of the first zero.
unfoldable pub string_is_terminated : List ℕ → ℕ → Option ℕ
string_is_terminated [] index = none
string_is_terminated (c ∷ text) index =
    if c == 0 then some index else string_is_terminated text (index + 1)

-- The arrays are both of the capacity that the code passes, so the first to end ends the loop.
unfoldable pub strings_equal_bounded : List ℕ → List ℕ → Bool
strings_equal_bounded [] second = false
strings_equal_bounded (a ∷ first) [] = false
strings_equal_bounded (a ∷ first) (b ∷ second) =
    let rest = strings_equal_bounded first second in
    if not (a == b) then false else if a == 0 then true else rest

abbrev pub is_lower_letter : ℕ → Bool
is_lower_letter value = leb 97 value && leb value 122

abbrev pub is_digit : ℕ → Bool
is_digit value = leb 48 value && leb value 57

-- A `char` is signed: a byte from 128 on is negative and fails the first test, here it fails the
-- second.
abbrev pub is_printable_ascii : ℕ → Bool
is_printable_ascii value = leb 0x20 value && leb value 0x7e

-- The loops over the first characters of a text, with an early `false`.
abbrev pub each : (ℕ → Bool) → List ℕ → Bool
each test [] = true
each test (c ∷ text) = test c && each test text

abbrev pub char_at : List ℕ → ℕ → ℕ
char_at text i = get_or text i 0

abbrev pub id_char : ℕ → Bool
id_char value = is_lower_letter value || is_digit value || (value == 45) || (value == 95)

unfoldable pub id_is_valid : List ℕ → Bool
id_is_valid id = elim (string_is_terminated id 0) [
  | none ↦ false
  | some length_ ↦
      not (length_ == 0)
      && is_lower_letter (char_at id 0)
      && each id_char (drop 1 (take length_ id))
]

unfoldable pub display_name_is_valid : List ℕ → Bool
display_name_is_valid name = elim (string_is_terminated name 0) [
  | none ↦ false
  | some length_ ↦
      not (length_ == 0)
      && not (char_at name 0 == 32)
      && not (char_at name (length_ - 1) == 32)
      && each is_printable_ascii (take length_ name)
]

abbrev pub executable_char : ℕ → Bool
executable_char value = id_char value || (value == 46)

unfoldable pub executable_is_valid : List ℕ → Bool
executable_is_valid name = elim (string_is_terminated name 0) [
  | none ↦ false
  | some length_ ↦
      not (leb length_ 4)
      && each executable_char (take length_ name)
      && (char_at name (length_ - 4) == 46)
      && (char_at name (length_ - 3) == 101)
      && (char_at name (length_ - 2) == 108)
      && (char_at name (length_ - 1) == 102)
]

unfoldable pub description_is_valid : List ℕ → Bool
description_is_valid text = elim (string_is_terminated text 0) [
  | none ↦ false
  | some length_ ↦ each is_printable_ascii (take length_ text)
]

-- `struct app_manifest`.
pub record AppManifest : Type 0 where
  pub manifest_version : ℕ
  pub abi_version : ℕ
  pub capabilities : ℕ
  pub id : List ℕ
  pub display_name : List ℕ
  pub executable : List ℕ
  pub description : List ℕ

pub data ManifestResult : Type 0 where
  ok invalid_argument unsupported_version unsupported_abi invalid_capability : ManifestResult
  invalid_id invalid_display_name invalid_executable invalid_description : ManifestResult
  duplicate_id duplicate_executable registry_full : ManifestResult

-- `~APP_CAPABILITY_ALL` of a 64-bit word, for the eight capabilities.
abbrev pub unknown_capabilities : ℕ
unknown_capabilities = 2 ^ 64 - 256

abbrev pub registry_capacity : ℕ
registry_capacity = 32

unfoldable pub app_manifest_validate : Option AppManifest → ManifestResult
app_manifest_validate none = invalid_argument
app_manifest_validate (some m) =
    if not (m.manifest_version == 1)
    then unsupported_version
    else if not (m.abi_version == 1)
    then unsupported_abi
    else if not (bit_and m.capabilities unknown_capabilities == 0)
    then invalid_capability
    else if not (id_is_valid m.id)
    then invalid_id
    else if not (display_name_is_valid m.display_name)
    then invalid_display_name
    else if not (executable_is_valid m.executable)
    then invalid_executable
    else if not (description_is_valid m.description)
    then invalid_description
    else ok

-- `g_registry` up to `g_registry_count`; the slots behind are never read.
abbrev pub AppRegistry : Type 0
AppRegistry = List AppManifest

abbrev pub app_registry_reset : AppRegistry → AppRegistry
app_registry_reset r = []

-- The loop over the registered manifests: the first clash.
unfoldable pub find_clash : AppManifest → AppRegistry → Option ManifestResult
find_clash m [] = none
find_clash m (x ∷ r) =
    let rest = find_clash m r in
    if strings_equal_bounded x.id m.id
    then some duplicate_id
    else if strings_equal_bounded x.executable m.executable
    then some duplicate_executable
    else rest

-- `g_registry[g_registry_count] = *manifest` and the new count.
abbrev pub append_manifest : AppRegistry → AppManifest → AppRegistry × ManifestResult
append_manifest r m = (r ++ (m ∷ []), ok)

abbrev pub register_valid : AppRegistry → AppManifest → AppRegistry × ManifestResult
register_valid r m = elim (find_clash m r) [
  | some result ↦ (r, result)
  | none ↦ if leb registry_capacity (length r) then (r, registry_full) else append_manifest r m
]

-- `if (result != APP_MANIFEST_OK) return result;` and the rest.
abbrev pub after_validation :
    AppRegistry → AppManifest → ManifestResult → AppRegistry × ManifestResult
after_validation r m ok = register_valid r m
after_validation r m result = (r, result)

unfoldable pub app_registry_register :
    AppRegistry → Option AppManifest → AppRegistry × ManifestResult
app_registry_register r none = (r, invalid_argument)
app_registry_register r (some m) = after_validation r m (app_manifest_validate (some m))

abbrev pub app_registry_count : AppRegistry → ℕ
app_registry_count r = length r

unfoldable pub app_registry_at : AppRegistry → ℕ → Option AppManifest
app_registry_at r index = get_elem? r index

-- The lookups are given a text; for NULL the code returns NULL.
unfoldable pub app_registry_find_id : AppRegistry → List ℕ → Option AppManifest
app_registry_find_id [] id = none
app_registry_find_id (x ∷ r) id =
    if strings_equal_bounded x.id id then some x else app_registry_find_id r id

unfoldable pub app_registry_find_executable : AppRegistry → List ℕ → Option AppManifest
app_registry_find_executable [] name = none
app_registry_find_executable (x ∷ r) name =
    if strings_equal_bounded x.executable name then some x else app_registry_find_executable r name
