-- ===== src/Manifest/Examples.antt =====
-- The application registry with two manifests. The texts are "calc", "Calc", "calc.elf", "" and
-- "edit", "Edit", "edit.elf", "".
use nostalux_os.Base.{◌≡◌, refl, ◌≢◌, ◌↔◌, some, [], ◌∷◌, ◌++◌, arith, replicate}
use nostalux_os.Manifest.{
  string_is_terminated, strings_equal_bounded, id_is_valid, display_name_is_valid,
  executable_is_valid, description_is_valid, AppManifest, ok, duplicate_id, app_manifest_validate,
  AppRegistry, find_clash, app_registry_register, app_registry_at, app_registry_find_id,
  app_registry_find_executable,
}
use nostalux_os.Manifest.Found.{app_registry_find-at}
use nostalux_os.Manifest.Unique.{Distinct, IsRegistry, Joins, app_registry_register-Joins}

abbrev calc : AppManifest
calc = record {
  manifest_version = 1;
  abi_version = 1;
  capabilities = 33;
  id = 99 ∷ 97 ∷ 108 ∷ 99 ∷ replicate 28 0;
  display_name = 67 ∷ 97 ∷ 108 ∷ 99 ∷ replicate 44 0;
  executable = 99 ∷ 97 ∷ 108 ∷ 99 ∷ 46 ∷ 101 ∷ 108 ∷ 102 ∷ replicate 24 0;
  description = replicate 96 0;
}

abbrev edit : AppManifest
edit = record {
  manifest_version = 1;
  abi_version = 1;
  capabilities = 12;
  id = 101 ∷ 100 ∷ 105 ∷ 116 ∷ replicate 28 0;
  display_name = 69 ∷ 100 ∷ 105 ∷ 116 ∷ replicate 44 0;
  executable = 101 ∷ 100 ∷ 105 ∷ 116 ∷ 46 ∷ 101 ∷ 108 ∷ 102 ∷ replicate 24 0;
  description = replicate 96 0;
}

calc-ok : app_manifest_validate (some calc) ≡ ok
unfolding app_manifest_validate id_is_valid display_name_is_valid executable_is_valid
    description_is_valid string_is_terminated
calc-ok = refl

edit-ok : app_manifest_validate (some edit) ≡ ok
unfolding app_manifest_validate id_is_valid display_name_is_valid executable_is_valid
    description_is_valid string_is_terminated
edit-ok = refl

calc-Distinct : Distinct calc edit
unfolding strings_equal_bounded
calc-Distinct = (refl, refl)

abbrev both : AppRegistry
both = calc ∷ edit ∷ []

both-IsRegistry : IsRegistry both
both-IsRegistry = record {
  accepted = (calc-ok, (edit-ok, tt));
  distinct = ((calc-Distinct, tt), (tt, tt));
  fits = omega arith;
}

duplicate : (app_registry_register both (some calc)).1 ≡ duplicate_id
unfolding app_registry_register find_clash strings_equal_bounded app_manifest_validate id_is_valid
    display_name_is_valid executable_is_valid description_is_valid string_is_terminated
duplicate = refl

app_registry_register-Joins_example :
    ((app_registry_register both (some calc)).1 ≡ ok ↔ Joins both calc)
    × ((app_registry_register both (some calc)).1 ≡ ok
        → (app_registry_register both (some calc)).0 ≡ both ++ (calc ∷ []))
    × ((app_registry_register both (some calc)).1 ≢ ok
        → (app_registry_register both (some calc)).0 ≡ both)
app_registry_register-Joins_example = app_registry_register-Joins both calc

at_one : app_registry_at both 1 ≡ some edit
unfolding app_registry_at
at_one = refl

found_edit : app_registry_find_id both edit.id ≡ some edit
unfolding app_registry_find_id strings_equal_bounded
found_edit = refl

app_registry_find-at_example :
    (app_registry_find_id both edit.id ≡ some edit)
    × (app_registry_find_executable both edit.executable ≡ some edit)
app_registry_find-at_example = app_registry_find-at both 1 edit both-IsRegistry at_one
