-- ===== src/Manifest/Found.antt =====
-- kernel/app_manifest.c: the lookups in the registry find each manifest by its id and executable.
use nostalux_os.Base.{
  ℕ, zero, suc, ◌<◌, bit_and, ◌≡◌, refl, ap, subst, inl, inr, true, some, List, [], ◌∷◌, arith,
  Bool-cases, Option-cases, get_elem?, All, All-get_elem?, Pairwise,
}
use nostalux_os.Manifest.{
  string_is_terminated, strings_equal_bounded, id_is_valid, display_name_is_valid,
  executable_is_valid, description_is_valid, AppManifest, ok, unknown_capabilities,
  app_manifest_validate, AppRegistry, app_registry_count, app_registry_at, app_registry_find_id,
  app_registry_find_executable,
}
use nostalux_os.Manifest.Strings.{
  string_of, string_is_terminated-string_of, strings_equal_bounded_self,
}
use nostalux_os.Manifest.Unique.{Distinct, IsRegistry}

validate-fields :
    (m : AppManifest)
    → app_manifest_validate (some m) ≡ ok
    → (m.manifest_version ≡ 1)
      × (m.abi_version ≡ 1)
      × (bit_and m.capabilities unknown_capabilities ≡ 0)
      × (id_is_valid m.id ≡ true)
      × (display_name_is_valid m.display_name ≡ true)
      × (executable_is_valid m.executable ≡ true)
      × (description_is_valid m.description ≡ true)
unfolding app_manifest_validate
validate-fields m e = ground arith

id-string_of : (id : List ℕ) → id_is_valid id ≡ true → (s : List ℕ) × (string_of id ≡ some s)
unfolding id_is_valid
id-string_of id e = elim (Option-cases (string_is_terminated id 0)) [
  | inl none_ ↦ absurd (ground arith)
  | inr (n, some_) ↦ let w = string_is_terminated-string_of id 0 n some_ in (w.0, w.1)
]

executable-string_of :
    (name : List ℕ) → executable_is_valid name ≡ true → (s : List ℕ) × (string_of name ≡ some s)
unfolding executable_is_valid
executable-string_of name e = elim (Option-cases (string_is_terminated name 0)) [
  | inl none_ ↦ absurd (ground arith)
  | inr (n, some_) ↦ let w = string_is_terminated-string_of name 0 n some_ in (w.0, w.1)
]

self_equal :
    (m : AppManifest)
    → app_manifest_validate (some m) ≡ ok
    → (strings_equal_bounded m.id m.id ≡ true)
      × (strings_equal_bounded m.executable m.executable ≡ true)
self_equal m e =
    let f = validate-fields m e in
    let i = id-string_of m.id f.3 in
    let x = executable-string_of m.executable f.5 in
    (strings_equal_bounded_self m.id i.0 i.1, strings_equal_bounded_self m.executable x.0 x.1)

find-each :
    (r : AppRegistry) (index : ℕ) (m : AppManifest)
    → All (λ m. app_manifest_validate (some m) ≡ ok) r
    → Pairwise Distinct r
    → get_elem? r index ≡ some m
    → (app_registry_find_id r m.id ≡ some m)
      × (app_registry_find_executable r m.executable ≡ some m)
unfolding app_registry_find_id app_registry_find_executable
find-each [] index m a p e = absurd (ground arith)
find-each (x ∷ r) zero m a p e =
    let q : x ≡ m = ground arith in
    let s = self_equal x a.0 in
    subst
      (λ (t : AppManifest).
        (app_registry_find_id (x ∷ r) t.id ≡ some t)
        × (app_registry_find_executable (x ∷ r) t.executable ≡ some t))
      q (simp s.0 refl, simp s.1 refl)
find-each (x ∷ r) (suc index) m a p e =
    let d = All-get_elem? (Distinct x) r index m p.0 e in
    let rest = find-each r index m a.1 p.1 e in (simp d.0 rest.0, simp d.1 rest.1)

-- In a registry of valid manifests with distinct ids and executables, each manifest is the one that
-- is found by its id, and by its executable.
pub app_registry_find-at :
    (r : AppRegistry) (index : ℕ) (m : AppManifest)
    → IsRegistry r
    → app_registry_at r index ≡ some m
    → (app_registry_find_id r m.id ≡ some m)
      × (app_registry_find_executable r m.executable ≡ some m)
unfolding app_registry_at
app_registry_find-at r index m v e = find-each r index m v.accepted v.distinct e

-- What a lookup by an id finds is registered under that id.
pub app_registry_find_id-registered :
    (r : AppRegistry) (id : List ℕ) (m : AppManifest)
    → app_registry_find_id r id ≡ some m
    → (index : ℕ) × (index < app_registry_count r)
      × (app_registry_at r index ≡ some m)
      × (strings_equal_bounded m.id id ≡ true)
unfolding app_registry_find_id app_registry_at
app_registry_find_id-registered [] id m e = absurd (ground arith)
app_registry_find_id-registered (x ∷ r) id m e = elim (Bool-cases (strings_equal_bounded x.id id)) [
  | inl y ↦ let q : x ≡ m = ground arith in (0, omega arith, ap some q, rw (← q) y)
  | inr n ↦
      let rest = app_registry_find_id-registered r id m (ground arith) in
      (suc rest.0, omega (arith, rest.1), rest.2, rest.3)
]
