-- ===== src/Manifest/Unique.antt =====
-- kernel/app_manifest.c: what the registry keeps true of its manifests, and what registration does.
use nostalux_os.Base.{
  ◌≤◌, ◌<◌, ◌≡◌, refl, sym, ap, ◌∙◌, subst, ◌≢◌, ◌↔◌, ◌⊎◌, inl, inr, false, none, some, [], ◌∷◌,
  ◌++◌, arith, leb, tests, Bool-cases, Option-cases, length, length-append, All, All-snoc, Pairwise,
  Pairwise-snoc,
}
use nostalux_os.Manifest.{
  strings_equal_bounded, AppManifest, ManifestResult, ok, registry_full, registry_capacity,
  app_manifest_validate, AppRegistry, find_clash, register_valid, after_validation,
  app_registry_register,
}

-- Two manifests clash in neither their ids nor their executables.
abbrev pub Distinct : AppManifest → AppManifest → Type 0
Distinct x y =
    (strings_equal_bounded x.id y.id ≡ false)
    × (strings_equal_bounded x.executable y.executable ≡ false)

pub record IsRegistry (r : AppRegistry) : Type 0 where
  pub accepted : All (λ m. app_manifest_validate (some m) ≡ ok) r
  pub distinct : Pairwise Distinct r
  pub fits : length r ≤ registry_capacity

find_clash-none :
    (m : AppManifest) (r : AppRegistry) → find_clash m r ≡ none → All (λ x. Distinct x m) r
unfolding find_clash
find_clash-none m [] e = tt
find_clash-none m (x ∷ r) e = ((ground arith, ground arith), find_clash-none m r (ground arith))

none-find_clash :
    (m : AppManifest) (r : AppRegistry) → All (λ x. Distinct x m) r → find_clash m r ≡ none
unfolding find_clash
none-find_clash m [] h = refl
none-find_clash m (x ∷ r) h = ground (arith, h.0.0, h.0.1, none-find_clash m r h.1)

-- The manifest may join the registry.
pub record Joins (r : AppRegistry) (m : AppManifest) : Type 0 where
  pub accepted : app_manifest_validate (some m) ≡ ok
  pub distinct : All (λ x. Distinct x m) r
  pub room : length r < registry_capacity

validate-cases :
    (m : AppManifest)
    → (app_manifest_validate (some m) ≡ ok) ⊎ (app_manifest_validate (some m) ≢ ok)
validate-cases m = elim (app_manifest_validate (some m)) as (λ v. (v ≡ ok) ⊎ (v ≢ ok)) [
  | ok ↦ inl refl
  | _ ↦ inr (λ e. ground arith)
]

find_clash-ne_ok : (m : AppManifest) (r : AppRegistry) → find_clash m r ≢ some ok
unfolding find_clash
find_clash-ne_ok m [] e = cc
find_clash-ne_ok m (x ∷ r) e = find_clash-ne_ok m r (ground arith)

-- The two ways in which a registration ends.
abbrev pub Registers : AppRegistry → AppManifest → AppRegistry × ManifestResult → Type 0
Registers r m after =
    (Joins r m × (after ≡ (r ++ (m ∷ []), ok)))
    ⊎ ((v : ManifestResult) × (v ≢ ok) × (¬ Joins r m) × (after ≡ (r, v)))

register_valid-Registers :
    (r : AppRegistry) (m : AppManifest)
    → app_manifest_validate (some m) ≡ ok
    → Registers r m (register_valid r m)
register_valid-Registers r m e = elim (Option-cases (find_clash m r)) [
  | inr (v, clash) ↦ inr (
    v,
    (λ q. find_clash-ne_ok m r (clash ∙ ap some q)),
    (λ j. let f = none-find_clash m r j.distinct in ground arith),
    ground arith,
  )
  | inl free ↦ elim (Bool-cases (leb registry_capacity (length r))) [
    | inl full ↦
        inr
          (registry_full, (λ q. ground arith), (λ j. let h = j.room in ground arith), ground arith)
    | inr room ↦ inl (
      record { accepted = e; distinct = find_clash-none m r free; room = omega (tests, room) },
      ground arith,
    )
  ]
]

after_validation-refused :
    (r : AppRegistry) (m : AppManifest) (v : ManifestResult)
    → v ≢ ok
    → after_validation r m v ≡ (r, v)
after_validation-refused r m ok n = absurd (n refl)
after_validation-refused r m _ n = refl

register-Registers :
    (r : AppRegistry) (m : AppManifest) → Registers r m (app_registry_register r (some m))
unfolding app_registry_register
register-Registers r m = elim (validate-cases m) [
  | inl e ↦
      subst (Registers r m) (sym (ap (after_validation r m) e)) (register_valid-Registers r m e)
  | inr n ↦ inr (
    app_manifest_validate (some m),
    n,
    (λ j. n j.accepted),
    after_validation-refused r m (app_manifest_validate (some m)) n,
  )
]

-- A registration succeeds exactly when the manifest is valid, clashes with no registered one in its
-- id or its executable, and fewer than 32 are registered. Then it becomes the last of the registry;
-- else the registry stays as it is.
pub app_registry_register-Joins :
    (r : AppRegistry) (m : AppManifest)
    → ((app_registry_register r (some m)).1 ≡ ok ↔ Joins r m)
      × ((app_registry_register r (some m)).1 ≡ ok
          → (app_registry_register r (some m)).0 ≡ r ++ (m ∷ []))
      × ((app_registry_register r (some m)).1 ≢ ok → (app_registry_register r (some m)).0 ≡ r)
app_registry_register-Joins r m = elim (register-Registers r m) [
  | inl (j, e) ↦ (
    ((λ _. j), (λ _. ap (λ p. p.1) e)),
    (λ _. ap (λ p. p.0) e),
    (λ n. absurd (n (ap (λ p. p.1) e))),
  )
  | inr (v, n, nj, e) ↦ (
    ((λ q. absurd (n (sym (ap (λ p. p.1) e) ∙ q))), (λ j. absurd (nj j))),
    (λ q. absurd (n (sym (ap (λ p. p.1) e) ∙ q))),
    (λ _. ap (λ p. p.0) e),
  )
]

-- Registration keeps a registry whose manifests are valid, whose ids and executables are distinct,
-- and that has 32 manifests at most, in this state.
pub app_registry_register-IsRegistry :
    (r : AppRegistry) (m : AppManifest)
    → IsRegistry r
    → IsRegistry (app_registry_register r (some m)).0
app_registry_register-IsRegistry r m v = elim (register-Registers r m) [
  | inl (j, e) ↦ rw (ap (λ p. p.0) e) (record {
    accepted = All-snoc (λ m. app_manifest_validate (some m) ≡ ok) r m v.accepted j.accepted;
    distinct = Pairwise-snoc Distinct r m v.distinct j.distinct;
    fits = omega (arith, length-append r (m ∷ []), j.room);
  })
  | inr (w, n, nj, e) ↦ rw (ap (λ p. p.0) e) v
]
