-- ===== src/Services/Files.antt =====
-- kernel/app_services.c: the table of open files when a handle is closed.
use nostalux_os.Base.{
  ℕ, zero, suc, ◌+◌, ◌-◌, ◌≤◌, ◌≡◌, refl, ap, subst, ◌≢◌, ◌⊎◌, inl, inr, true, false, ◌||◌, Option,
  none, some, List, [], ◌∷◌, arith, ◌==◌, if◌then◌else◌, Bool-cases, Option-cases, get_or, set, All,
}
use nostalux_os.Services.{
  FileHandle, cleared_handle, is_handle, find_slot, find_file_handle, clear_slot,
  dispatch_file_close,
}

abbrev pub NoHandle : ℕ → ℕ → List FileHandle → Type 0
NoHandle process_id handle = All (λ f. is_handle process_id handle f ≡ false)

-- No two open files of a process have the same handle.
abbrev pub Distinct : List FileHandle → Type 0
Distinct [] = Unit
Distinct (f ∷ files) = ((f.in_use ≡ false) ⊎ NoHandle f.process_id f.handle files) × Distinct files

handle_fields :
    (p h : ℕ) (f : FileHandle)
    → is_handle p h f ≡ true
    → (f.in_use ≡ true) × (f.process_id ≡ p) × (f.handle ≡ h)
handle_fields p h f e = ground arith

other_handle :
    (p h p' h' : ℕ) (f : FileHandle)
    → is_handle p h f ≡ true
    → (p' ≢ p) ⊎ (h' ≢ h)
    → is_handle p' h' f ≡ false
other_handle p h p' h' f e differs = ground arith

NoHandle-find_slot :
    (files : List FileHandle) (p h index : ℕ)
    → NoHandle p h files
    → find_slot files p h index ≡ none
unfolding find_slot
NoHandle-find_slot [] p h index n = refl
NoHandle-find_slot (f ∷ files) p h index n = simp n.0 (NoHandle-find_slot files p h (index + 1) n.1)

find_slot-set :
    (files : List FileHandle) (j p h index : ℕ)
    → is_handle p h (get_or files j cleared_handle) ≡ false
    → find_slot (set files j cleared_handle) p h index ≡ find_slot files p h index
unfolding find_slot
find_slot-set [] j p h index n = refl
find_slot-set (f ∷ files) zero p h index n = simp n refl
find_slot-set (f ∷ files) (suc j) p h index n =
    ap (λ (rest : Option ℕ). if is_handle p h f then some index else rest)
      (find_slot-set files j p h (index + 1) n)

-- What is known of the slot that is found, and of the table when it is cleared.
record Located (files : List FileHandle) (p h index i : ℕ) : Type 0 where
  pub behind : index ≤ i
  pub holds : is_handle p h (get_or files (i - index) cleared_handle) ≡ true
  pub only : NoHandle p h (set files (i - index) cleared_handle)

find_slot-Located :
    (files : List FileHandle) (p h index i : ℕ)
    → Distinct files
    → find_slot files p h index ≡ some i
    → Located files p h index i
unfolding find_slot
find_slot-Located [] p h index i d e = absurd (ground arith)
find_slot-Located (f ∷ files) p h index i d e = elim (Bool-cases (is_handle p h f)) [
  | inl y ↦
      let here : index ≡ i = ground arith in
      let zero_ : i - index ≡ 0 = omega arith in
      let q = handle_fields p h f y in
      let rest : NoHandle p h files = elim d.0 [
        | inl unused ↦ absurd (ground arith)
        | inr n ↦
            subst (λ (h : ℕ). NoHandle p h files) q.2
              (subst (λ (p : ℕ). NoHandle p f.handle files) q.1 n)
      ] in
      record { behind = omega arith; holds = rw zero_ y; only = rw zero_ (refl, rest) }
  | inr n ↦
      let found : find_slot files p h (index + 1) ≡ some i = ground arith in
      let s = find_slot-Located files p h (index + 1) i d.1 found in
      let next : i - index ≡ suc (i - (index + 1)) = omega (arith, s.behind) in
      record {
        behind = omega (arith, s.behind);
        holds = rw next s.holds;
        only = rw next (n, s.only);
      }
]

find_file_handle-slot :
    (files : List FileHandle) (p h i : ℕ)
    → find_file_handle files p h ≡ some i
    → find_slot files p h 0 ≡ some i
unfolding find_file_handle
find_file_handle-slot files p h i e = ground arith

find_file_handle-same :
    (files files' : List FileHandle) (p h : ℕ)
    → find_slot files' p h 0 ≡ find_slot files p h 0
    → find_file_handle files' p h ≡ find_file_handle files p h
unfolding find_file_handle
find_file_handle-same files files' p h e =
    ap (λ (found : Option ℕ). if (p == 0) || (h == 0) then none else found) e

find_file_handle-none :
    (files : List FileHandle) (p h : ℕ) → NoHandle p h files → find_file_handle files p h ≡ none
unfolding find_file_handle
find_file_handle-none files p h n = ground (arith, NoHandle-find_slot files p h 0 n)

-- In a table where no two open files of a process have the same handle, closing a handle succeeds
-- exactly when it is found; then it is found no more, and every other handle is found in its slot.
pub dispatch_file_close-closes :
    (files : List FileHandle) (p h : ℕ)
    → Distinct files
    → ((find_file_handle files p h ≡ none) × (dispatch_file_close files p h ≡ (files, false)))
      ⊎ ((files' : List FileHandle) × (dispatch_file_close files p h ≡ (files', true))
          × (find_file_handle files' p h ≡ none)
          × ((p' h' : ℕ)
              → (p' ≢ p) ⊎ (h' ≢ h)
              → find_file_handle files' p' h' ≡ find_file_handle files p' h'))
unfolding dispatch_file_close
dispatch_file_close-closes files p h d = elim (Option-cases (find_file_handle files p h)) [
  | inl missing ↦ inl (missing, ap (clear_slot files) missing)
  | inr (i, found) ↦
      let s = find_slot-Located files p h 0 i d (find_file_handle-slot files p h i found) in
      let at_i : i - 0 ≡ i = omega arith in
      let only : NoHandle p h (set files i cleared_handle) =
        subst (λ (j : ℕ). NoHandle p h (set files j cleared_handle)) at_i s.only in
      let holds : is_handle p h (get_or files i cleared_handle) ≡ true =
        subst (λ (j : ℕ). is_handle p h (get_or files j cleared_handle) ≡ true) at_i s.holds in
      inr (
        set files i cleared_handle,
        ap (clear_slot files) found,
        find_file_handle-none (set files i cleared_handle) p h only,
        (λ p' h' differs. find_file_handle-same files (set files i cleared_handle) p' h' (
            find_slot-set files i p' h' 0
              (other_handle p h p' h' (get_or files i cleared_handle) holds differs))),
      )
]
