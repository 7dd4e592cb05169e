-- ===== src/Syslog/Messages.antt =====
-- kernel/syslog.c: what an entry holds after a message is copied into it.
use nostalux_os.Base.{
  ℕ, zero, suc, ◌+◌, ◌<◌, ◌≡◌, refl, sym, ap, ◌∙◌, ◌≢◌, List, [], ◌∷◌, ◌++◌, append-nil, arith,
  length, set, take, length-append, length-set, append_step, All, All-snoc,
}
use nostalux_os.Syslog.{message_length, copy_chars, copy_message, chars_of}

abbrev pub IsText : List ℕ → Type 0
IsText = All (λ c. c ≢ 0)

-- The entry that the loop leaves: the characters before `i` stay.
chars_of-zero : (before rest : List ℕ) → IsText before → chars_of (before ++ (0 ∷ rest)) ≡ before
chars_of-zero [] rest h = refl
chars_of-zero (c ∷ before) rest h = ground (arith, chars_of-zero before rest h.1)

set-append :
    (before : List ℕ) (b : ℕ) (rest : List ℕ) (v : ℕ)
    → set (before ++ (b ∷ rest)) (length before) v ≡ before ++ (v ∷ rest)
set-append [] b rest v = refl
set-append (c ∷ before) b rest v = ap (λ (t : List ℕ). c ∷ t) (set-append before b rest v)

-- With room for the characters that are left and the final zero, the text is the characters before
-- `i` and as many of the message as are left.
copy_chars-text :
    (left : ℕ) (before rest src : List ℕ)
    → IsText before
    → IsText src
    → left < length rest
    → chars_of (copy_chars left (before ++ rest) (length before) src) ≡ before ++ take left src
unfolding copy_chars
copy_chars-text left before [] src hb hs lt = absurd (omega arith)
copy_chars-text zero before (b ∷ rest) src hb hs lt =
    ap chars_of (set-append before b rest 0)
    ∙ chars_of-zero before rest hb
    ∙ sym (append-nil before)
copy_chars-text (suc left) before (b ∷ rest) [] hb hs lt =
    ap chars_of (set-append before b rest 0)
    ∙ chars_of-zero before rest hb
    ∙ sym (append-nil before)
copy_chars-text (suc left) before (b ∷ rest) (c ∷ src) hb hs lt =
    let move : set (before ++ (b ∷ rest)) (length before) c ≡ (before ++ (c ∷ [])) ++ rest =
      set-append before b rest c ∙ append_step before c rest in
    let next : length before + 1 ≡ length (before ++ (c ∷ [])) =
      omega (arith, length-append before (c ∷ [])) in
    simp (move, next)
      (copy_chars-text left (before ++ (c ∷ [])) rest src (All-snoc (λ c. c ≢ 0) before c hb hs.0)
          hs.1 (omega arith)
        ∙ sym (append_step before c (take left src)))

pub copy_message-text :
    (dest src : List ℕ)
    → length dest ≡ message_length
    → IsText src
    → chars_of (copy_message dest src) ≡ take 79 src
unfolding copy_message
copy_message-text dest src n hs = copy_chars-text 79 [] dest src tt hs (omega arith)

copy_chars-length :
    (left : ℕ) (dest : List ℕ) (i : ℕ) (src : List ℕ)
    → length (copy_chars left dest i src) ≡ length dest
unfolding copy_chars
copy_chars-length zero dest i src = length-set dest i 0
copy_chars-length (suc left) dest i [] = length-set dest i 0
copy_chars-length (suc left) dest i (c ∷ src) =
    copy_chars-length left (set dest i c) (i + 1) src ∙ length-set dest i c

pub copy_message-length : (dest src : List ℕ) → length (copy_message dest src) ≡ length dest
unfolding copy_message
copy_message-length dest src = copy_chars-length 79 dest 0 src
