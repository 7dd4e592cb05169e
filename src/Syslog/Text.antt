-- ===== src/Syslog/Text.antt =====
-- kernel/syslog.c: the text of the log that fits a buffer.
use nostalux_os.Base.{
  add64, sub64, ℕ, zero, suc, ◌+◌, ◌-◌, ◌%◌, ◌^◌, ◌≤◌, ◌<◌, ◌≡◌, refl, sym, ap, ◌∙◌, ◌⊎◌, inl, inr,
  true, not, ◌&&◌, List, [], ◌∷◌, ◌++◌, append-nil, append_assoc, arith, ltb, ◌==◌, if◌then◌else◌,
  lt→ltb, tests, Bool-cases, length, get_or, take, length-append, length-take, take-nil, take-all,
  append_step, All-get_or,
}
use nostalux_os.Syslog.{
  log_capacity, message_length, Syslog, syslog_entry, chars_of, text_at, first_fitting, write_chars,
  write_entry, write_entries, write_newest, syslog_copy_text,
}
use nostalux_os.Syslog.Ring.{IsValid}

-- `left` messages from the message `i` on, each with a newline.
abbrev pub lines : Syslog → ℕ → ℕ → List ℕ
lines s i zero = []
lines s i (suc left) = text_at s i ++ (10 ∷ lines s (i + 1) left)

chars_of-length_le : (entry : List ℕ) → length (chars_of entry) ≤ length entry
chars_of-length_le [] = omega arith
chars_of-length_le (c ∷ entry) = ground (arith, chars_of-length_le entry)

text_at-small : (s : Syslog) (i : ℕ) → IsValid s → length (text_at s i) ≤ 80
unfolding syslog_entry
text_at-small s i v =
    let k = (s.start + i) % log_capacity in
    ground (
      arith,
      chars_of-length_le (get_or s.entries k []),
      All-get_or (λ e. length e ≡ message_length) s.entries k [] v.sizes (omega (arith, v.slots)),
    )

length-line :
    (s : Syslog) (i left : ℕ)
    → length (lines s i (suc left)) ≡ length (text_at s i) + 1 + length (lines s (i + 1) left)
length-line s i left = omega (arith, length-append (text_at s i) (10 ∷ lines s (i + 1) left))

line_before :
    (s : Syslog) (first : ℕ)
    → first < s.count
    → length (lines s first (s.count - first))
      ≡ length (text_at s first) + 1 + length (lines s (suc first) (s.count - suc first))
line_before s first lt =
    ap (λ (n : ℕ). length (lines s first n)) {y = suc (s.count - suc first)} (omega arith)
    ∙ length-line s first (s.count - suc first)
    ∙ ap (λ (i : ℕ). length (text_at s first) + 1 + length (lines s i (s.count - suc first)))
        (omega arith)

-- The loop that steps back over the messages stops at the first one from which all fit.
pub record Fits (s : Syslog) (available first : ℕ) : Type 0 where
  pub in_log : first ≤ s.count
  pub fits : length (lines s first (s.count - first)) ≤ available
  pub longest : (first ≡ 0) ⊎ (available < length (lines s (first - 1) (s.count - (first - 1))))

first_fitting-Fits :
    (s : Syslog) (available first required : ℕ)
    → IsValid s
    → available < 2 ^ 64
    → first ≤ s.count
    → required ≡ length (lines s first (s.count - first))
    → required ≤ available
    → Fits s available (first_fitting s available first required)
unfolding first_fitting
first_fitting-Fits s available zero required v small le e room = record {
  in_log = omega arith;
  fits = omega arith;
  longest = inl refl;
}
first_fitting-Fits s available (suc first) required v small le e room =
    let bound = text_at-small s first v in
    let size = add64 (length (text_at s first)) 1 in
    let more : length (lines s first (s.count - first)) ≡ length (text_at s first) + 1 + required =
      line_before s first le ∙ ap (λ (n : ℕ). length (text_at s first) + 1 + n) (sym e) in
    let back : suc first - 1 ≡ first = omega arith in
    elim (Bool-cases (ltb (sub64 available required) size)) [
      | inl lt ↦
          simp lt (record {
            in_log = le;
            fits = omega arith;
            longest = inr (rw back (omega (tests, lt)));
          })
      | inr ge ↦ simp ge (
          first_fitting-Fits s available first (add64 required size) v small (omega arith)
            (omega (tests, ge)) (omega (tests, ge)))
    ]

write_chars-take :
    (available : ℕ) (text out : List ℕ)
    → write_chars available text out ≡ out ++ take (available - length out) text
unfolding write_chars
write_chars-take available [] out =
    sym (ap (λ (t : List ℕ). out ++ t) (take-nil (available - length out)) ∙ append-nil out)
write_chars-take available (c ∷ text) out = elim (Bool-cases (ltb (length out) available)) [
  | inl lt ↦
      let room : available - length out ≡ suc (available - length (out ++ (c ∷ []))) =
        omega (tests, lt, length-append out (c ∷ [])) in
      simp (lt, room)
        (write_chars-take available text (out ++ (c ∷ []))
          ∙ sym (append_step out c (take (available - length (out ++ (c ∷ []))) text)))
  | inr ge ↦
      let none_ : available - length out ≡ 0 = omega (tests, ge) in
      simp (ge, none_) (sym (append-nil out))
]

write_entry-line :
    (available : ℕ) (text out : List ℕ)
    → length out + length text + 1 ≤ available
    → write_entry available text out ≡ (out ++ text) ++ (10 ∷ [])
unfolding write_entry
write_entry-line available text out h =
    let whole : write_chars available text out ≡ out ++ text =
      write_chars-take available text out
      ∙ ap (λ (t : List ℕ). out ++ t) (take-all (available - length out) text (omega arith)) in
    let room : ltb (length (out ++ text)) available ≡ true =
      lt→ltb (length (out ++ text)) available (omega (arith, length-append out text)) in
    simp (whole, room) refl

write_entries-lines :
    (s : Syslog) (available left i : ℕ) (out : List ℕ)
    → length out + length (lines s i left) ≤ available
    → write_entries s available left i out ≡ out ++ lines s i left
unfolding write_entries
write_entries-lines s available zero i out h = sym (append-nil out)
write_entries-lines s available (suc left) i out h =
    let text = text_at s i in
    let rest = lines s (i + 1) left in
    let n = length-line s i left in
    ap (write_entries s available left (i + 1)) (write_entry-line available text out (omega arith))
    ∙ write_entries-lines s available left (i + 1) ((out ++ text) ++ (10 ∷ []))
        (omega (arith, length-append (out ++ text) (10 ∷ []), length-append out text))
    ∙ sym (append_step (out ++ text) 10 rest)
    ∙ append_assoc out text (10 ∷ rest)

-- The text that is written, `first` being where the loop stops.
abbrev pub log_text : Syslog → ℕ → ℕ → List ℕ
log_text s available first =
    if (first == s.count) && not (s.count == 0)
    then take available (text_at s (s.count - 1))
    else lines s first (s.count - first)

write_newest-lines :
    (s : Syslog) (available first : ℕ)
    → Fits s available first
    → write_newest s available (lines s first (s.count - first)) ≡ log_text s available first
unfolding write_newest
write_newest-lines s available first f = elim (Bool-cases (first == s.count)) [
  | inr n ↦
      let lt : first < s.count = omega (tests, n, f.in_log) in
      ground (arith, line_before s first lt)
  | inl e ↦
      let none_ : lines s first (s.count - first) ≡ [] =
        ap (lines s first) {y = 0} (omega (tests, e)) in
      let last_ : write_chars available (text_at s (s.count - 1)) []
          ≡ take available (text_at s (s.count - 1)) =
        write_chars-take available (text_at s (s.count - 1)) []
        ∙ ap (λ (n : ℕ). take n (text_at s (s.count - 1))) {y = available} (omega arith) in
      simp none_ (elim (Bool-cases (s.count == 0)) [
        | inl z ↦ simp (e, z) refl
        | inr nz ↦ elim (Bool-cases (available == 0)) [
          | inl none_left ↦
              let zero_ : available ≡ 0 = omega (tests, none_left) in simp (e, nz, zero_) refl
          | inr some_left ↦ simp (e, nz, some_left) last_
        ]
      ])
]

-- From a valid ring, a buffer of a nonzero capacity below 2^64 receives the newest messages that
-- fit it whole, as many as do, each with a newline, in their order; if not even the newest one
-- fits, it receives the start of that.
pub syslog_copy_text-lines :
    (s : Syslog) (available : ℕ)
    → IsValid s
    → suc available < 2 ^ 64
    → (first : ℕ) × Fits s available first
      × (syslog_copy_text s (suc available) ≡ log_text s available first)
unfolding syslog_copy_text
syslog_copy_text-lines s available v small =
    let first = first_fitting s available s.count 0 in
    let zero_ : s.count - s.count ≡ 0 = omega arith in
    let f : Fits s available first =
      first_fitting-Fits s available s.count 0 v (omega arith) (omega arith)
        (ap (λ (n : ℕ). length (lines s s.count n)) (sym zero_)) (omega arith) in
    let all = write_entries-lines s available (s.count - first) first [] (omega (arith, f.fits)) in
    (first, f, ap (write_newest s available) all ∙ write_newest-lines s available first f)

length-log_text :
    (s : Syslog) (available first : ℕ)
    → Fits s available first
    → length (log_text s available first) ≤ available
length-log_text s available first f =
    ground (arith, f.fits, length-take available (text_at s (s.count - 1)))

-- For a valid ring and a nonzero capacity below 2^64, fewer bytes than the capacity are written, so
-- that the final zero stays in the buffer.
pub syslog_copy_text-lt :
    (s : Syslog) (capacity : ℕ)
    → IsValid s
    → 0 < capacity
    → capacity < 2 ^ 64
    → length (syslog_copy_text s capacity) < capacity
syslog_copy_text-lt s zero v pos small = absurd (omega arith)
syslog_copy_text-lt s (suc available) v pos small =
    let w = syslog_copy_text-lines s available v small in
    omega (arith, ap length w.2, length-log_text s available w.0 w.1)
