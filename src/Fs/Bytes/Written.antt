-- ===== src/Fs/Bytes/Written.antt =====
-- kernel/fs.c: the header that a commit writes.
use nostalux_os.Base.{
  u32_mod, ℕ, ◌+◌, ◌*◌, ◌%◌, ◌<◌, bit_xor, ◌≡◌, refl, ap, ◌∙◌, ◌&&◌, List, [], ◌∷◌, arith, ltb, leb,
  if◌then◌else◌,
}
use nostalux_os.Fs.Bytes.{
  checksum_from, fs_checksum, Header, header_bytes, header_of, header_checksum_from,
  fs_header_checksum,
}
use nostalux_os.Fs.Bytes.Records.{u32_of-bytes_of}

pub header_bytes-checksum :
    (h : Header) (c : ℕ)
    → fs_header_checksum (header_bytes (record h { header_checksum = c }))
      ≡ fs_header_checksum (header_bytes h)
unfolding fs_header_checksum header_checksum_from header_bytes
header_bytes-checksum h c = refl

pub record IsHeader (h : Header) : Type 0 where
  pub magic : h.magic < u32_mod
  pub version : h.version < u32_mod
  pub table_size : h.table_size < u32_mod
  pub checksum : h.checksum < u32_mod
  pub generation : h.generation < u32_mod
  pub header_checksum : h.header_checksum < u32_mod

header_from : (magic version table_size checksum generation header_checksum : ℕ) → List ℕ → Header
header_from a b c d e f r = record {
  magic = a;
  version = b;
  table_size = c;
  checksum = d;
  generation = e;
  header_checksum = f;
  reserved = r;
}

applied : {A B : Type 0} {f g : A → B} {x y : A} → f ≡ g → x ≡ y → f x ≡ g y
applied {f = f} {y = y} p q = ap f q ∙ ap (λ k. k y) p

-- A header is read back from its bytes.
pub header_of-header_bytes : (h : Header) → IsHeader h → header_of (header_bytes h) ≡ h
unfolding header_of header_bytes header_from
header_of-header_bytes h ok =
    let same = λ (v : ℕ) (lt : v < u32_mod). u32_of-bytes_of v [] lt in
    ap (λ f. f h.reserved)
      (applied
        (applied
          (applied
            (applied (applied (ap header_from (same h.magic ok.magic)) (same h.version ok.version))
              (same h.table_size ok.table_size))
            (same h.checksum ok.checksum))
          (same h.generation ok.generation))
        (same h.header_checksum ok.header_checksum))

checksum_from-lt :
    (bytes : List ℕ) (value : ℕ) → value < u32_mod → checksum_from value bytes < u32_mod
unfolding checksum_from
checksum_from-lt [] value h = h
checksum_from-lt (b ∷ bytes) value h =
    checksum_from-lt bytes (bit_xor value b * 16777619 % u32_mod) (omega arith)

header_checksum_from-lt :
    (bytes : List ℕ) (i value : ℕ) → value < u32_mod → header_checksum_from i value bytes < u32_mod
unfolding header_checksum_from
header_checksum_from-lt [] i value h = h
header_checksum_from-lt (b ∷ bytes) i value h =
    header_checksum_from-lt bytes (i + 1)
      (bit_xor value (if leb 20 i && ltb i 24 then 0 else b) * 16777619 % u32_mod) (omega arith)

pub fs_checksum-lt : (bytes : List ℕ) → fs_checksum bytes < u32_mod
unfolding fs_checksum
fs_checksum-lt bytes = checksum_from-lt bytes 2166136261 (omega arith)

pub fs_header_checksum-lt : (bytes : List ℕ) → fs_header_checksum bytes < u32_mod
unfolding fs_header_checksum
fs_header_checksum-lt bytes = header_checksum_from-lt bytes 0 2166136261 (omega arith)
