-- ===== src/Config/File.antt =====
-- How the configuration file is cut into lines: `fgets`, `nvipfix_config_is_empty_line` and the line
-- loop of `nvipfix_config_read` (src/config.c).
use ipfix.Common.{
  ℕ, zero, suc, ◌≤◌, Bool, true, false, ◌&&◌, [], ◌∷◌, ◌++◌, some, ◌≡◌, refl, ◌==◌, if◌then◌else◌,
  arith, length, ◌∙◌, sym,
}
use ipfix.Config.Reader.{
  Reader, read_line, read_lines, fgets, line_room, is_blank, is_empty_line, config_read,
}
use ipfix.Config.{Globals, line_too_long}
use ipfix.Heap.{Heap}
use ipfix.Text.{Bytes, contains}

-- `fgets` reads a prefix of the file.
pub fgets_prefix : (n : ℕ) (s : Bytes) → (fgets n s).0 ++ (fgets n s).1 ≡ s
unfolding fgets
fgets_prefix zero s = refl
fgets_prefix (suc n) [] = refl
fgets_prefix (suc n) (c ∷ s) = ground (arith, fgets_prefix n s)

pub fgets_rest : (n : ℕ) (c : ℕ) (s : Bytes) → length (fgets (suc n) (c ∷ s)).1 ≤ length s
unfolding fgets
fgets_rest zero c s = ground arith
fgets_rest (suc n) c [] = ground arith
fgets_rest (suc n) c (b ∷ s) = ground (arith, fgets_rest n b s)

-- The text before the first '#'.
unfoldable pub uncommented : Bytes → Bytes
uncommented [] = []
uncommented (c ∷ s) = if c == b'#' then [] else c ∷ uncommented s

unfoldable pub all_blank : Bytes → Bool
all_blank [] = true
all_blank (c ∷ s) = is_blank c && all_blank s

-- `nvipfix_config_is_empty_line` cuts the line at its first '#' and says whether all that is left is
-- blank.
pub is_empty_line_lem : (s : Bytes) → is_empty_line s ≡ (all_blank (uncommented s), uncommented s)
unfolding is_empty_line all_blank uncommented
is_empty_line_lem [] = refl
is_empty_line_lem (c ∷ s) = ground (arith, is_empty_line_lem s)

read_lines_nil : (n : ℕ) (r : Reader) (h : Heap) → read_lines n [] r h ≡ (r, h)
unfolding read_lines
read_lines_nil zero r h = refl
read_lines_nil (suc n) r h = refl

-- The length of the file is fuel enough for the line loop: every larger number gives the same.
pub read_lines_enough :
    (n m : ℕ) (file : Bytes) (r : Reader) (h : Heap)
    → length file ≤ n
    → length file ≤ m
    → read_lines n file r h ≡ read_lines m file r h
unfolding read_lines
read_lines_enough n m [] r h a b = read_lines_nil n r h ∙ sym (read_lines_nil m r h)
read_lines_enough zero m (c ∷ file) r h a b = elim a [ ]
read_lines_enough (suc n) zero (c ∷ file) r h a b = elim b [ ]
read_lines_enough (suc n) (suc m) (c ∷ file) r h a b =
    let rest = (fgets line_room (c ∷ file)).1 in
    let ((more, r'), h') = read_line (fgets line_room (c ∷ file)).0 r h in
    let small = fgets_rest 4094 c file in
    ground (arith, read_lines_enough n m rest r' h' (omega (arith, small)) (omega (arith, small)))

fgets_none : (n : ℕ) (s : Bytes) → contains s 10 ≡ false → contains (fgets n s).0 10 ≡ false
unfolding fgets contains
fgets_none zero s b = refl
fgets_none (suc n) [] b = refl
fgets_none (suc n) (c ∷ s) b = ground (arith, fgets_none n s)

-- A file with no end of line, such as a single line that nothing ends, changes no setting: it is
-- reported as too long.
pub config_read_unended :
    (c : ℕ) (file : Bytes) (g : Globals) (h : Heap)
    → contains (c ∷ file) 10 ≡ false
    → config_read (some (c ∷ file)) g h ≡ ((g, line_too_long 1 ∷ []), h)
unfolding config_read read_lines read_line
config_read_unended c file g h k = rw (fgets_none line_room (c ∷ file) k) refl
