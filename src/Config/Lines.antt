-- ===== src/Config/Lines.antt =====
-- The lines of a configuration file that is written with one setting a line, as `nvipfix_config_read` of
-- src/config.c takes them.
use ipfix.Common.{
  ℕ, zero, suc, ◌<◌, true, false, List, [], ◌∷◌, ◌++◌, ◌==◌, ◌≡◌, refl, ap, arith, All, length,
}
use ipfix.Config.File.{uncommented}
use ipfix.Config.Reader.{fgets, is_blank}
use ipfix.Heap.{Heap, M, ◌>>=◌, pure, has_room}
use ipfix.Text.{Bytes, contains}
use ipfix.Text.Join.{join, Clean, IsToken}

-- On a heap that refuses nothing the computation ends with a result for which `P` holds, and the heap refuses nothing
-- afterwards.
unfoldable pub Ends : {A : Type 0} → M A → (A → Type 0) → Type 0
Ends m P = (h : Heap) → has_room h.plan ≡ true → P (m h).0 × (has_room (m h).1.plan ≡ true)

pub pure-Ends : {A : Type 0} (a : A) (P : A → Type 0) → P a → Ends (pure a) P
unfolding Ends
pure-Ends a P p h room = (p, room)

pub bind-Ends :
    {A B : Type 0} (m : M A) (f : A → M B) (P : A → Type 0) (Q : B → Type 0)
    → Ends m P
    → ((a : A) → P a → Ends (f a) Q)
    → Ends (m >>= f) Q
unfolding Ends
bind-Ends m f P Q p q h room = let (holds, room') = p h room in q (m h).0 holds (m h).1 room'

-- The bytes between tokens.
abbrev pub separators : Bytes
separators = 9 ∷ 10 ∷ 13 ∷ 32 ∷ []

-- The tokens with a blank between them, and an end of line.
abbrev pub print_line : List Bytes → Bytes
print_line ts = join b' ' ts ++ 10 ∷ []

-- A token without blanks and '#'.
abbrev pub IsPlain : Bytes → Type 0
IsPlain t = IsToken (contains separators) t × All (λ c. (c == b'#') ≡ false) t

-- No end of line.
abbrev pub OneLine : Bytes → Type 0
OneLine = All (λ c. (c == 10) ≡ false)

pub fgets-line :
    (n : ℕ) (s rest : Bytes)
    → OneLine s
    → length s < n
    → fgets n (s ++ 10 ∷ rest) ≡ (s ++ 10 ∷ [], rest)
unfolding fgets
fgets-line zero s rest k l = absurd (omega arith)
fgets-line (suc n) [] rest k l = refl
fgets-line (suc n) (c ∷ s) rest k l = rw (k.0, fgets-line n s rest k.1 (omega arith)) refl

pub contains_end : (s : Bytes) → contains (s ++ 10 ∷ []) 10 ≡ true
unfolding contains
contains_end [] = refl
contains_end (c ∷ s) = ground (arith, contains_end s)

pub uncommented-line :
    (s : Bytes) → All (λ c. (c == b'#') ≡ false) s → uncommented (s ++ 10 ∷ []) ≡ s ++ 10 ∷ []
unfolding uncommented
uncommented-line [] k = refl
uncommented-line (c ∷ s) k = rw k.0 (ap (◌∷◌ c) (uncommented-line s k.1))

pub not_blank : (c : ℕ) → contains separators c ≡ false → is_blank c ≡ false
unfolding contains
not_blank c e = ground arith

separator_end : (c : ℕ) → contains separators c ≡ false → (c == 10) ≡ false
unfolding contains
separator_end c e = ground arith

pub Clean-OneLine : (t : Bytes) → Clean (contains separators) t → OneLine t
Clean-OneLine [] k = tt
Clean-OneLine (c ∷ t) k = (separator_end c k.0, Clean-OneLine t k.1)

pub All-append : (P : ℕ → Type 0) (s t : Bytes) → All P s → All P t → All P (s ++ t)
All-append P [] t p q = q
All-append P (c ∷ s) t p q = (p.0, All-append P s t p.1 q)

pub All-join : (P : ℕ → Type 0) (ts : List Bytes) → P b' ' → All (All P) ts → All P (join b' ' ts)
All-join P [] b k = tt
All-join P (t ∷ []) b k = k.0
All-join P (t ∷ u ∷ ts) b k =
    All-append P t (b' ' ∷ join b' ' (u ∷ ts)) k.0 (b, All-join P (u ∷ ts) b k.1)
