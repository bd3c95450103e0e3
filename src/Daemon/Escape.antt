-- ===== src/Daemon/Escape.antt =====
-- The name of the shared memory: src/nvipfix.c, lines 289-298.
use ipfix.Common.{
  ℕ, zero, suc, ◌+◌, ◌≤◌, ◌<◌, [], ◌∷◌, none, some, ◌==◌, if◌then◌else◌, length, ◌≡◌, refl, ap, ◌∙◌,
  ◌⊎◌, inl, inr, arith, Bool-cases,
}
use ipfix.Daemon.{escape_first, escape_loop, shm_name_escape}
use ipfix.Text.{Bytes}

abbrev pub escaped : ℕ → ℕ
escaped c = if c == b'/' then b':' else c

abbrev pub escape_all : Bytes → Bytes
escape_all [] = []
escape_all (c ∷ s) = escaped c ∷ escape_all s

-- How often '/' stands in a text.
abbrev slashes : Bytes → ℕ
slashes [] = 0
slashes (c ∷ s) = (if c == b'/' then 1 else 0) + slashes s

-- A round finds nothing in a text without '/'; or it takes one away and changes nothing else.
escape_first_cases :
    (s : Bytes)
    → ((escape_first s ≡ none) × (escape_all s ≡ s))
      ⊎ ((t : Bytes) × (escape_first s ≡ some t)
          × (escape_all t ≡ escape_all s)
          × (slashes s ≡ suc (slashes t)))
unfolding escape_first
escape_first_cases [] = inl (refl, refl)
escape_first_cases (c ∷ s) = elim (Bool-cases (c == b'/')) [
  | inl e ↦ inr (b':' ∷ s, rw e refl, rw e refl, rw e (omega arith))
  | inr e ↦ elim (escape_first_cases s) [
    | inl (none_left, same) ↦ inl (rw (e, none_left) refl, rw (e, same) refl)
    | inr (t, got, same, fewer) ↦
        inr (c ∷ t, rw (e, got) refl, rw (e, same) refl, rw e (omega arith))
  ]
]

slashes-le : (s : Bytes) → slashes s ≤ length s
slashes-le [] = omega arith
slashes-le (c ∷ s) = let ih = slashes-le s in ground arith

escape_loop-all : (fuel : ℕ) (s : Bytes) → slashes s < fuel → escape_loop fuel s ≡ escape_all s
unfolding escape_loop
escape_loop-all zero s h = elim h [ ]
escape_loop-all (suc fuel) s h = elim (escape_first_cases s) [
  | inl (e, same) ↦ rw (e, same) refl
  | inr (t, e, same, fewer) ↦ rw e (escape_loop-all fuel t (omega arith) ∙ same)
]

-- For every name that is not empty, the loop ends, leaves the first byte as it is and makes ':' of every
-- '/' behind it; the other bytes stay.
pub shm_name_escape-all : (c : ℕ) (s : Bytes) → shm_name_escape (c ∷ s) ≡ c ∷ escape_all s
unfolding shm_name_escape
shm_name_escape-all c s =
    ap (◌∷◌ c) (escape_loop-all (suc (length s)) s (omega (arith, slashes-le s)))
