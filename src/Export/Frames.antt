-- ===== src/Export/Frames.antt =====
-- Computations of the exporter (src/export.c): their effect on the heap, and their results.
use ipfix.Common.{◌==◌, ℕ, Bool, ◌≡◌, ◌≢◌, ◌⊎◌, refl, inl, inr, ◌∙◌, Bool-cases}
use ipfix.Export.Session.{
  Code, code_none, World, Result, ok, failed, T, done, ◌>>=◌, next_step, raise_unless,
  raise_if_zero,
}

-- A computation that only libfixbuf takes part in.
unfoldable pub Frames : {W A : Type 0} → T W A → Type 0
Frames m = (w : World _) → ((m w).1.heap ≡ w.heap) × ((m w).1.is_initialized ≡ w.is_initialized)

pub done-Frames : (W A : Type 0) (a : A) → Frames {W = W} {A = A} (done a)
unfolding Frames
done-Frames W A a w = (refl, refl)

-- A value with the property, or an error other than `code_none`.
unfoldable pub Yields : {W A : Type 0} → (A → Type 0) → T W A → Type 0
Yields G m =
    (w : World _)
    → ((a : _) × G a × ((m w).0 ≡ ok a)) ⊎ ((c : Code) × (c ≢ code_none) × ((m w).0 ≡ failed c))

abbrev pub Any : Unit {0} → Type 0
Any _ = Unit {0}

pub done-Yields : (W A : Type 0) (G : A → Type 0) (a : A) → G a → Yields {W = W} G (done a)
unfolding Yields
done-Yields W A G a g w = inl (a, g, refl)

module _ {W : Type 0} where
  pub raise_unless-Yields :
      (f : W → Bool × W) (c : Code) → c ≢ code_none → Yields Any (raise_unless f c)
  unfolding raise_unless Yields
  raise_unless-Yields f c k w = elim (Bool-cases (f w.fixbuf).0) [
    | inl e ↦ rw e (inl (tt, tt, refl))
    | inr e ↦ rw e (inr (c, k, refl))
  ]

  pub raise_if_zero-Yields :
      (f : W → ℕ × W) (c : Code) → c ≢ code_none → Yields (λ _. Unit {0}) (raise_if_zero f c)
  unfolding raise_if_zero Yields
  raise_if_zero-Yields f c k w = elim (Bool-cases ((f w.fixbuf).0 == 0)) [
    | inl e ↦ rw e (inr (c, k, refl))
    | inr e ↦ rw e (inl (_, tt, refl))
  ]

  next_step-Yields :
      {A B : Type 0} (G : A → Type 0) (H : B → Type 0) (f : A → T W B) (r : Result A × World W)
      → ((a : A) × G a × (r.0 ≡ ok a)) ⊎ ((c : Code) × (c ≢ code_none) × (r.0 ≡ failed c))
      → ((a : A) → G a → Yields H (f a))
      → ((b : B) × H b × ((next_step f r).0 ≡ ok b))
        ⊎ ((c : Code) × (c ≢ code_none) × ((next_step f r).0 ≡ failed c))
  unfolding Yields
  next_step-Yields G H f (x, w) (inl (a, g, e)) k = rw e (k a g w)
  next_step-Yields G H f (x, w) (inr (c, n, e)) k = rw e (inr (c, n, refl))

  pub bind-Yields :
      {A B : Type 0} (G : A → Type 0) (H : B → Type 0) (m : T W A) (f : A → T W B)
      → Yields G m
      → ((a : A) → G a → Yields H (f a))
      → Yields H (m >>= f)
  unfolding Yields
  bind-Yields G H m f e k w = next_step-Yields G H f (m w) (e w) k

  pub raise_unless-Frames : (f : W → Bool × W) (c : Code) → Frames (raise_unless f c)
  unfolding raise_unless Frames
  raise_unless-Frames f c w = (refl, refl)

  pub raise_if_zero-Frames : (f : W → ℕ × W) (c : Code) → Frames (raise_if_zero f c)
  unfolding raise_if_zero Frames
  raise_if_zero-Frames f c w = (refl, refl)

  next_step-Frames :
      {A B : Type 0} (f : A → T W B) (r : Result A × World W) (w : World W)
      → (r.1.heap ≡ w.heap) × (r.1.is_initialized ≡ w.is_initialized)
      → ((a : A) → Frames (f a))
      → ((next_step f r).1.heap ≡ w.heap) × ((next_step f r).1.is_initialized ≡ w.is_initialized)
  unfolding Frames
  next_step-Frames f (ok a, v) w e k = ((k a v).0 ∙ e.0, (k a v).1 ∙ e.1)
  next_step-Frames f (failed c, v) w e k = e

  pub bind-Frames :
      {A B : Type 0} (m : T W A) (f : A → T W B)
      → Frames m
      → ((a : A) → Frames (f a))
      → Frames (m >>= f)
  unfolding Frames
  bind-Frames m f e k w = next_step-Frames f (m w) w (e w) k
