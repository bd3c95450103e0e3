-- ===== src/Log/Setup.antt =====
-- When the log of src/log.c is set up, and what may go wrong there.
use ipfix.Common.{
  ℕ, Bool, true, List, [], ◌∷◌, Option, none, some, ◌≡◌, refl, sym, ◌∙◌, ◌↔◌, ◌≢◌, not, ◌&&◌, arith,
}
use ipfix.Log.{Log4c, Logger, log4c_cfg, fresh_logger}
use ipfix.Log.Delivery.{
  LogCall, Message, messages, deliver, opened, logged, log_all, log_all-logged,
}
use mathlib.Core.Option

-- The cleanup is registered once if there is a message.
abbrev pub registered : List Message → ℕ
registered [] = 0
registered (m ∷ ms) = 1

map-none : {X Y : Type 0} (f : X → Y) (o : Option X) → (Option.map f o ≡ none) ↔ (o ≡ none)
map-none f none = ((λ e. refl), λ e. refl)
map-none f (some x) = ((λ e. cc), λ e. cc)

cons-ne-nil : {X : Type 0} (x : X) (xs : List X) → (x ∷ xs) ≢ []
cons-ne-nil x xs e = cc

module _ {C S A : Type 0} (lc : Log4c C S A) where
  open lc use {access, fopen}

  -- Whether the setup would write to a stream that is NULL: the file is missing and cannot be made.
  abbrev pub unwritable : S → Bool
  unwritable s = not (access log4c_cfg s).0 && not (fopen log4c_cfg (access log4c_cfg s).1).0

  opened_fault : (s : S) → (opened lc (fresh_logger, s) ≡ none) ↔ (unwritable s ≡ true)
  opened_fault s = ground arith

  logged_fault :
      (ms : List Message) (s : S)
      → (logged lc ms (fresh_logger, s) ≡ none) ↔ ((ms ≢ []) × (unwritable s ≡ true))
  logged_fault [] s = ((λ e. cc), λ h. absurd (h.0 refl))
  logged_fault (m ∷ ms) s =
      let sent =
        map-none (λ (q : Logger C × S). (q.0, deliver lc q.0 (m ∷ ms) q.1))
          (opened lc (fresh_logger, s)) in
      let (missing, blocked) = opened_fault s in
      ((λ e. (cons-ne-nil m ms, missing (sent.0 e))), λ h. sent.1 (blocked h.1))

  -- From the start of the program, a sequence of calls writes to a stream that is NULL exactly if one of them has
  -- a text, there is no configuration of the log and its file cannot be made.
  pub log_all_fault :
      (cs : List (LogCall A)) (s : S)
      → (log_all lc cs (fresh_logger, s) ≡ none) ↔ ((messages lc cs ≢ []) × (unwritable s ≡ true))
  log_all_fault cs s = rw (log_all-logged lc cs (fresh_logger, s)) (logged_fault (messages lc cs) s)

  logged_exit :
      (ms : List Message) (s : S) (q : Logger C × S)
      → logged lc ms (fresh_logger, s) ≡ some q
      → q.0.at_exit ≡ registered ms
  logged_exit [] s q e = ground arith
  logged_exit (m ∷ ms) s q e = ground arith

  -- From the start of the program, after a sequence of calls that came back, log4c will be closed once at exit if
  -- one of them had a text, and never if none had.
  pub log_all_exit :
      (cs : List (LogCall A)) (s : S) (q : Logger C × S)
      → log_all lc cs (fresh_logger, s) ≡ some q
      → q.0.at_exit ≡ registered (messages lc cs)
  log_all_exit cs s q e =
      logged_exit (messages lc cs) s q (sym (log_all-logged lc cs (fresh_logger, s)) ∙ e)
