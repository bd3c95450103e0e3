-- ===== src/Fwatch.antt =====
-- File watching: src/fwatch.c, src/include/fwatch.h. With `NV_IPFIX_USE_INOTIFY` the function would set inotify up;
-- nothing in the repository defines that name, and the handle is the invalid one in either case.
use ipfix.Common.{zero, Bool, true, false, not, if◌then◌else◌}
use ipfix.Common.Int.{ℤ, negsuc}

-- `nvIPFIX_FWATCH_HANDLE`
abbrev pub FwatchHandle : Type 0
FwatchHandle = ℤ

-- `NV_IPFIX_INVALID_FWATCH_HANDLE`
abbrev pub invalid_fwatch_handle : FwatchHandle
invalid_fwatch_handle = negsuc 0

-- The static variables.
pub record Watch : Type 0 where
  pub is_initialized : Bool
  pub inotify_descriptor : ℤ

abbrev is_error : ℤ → Bool
is_error (negsuc zero) = true
is_error _ = false

-- `inotify_init` is given by its result, and `use_inotify` tells whether `NV_IPFIX_USE_INOTIFY` is defined.
unfoldable pub fwatch_add : Bool → ℤ → Watch → FwatchHandle × Watch
fwatch_add use_inotify inotify_init w = (
  invalid_fwatch_handle,
  if w.is_initialized
      then w
      else if use_inotify
      then record {
        is_initialized = not (is_error inotify_init);
        inotify_descriptor = inotify_init;
      }
      else w,
)
