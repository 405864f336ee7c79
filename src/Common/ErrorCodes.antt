-- ===== src/Common/ErrorCodes.antt =====
-- The error numbers that the modelled functions return; a C result of 0 is `none`.
use mathlib.Core.Option.{Option}

pub data Errno : Type 0 where
  eperm eexist enoent einval enotempty enotsup eloop enodev enxio eagain enoexec enospc ebusy :
      Errno
  erange enomem other : Errno

abbrev pub Rv : Type 0
Rv = Option Errno
