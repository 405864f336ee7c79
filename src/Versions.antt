-- ===== src/Versions.antt =====
-- What the code takes from the C library and from lib/external/dewey.c, a copy of NetBSD's
-- version comparison: parameters of the model.
use xbps.Common.{Bool, CStr, ℤ, pos, ◌≡◌}
use xbps.Util.Pattern.{pkgpattern_match}

pub record Versions : Type 0 where
  -- `fnmatch(pattern, string, FNM_PERIOD) == 0`
  pub fnmatch : CStr → CStr → Bool
  -- dewey_match(pattern, pkg): 1, 0, or -1 on an error
  pub dewey_match : CStr → CStr → ℤ
  -- xbps_cmpver: -1, 0 or 1
  pub cmpver : CStr → CStr → ℤ

-- xbps_pkgpattern_match with these.
abbrev pub pattern_match : Versions → CStr → CStr → ℤ
pattern_match v = pkgpattern_match v.fnmatch v.dewey_match

-- What xbps_cmpver documents of one version compared with itself.
pub record CmpverRefl (v : Versions) : Type 0 where
  pub same : (a : CStr) → v.cmpver a a ≡ pos 0
