-- ===== src/Orphans.antt =====
-- lib/package_orphans.c, xbps_find_pkg_orphans in automatic mode: the installed packages that
-- nothing needs.
pub mod Listed
pub mod Passes
pub mod Least
pub mod Recursive
pub mod Rounds
pub mod Removable
pub mod Removed
use xbps.Common.{
  ℕ, zero, suc, ◌+◌, Bool, true, false, not, Option, none, some, List, [], ◌∷◌, ◌++◌, if◌then◌else◌,
  ◌==◌, CStr, length, is_some, with_default, Run, ret, ◌>>=◌,
}
use xbps.Versions.{Versions}
use xbps.Pkg.{Pkg, Installed, unknown}
use xbps.Arrays.{find_pkg_in_array}
use xbps.Revdeps.{get_pkg_revdeps}

module _ (v : Versions) where
  -- `if (xbps_find_pkg_in_array(array, pkgver, 0))`
  unfoldable pub is_queued : List Pkg → CStr → Run Bool
  is_queued array pkgver = find_pkg_in_array v array pkgver unknown >>= λ obj. ret (is_some obj)

  -- The loop that counts the reverse dependencies in the array.
  unfoldable pub count_queued : List Pkg → List CStr → ℕ → Run ℕ
  unfolding is_queued
  count_queued array [] cnt = ret cnt
  count_queued array (revdepver ∷ revdeps) cnt = is_queued array revdepver >>= λ found.
      count_queued array revdeps (if found then cnt + 1 else cnt)

  -- The test of one package that is automatic and not in the array yet: whether it is added.
  unfoldable pub is_needless : List Pkg → List CStr → Run Bool
  unfolding count_queued
  is_needless array revdeps =
      if length revdeps == 0
      then ret true
      else count_queued array revdeps 0 >>= λ cnt. ret (cnt == length revdeps)

  module _ (pkgdb : List Installed) (revs : List (CStr × List CStr)) where
    -- One run of the body of the inner loop, on the array and the flag `added`.
    unfoldable pub visit : Bool × List Pkg → Installed → Run (Bool × List Pkg)
    unfolding is_needless is_queued
    visit (added, array) obj = elim (obj.pkgd.pkgver) [
      | none ↦ ret (added, array)
      | some pkgver ↦
          if not (with_default false obj.pkgd.automatic_install)
          then ret (added, array)
          else is_queued array pkgver >>= λ queued.
              if queued
              then ret (added, array)
              else get_pkg_revdeps v pkgdb revs pkgver >>= λ revdeps.
                  is_needless array (with_default [] revdeps) >>= λ needless.
                  ret (if needless then (true, array ++ obj.pkgd ∷ []) else (added, array))
    ]

    -- The inner loop, over all packages that are left.
    unfoldable pub visit_all : Bool × List Pkg → List Installed → Run (Bool × List Pkg)
    unfolding visit
    visit_all s [] = ret s
    visit_all s (obj ∷ objs) = visit s obj >>= λ s'. visit_all s' objs

    -- `for (;;)`, run at most `fuel` times; `none` when the fuel is out.
    unfoldable pub iterate : ℕ → List Pkg → Run (Option (List Pkg))
    unfolding visit_all
    iterate zero array = ret none
    iterate (suc fuel) array =
        visit_all (false, array) pkgdb >>= λ s. if s.0 then iterate fuel s.1 else ret (some s.1)

    -- One pass for each installed package and a last one.
    unfoldable pub find_pkg_orphans : Run (Option (List Pkg))
    unfolding iterate
    find_pkg_orphans = iterate (length pkgdb + 1) []
