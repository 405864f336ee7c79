-- ===== src/Tests/JoinedPaths.antt =====
-- Paths in small buffers: lib/util_path.c.
use xbps.Common.{
  true, ◌<◌, ◌≤◌, none, some, [], ◌∷◌, ◌≡◌, refl, CStr, codes, arith, length, ltb, if◌then◌else◌,
}
use xbps.Paths.{Written, path_append, path_prepend, path_join}
use xbps.Paths.Joined.{
  below, above, Bounded, path_append-below, path_append-Bounded, path_prepend-above,
}
use xbps.Paths.Clean.{path_clean}
use xbps.Paths.Clean.Canonical.{canonical}
use xbps.Paths.Clean.Cleaned.{path_clean-canonical}
use xbps.Paths.Clean.Room.{Passes, from_root, gone_over, round, ended, path_clean-Passes}
use xbps.Paths.Clean.{Cleaning, clean_loop, cleaned}
use xbps.Paths.JoinAll.{join_all, path_join-join_all}

abbrev usr : CStr
usr = codes "/usr"

abbrev lib : CStr
lib = codes "/lib"

appended : path_append usr 16 lib ≡ record { dst = codes "/usr/lib"; result = some 8 }
unfolding path_append
appended = refl

-- The NUL behind the slash is written at index 3, behind a buffer of 3 bytes.
slash_at_the_end :
    path_join 3 (codes "ab" ∷ codes "c" ∷ []) ≡ record { dst = codes "ab/"; result = none }
unfolding path_join xbps.Paths.join_value xbps.Paths.join_slash xbps.Paths.without_slash
slash_at_the_end = refl

path_append-below_example :
    path_append usr 16 lib ≡ record { dst = below usr lib; result = some (length (below usr lib)) }
unfolding below xbps.Paths.Joined.slashed xbps.Paths.last_is xbps.Paths.without_slash
path_append-below_example = path_append-below usr lib 16 (omega arith) (omega arith)

path_append-Bounded_example : Bounded 6 (path_append usr 6 lib)
path_append-Bounded_example = path_append-Bounded usr lib 6 (omega arith)

path_prepend-above_example :
    ((path_prepend lib 16 usr).result
      ≡ (if ltb (length (above usr lib)) 16 then some (length (above usr lib)) else none))
    × (length (above usr lib) < 16 → (path_prepend lib 16 usr).dst ≡ above usr lib)
    × (length ((path_prepend lib 16 usr).dst) < 16)
path_prepend-above_example = path_prepend-above lib usr 16 (omega arith) (omega arith)

path_join-join_all_example :
    (length (join_all usr (lib ∷ codes "x" ∷ [])) < 16
      → path_join 16 (usr ∷ lib ∷ codes "x" ∷ []) ≡ record {
        dst = join_all usr (lib ∷ codes "x" ∷ []);
        result = some (length (join_all usr (lib ∷ codes "x" ∷ [])));
      })
    × (16 ≤ length (join_all usr (lib ∷ codes "x" ∷ []))
        → (path_join 16 (usr ∷ lib ∷ codes "x" ∷ [])).result ≡ none)
path_join-join_all_example = path_join-join_all usr (lib ∷ codes "x" ∷ []) 16 (omega arith)

abbrev detour : CStr
detour = codes "/usr//./lib/../bin/"

usr_bin : path_clean detour ≡ record { dst = codes "/usr/bin"; result = some 8 }
unfolding path_clean xbps.Paths.Clean.cleaned xbps.Paths.Clean.clean_step
    xbps.Paths.Clean.dot_at_end xbps.Paths.Clean.copied xbps.Paths.Clean.add_element
    xbps.Paths.Clean.go_up xbps.Paths.Clean.backtrack xbps.Paths.Clean.backwards
usr_bin = refl

outside : path_clean (codes "a/../../../b") ≡ record { dst = codes "../../b"; result = some 7 }
unfolding path_clean xbps.Paths.Clean.cleaned xbps.Paths.Clean.clean_step
    xbps.Paths.Clean.dot_at_end xbps.Paths.Clean.copied xbps.Paths.Clean.add_element
    xbps.Paths.Clean.go_up xbps.Paths.Clean.backtrack xbps.Paths.Clean.backwards
outside = refl

path_clean-canonical_example :
    path_clean detour ≡ record { dst = canonical detour; result = some (length (canonical detour)) }
path_clean-canonical_example = path_clean-canonical detour (omega arith)

-- The point behind `/usr` in `/usr//./lib/../bin/`.
abbrev behind_usr : Cleaning
behind_usr = record { out = codes "rsu/"; dotdot = 1 }

usr-Passes : Passes detour true (codes "//./lib/../bin/") 0 behind_usr
unfolding xbps.Paths.Clean.is_rooted xbps.Paths.Clean.clean_step xbps.Paths.Clean.dot_at_end
    xbps.Paths.Clean.copied xbps.Paths.Clean.add_element
usr-Passes = gone_over (gone_over (round (from_root refl refl)))

path_clean-Passes_example :
    (length ((path_clean detour).dst) ≤ 19)
    × (4 ≤ 19)
    × (cleaned detour ≡ ended (clean_loop true (codes "//./lib/../bin/") 0 behind_usr))
path_clean-Passes_example = path_clean-Passes detour (omega arith) usr-Passes
