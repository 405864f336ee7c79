-- ===== src/Util.antt =====
-- lib/util.c
pub mod Pkgver
pub mod Pattern
pub mod Binpkg
pub mod Slashes
