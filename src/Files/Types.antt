-- ===== src/Files/Types.antt =====
-- lib/transaction_files.c: `enum type` and `struct item`.
use xbps.Common.{ℕ, Bool, false, Option, none, CStr, ◌==◌, length, ◌∷◌}

-- `enum type`, with the 0 that a fresh item has.
pub data FileType : Type 0 where
  unset link dir regular conffile : FileType

abbrev pub type_code : FileType → ℕ
type_code unset = 0
type_code link = 1
type_code dir = 2
type_code regular = 3
type_code conffile = 4

infix 50 ◌same_type◌
abbrev pub ◌same_type◌ : FileType → FileType → Bool
a same_type b = type_code a == type_code b

-- One of the two anonymous structs `old` and `new`; NULL is `none`.
pub record Side : Type 0 where
  pub pkgname : Option CStr
  pub pkgver : Option CStr
  pub sha256 : Option CStr
  pub target : Option CStr
  pub size : ℕ
  pub type : FileType
  pub index : ℕ
  pub preserve : Bool
  pub update : Bool
  pub removepkg : Bool

-- `file` begins with a dot: paths are stored relative and looked up absolute.
pub record Item : Type 0 where
  pub file : CStr
  pub len : ℕ
  pub old : Side
  pub new : Side
  pub deleted : Bool

abbrev pub blank : Side
blank = record {
  pkgname = none;
  pkgver = none;
  sha256 = none;
  target = none;
  size = 0;
  type = unset;
  index = 0;
  preserve = false;
  update = false;
  removepkg = false;
}

-- addItem: a zeroed item, with `.` put in front of the path.
unfoldable pub add_item : CStr → Item
add_item file = record {
  file = b'.' ∷ file;
  len = length (b'.' ∷ file);
  old = blank;
  new = blank;
  deleted = false;
}
