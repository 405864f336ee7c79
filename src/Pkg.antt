-- ===== src/Pkg.antt =====
-- Package dictionaries: the keys that the modelled code reads and writes, as the fields of a
-- record. `none` is a missing key; a dictionary that lacks `transaction` has type `unknown`.
use xbps.Common.{ℕ, Bool, Option, List, CStr, ◌==◌}

-- xbps_trans_type_t
pub data TransType : Type 0 where
  unknown install reinstall update configure remove hold download : TransType

abbrev pub trans_code : TransType → ℕ
trans_code unknown = 0
trans_code install = 1
trans_code reinstall = 2
trans_code update = 3
trans_code configure = 4
trans_code remove = 5
trans_code hold = 6
trans_code download = 7

infix 50 ◌same_trans◌
abbrev pub ◌same_trans◌ : TransType → TransType → Bool
a same_trans b = trans_code a == trans_code b

pub record Pkg : Type 0 where
  pub pkgver : Option CStr
  pub pkgname : Option CStr
  pub repository : Option CStr
  pub state : Option CStr
  pub transaction : TransType
  pub automatic_install : Option Bool
  pub hold : Option Bool
  pub repolock : Option Bool
  pub replaced : Option Bool
  pub preserve : Option Bool
  pub provides : Option (List CStr)
  pub replaces : Option (List CStr)
  pub conflicts : Option (List CStr)
  pub run_depends : Option (List CStr)
  pub reverts : Option (List CStr)
  pub shlib_provides : Option (List CStr)
  pub shlib_requires : Option (List CStr)

-- xbps_transaction_pkg_type
abbrev pub pkg_type : Pkg → TransType
pkg_type p = p.transaction

-- An entry of the pkgdb dictionary: its key and the package.
pub record Installed : Type 0 where
  pub key : CStr
  pub pkgd : Pkg
