-- ===== src/Core.antt =====
-- crates/tx5-core/src/error.rs: the error type, and what becomes of an `std::io::Error` on its way through it.
-- Texts are their bytes. An `io::Error` is one that wraps an `Error`, or another, of which the code
-- only ever asks the text.
pub mod Errors
use tx.Base.{ℕ, List, [], ◌∷◌, ◌++◌}

abbrev pub Text : Type 0
Text = List ℕ

pub record Error : Type 0 where
  pub id : Text
  pub info : Text

pub data IoError : Type 0 where
  tx5 : Error → IoError
  other : Text → IoError

-- The identifier "Error".
abbrev pub error_id : Text
error_id = b'E' ∷ b'r' ∷ b'r' ∷ b'o' ∷ b'r' ∷ []

-- `From<String>`, and `From<&str>` by it.
unfoldable pub from_text : Text → Error
from_text t = record { id = t; info = [] }

-- `From<Error> for std::io::Error`.
unfoldable pub into_io : Error → IoError
into_io e = tx5 e

abbrev with_info : Text → Text
with_info [] = []
with_info (c ∷ info) = b':' ∷ b' ' ∷ c ∷ info

-- `Display::fmt`.
unfoldable pub display : Error → Text
display e = e.id ++ with_info e.info

-- `Display` of an `io::Error` passes on to what it wraps.
unfoldable pub to_string : IoError → Text
unfolding display
to_string (tx5 e) = display e
to_string (other t) = t

-- `From<std::io::Error>`.
unfoldable pub from_io : IoError → Error
from_io (tx5 e) = e
from_io (other t) = record { id = error_id; info = t }

-- `From<&std::io::Error>`.
unfoldable pub from_io_ref : IoError → Error
from_io_ref (tx5 e) = e
from_io_ref (other t) = record { id = error_id; info = t }

-- `Error::id`, `Error::err` and `Error::str`; `err` is given what its argument displays.
unfoldable pub id : Text → IoError
unfolding into_io
id t = into_io (record { id = t; info = [] })

unfoldable pub err : Text → IoError
unfolding into_io
err e = into_io (record { id = error_id; info = e })

unfoldable pub str : Text → IoError
unfolding into_io
str s = into_io (record { id = error_id; info = s })

-- `ErrorExt` for both types.
unfoldable pub error_ext_id : Error → Text
error_ext_id e = e.id

unfoldable pub error_err_clone : Error → IoError
unfolding into_io
error_err_clone e = into_io e

unfoldable pub io_ext_id : IoError → Text
io_ext_id (tx5 e) = e.id
io_ext_id (other t) = t

unfoldable pub err_clone : IoError → IoError
unfolding from_io_ref into_io
err_clone e = into_io (from_io_ref e)
