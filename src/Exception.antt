-- ===== src/Exception.antt =====
-- vee/exception.h and exception/exception.cpp: the base of the library's exceptions, with a message
-- in a buffer of 256 characters. The children of this module are the headers that derive from it.
pub mod Exl
pub mod Io
pub mod Comm
pub mod Busy
pub mod Messages
use vee.Common.{ℕ, Option, none, some, List, [], ◌∷◌, replicate, set}
use vee.CString.{codes, c_str, strcpy_s}

abbrev pub desc_buffer_size : ℕ
desc_buffer_size = 256

-- `vee::exception`.
pub record Base : Type 0 where
  pub desc : List ℕ

-- `desc.fill(0)`.
abbrev pub cleared : List ℕ
cleared = replicate desc_buffer_size 0

-- The constructor with no argument writes the four characters of "null".
unfoldable pub exception : Base
exception = record { desc = set (set (set (set cleared 0 b'n') 1 b'u') 2 b'l') 3 b'l' }

-- The constructor from a message; none where the message does not fit.
unfoldable pub exception_of : List ℕ → Option Base
unfolding strcpy_s
exception_of msg = elim (strcpy_s cleared msg) [
  | none ↦ none
  | some desc ↦ some (record { desc = desc })
]

-- `to_string` returns the buffer, read as a string.
unfoldable pub to_string : Base → List ℕ
to_string e = c_str e.desc
