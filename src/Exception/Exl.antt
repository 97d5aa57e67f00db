-- ===== src/Exception/Exl.antt =====
-- vee/exl.h and exception/exl.cpp: the errors of the delegates and of the enumerations.
use vee.Common.{ℕ, Option, List}
use vee.CString.{codes}
use vee.Exception.{Base, exception_of, to_string}

pub data Exl : Type 0 where
  precondition_violated_exception : Exl
  key_generation_failed_exception : Exl
  target_not_found_exception : Exl
  key_already_exist_exception : Exl
  not_implemented_exception : Exl

-- The message that each class hands to its base.
abbrev pub exl_message : Exl → List ℕ
exl_message precondition_violated_exception = codes "precondition violated exception"
exl_message key_generation_failed_exception = codes "key gerneration failed exception"
exl_message target_not_found_exception = codes "target not found exception"
exl_message key_already_exist_exception = codes "key already exist exception"
exl_message not_implemented_exception = codes "not implemented exception"

-- An object of the class, made with no argument.
unfoldable pub make_exl : Exl → Option Base
unfolding exception_of
make_exl e = exception_of (exl_message e)

-- Each class overrides `to_string` by the one of its base.
unfoldable pub exl_to_string : Exl → Base → List ℕ
unfolding to_string
exl_to_string e b = to_string b
