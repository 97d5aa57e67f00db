-- ===== src/Exception/Comm.antt =====
-- vee/comm.h and exception/exl_net.cpp: the errors of the connections.
use vee.Common.{ℕ, Option, List}
use vee.CString.{codes}
use vee.Exception.{Base, exception_of, to_string}

pub data Comm : Type 0 where
  protocol_mismatch_exception : Comm
  connection_failed_exception : Comm
  connection_already_disconnected : Comm
  accept_failed_exception : Comm

-- The message that each class hands to its base.
abbrev pub comm_message : Comm → List ℕ
comm_message protocol_mismatch_exception = codes "protocol mismatch exception"
comm_message connection_failed_exception = codes "connection failed exception"
comm_message connection_already_disconnected = codes "connection already disconnected exception"
comm_message accept_failed_exception = codes "accept failed exception"

-- An object of the class, made with no argument.
unfoldable pub make_comm : Comm → Option Base
unfolding exception_of
make_comm e = exception_of (comm_message e)

-- Each class overrides `to_string` by the one of its base.
unfoldable pub comm_to_string : Comm → Base → List ℕ
unfolding to_string
comm_to_string e b = to_string b
