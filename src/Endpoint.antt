-- ===== src/Endpoint.antt =====
-- `ip_endpoint` of vee/comm/ip.h and comm/ip.cpp: an address in a buffer of 256 characters, and a
-- port.
pub mod Values
use vee.Common.{ℕ, Option, none, some, List, [], ◌∷◌, ◌++◌, replicate}
use vee.CString.{codes, strcpy_s}

abbrev pub ip_buffer_size : ℕ
ip_buffer_size = 256

pub record Endpoint : Type 0 where
  pub ip : List ℕ
  pub port : ℕ

-- The default values of the members.
abbrev pub null_endpoint : Endpoint
null_endpoint = record { ip = codes "null" ++ replicate 252 0; port = 0 }

-- The constructor from an address and a port, over the buffer's default value; none where the
-- address does not fit.
unfoldable pub endpoint : List ℕ → ℕ → Option Endpoint
endpoint ip port = elim (strcpy_s null_endpoint.ip ip) [
  | none ↦ none
  | some buffer ↦ some (record { ip = buffer; port = port })
]

-- The copying constructor and the assignment move the whole buffer.
unfoldable pub copy : Endpoint → Endpoint
copy other = record { ip = other.ip; port = other.port }

unfoldable pub assign : Endpoint → Endpoint → Endpoint
assign e other = record e { ip = other.ip; port = other.port }

unfoldable pub set_value : Endpoint → List ℕ → ℕ → Option Endpoint
set_value e ip port = elim (strcpy_s e.ip ip) [
  | none ↦ none
  | some buffer ↦ some (record e { ip = buffer; port = port })
]

unfoldable pub clear : Endpoint → Option Endpoint
clear e = elim (strcpy_s e.ip (codes "null")) [
  | none ↦ none
  | some buffer ↦ some (record e { ip = buffer; port = 0 })
]
