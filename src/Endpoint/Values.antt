-- ===== src/Endpoint/Values.antt =====
-- What an `ip_endpoint` reads back.
use vee.Common.{
  ℕ, ◌≤◌, ◌<◌, ◌≡◌, ◌⊎◌, inl, inr, refl, Option, none, some, List, arith, length, dec_lt,
}
use vee.CString.{codes, c_str, IsText, strcpy_s_lem, strcpy_s-none}
use vee.Endpoint.{Endpoint, ip_buffer_size, null_endpoint, set_value, clear}

-- A call that gives an endpoint of the address `ip` and the port, its buffer of full size.
pub record Names (made : Option Endpoint) (ip : List ℕ) (port : ℕ) : Type 0 where
  pub object : Endpoint
  pub returns : made ≡ some object
  pub address : c_str object.ip ≡ ip
  pub same_port : object.port ≡ port
  pub full_size : length object.ip ≡ ip_buffer_size

-- On an endpoint whose buffer has 256 characters, `set_value` with an address of fewer characters
-- makes it name that address and port, and keeps the buffer's size; with a longer one it fails.
pub set_value-Names :
    (e : Endpoint) (ip : List ℕ) (port : ℕ)
    → length e.ip ≡ ip_buffer_size
    → IsText ip
    → ((length ip < ip_buffer_size) × Names (set_value e ip port) ip port)
      ⊎ ((ip_buffer_size ≤ length ip) × (set_value e ip port ≡ none))
unfolding set_value
set_value-Names e ip port size t = elim (dec_lt (length ip) ip_buffer_size) [
  | yes fits ↦
      let (buffer, copied, read, kept) = strcpy_s_lem e.ip ip t (omega arith) in
      inl (
        fits,
        record {
          object = record { ip = buffer; port = port };
          returns = ground (arith, copied);
          address = read;
          same_port = refl;
          full_size = omega arith;
        },
      )
  | no long ↦ inr (omega arith, ground (arith, strcpy_s-none e.ip ip (omega arith)))
]

-- Clearing an endpoint, whatever it named before, makes it name what a new one does.
pub clear-Names :
    (e : Endpoint)
    → length e.ip ≡ ip_buffer_size
    → Names (clear e) (c_str null_endpoint.ip) null_endpoint.port
unfolding clear
clear-Names e size =
    let (buffer, copied, read, kept) =
      strcpy_s_lem e.ip (codes "null") (omega arith) (omega arith) in
    record {
      object = record { ip = buffer; port = 0 };
      returns = ground (arith, copied);
      address = read;
      same_port = refl;
      full_size = omega arith;
    }
