-- ===== src/Udp.antt =====
-- `udp_stream` of comm/udp.cpp and vee/comm/udp.h. Boost's socket and its addresses are parameters.
pub mod Replies
pub mod Async
use vee.Common.{ℕ, zero, suc, Bool, true, false, Option, none, some, List, [], ◌∷◌, length, ◌==◌}
use vee.CString.{c_str}
use vee.Endpoint.{Endpoint, null_endpoint, set_value, assign, copy}
use vee.Tcp.{Buffer}
use vee.Tcp.Store.{Memory, load, store}
use vee.Tcp.Async.{AsyncIoResult, IoIssue, null, unknown, eof}

-- A `udp_endpoint` of Boost is an address and a port. A call that fails throws: it has no result.
pub record Datagrams (A S : Type 0) : Type 0 where
  pub from_string : List ℕ → Option A
  pub to_string : A → List ℕ
  pub any_address : A
  pub receive_from : ℕ → S → Option (List ℕ × (A × ℕ)) × S
  pub send_to : List ℕ → A × ℕ → S → Option ℕ × S

pub record UdpStream (A S : Type 0) : Type 0 where
  pub remote_endpoint_cache : Endpoint
  pub remote_endpoint : A × ℕ
  pub socket : S

-- What a client does with a stream, and does not look into.
pub data Op : Type 0 where
  map_to : List ℕ → ℕ → Op
  map_to_endpoint : Endpoint → Op
  read : Buffer → ℕ → Op
  read_named : Buffer → ℕ → Endpoint → Op
  write : Buffer → ℕ → Op
  write_named : Buffer → ℕ → Endpoint → Op

unfoldable pub get_remote_endpoint : {A S : Type 0} → UdpStream A S → Endpoint
get_remote_endpoint t = copy t.remote_endpoint_cache

module _ {A S : Type 0} (net : Datagrams A S) where
  unfoldable pub udp_stream : S → UdpStream A S
  udp_stream s = record {
    remote_endpoint_cache = null_endpoint;
    remote_endpoint = (net.any_address, 0);
    socket = s;
  }

  -- `update_remote_endpoint`, by an endpoint of Boost; none where its text does not fit.
  unfoldable pub update_remote_endpoint : A × ℕ → UdpStream A S → Option (UdpStream A S)
  update_remote_endpoint endpoint t =
      elim (set_value t.remote_endpoint_cache (net.to_string endpoint.0) endpoint.1) [
        | none ↦ none
        | some cache ↦ some (record t { remote_endpoint = endpoint; remote_endpoint_cache = cache })
      ]

  -- The constructor from a socket of Boost, which may have a remote endpoint.
  unfoldable pub udp_stream_of : S → Option (A × ℕ) → Option (UdpStream A S)
  unfolding udp_stream update_remote_endpoint
  udp_stream_of s none = some (udp_stream s)
  udp_stream_of s (some endpoint) = update_remote_endpoint endpoint (udp_stream s)

  -- `map_remote_endpoint`: where `from_string` throws, `noexcept` ends the program: none.
  unfoldable pub map_remote_endpoint : List ℕ → ℕ → UdpStream A S → Option (UdpStream A S)
  map_remote_endpoint ip port t = elim (net.from_string ip) [
    | none ↦ none
    | some address ↦ some (record t { remote_endpoint = (address, port) })
  ]

  -- `read_from`: the number of bytes, or none where the socket throws. It writes `remote_endpoint`,
  -- and not the endpoint that it is given.
  unfoldable pub read_from :
      Memory → Buffer → ℕ → Endpoint → UdpStream A S → Option ℕ × Memory × Endpoint × UdpStream A S
  read_from m buffer maximum_read_bytes endpoint_out t =
      let answer : Option (List ℕ × (A × ℕ)) × S = net.receive_from maximum_read_bytes t.socket in
      elim answer.0 [
        | none ↦ (none, m, endpoint_out, record t { socket = answer.1 })
        | some (bytes, sender) ↦ (
          some (length bytes),
          store m buffer.ptr bytes,
          endpoint_out,
          record t { remote_endpoint = sender; socket = answer.1 },
        )
      ]

  -- `write_to`: it sends to `remote_endpoint`, and not to the endpoint that it is given.
  unfoldable pub write_to :
      Memory → Buffer → ℕ → Endpoint → UdpStream A S → Option ℕ × UdpStream A S
  write_to m buffer bytes_requested endpoint t =
      let answer : Option ℕ × S =
        net.send_to (load m buffer.ptr bytes_requested) t.remote_endpoint t.socket in
      (answer.0, record t { socket = answer.1 })

  -- `read_some`, `read_explicit` and `write_some`.
  unfoldable pub read_some : Memory → Buffer → ℕ → UdpStream A S → Option ℕ × Memory × UdpStream A S
  unfolding read_from
  read_some m buffer maximum_read_bytes t =
      let (n, m', temp, t') = read_from m buffer maximum_read_bytes null_endpoint t in (n, m', t')

  unfoldable pub write_some : Memory → Buffer → ℕ → UdpStream A S → Option ℕ × UdpStream A S
  unfolding write_to
  write_some m buffer bytes_requested t =
      write_to m buffer bytes_requested t.remote_endpoint_cache t

  -- An operation, and the memory and the stream behind it; none where the program ends.
  unfoldable pub apply : Op → Memory × UdpStream A S → Option (Memory × UdpStream A S)
  unfolding map_remote_endpoint read_from read_some write_to write_some
  apply (map_to ip port) (m, t) = elim (map_remote_endpoint ip port t) [
    | none ↦ none
    | some t' ↦ some (m, t')
  ]
  apply (map_to_endpoint e) (m, t) = elim (map_remote_endpoint (c_str e.ip) e.port t) [
    | none ↦ none
    | some t' ↦ some (m, t')
  ]
  apply (read buffer n) (m, t) = let (k, m', t') = read_some m buffer n t in some (m', t')
  apply (read_named buffer n e) (m, t) =
      let (k, m', e', t') = read_from m buffer n e t in some (m', t')
  apply (write buffer n) (m, t) = let (k, t') = write_some m buffer n t in some (m, t')
  apply (write_named buffer n e) (m, t) = let (k, t') = write_to m buffer n e t in some (m, t')

  unfoldable pub apply_all : List Op → Memory × UdpStream A S → Option (Memory × UdpStream A S)
  unfolding apply
  apply_all [] w = some w
  apply_all (op ∷ ops) w = elim (apply op w) [ none ↦ none | some w' ↦ apply_all ops w' ]
