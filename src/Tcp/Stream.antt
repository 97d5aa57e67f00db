-- ===== src/Tcp/Stream.antt =====
-- Connecting and disconnecting a `tcp_stream`, and moving one: comm/tcp.cpp. What Boost does with
-- addresses and sockets is a parameter.
pub mod Peer
pub mod Completion
use vee.Common.{ℕ, zero, suc, Bool, true, false, Option, none, some, List, [], ◌∷◌}
use vee.CString.{c_str}
use vee.Endpoint.{Endpoint, null_endpoint, clear, set_value, assign, copy}

-- What the stream calls: `from_string` throws on a text that is no address.
pub record Network (A S : Type 0) : Type 0 where
  pub from_string : List ℕ → Option A
  pub is_open : S → Bool
  pub close : S → S
  -- The error, which is 0 where there is none.
  pub connect : A → ℕ → S → ℕ × S
  -- The state that a moved socket leaves behind, and a new one.
  pub fresh : S

-- `remote_endpoint` and `socket`; `io_service` and `on_destroy` have no part in these calls.
pub record TcpStream (S : Type 0) : Type 0 where
  pub remote_endpoint : Endpoint
  pub socket : S

-- How `connect` ends.
pub data Ending : Type 0 where
  connected : Ending
  address_refused : Ending  -- the exception of `from_string`
  connection_failed : Ending  -- `connection_failed_exception`

unfoldable pub swap : {S : Type 0} → TcpStream S → TcpStream S → TcpStream S × TcpStream S
swap t other = (record t { socket = other.socket }, record other { socket = t.socket })

unfoldable pub get_remote_endpoint : {S : Type 0} → TcpStream S → Endpoint
get_remote_endpoint t = copy t.remote_endpoint

module _ {A S : Type 0} (network : Network A S) where
  unfoldable pub tcp_stream : TcpStream S
  tcp_stream = record { remote_endpoint = null_endpoint; socket = network.fresh }

  -- None where the text does not fit the endpoint's buffer, here and in what follows.
  unfoldable pub disconnect : TcpStream S → Option (TcpStream S)
  disconnect t = elim (clear t.remote_endpoint) [
    | none ↦ none
    | some e ↦ some (record { remote_endpoint = e; socket = network.close t.socket })
  ]

  -- The first test of `connect`.
  unfoldable pub disconnect_open : TcpStream S → Option (TcpStream S)
  unfolding disconnect
  disconnect_open t = elim (network.is_open t.socket) [ true ↦ disconnect t | false ↦ some t ]

  -- The rest of `connect`.
  unfoldable pub connect_closed : List ℕ → ℕ → TcpStream S → Option (Ending × TcpStream S)
  connect_closed ip port t = elim (network.from_string ip) [
    | none ↦ some (address_refused, t)
    | some address ↦
        let answer : ℕ × S = network.connect address port t.socket in
        elim answer.0 [
          | suc err ↦ some (connection_failed, record t { socket = answer.1 })
          | zero ↦ elim (set_value t.remote_endpoint ip port) [
            | none ↦ none
            | some e ↦ some (connected, record { remote_endpoint = e; socket = answer.1 })
          ]
        ]
  ]

  unfoldable pub connect : List ℕ → ℕ → TcpStream S → Option (Ending × TcpStream S)
  unfolding disconnect_open connect_closed
  connect ip port t = elim (disconnect_open t) [ none ↦ none | some t' ↦ connect_closed ip port t' ]

  -- `connect` with an endpoint.
  unfoldable pub connect_endpoint : Endpoint → TcpStream S → Option (Ending × TcpStream S)
  unfolding connect
  connect_endpoint e t = connect (c_str e.ip) e.port t

  -- `operator=` from a stream that is moved from: the two streams afterwards.
  unfoldable pub move : TcpStream S → TcpStream S → TcpStream S × TcpStream S
  move t rhs = (record t { socket = rhs.socket }, record rhs { socket = network.fresh })

  -- The constructor from a stream that is moved from.
  unfoldable pub moved : TcpStream S → TcpStream S × TcpStream S
  moved other = (
    record { remote_endpoint = null_endpoint; socket = other.socket },
    record other { socket = network.fresh },
  )
