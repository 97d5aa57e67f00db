-- ===== src/Tcp/Server.antt =====
-- `tcp_server` of comm/tcp.cpp, and the constructor of a `tcp_stream` from a socket that Boost
-- connected. Boost's acceptor is a parameter, and so is what it says of a socket.
pub mod Sessions
use vee.Common.{
  ℕ, zero, suc, ◌<◌, ◌≡◌, ◌≢◌, ◌∙◌, ◌⊎◌, inl, inr, refl, sym, ap, subst, Bool, Bool-cases, true,
  false, Option, none, some, List, length, arith,
}
use vee.CString.{c_str, codes, IsText}
use vee.Endpoint.{Endpoint, ip_buffer_size, null_endpoint, set_value, copy}
use vee.Endpoint.Values.{Names, set_value-Names}
use vee.Exception.Comm.{Comm, accept_failed_exception}
use vee.Tcp.Stream.{Network, TcpStream, tcp_stream, get_remote_endpoint}
use vee.Tcp.Stream.Peer.{Reported}

-- What the server calls, besides the sockets of a `Network`.
pub record Listener (S Q : Type 0) : Type 0 where
  -- A new acceptor on a port of any address.
  pub listen : ℕ → Q
  pub is_open : Q → Bool
  pub close : Q → Q
  -- The accepted socket, or none where the call throws.
  pub accept : Q → Option S × Q
  -- The start of an accept that is completed later.
  pub begin_accept : Q → Q
  -- The state that a moved acceptor leaves behind.
  pub fresh : Q
  -- The address and the port of the other end, or none where the call gives an error.
  pub remote_endpoint : S → Option (List ℕ × ℕ)

-- `socket`, `endpoint`, which is the port here, and `acceptor`.
pub record TcpServer (S Q : Type 0) : Type 0 where
  pub socket : S
  pub port : ℕ
  pub acceptor : Q

-- `async_accept_result`; `server_ptr` and `callback` are those of the call.
pub record AsyncAcceptResult (S : Type 0) : Type 0 where
  pub is_success : Bool
  pub session : Option (TcpStream S)
  pub message : List ℕ

module _ {A S Q : Type 0} (network : Network A S) (listener : Listener S Q) where
  -- The constructor of a stream from a socket that is moved; none where the address does not fit.
  unfoldable pub stream_of : S → Option (TcpStream S)
  stream_of socket = elim (listener.remote_endpoint socket) [
    | none ↦ some (record { remote_endpoint = null_endpoint; socket = socket })
    | some (address, port) ↦ elim (set_value null_endpoint address port) [
      | none ↦ none
      | some e ↦ some (record { remote_endpoint = e; socket = socket })
    ]
  ]

  unfoldable pub tcp_server : ℕ → TcpServer S Q
  tcp_server port = record { socket = network.fresh; port = port; acceptor = listener.listen port }

  -- The constructor from a server that is moved from.
  unfoldable pub moved : TcpServer S Q → TcpServer S Q × TcpServer S Q
  moved other = (
    record { socket = other.socket; port = other.port; acceptor = other.acceptor },
    record { socket = network.fresh; port = other.port; acceptor = listener.fresh },
  )

  -- `close`, which the destructor calls.
  unfoldable pub close : TcpServer S Q → TcpServer S Q
  close server =
      let acceptor : Q = elim (listener.is_open server.acceptor) [
        | true ↦ listener.close server.acceptor
        | false ↦ server.acceptor
      ] in
      let socket : S = elim (network.is_open server.socket) [
        | true ↦ network.close server.socket
        | false ↦ server.socket
      ] in
      record { socket = socket; port = server.port; acceptor = acceptor }

  -- `accept`: what it throws or returns; none where the address of the session does not fit.
  unfoldable pub accept : TcpServer S Q → Option ((Comm ⊎ TcpStream S) × TcpServer S Q)
  unfolding stream_of
  accept server =
      let answer : Option S × Q = listener.accept server.acceptor in
      let server' : TcpServer S Q = record {
        socket = server.socket;
        port = server.port;
        acceptor = answer.1;
      } in
      elim answer.0 [
        | none ↦ some (inl accept_failed_exception, server')
        | some client ↦ elim (stream_of client) [
          | none ↦ none
          | some session ↦ some (inr session, server')
        ]
      ]

  -- `async_accept`: the new socket for the client, and the server.
  unfoldable pub async_accept : TcpServer S Q → S × TcpServer S Q
  async_accept server = (
    network.fresh,
    record {
      socket = server.socket;
      port = server.port;
      acceptor = listener.begin_accept server.acceptor;
    },
  )

  -- `on_accept` of `async_accept`, by the error, which is 0 where there is none, its message, and
  -- the socket of the call, connected where there is no error.
  unfoldable pub on_accept : ℕ → List ℕ → S → Option (AsyncAcceptResult S)
  unfolding stream_of
  on_accept error message client = elim error [
    | suc err ↦ some (record { is_success = false; session = none; message = message })
    | zero ↦ elim (stream_of client) [
      | none ↦ none
      | some session ↦
          some (record { is_success = true; session = some session; message = message })
    ]
  ]
