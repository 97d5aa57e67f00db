-- ===== src/Tcp/Server/Sessions.antt =====
-- The streams that a `tcp_server` makes, and what is open after `close`.
use vee.Common.{
  ℕ, ◌<◌, ◌≡◌, ◌⊎◌, inl, inr, refl, Bool-cases, true, false, Option-cases, none, some, List, length,
  arith,
}
use vee.CString.{codes, IsText}
use vee.Endpoint.{ip_buffer_size, null_endpoint, copy}
use vee.Endpoint.Values.{set_value-Names}
use vee.Exception.Comm.{accept_failed_exception}
use vee.Tcp.Stream.{Network, TcpStream, get_remote_endpoint}
use vee.Tcp.Stream.Peer.{Reported}
use vee.Tcp.Server.{Listener, TcpServer, stream_of, close, accept, on_accept}

module _ {A S Q : Type 0} (network : Network A S) (listener : Listener S Q) where
  -- An address that Boost prints is a text, and fits the buffer of an endpoint.
  abbrev pub HasShortAddresses : Type 0
  HasShortAddresses =
      (client : S) (ip : List ℕ) (port : ℕ)
      → listener.remote_endpoint client ≡ some (ip, port)
      → IsText ip × (length ip < ip_buffer_size)

  -- A stream on a socket reports the other end of it, where there is one.
  pub data Serves (client : S) (t : TcpStream S) : Type 0 where
    known :
        (ip : List ℕ) (port : ℕ)
        → listener.remote_endpoint client ≡ some (ip, port)
        → t.socket ≡ client
        → Reported network ip port t
        → Serves client t
    unknown :
        listener.remote_endpoint client ≡ none
        → t.socket ≡ client
        → Reported network (codes "null") 0 t
        → Serves client t

  stream_of-Serves :
      HasShortAddresses
      → (client : S)
      → (t : TcpStream S) × (stream_of network listener client ≡ some t) × Serves client t
  unfolding stream_of get_remote_endpoint copy
  stream_of-Serves short client = elim (Option-cases (listener.remote_endpoint client)) [
    | inl h ↦ (
      record { remote_endpoint = null_endpoint; socket = client },
      ground (arith, h),
      unknown h refl (record { address = refl; same_port = refl }),
    )
    | inr ((ip, port), h) ↦
        let (text, fits) = short client ip port h in
        elim (set_value-Names null_endpoint ip port refl text) [
          | inr (long, e) ↦ absurd (omega arith)
          | inl (lt, c) ↦ (
            record { remote_endpoint = c.object; socket = client },
            ground (arith, h, c.returns),
            known ip port h refl (record { address = c.address; same_port = c.same_port }),
          )
        ]
  ]

  -- The server after a call of the acceptor.
  abbrev pub called : TcpServer S Q → TcpServer S Q
  called server = record {
    socket = server.socket;
    port = server.port;
    acceptor = (listener.accept server.acceptor).1;
  }

  -- A waiting call and the completion of another give streams with the same state.
  pub record Session (server : TcpServer S Q) (message : List ℕ) (client : S) : Type 0 where
    pub session : TcpStream S
    pub accepted : accept network listener server ≡ some (inr session, called server)
    pub completed :
        on_accept network listener 0 message client
        ≡ some (record { is_success = true; session = some session; message = message })
    pub serves : Serves client session

  -- Where Boost's addresses are short texts, `accept` throws the exception for it if the acceptor
  -- throws; otherwise it returns a stream on the accepted socket, the one that `async_accept` hands
  -- to its callback when it completes with that socket and no error. The stream reports the address
  -- and the port of the other end, and those of a new endpoint where Boost does not know them.
  pub accept-Session :
      HasShortAddresses
      → (server : TcpServer S Q) (message : List ℕ)
      → (((listener.accept server.acceptor).0 ≡ none)
          × (accept network listener server ≡ some (inl accept_failed_exception, called server)))
        ⊎ ((client : S) × ((listener.accept server.acceptor).0 ≡ some client)
            × Session server message client)
  unfolding accept on_accept
  accept-Session short server message = elim (Option-cases (listener.accept server.acceptor).0) [
    | inl h ↦ inl (h, ground (arith, h))
    | inr (client, h) ↦
        let (t, made, serves) = stream_of-Serves short client in
        inr (
          client,
          h,
          record {
            session = t;
            accepted = ground (arith, h, made);
            completed = ground (arith, made);
            serves = serves;
          },
        )
  ]

  -- Where a closed acceptor and a closed socket are not open, neither is open after `close`, and a
  -- second `close`, such as the destructor's, changes nothing.
  pub close-close :
      ((q : Q) → listener.is_open (listener.close q) ≡ false)
      → ((s : S) → network.is_open (network.close s) ≡ false)
      → (server : TcpServer S Q)
      → (listener.is_open (close network listener server).acceptor ≡ false)
        × (network.is_open (close network listener server).socket ≡ false)
        × (close network listener (close network listener server) ≡ close network listener server)
  unfolding close
  close-close closes shuts server = elim (Bool-cases (listener.is_open server.acceptor)) [
    | inl o ↦ elim (Bool-cases (network.is_open server.socket)) [
      | inl p ↦ ground (arith, o, p, closes server.acceptor, shuts server.socket)
      | inr p ↦ ground (arith, o, p, closes server.acceptor)
    ]
    | inr o ↦ elim (Bool-cases (network.is_open server.socket)) [
      | inl p ↦ ground (arith, o, p, shuts server.socket)
      | inr p ↦ ground (arith, o, p)
    ]
  ]
