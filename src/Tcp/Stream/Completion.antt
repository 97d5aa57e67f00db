-- ===== src/Tcp/Stream/Completion.antt =====
-- `async_connect` of comm/tcp.cpp: the call, and what its completion does to the stream and hands
-- to the callback. That Boost starts to connect a socket is a parameter.
use vee.Common.{
  ℕ, zero, suc, ◌<◌, ◌≡◌, ◌≢◌, inl, inr, refl, ap, subst, Bool, true, false, Option, none, some,
  List, ◌++◌, length, arith, ℕ_discrete, decimal,
}
use vee.CString.{c_str, codes, IsText}
use vee.Endpoint.{Endpoint, ip_buffer_size, null_endpoint, set_value, assign, copy}
use vee.Endpoint.Values.{Names, set_value-Names}
use vee.Tcp.Stream.{
  Network, TcpStream, Ending, connected, connection_failed, disconnect_open, connect_closed,
  connect, get_remote_endpoint,
}
use vee.Tcp.Stream.Peer.{Reported, closed_socket, Closed, closed, disconnect_open-Closed}

-- `async_connect_result`. Its `callback` is the one of the call, and its `stream` is never set.
pub record AsyncConnectResult : Type 0 where
  pub is_success : Bool
  pub endpoint : Endpoint
  pub message : List ℕ

-- What `on_connect` captures, with the address that the socket was given.
pub record Connecting (A : Type 0) : Type 0 where
  pub ip_str : List ℕ
  pub port : ℕ
  pub address : A

-- How the message ends, by `is_success` and the message of the error.
abbrev pub report : Bool → List ℕ → List ℕ
report true detail = codes " connection established"
report false detail = codes " connection failed, detail:" ++ detail

-- `on_connect`, by the error, which is 0 where there is none, and its message; none where the
-- address does not fit the endpoint.
unfoldable pub on_connect :
    {A S : Type 0}
    → Connecting A
    → ℕ
    → List ℕ
    → TcpStream S
    → Option (AsyncConnectResult × TcpStream S)
on_connect op error detail t = elim (set_value null_endpoint op.ip_str op.port) [
  | none ↦ none
  | some e ↦ elim error [
    | suc err ↦ some (
      record {
        is_success = false;
        endpoint = e;
        message = c_str e.ip ++ codes ":" ++ decimal op.port ++ report false detail;
      },
      t,
    )
    | zero ↦ some (
      record {
        is_success = true;
        endpoint = e;
        message = c_str e.ip ++ codes ":" ++ decimal op.port ++ report true detail;
      },
      record t { remote_endpoint = assign t.remote_endpoint e },
    )
  ]
]

module _ {A S : Type 0} (network : Network A S) (begin : A → ℕ → S → S) where
  -- The call; none where `from_string` throws, since `noexcept` then ends the program.
  unfoldable pub async_connect : List ℕ → ℕ → TcpStream S → Option (Connecting A × TcpStream S)
  unfolding disconnect_open
  async_connect ip port t = elim (disconnect_open network t) [
    | none ↦ none
    | some t' ↦ elim (network.from_string ip) [
      | none ↦ none
      | some address ↦ some (
        record { ip_str = ip; port = port; address = address },
        record t' { socket = begin address port t'.socket },
      )
    ]
  ]

  -- `async_connect` with an endpoint.
  unfoldable pub async_connect_endpoint :
      Endpoint → TcpStream S → Option (Connecting A × TcpStream S)
  unfolding async_connect
  async_connect_endpoint e t = async_connect (c_str e.ip) e.port t

  -- The call, and its completion with this answer of the network: its error and socket.
  abbrev pub async_connected :
      List ℕ → ℕ → ℕ × S → List ℕ → TcpStream S → Option (AsyncConnectResult × TcpStream S)
  async_connected ip port answer detail t = elim (async_connect ip port t) [
    | none ↦ none
    | some (op, t') ↦ on_connect op answer.0 detail (record t' { socket = answer.1 })
  ]

  -- What the callback learns.
  pub record Told (ip : List ℕ) (port : ℕ) (detail : List ℕ) (result : AsyncConnectResult)
      : Type 0 where
    pub address : c_str result.endpoint.ip ≡ ip
    pub same_port : result.endpoint.port ≡ port
    pub message :
        result.message ≡ ip ++ codes ":" ++ decimal port ++ report result.is_success detail

  -- Both ways to connect end the same.
  pub data Agree (ip : List ℕ) (port : ℕ) (detail : List ℕ)
      : Option (Ending × TcpStream S) → Option (AsyncConnectResult × TcpStream S) → Type 0 where
    both_fail :
        (t : TcpStream S) (result : AsyncConnectResult)
        → result.is_success ≡ false
        → Told ip port detail result
        → Agree ip port detail (some (connection_failed, t)) (some (result, t))
    both_connect :
        (t t' : TcpStream S) (result : AsyncConnectResult)
        → result.is_success ≡ true
        → Told ip port detail result
        → t.socket ≡ t'.socket
        → Reported network ip port t
        → Reported network ip port t'
        → Agree ip port detail (some (connected, t)) (some (result, t'))

  told :
      {ip : List ℕ} {port : ℕ} (detail : List ℕ) (is_success : Bool)
      (e : Names (set_value null_endpoint ip port) ip port)
      → Told ip port detail (record {
        is_success = is_success;
        endpoint = e.object;
        message = c_str e.object.ip ++ codes ":" ++ decimal port ++ report is_success detail;
      })
  told {ip} {port} detail is_success e = record {
    address = e.address;
    same_port = e.same_port;
    message = ap (λ name. name ++ codes ":" ++ decimal port ++ report is_success detail) e.address;
  }

  on_connect_fails :
      (a : A) (t : TcpStream S) (ip : List ℕ) (port : ℕ) (detail : List ℕ)
      (e : Names (set_value null_endpoint ip port) ip port) (error : ℕ)
      → error ≢ 0
      → some (
        record {
          is_success = false;
          endpoint = e.object;
          message = c_str e.object.ip ++ codes ":" ++ decimal port ++ report false detail;
        },
        record t { socket = (network.connect a port t.socket).1 },
      )
        ≡ on_connect
            (record { ip_str = ip; port = port; address = a })
            error
            detail
            (record t { socket = (network.connect a port t.socket).1 })
  unfolding on_connect
  on_connect_fails a t ip port detail e zero ne = absurd (ne refl)
  on_connect_fails a t ip port detail e (suc err) ne = rw (e.returns, on_connect) refl

  agree :
      {ip : List ℕ} {port : ℕ} {detail : List ℕ} {x x' : Option (Ending × TcpStream S)}
      {y y' : Option (AsyncConnectResult × TcpStream S)}
      → Agree ip port detail x y
      → x ≡ x'
      → y ≡ y'
      → Agree ip port detail x' y'
  agree {ip} {port} {detail} {x} {x'} {y} h e e' =
      subst (λ y. Agree ip port detail x' y) e' (subst (λ x. Agree ip port detail x y) e h)

  -- From a stream whose socket is shut.
  closed-Agree :
      (ip : List ℕ) (port : ℕ) (detail : List ℕ) (a : A) (t : TcpStream S)
      → IsText ip
      → length ip < ip_buffer_size
      → length t.remote_endpoint.ip ≡ ip_buffer_size
      → network.from_string ip ≡ some a
      → (let answer = network.connect a port t.socket in
          Agree ip port detail (connect_closed network ip port t) (
            on_connect
              (record { ip_str = ip; port = port; address = a })
              answer.0
              detail
              (record t { socket = answer.1 })))
  unfolding connect_closed on_connect get_remote_endpoint copy assign
  closed-Agree ip port detail a t text fits size named =
      elim (set_value-Names null_endpoint ip port refl text) [
        | inr (long, h) ↦ absurd (omega arith)
        | inl (lt, e) ↦ elim (set_value-Names t.remote_endpoint ip port size text) [
          | inr (long, h) ↦ absurd (omega arith)
          | inl (lt, c) ↦ elim (ℕ_discrete (network.connect a port t.socket).0 0) [
            | yes fine ↦
                agree
                  (both_connect
                    (record {
                      remote_endpoint = c.object;
                      socket = (network.connect a port t.socket).1;
                    })
                    (record {
                      remote_endpoint = e.object;
                      socket = (network.connect a port t.socket).1;
                    })
                    _ refl (told detail true e) refl
                    (record { address = c.address; same_port = c.same_port })
                    (record { address = e.address; same_port = e.same_port }))
                  (ground (arith, named, fine, c.returns)) (ground (arith, fine, e.returns))
            | no err ↦
                agree
                  (both_fail (record t { socket = (network.connect a port t.socket).1 }) _ refl
                    (told detail false e))
                  (ground (arith, named, err)) (on_connect_fails a t ip port detail e _ err)
          ]
        ]
      ]

  -- From a stream whose endpoint has its buffer of 256 characters, to an address of at most 255
  -- characters that `from_string` takes: `connect`, and `async_connect` with a completion that has
  -- the error and the socket that `connect` gets, end the same. Both fail and leave the same
  -- stream, or both connect, with the same socket, and `get_remote_endpoint` gives that address and
  -- port after either. The result names them too, and its message is made of them and of the
  -- error's message.
  pub async_connect-Agree :
      (ip : List ℕ) (port : ℕ) (detail : List ℕ) (a : A) (t : TcpStream S)
      → IsText ip
      → length ip < ip_buffer_size
      → length t.remote_endpoint.ip ≡ ip_buffer_size
      → network.from_string ip ≡ some a
      → Agree ip port detail (connect network ip port t) (
          async_connected ip port
            (network.connect a port (closed_socket network t.socket))
            detail
            t)
  unfolding connect async_connect
  async_connect-Agree ip port detail a t text fits size named =
      go (disconnect_open network t) (disconnect_open-Closed network t size)
    where
      go :
          (o : Option (TcpStream S))
          → Closed network t o
          → Agree ip port detail
              (elim o [ none ↦ none | some t' ↦ connect_closed network ip port t' ])
              (elim (elim o as (λ x. Option (Connecting A × TcpStream S)) [
                | none ↦ none
                | some t' ↦ elim (network.from_string ip) [
                  | none ↦ none
                  | some address ↦ some (
                    record { ip_str = ip; port = port; address = address },
                    record t' { socket = begin address port t'.socket },
                  )
                ]
              ]) [
                | none ↦ none
                | some (op, t') ↦
                    let answer = network.connect a port (closed_socket network t.socket) in
                    on_connect op answer.0 detail (record t' { socket = answer.1 })
              ])
      go _ (closed t' e full) = rw named (
          subst
            (λ s. Agree ip port detail (connect_closed network ip port t') (
              let answer = network.connect a port s in
              on_connect (record { ip_str = ip; port = port; address = a }) answer.0 detail
                (record t' { socket = answer.1 })))
            e (closed-Agree ip port detail a t' text fits full named))
