-- ===== src/Tcp/Stream/Peer.antt =====
-- The peer that `get_remote_endpoint` names.
use vee.Common.{
  ℕ, ◌<◌, ◌≡◌, ◌≢◌, ◌∙◌, inl, inr, refl, sym, subst, true, false, Bool-cases, Option, Option-cases,
  ℕ_discrete, none, some, List, length, arith,
}
use vee.CString.{c_str, codes, IsText}
use vee.Endpoint.{ip_buffer_size, clear, copy}
use vee.Endpoint.Values.{Names, set_value-Names, clear-Names}
use vee.Tcp.Stream.{
  Network, TcpStream, Ending, connected, address_refused, connection_failed, disconnect,
  disconnect_open, connect_closed, connect, swap, get_remote_endpoint,
}

module _ {A S : Type 0} (network : Network A S) where
  -- The stream reports this address and port.
  pub record Reported (ip : List ℕ) (port : ℕ) (t : TcpStream S) : Type 0 where
    pub address : c_str (get_remote_endpoint t).ip ≡ ip
    pub same_port : (get_remote_endpoint t).port ≡ port

  -- How `connect` ends, by the answers of the network to a socket in the state s.
  pub data Ended (ip : List ℕ) (port : ℕ) (s : S) : Option (Ending × TcpStream S) → Type 0 where
    refused :
        (t : TcpStream S)
        → network.from_string ip ≡ none
        → t.socket ≡ s
        → Ended ip port s (some (address_refused, t))
    failed :
        (t : TcpStream S) (a : A)
        → network.from_string ip ≡ some a
        → (network.connect a port s).0 ≢ 0
        → t.socket ≡ (network.connect a port s).1
        → Ended ip port s (some (connection_failed, t))
    done :
        (t : TcpStream S) (a : A)
        → network.from_string ip ≡ some a
        → (network.connect a port s).0 ≡ 0
        → t.socket ≡ (network.connect a port s).1
        → Reported ip port t
        → Ended ip port s (some (connected, t))

  -- The socket that `connect` starts from.
  abbrev pub closed_socket : S → S
  closed_socket s = elim (network.is_open s) [ true ↦ network.close s | false ↦ s ]

  pub data Closed (t : TcpStream S) : Option (TcpStream S) → Type 0 where
    closed :
        (t' : TcpStream S)
        → t'.socket ≡ closed_socket t.socket
        → length t'.remote_endpoint.ip ≡ ip_buffer_size
        → Closed t (some t')

  pub disconnect_open-Closed :
      (t : TcpStream S)
      → length t.remote_endpoint.ip ≡ ip_buffer_size
      → Closed t (disconnect_open network t)
  unfolding disconnect_open disconnect
  disconnect_open-Closed t size = elim (Bool-cases (network.is_open t.socket)) [
    | inl is_open ↦
        let c : Names (clear t.remote_endpoint) (codes "null") 0 =
          clear-Names t.remote_endpoint size in
        subst (Closed t) (ground (arith, is_open, c.returns)) (
          closed (record { remote_endpoint = c.object; socket = network.close t.socket })
            (ground (arith, is_open)) c.full_size)
    | inr is_shut ↦
        subst (Closed t) (ground (arith, is_shut)) (closed t (ground (arith, is_shut)) size)
  ]

  -- Where the socket connected.
  connected-Ended :
      (ip : List ℕ) (port : ℕ) (t : TcpStream S) (a : A)
      → IsText ip
      → length ip < ip_buffer_size
      → length t.remote_endpoint.ip ≡ ip_buffer_size
      → network.from_string ip ≡ some a
      → (network.connect a port t.socket).0 ≡ 0
      → Ended ip port t.socket (connect_closed network ip port t)
  unfolding connect_closed get_remote_endpoint copy
  connected-Ended ip port t a text fits size named fine =
      elim (set_value-Names t.remote_endpoint ip port size text) [
        | inr (long, h) ↦ absurd (omega arith)
        | inl (lt, c) ↦ subst (Ended ip port t.socket) (ground (arith, named, fine, c.returns)) (
            done
              (record { remote_endpoint = c.object; socket = (network.connect a port t.socket).1 })
              a named fine refl (record { address = c.address; same_port = c.same_port }))
      ]

  connect_closed-Ended :
      (ip : List ℕ) (port : ℕ) (t : TcpStream S)
      → IsText ip
      → length ip < ip_buffer_size
      → length t.remote_endpoint.ip ≡ ip_buffer_size
      → Ended ip port t.socket (connect_closed network ip port t)
  unfolding connect_closed
  connect_closed-Ended ip port t text fits size = elim (Option-cases (network.from_string ip)) [
    | inl h ↦ subst (Ended ip port t.socket) (ground (arith, h)) (refused t h refl)
    | inr (a, h) ↦ elim (ℕ_discrete (network.connect a port t.socket).0 0) [
      | yes fine ↦ connected-Ended ip port t a text fits size h fine
      | no err ↦
          subst (Ended ip port t.socket) (ground (arith, h, err))
            (failed (record t { socket = (network.connect a port t.socket).1 }) a h err refl)
    ]
  ]

  -- On a stream whose endpoint has its buffer of 256 characters, `connect` to an address of at most
  -- 255 characters closes an open socket first. It then ends in one of three ways: `from_string`
  -- throws; the socket reports an error, and the exception for it is thrown; or the socket is
  -- connected, and `get_remote_endpoint` gives that address and port.
  pub connect-Ended :
      (ip : List ℕ) (port : ℕ) (t : TcpStream S)
      → IsText ip
      → length ip < ip_buffer_size
      → length t.remote_endpoint.ip ≡ ip_buffer_size
      → Ended ip port (closed_socket t.socket) (connect network ip port t)
  unfolding connect
  connect-Ended ip port t text fits size =
      go (disconnect_open network t) (disconnect_open-Closed t size)
    where
      go :
          (o : Option (TcpStream S))
          → Closed t o
          → Ended ip port
              (closed_socket t.socket)
              (elim o [ none ↦ none | some t' ↦ connect_closed network ip port t' ])
      go _ (closed t' e full) =
          subst (λ s. Ended ip port s (connect_closed network ip port t')) e
            (connect_closed-Ended ip port t' text fits full)

-- Swapping two streams exchanges their sockets, and each goes on reporting the endpoint that it
-- reported: if each reports the peer of its socket and the peers differ, neither does afterwards.
pub swap_misreports :
    {S : Type 0} (peer : S → List ℕ) (t other : TcpStream S)
    → c_str (get_remote_endpoint t).ip ≡ peer t.socket
    → c_str (get_remote_endpoint other).ip ≡ peer other.socket
    → peer t.socket ≢ peer other.socket
    → ((swap t other).0.socket ≡ other.socket)
      × ((swap t other).1.socket ≡ t.socket)
      × (get_remote_endpoint (swap t other).0 ≡ get_remote_endpoint t)
      × (get_remote_endpoint (swap t other).1 ≡ get_remote_endpoint other)
      × (c_str (get_remote_endpoint (swap t other).0).ip ≢ peer (swap t other).0.socket)
      × (c_str (get_remote_endpoint (swap t other).1).ip ≢ peer (swap t other).1.socket)
unfolding swap get_remote_endpoint copy
swap_misreports peer t other e e' ne =
    (refl, refl, refl, refl, (λ h. ne (sym e ∙ h)), (λ h. ne (sym h ∙ e')))
