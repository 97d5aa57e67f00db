-- ===== src/Tests/Servers.antt =====
-- Tests of `async_connect` and of the server of comm/tcp.cpp, and of `async_read_from` of
-- comm/udp.cpp.
use vee.Common.{
  ℕ, zero, suc, ◌≡◌, ◌<◌, ◌⊎◌, inl, refl, ap, subst, arith, Bool, true, false, Option, none, some,
  [], length,
}
use mathlib.Core.Option.{some_inj}
use vee.CString.{codes, IsText}
use vee.Endpoint.{null_endpoint}
use vee.Exception.Comm.{accept_failed_exception}
use vee.Tcp.Stream.{Network, TcpStream, connect}
use vee.Tcp.Stream.Completion.{Agree, async_connected, async_connect-Agree}
use vee.Tcp.Server.{Listener, TcpServer, accept}
use vee.Tcp.Server.Sessions.{HasShortAddresses, Session, called, accept-Session}
use vee.Udp.{Datagrams}
use vee.Udp.Async.{Arrives, async_read_from, on_read, on_read-Arrives}

-- A network whose sockets are 0 where they are shut, and else the port of the peer.
abbrev is_set : ℕ → Bool
is_set zero = false
is_set (suc s) = true

abbrev network : Network ℕ ℕ
network = record {
  from_string = λ ip. some (length ip);
  is_open = is_set;
  close = λ s. 0;
  connect = λ a port s. (0, port);
  fresh = 0;
}

abbrev idle : TcpStream ℕ
idle = record { remote_endpoint = null_endpoint; socket = 0 }

async_connect-Agree_example :
    Agree network
      (λ a port s. s)
      (codes "10.0.0.1")
      80
      (codes "Success")
      (connect network (codes "10.0.0.1") 80 idle)
      (async_connected network (λ a port s. s) (codes "10.0.0.1") 80 (0, 80) (codes "Success") idle)
async_connect-Agree_example =
    async_connect-Agree network (λ a port s. s) (codes "10.0.0.1") 80 (codes "Success") 8 idle
      (omega arith) (omega arith) refl refl

-- An acceptor is open or not, and always accepts a peer with the port 9.
abbrev listener : Listener ℕ Bool
listener = record {
  listen = λ port. true;
  is_open = λ q. q;
  close = λ q. false;
  accept = λ q. (some 9, q);
  begin_accept = λ q. q;
  fresh = false;
  remote_endpoint = λ s. some (codes "::1", s);
}

listener-HasShortAddresses : HasShortAddresses network listener
listener-HasShortAddresses client ip port e =
    subst (λ ip. IsText ip × (length ip < 256)) (ap (λ x. x.0) (some_inj.0 e))
      (omega arith, omega arith)

abbrev peer : Option ℕ
peer = some 9

abbrev server : TcpServer ℕ Bool
server = record { socket = 0; port = 80; acceptor = true }

accept-Session_example :
    ((peer ≡ none)
      × (accept network listener server
          ≡ some (inl accept_failed_exception, called network listener server)))
    ⊎ ((client : ℕ) × (peer ≡ some client) × Session network listener server [] client)
accept-Session_example = accept-Session network listener listener-HasShortAddresses server []

-- A socket of addresses that are all printed alike.
abbrev datagrams : Datagrams ℕ ℕ
datagrams = record {
  from_string = λ ip. some (length ip);
  to_string = λ a. codes "10.0.0.1";
  any_address = 0;
  receive_from = λ n s. (none, s);
  send_to = λ bytes destination s. (some (length bytes), s);
}

on_read-Arrives_example :
    (let (in_use, op) = async_read_from (record { ptr = 100; capacity = 3 }) 3 4 in
      Arrives datagrams 2
        (record { ptr = 100; capacity = 3 })
        104
        0
        (7, 80)
        4
        (on_read datagrams 2 op 104 0 (7, 80) null_endpoint in_use))
on_read-Arrives_example =
    on_read-Arrives datagrams 2 (record { ptr = 100; capacity = 3 }) 3 104 0 (7, 80) null_endpoint 4
      (omega arith) (omega arith) refl
