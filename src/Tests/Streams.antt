-- ===== src/Tests/Streams.antt =====
-- Tests of comm/tcp.cpp and comm/udp.cpp.
use vee.Common.{
  ℕ, ◌≡◌, ◌≢◌, ◌<◌, ◌≤◌, ◌+◌, refl, arith, Bool, true, false, Option, none, some, List, [], ◌∷◌,
  ◌++◌, length, take, inr,
}
use vee.CString.{codes, c_str}
use vee.Endpoint.{null_endpoint, copy}
use vee.Tcp.{Socket, Buffer, thrown, write_some, read_some, read_explicit}
use vee.Tcp.Store.{Memory, load}
use vee.Tcp.Write.{Sends, Ends, write_some-Ends}
use vee.Tcp.Read.{Report, Reads, read_some_lem}
use vee.Tcp.Explicit.{Gives, read_explicit_overruns}
use vee.Tcp.Stream.{Network, TcpStream, connect, swap, get_remote_endpoint}
use vee.Tcp.Stream.Peer.{Ended, closed_socket, connect-Ended, swap_misreports}
use vee.Udp
use vee.Udp.{Datagrams, UdpStream}
use vee.Udp.Replies.{SendsTo, read_from-SendsTo}

-- A socket that sends one byte of what it is offered, and gives the next parts of a list.
abbrev first_byte : List ℕ → ℕ
first_byte [] = 0
first_byte (b ∷ bs) = 1

abbrev head : List (List ℕ) → List ℕ
head [] = []
head (bs ∷ parts) = bs

abbrev tail : List (List ℕ) → List (List ℕ)
tail [] = []
tail (bs ∷ parts) = parts

abbrev slow : Socket (List ℕ × List (List ℕ))
slow = record {
  eof = 2;
  connection_reset = 104;
  write_some = λ bytes s. (first_byte bytes, 0, (s.0 ++ take (first_byte bytes) bytes, s.1));
  read_some = λ n s. (head s.1, 0, (s.0, tail s.1));
}

abbrev out : List ℕ × List (List ℕ) → List ℕ
out s = s.0

first_byte-le : (bytes : List ℕ) → first_byte bytes ≤ length bytes
first_byte-le [] = omega arith
first_byte-le (b ∷ bs) = omega arith

first_byte-pos : (bytes : List ℕ) → 0 < length bytes → 0 < first_byte bytes
first_byte-pos [] lt = absurd (omega arith)
first_byte-pos (b ∷ bs) lt = omega arith

slow-Sends : Sends slow out
slow-Sends = record {
  within = λ bytes s. first_byte-le bytes;
  prefix = λ bytes s. refl;
  progress = λ bytes s lt e. first_byte-pos bytes lt;
}

-- Each address holds its own number.
abbrev numbered : Memory
numbered a = a

abbrev three : Buffer
three = record { ptr = 100; capacity = 3 }

write_some-Ends_example :
    Ends slow out slow-Sends numbered 100 3 3 ([], []) (write_some slow 4 numbered three 3 ([], []))
write_some-Ends_example =
    write_some-Ends slow out slow-Sends 4 numbered three 3 ([], []) (omega arith) (omega arith)

read_some_lem_example :
    Report slow 0 2 (read_some slow numbered three 3 ([], (8 ∷ 9 ∷ []) ∷ [])).0
    × Reads slow numbered three
        (8 ∷ 9 ∷ [])
        (read_some slow numbered three 3 ([], (8 ∷ 9 ∷ []) ∷ [])).1
read_some_lem_example = read_some_lem slow numbered three 3 ([], (8 ∷ 9 ∷ []) ∷ []) (omega arith)

Gives-one : Gives slow 3 ([], (8 ∷ []) ∷ (5 ∷ 6 ∷ 7 ∷ []) ∷ []) (8 ∷ []) ([], (5 ∷ 6 ∷ 7 ∷ []) ∷ [])
unfolding thrown
Gives-one = record { given = refl; error = refl; after = refl }

Gives-three : Gives slow 3 ([], (5 ∷ 6 ∷ 7 ∷ []) ∷ []) (5 ∷ 6 ∷ 7 ∷ []) ([], [])
unfolding thrown
Gives-three = record { given = refl; error = refl; after = refl }

read_explicit_overruns_example :
    (m' : Memory) × (read_explicit slow 3 numbered three 3 ([], (8 ∷ []) ∷ (5 ∷ 6 ∷ 7 ∷ []) ∷ [])
      ≡ some (inr 4, m', ([], [])))
    × (load m' (100 + 1) 3 ≡ 5 ∷ 6 ∷ 7 ∷ [])
read_explicit_overruns_example =
    read_explicit_overruns slow 0 numbered three ([], (8 ∷ []) ∷ (5 ∷ 6 ∷ 7 ∷ []) ∷ [])
      ([], (5 ∷ 6 ∷ 7 ∷ []) ∷ []) ([], []) 8 (5 ∷ 6 ∷ 7 ∷ []) Gives-one Gives-three (omega arith)
      (omega arith) refl

-- A network whose sockets are the text of the peer, which is empty where there is none.
abbrev is_peer : List ℕ → Bool
is_peer [] = false
is_peer (c ∷ cs) = true

abbrev friendly : Network (List ℕ) (List ℕ)
friendly = record {
  from_string = some;
  is_open = is_peer;
  close = λ s. [];
  connect = λ a port s. (0, a);
  fresh = [];
}

abbrev idle : TcpStream (List ℕ)
idle = record { remote_endpoint = null_endpoint; socket = codes "null" }

connect-Ended_example :
    Ended friendly
      (codes "10.0.0.1")
      80
      (closed_socket friendly idle.socket)
      (connect friendly (codes "10.0.0.1") 80 idle)
connect-Ended_example =
    connect-Ended friendly (codes "10.0.0.1") 80 idle (omega arith) (omega arith) refl

abbrev other : TcpStream (List ℕ)
other = record {
  remote_endpoint = record { ip = codes "::1" ++ (0 ∷ []); port = 9 };
  socket = codes "::1";
}

swap_misreports_example :
    ((swap idle other).0.socket ≡ other.socket)
    × ((swap idle other).1.socket ≡ idle.socket)
    × (get_remote_endpoint (swap idle other).0 ≡ get_remote_endpoint idle)
    × (get_remote_endpoint (swap idle other).1 ≡ get_remote_endpoint other)
    × (c_str (get_remote_endpoint (swap idle other).0).ip ≢ (swap idle other).0.socket)
    × (c_str (get_remote_endpoint (swap idle other).1).ip ≢ (swap idle other).1.socket)
unfolding get_remote_endpoint copy
swap_misreports_example = swap_misreports (λ s. s) idle other refl refl (ground arith)

-- Datagrams that have arrived, each with its sender.
abbrev Arrived : Type 0
Arrived = List (List ℕ × (ℕ × ℕ))

abbrev next_datagram : Arrived → Option (List ℕ × (ℕ × ℕ)) × Arrived
next_datagram [] = (none, [])
next_datagram (d ∷ s) = (some d, s)

abbrev post : Datagrams ℕ Arrived
post = record {
  from_string = λ ip. some (length ip);
  to_string = λ a. [];
  any_address = 0;
  receive_from = λ n s. next_datagram s;
  send_to = λ bytes destination s. (some (length bytes), s);
}

abbrev listener : UdpStream ℕ Arrived
listener = record {
  remote_endpoint_cache = null_endpoint;
  remote_endpoint = (0, 0);
  socket = (7 ∷ 8 ∷ [], (33, 44)) ∷ [];
}

read_from-SendsTo_example :
    SendsTo post (33, 44) (Udp.read_from post numbered three 3 null_endpoint listener).3
    × SendsTo post (33, 44) (Udp.read_some post numbered three 3 listener).2
    × ((Udp.read_from post numbered three 3 null_endpoint listener).2 ≡ null_endpoint)
read_from-SendsTo_example =
    read_from-SendsTo post numbered three 3 null_endpoint listener (7 ∷ 8 ∷ []) (33, 44) refl
