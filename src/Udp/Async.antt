-- ===== src/Udp/Async.antt =====
-- `async_read_from` of comm/udp.cpp, and moving and swapping a `udp_stream`. The other calls that
-- do not wait have empty bodies.
use vee.Common.{
  ℕ, zero, suc, ◌-◌, ◌<◌, ◌≡◌, ◌≢◌, inl, inr, refl, subst, true, false, Bool, Option, none, some,
  List, length, arith, ◌==◌, ℕ_discrete,
}
use vee.CString.{c_str, IsText}
use vee.Endpoint.{Endpoint, ip_buffer_size, null_endpoint, set_value}
use vee.Endpoint.Values.{set_value-Names}
use vee.Tcp.{Buffer}
use vee.Tcp.Async.{AsyncIoResult, IoIssue, null, unknown, eof}
use vee.Udp.{Datagrams, UdpStream}

-- The operation that the socket starts. The endpoints of `udp_endpoint_pool` in use are counted.
pub record Reading : Type 0 where
  pub buffer : Buffer
  pub size : ℕ

module _ {A S : Type 0} (net : Datagrams A S) (fresh : S) where
  -- `operator=`, from a stream that is moved: the two streams afterwards.
  unfoldable pub move : UdpStream A S → UdpStream A S → UdpStream A S × UdpStream A S
  move t other = (record t { socket = other.socket }, record other { socket = fresh })

  -- The constructor from a stream that is moved.
  unfoldable pub moved : UdpStream A S → UdpStream A S × UdpStream A S
  moved other = (
    record {
      remote_endpoint_cache = null_endpoint;
      remote_endpoint = (net.any_address, 0);
      socket = other.socket;
    },
    record other { socket = fresh },
  )

-- `update_remote_endpoint` by a text and a port; none where the text is no address, or does not
-- fit.
unfoldable pub update_remote_endpoint :
    {A S : Type 0} → Datagrams A S → List ℕ → ℕ → UdpStream A S → Option (UdpStream A S)
update_remote_endpoint net ip port t = elim (net.from_string ip) [
  | none ↦ none
  | some address ↦ elim (set_value t.remote_endpoint_cache ip port) [
    | none ↦ none
    | some cache ↦
        some (record t { remote_endpoint = (address, port); remote_endpoint_cache = cache })
  ]
]

unfoldable pub swap : {A S : Type 0} → UdpStream A S → UdpStream A S → UdpStream A S × UdpStream A S
swap t other = (record t { socket = other.socket }, record other { socket = t.socket })

-- The call: one endpoint of the pool more, and the operation that the socket starts.
unfoldable pub async_read_from : Buffer → ℕ → ℕ → ℕ × Reading
async_read_from buffer bytes_requested in_use =
    (suc in_use, record { buffer = buffer; size = bytes_requested })

module _ {A S : Type 0} (net : Datagrams A S) (eof_code : ℕ) where
  -- The tests of the error: the issue, and `is_success`.
  unfoldable pub issue_of : ℕ → IoIssue × Bool
  issue_of error = elim (error == eof_code) [
    | true ↦ (eof, false)
    | false ↦ elim error [ zero ↦ (null, true) | suc e ↦ (unknown, false) ]
  ]

  -- `on_read`, with the sender that Boost wrote to the endpoint of the pool: the result for the
  -- callback, `endpoint_out`, and how many endpoints are in use; none where the sender's address
  -- does not fit.
  unfoldable pub on_read :
      Reading → ℕ → ℕ → A × ℕ → Endpoint → ℕ → Option (AsyncIoResult × Endpoint × ℕ)
  unfolding issue_of
  on_read op error bytes_transferred sender endpoint_out in_use =
      elim (set_value endpoint_out (net.to_string sender.0) sender.1) [
        | none ↦ none
        | some e ↦
            let (issue, is_success) = issue_of error in
            some (
              record {
                is_success = is_success;
                issue = issue;
                bytes_transferred = bytes_transferred;
                bytes_requested = 0;
                buffer = op.buffer;
              },
              e,
              in_use - 1,
            )
      ]

  -- What an error is reported as.
  pub data Issued (error : ℕ) : IoIssue → Bool → Type 0 where
    at_end : error ≡ eof_code → Issued error eof false
    other : error ≢ eof_code → error ≢ 0 → Issued error unknown false
    fine : error ≢ eof_code → error ≡ 0 → Issued error null true

  pub record Arrives (buffer : Buffer) (error n : ℕ) (sender : A × ℕ) (in_use : ℕ)
      (call : Option (AsyncIoResult × Endpoint × ℕ)) : Type 0 where
    pub result : AsyncIoResult
    pub endpoint_out : Endpoint
    pub returns : call ≡ some (result, endpoint_out, in_use)
    pub issued : Issued error result.issue result.is_success
    pub transferred : result.bytes_transferred ≡ n
    pub same_buffer : result.buffer ≡ buffer
    pub address : c_str endpoint_out.ip ≡ net.to_string sender.0
    pub same_port : endpoint_out.port ≡ sender.1

  issue_of-Issued :
      (error : ℕ) → let (issue, is_success) = issue_of error in Issued error issue is_success
  unfolding issue_of
  issue_of-Issued error = elim (ℕ_discrete error eof_code) [
    | yes e ↦ subst (λ (r : IoIssue × Bool). Issued error r.0 r.1) (ground arith) (at_end e)
    | no ne ↦ elim (ℕ_discrete error 0) [
      | yes z ↦ subst (λ (r : IoIssue × Bool). Issued error r.0 r.1) (ground arith) (fine ne z)
      | no nz ↦ subst (λ (r : IoIssue × Bool). Issued error r.0 r.1) (ground arith) (other ne nz)
    ]
  ]

  -- Where the sender's address is a text of at most 255 characters and `endpoint_out` has its
  -- buffer of 256, the completion of `async_read_from` gives the callback the issue eof for Boost's
  -- error of that kind, a success for no error and an unknown issue for any other, each with the
  -- number of bytes and the buffer; `endpoint_out` names the sender; and the endpoint that the call
  -- took from the pool is back.
  pub on_read-Arrives :
      (buffer : Buffer) (size error n : ℕ) (sender : A × ℕ) (endpoint_out : Endpoint) (in_use : ℕ)
      → IsText (net.to_string sender.0)
      → length (net.to_string sender.0) < ip_buffer_size
      → length endpoint_out.ip ≡ ip_buffer_size
      → (let (in_use', op) = async_read_from buffer size in_use in
          Arrives buffer error n sender in_use (on_read op error n sender endpoint_out in_use'))
  unfolding async_read_from on_read
  on_read-Arrives buffer size error n sender endpoint_out in_use text fits full =
      elim (set_value-Names endpoint_out (net.to_string sender.0) sender.1 full text) [
        | inr (long, e) ↦ absurd (omega arith)
        | inl (lt, c) ↦ record {
          result = record {
            is_success = (issue_of error).1;
            issue = (issue_of error).0;
            bytes_transferred = n;
            bytes_requested = 0;
            buffer = buffer;
          };
          endpoint_out = c.object;
          returns = ground (arith, c.returns);
          issued = issue_of-Issued error;
          transferred = refl;
          same_buffer = refl;
          address = c.address;
          same_port = c.same_port;
        }
      ]
