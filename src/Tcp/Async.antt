-- ===== src/Tcp/Async.antt =====
-- The calls of comm/tcp.cpp that do not wait: what their completion hands to the callback. A call
-- starts one operation of the socket, and Boost completes it later with an error and a number.
use vee.Common.{
  ℕ, zero, suc, ◌+◌, ◌≡◌, ◌≢◌, refl, subst, Bool, true, false, ◌||◌, not, ◌==◌, arith, ℕ_discrete,
  add_size, sub_size,
}
use vee.Tcp.{Buffer}

-- `io_issue`.
pub data IoIssue : Type 0 where
  null : IoIssue
  unknown : IoIssue
  eof : IoIssue
  connection_reset : IoIssue

-- `async_io_result`; the stream and the callback are those of the call.
pub record AsyncIoResult : Type 0 where
  pub is_success : Bool
  pub issue : IoIssue
  pub bytes_transferred : ℕ
  pub bytes_requested : ℕ
  pub buffer : Buffer

-- An operation that is under way, and what a completion goes on to do.
pub record Started : Type 0 where
  pub buffer : Buffer
  pub size : ℕ

pub data Action : Type 0 where
  deliver : AsyncIoResult → Action
  read_on : Started → Action

-- The error codes of Boost that the code names.
module _ (eof_code reset_code : ℕ) where
  -- `on_read` of `async_read_some`.
  unfoldable pub on_read : Started → ℕ → ℕ → AsyncIoResult
  on_read op error bytes_transferred =
      let result : IoIssue → Bool → AsyncIoResult = λ issue is_success. record {
        is_success = is_success;
        issue = issue;
        bytes_transferred = bytes_transferred;
        bytes_requested = 0;
        buffer = op.buffer;
      } in
      elim (error == eof_code) [
        | true ↦ result eof false
        | false ↦ elim (error == reset_code) [
          | true ↦ result connection_reset false
          | false ↦ elim error [ zero ↦ result null true | suc e ↦ result unknown false ]
        ]
      ]

  -- `on_write` of `async_write_some`.
  unfoldable pub on_write : Started → ℕ → ℕ → AsyncIoResult
  unfolding on_read
  on_write op error bytes_transferred = on_read op error bytes_transferred

  -- `async_read_some`, `async_write_some` and `async_read_explicit` each start one operation.
  unfoldable pub async_read_some : Buffer → ℕ → Started
  async_read_some buffer bytes_requested = record { buffer = buffer; size = bytes_requested }

  unfoldable pub async_read_explicit : Buffer → ℕ → Started
  unfolding async_read_some
  async_read_explicit buffer bytes_requested = async_read_some buffer bytes_requested

  -- `iteration` of `async_read_explicit`, which nothing calls: the number so far, and what follows.
  unfoldable pub iteration : Buffer → ℕ → ℕ → AsyncIoResult → ℕ × Action
  iteration buffer bytes_requested total_transferred result =
      let total : ℕ = add_size total_transferred result.bytes_transferred in
      elim (not result.is_success || (total == bytes_requested)) [
        | true ↦ (total, deliver (record result { buffer = buffer; bytes_transferred = total }))
        | false ↦ (
          total,
          read_on (record {
            buffer = record {
              ptr = result.buffer.ptr + result.bytes_transferred;
              capacity = sub_size result.buffer.capacity result.bytes_transferred;
            };
            size = sub_size bytes_requested total;
          }),
        )
      ]

  -- What an error is reported as.
  pub data Issued (error : ℕ) : IoIssue → Bool → Type 0 where
    at_end : error ≡ eof_code → Issued error eof false
    was_reset : error ≢ eof_code → error ≡ reset_code → Issued error connection_reset false
    other : error ≢ eof_code → error ≢ reset_code → error ≢ 0 → Issued error unknown false
    fine : error ≢ eof_code → error ≢ reset_code → error ≡ 0 → Issued error null true

  -- What the callback of a read or a write gets.
  pub record Completes (op : Started) (error n : ℕ) (result : AsyncIoResult) : Type 0 where
    pub issued : Issued error result.issue result.is_success
    pub transferred : result.bytes_transferred ≡ n
    pub same_buffer : result.buffer ≡ op.buffer

  abbrev completed : Started → ℕ → IoIssue → Bool → AsyncIoResult
  completed op n issue is_success = record {
    is_success = is_success;
    issue = issue;
    bytes_transferred = n;
    bytes_requested = 0;
    buffer = op.buffer;
  }

  as_completed :
      (op : Started) (error n : ℕ) (issue : IoIssue) (is_success : Bool)
      → Issued error issue is_success
      → Completes op error n (completed op n issue is_success)
  as_completed op error n issue is_success i = record {
    issued = i;
    transferred = refl;
    same_buffer = refl;
  }

  -- A completed operation is a success where Boost reports no error; otherwise the issue is the one
  -- of the error's kind. In every case the callback gets the number of bytes that Boost gives, and
  -- the buffer of the call.
  pub on_read-Completes : (op : Started) (error n : ℕ) → Completes op error n (on_read op error n)
  unfolding on_read
  on_read-Completes op error n = elim (ℕ_discrete error eof_code) [
    | yes e ↦
        subst (Completes op error n) (ground arith) (as_completed op error n eof false (at_end e))
    | no ne ↦ elim (ℕ_discrete error reset_code) [
      | yes r ↦
          subst (Completes op error n) (ground arith)
            (as_completed op error n connection_reset false (was_reset ne r))
      | no nr ↦ elim (ℕ_discrete error 0) [
        | yes z ↦
            subst (Completes op error n) (ground arith)
              (as_completed op error n null true (fine ne nr z))
        | no nz ↦
            subst (Completes op error n) (ground arith)
              (as_completed op error n unknown false (other ne nr nz))
      ]
    ]
  ]
