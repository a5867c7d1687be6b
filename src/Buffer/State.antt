-- ===== src/Buffer/State.antt =====
-- The members of `AsyncTCPBuffer`, and what its methods may end in.
use espasync_tcp.Common.{ℕ, suc, Bool, true, Option, List}
use espasync_tcp.Lwip.{Handler}

-- `atbRxMode_t`
pub data RxMode : Type 0 where
  rx_mode_none rx_mode_free rx_mode_read_bytes rx_mode_terminator : RxMode
  rx_mode_terminator_string : RxMode

-- `AsyncTCPBuffer`. `attached` says that `_client` is not NULL; `client` is the client's own state.
-- `tx` are the rings from `_TXbufferRead` to `_TXbufferWrite`, none if these are NULL. `read_bytes`
-- are the bytes that were stored through `_rxReadBytesPtr` so far, and `read_string` is what
-- `_rxReadStringPtr` points to. `asked` counts the questions to the heap. `deleted` says that the
-- object's memory was given back, and `fault` that a null pointer or deleted object was used.
pub record Buffer (B C : Type 0) : Type 0 where
  pub attached : Bool
  pub client : C
  pub tx : List B
  pub rx : Option B
  pub rx_mode : RxMode
  pub rx_size : ℕ
  pub rx_terminator : ℕ
  pub read_bytes : Option (List ℕ)
  pub read_string : Option (List ℕ)
  pub cb_rx : Option Handler
  pub cb_done : Option Handler
  pub cb_disconnect : Option Handler
  pub asked : ℕ
  pub deleted : Bool
  pub fault : Bool

-- What the heap answers: whether less than 4096 bytes are free, and whether `new (std::nothrow)`
-- gives memory; each answer by the number of questions before. And what stands in memory behind a
-- packet, by the distance from its end.
pub record Heap : Type 0 where
  pub low : ℕ → Bool
  pub gives : ℕ → Bool
  pub behind : ℕ → ℕ

-- The application's handlers: any change of the state, calls of the buffer included. The data
-- handler returns how many bytes it took, the other one whether the buffer is to be deleted. The
-- handler of a finished read is told whether it succeeded and gets the string, if it reads one.
pub record Hooks (B C : Type 0) : Type 0 where
  pub on_rx : Handler → List ℕ → Buffer B C → ℕ × Buffer B C
  pub on_done : Handler → Bool → Option (List ℕ) → Buffer B C → Buffer B C
  pub on_disconnect : Handler → Buffer B C → Bool × Buffer B C

-- A method returns, or `panic()` stops the device, or the fuel did not suffice.
pub data Run {ℓ} (A : Type ℓ) : Type ℓ where
  returns : A → Run A
  panics unfinished : Run A

infixl 5 ◌>>=◌
abbrev pub ◌>>=◌ {ℓ κ} : {A : Type ℓ} {B : Type κ} → Run A → (A → Run B) → Run B
returns a >>= f = f a
panics >>= f = panics
unfinished >>= f = unfinished

module _ {B C : Type 0} where
  abbrev pub crash : Buffer B C → Buffer B C
  crash s = record s { fault = true }

  -- a question to the heap was answered
  abbrev pub ask : Buffer B C → Buffer B C
  ask s = record s { asked = suc s.asked }
