-- ===== src/Prelude/Calls.antt =====
-- What the calls of the system on a socket return.
use Prim.Native.Nat.{ℕ}
use Prim.Native.String.{String}
use mathlib.Core.Bool.{Bool}
use kvjet.Prelude.Lists.{Bytes}

-- `::send`: it takes some bytes, or none of a connection that is closed, is interrupted (EINTR),
-- cannot take more now (EAGAIN, EWOULDBLOCK), has no socket (EBADF), or fails in another way.
pub data SendCall : Type 0 where
  took : ℕ → SendCall
  interrupted would_block bad_socket : SendCall
  broken : String → SendCall

-- `::recv`: it brings some bytes, the end, nothing for now, or an error. Whether the socket can then
-- be taken off epoll is `removed`, if the error has a text.
pub data RecvCall : Type 0 where
  brought : Bytes → RecvCall
  ended nothing : RecvCall
  failed : (removed : Bool) → String → RecvCall
