-- ===== src/Aof.antt =====
-- kvstore/AOF: the log of the commands. Times are counts of milliseconds; a call reads the clock when
-- it starts and again when it flushes. Opening the file is not modelled.
pub mod Replay
use kvjet.Prelude.{
  ℕ, zero, suc, ◌+◌, ◌-◌, ◌*◌, Bool, true, false, ◌||◌, List, [], ◌∷◌, ◌++◌, Bytes, length, ltb,
  take, drop, if◌then◌else◌,
}
use kvjet.Prelude.Outcome.{Outcome, ok, ◌>>=◌}
use kvjet.Resp.Value.{Value}
use kvjet.Resp.Encoder.{encode}
use kvjet.Resp.Parser.{RespParser, new}
use kvjet.Resp.Parser.{append as parse}
use kvjet.Store.KvStore.{KvStore}
use kvjet.Commands.{handle_no_aof}

pub record Aof : Type 0 where
  pub file : Bytes
  pub buffer : Bytes
  pub last_fsync : ℕ

unfoldable pub flush : ℕ → Aof → Aof
flush now a = record { file = a.file ++ a.buffer; buffer = []; last_fsync = now }

-- `Config::AOF_BUFFER_SIZE` and `Config::AOF_FSYNC_TIME_MS`.
abbrev pub aof_buffer_size : ℕ
aof_buffer_size = 1048576

abbrev pub aof_fsync_time : ℕ
aof_fsync_time = 1000

unfoldable pub append : ℕ → ℕ → Bytes → Aof → Aof
unfolding flush
append now later text a₀ =
    let a : Aof = record a₀ { buffer = a₀.buffer ++ text } in
    if ltb aof_buffer_size (length a.buffer) || ltb aof_fsync_time (now - a.last_fsync)
    then flush later a
    else a

-- `append` of a value.
unfoldable pub append_value : ℕ → ℕ → Value → Aof → Aof
unfolding append
append_value now later value a = append now later (encode value) a

-- The destructor.
unfoldable pub destroy : ℕ → Aof → Aof
unfolding flush
destroy now a = flush now a

-- The blocks that `read` delivers: each of the rounds takes one, and `size` bytes at most.
unfoldable pub blocks : ℕ → ℕ → Bytes → List Bytes
blocks zero size bs = []
blocks (suc rounds) size [] = []
blocks (suc rounds) size (b ∷ bs) = take (suc size) (b ∷ bs) ∷ blocks rounds size (drop size bs)

module _ (dflt : Value) where
  -- The loop over the results of the parser.
  unfoldable pub handle_all : List Value → KvStore Value → Outcome (KvStore Value)
  handle_all [] s = ok s
  handle_all (cmd ∷ cmds) s = handle_no_aof dflt cmd s >>= λ r. handle_all cmds r.1

  unfoldable pub recover_from : List Bytes → RespParser → KvStore Value → Outcome (KvStore Value)
  unfolding handle_all
  recover_from [] p s = ok s
  recover_from (block ∷ rest) p s = parse block p >>= λ q.
      handle_all q.queue s >>= λ t. recover_from rest (record q { queue = [] }) t

  -- `recover`: a file of `n` bytes has at most `n` blocks.
  unfoldable pub recover : Bytes → KvStore Value → Outcome (KvStore Value)
  unfolding blocks recover_from
  recover file s = recover_from (blocks (length file) (aof_buffer_size - 1) file) new s
