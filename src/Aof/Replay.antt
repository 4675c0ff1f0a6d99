-- ===== src/Aof/Replay.antt =====
-- kvstore/AOF: the file and the buffer have all texts in order, and a replay carries them out again.
use mathlib.Core.List.{flatten}
use kvjet.Prelude.{drop, take-drop, length-drop}
use kvjet.Prelude.{
  ℕ, zero, suc, ◌-◌, ◌≤◌, Bool, true, false, ◌||◌, List, [], ◌∷◌, ◌++◌, Bytes, length, ltb, take,
  if◌then◌else◌, ◌≡◌, refl, sym, ap, ◌∙◌, arith, append_assoc, append-nil, All,
}
use kvjet.Prelude.Outcome.{Outcome, ok_inj, ok, raised, undefined, ◌>>=◌}
use kvjet.Resp.Value.{Value}
use kvjet.Resp.Encoder.{encode}
use kvjet.Resp.Parser.{RespParser, new}
use kvjet.Resp.Parser.{append as parse}
use kvjet.Resp.Parser.Frame.{append-Parts}
use kvjet.Resp.Parser.RoundTrip.{IsEncodable, encode_all, append_all-flatten, append_all-encode}
use kvjet.Store.KvStore.{KvStore}
use kvjet.Commands.{handle_no_aof}
use kvjet.Aof.{
  handle_all, recover_from, recover, append_value, aof_buffer_size, aof_fsync_time, Aof, append,
  destroy, blocks,
}

-- The texts of a sequence of calls, with the times at which each starts and would flush.
abbrev pub log_all : List (ℕ × ℕ × Bytes) → Aof → Aof
log_all [] a = a
log_all (call ∷ calls) a = log_all calls (append call.0 call.1 call.2 a)

abbrev pub texts : List (ℕ × ℕ × Bytes) → Bytes
texts [] = []
texts (call ∷ calls) = call.2 ++ texts calls

choose-log :
    (flushes : Bool) (x y : Aof) (log : Bytes)
    → x.file ++ x.buffer ≡ log
    → y.file ++ y.buffer ≡ log
    → (if flushes then x else y).file ++ (if flushes then x else y).buffer ≡ log
choose-log true x y log p q = p
choose-log false x y log p q = q

pub append-log :
    (now later : ℕ) (text : Bytes) (a : Aof)
    → (append now later text a).file ++ (append now later text a).buffer
      ≡ (a.file ++ a.buffer) ++ text
unfolding append
append-log now later text a =
    choose-log
      (ltb aof_buffer_size (length (a.buffer ++ text)) || ltb aof_fsync_time (now - a.last_fsync))
      (record { file = a.file ++ (a.buffer ++ text); buffer = []; last_fsync = later })
      (record a { buffer = a.buffer ++ text }) _
      (append-nil (a.file ++ (a.buffer ++ text)) ∙ sym (append_assoc a.file a.buffer text))
      (sym (append_assoc a.file a.buffer text))

-- The log after any calls, at whatever times they are made and whichever of them flush: once it is
-- closed, the file has its old content, what the buffer had, and all texts in order.
pub destroy-log_all :
    (calls : List (ℕ × ℕ × Bytes)) (now : ℕ) (a : Aof)
    → ((destroy now (log_all calls a)).file ≡ (a.file ++ a.buffer) ++ texts calls)
      × ((destroy now (log_all calls a)).buffer ≡ [])
unfolding destroy
destroy-log_all [] now a = (sym (append-nil (a.file ++ a.buffer)), refl)
destroy-log_all (call ∷ calls) now a =
    let rest = destroy-log_all calls now (append call.0 call.1 call.2 a) in
    (
      rest.0
          ∙ ap (λ x. x ++ texts calls) (append-log call.0 call.1 call.2 a)
          ∙ append_assoc (a.file ++ a.buffer) call.2 (texts calls),
      refl,
    )

-- The blocks are the file, if there are as many rounds as bytes.
flatten-blocks :
    (rounds size : ℕ) (bs : Bytes) → length bs ≤ rounds → flatten (blocks rounds size bs) ≡ bs
unfolding blocks flatten
flatten-blocks zero size [] h = refl
flatten-blocks zero size (b ∷ bs) h = absurd (omega arith)
flatten-blocks (suc rounds) size [] h = refl
flatten-blocks (suc rounds) size (b ∷ bs) h = ap (◌∷◌ b) (
    ap (◌++◌ (take size bs))
      (flatten-blocks rounds size (drop size bs) (omega (arith, h, length-drop size bs)))
    ∙ take-drop size bs)

module _ (dflt : Value) where
  handle_all-append :
      (cmds more : List Value) (s : KvStore Value)
      → handle_all dflt (cmds ++ more) s ≡ (handle_all dflt cmds s >>= handle_all dflt more)
  unfolding handle_all
  handle_all-append [] more s = refl
  handle_all-append (c ∷ cmds) more s = rest (handle_no_aof dflt c s) (handle_all-append cmds more)
    where
      rest :
          (m : Outcome (Bytes × KvStore Value))
          → ((t : KvStore Value)
              → handle_all dflt (cmds ++ more) t
                ≡ (handle_all dflt cmds t >>= handle_all dflt more))
          → (m >>= λ r. handle_all dflt (cmds ++ more) r.1)
            ≡ ((m >>= λ r. handle_all dflt cmds r.1) >>= handle_all dflt more)
      rest (ok r) ih = ih r.1
      rest (raised e) ih = refl
      rest undefined ih = refl

  recover_from-handle_all :
      (bs : List Bytes) (p r : RespParser) (s : KvStore Value)
      → p.queue ≡ []
      → parse (flatten bs) p ≡ ok r
      → recover_from dflt bs p s ≡ handle_all dflt r.queue s
  unfolding recover_from parse flatten
  recover_from-handle_all [] p r s idle run =
      sym (ap (λ q. handle_all dflt q s) (ap (λ x. x.queue) (sym (ok_inj run)) ∙ idle))
  recover_from-handle_all (b ∷ bs) p r s idle run =
      let parts = append-Parts b (flatten bs) p r run in
      ap
        (λ m. m >>= λ q.
          handle_all dflt q.queue s >>= λ t. recover_from dflt bs (record q { queue = [] }) t)
        parts.first_part
      ∙ go (handle_all dflt parts.middle.queue s) (λ t.
        recover_from-handle_all bs (record parts.middle { queue = [] }) parts.last t refl
          parts.second_part)
      ∙ sym (handle_all-append parts.middle.queue parts.last.queue s)
      ∙ ap (λ q. handle_all dflt q s) (sym parts.results)
    where
      go :
          {f g : KvStore Value → Outcome (KvStore Value)} (m : Outcome (KvStore Value))
          → ((t : KvStore Value) → f t ≡ g t)
          → (m >>= f) ≡ (m >>= g)
      go (ok t) h = h t
      go (raised e) h = refl
      go undefined h = refl

  -- A replay of a file of encoded commands carries them out, in order.
  recover-encode_all :
      (vs : List Value) (s : KvStore Value)
      → All IsEncodable vs
      → recover dflt (encode_all vs) s ≡ handle_all dflt vs s
  unfolding recover
  recover-encode_all vs s h =
      let file = encode_all vs in
      let bs = blocks (length file) (aof_buffer_size - 1) file in
      let whole = flatten-blocks (length file) (aof_buffer_size - 1) file (omega arith) in
      let (q, run, queued, _, _) = append_all-encode vs bs new h whole refl refl in
      recover_from-handle_all bs new q s refl (sym (append_all-flatten bs new) ∙ run)
      ∙ ap (λ x. handle_all dflt x s) queued

-- Commands that are logged, with the times of the calls.
abbrev pub log_values : List (ℕ × ℕ × Value) → Aof → Aof
log_values [] a = a
log_values (call ∷ calls) a = log_values calls (append_value call.0 call.1 call.2 a)

abbrev pub values : List (ℕ × ℕ × Value) → List Value
values [] = []
values (call ∷ calls) = call.2 ∷ values calls

abbrev encoded : List (ℕ × ℕ × Value) → List (ℕ × ℕ × Bytes)
encoded [] = []
encoded (call ∷ calls) = (call.0, call.1, encode call.2) ∷ encoded calls

log_values-encoded :
    (calls : List (ℕ × ℕ × Value)) (a : Aof) → log_values calls a ≡ log_all (encoded calls) a
unfolding append_value
log_values-encoded [] a = refl
log_values-encoded (call ∷ calls) a =
    log_values-encoded calls (append call.0 call.1 (encode call.2) a)

texts-encoded : (calls : List (ℕ × ℕ × Value)) → texts (encoded calls) ≡ encode_all (values calls)
texts-encoded [] = refl
texts-encoded (call ∷ calls) = ap (◌++◌ (encode call.2)) (texts-encoded calls)

-- The log of a server that has started with an empty file.
abbrev pub opened : Aof
opened = record { file = []; buffer = []; last_fsync = 0 }

-- Commands are logged at any times, some calls flushing and some not, and the log is closed. A replay
-- of the file, in blocks as they are read, has the outcome of carrying out the commands one by one.
pub recover-log_values :
    (dflt : Value) (calls : List (ℕ × ℕ × Value)) (now : ℕ) (s : KvStore Value)
    → All IsEncodable (values calls)
    → recover dflt (destroy now (log_values calls opened)).file s ≡ handle_all dflt (values calls) s
recover-log_values dflt calls now s h =
    ap (λ a. recover dflt (destroy now a).file s) (log_values-encoded calls opened)
    ∙ ap (λ f. recover dflt f s)
        ((destroy-log_all (encoded calls) now opened).0 ∙ texts-encoded calls)
    ∙ recover-encode_all dflt (values calls) s h
