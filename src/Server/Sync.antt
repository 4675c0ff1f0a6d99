-- ===== src/Server/Sync.antt =====
-- server/Server: how long a server that joins a cluster waits, and what the others send it.
use kvjet.Prelude.{ℕ, zero, suc, ◌-◌, ◌%◌, ◌^◌, ◌≤◌, ◌<◌, true, ltb, ◌≡◌, refl, ◌∙◌, ap, arith}
use kvjet.Server.{Server, mark_syncing, on_sync_done}

-- Any number of `SYNCDONE` messages.
abbrev pub sync_all : ℕ → Server → Server
sync_all zero s = s
sync_all (suc k) s = sync_all k (on_sync_done s)

sync_all-counts :
    (k : ℕ) (s : Server)
    → s.syncing ≡ true
    → 0 < s.pending_sync_nodes
    → s.pending_sync_nodes < 2 ^ 32
    → k ≤ s.pending_sync_nodes
    → (sync_all k s).syncing ≡ ltb k s.pending_sync_nodes
unfolding on_sync_done
sync_all-counts zero s h p f b = ground arith
sync_all-counts (suc zero) s h p f b = ground arith
sync_all-counts (suc (suc k)) s h p f b =
    let t = on_sync_done s in
    let less : t.pending_sync_nodes ≡ s.pending_sync_nodes - 1 = omega arith in
    let on : t.syncing ≡ true = ground arith in
    sync_all-counts (suc k) t on (omega arith) (omega arith) (omega arith) ∙ ground arith

-- A server that waits for the data of `n` nodes, at least one, refuses commands until exactly `n`
-- `SYNCDONE` messages have come: with fewer it still waits, and with the last one it stops.
pub sync_all-mark_syncing :
    (n k : ℕ) (s : Server)
    → 0 < n
    → n < 2 ^ 31
    → k ≤ n
    → (sync_all k (mark_syncing n s)).syncing ≡ ltb k n
unfolding mark_syncing
sync_all-mark_syncing n k s p f b =
    let same : n % 2 ^ 32 ≡ n = omega arith in
    sync_all-counts k (mark_syncing n s) refl (omega arith) (omega arith) (omega arith)
    ∙ ap (ltb k) same
