-- ===== src/Cluster/Gossip.antt =====
-- util/Cluster: the cache of the gossip that has been seen.
use kvjet.Prelude.{
  ℕ, suc, ◌≤◌, ◌<◌, true, false, [], ◌∷◌, some, ltb, length, ◌≡◌, ◌∙◌, refl, ap, arith,
}
use kvjet.Prelude.Assoc.{Assoc, find, insert, find-insert}
use kvjet.Cluster.{
  Cluster, add_gossip, find_gossip, expire, shrink, elapsed, gossip_cache_size, gossip_timeout,
}

length-insert : {V : Type 0} (k : ℕ) (v : V) (m : Assoc V) → length (insert k v m) ≤ suc (length m)
length-insert k v [] = omega arith
length-insert k v (p ∷ m) = ground (arith, length-insert k v m)

length-expire : (now : ℕ) (m : Assoc ℕ) → length (expire now m) ≤ length m
length-expire now [] = omega arith
length-expire now (p ∷ m) = ground (arith, length-expire now m)

length-shrink :
    (m : Assoc ℕ) → length m ≤ suc gossip_cache_size → length (shrink m) ≤ gossip_cache_size
length-shrink [] h = omega arith
length-shrink (p ∷ m) h = ground arith

-- The cache never grows beyond `GOSSIP_CACHE_SIZE`: if it is not above the limit, it is not above it
-- after a gossip has been added, however many entries have expired.
pub add_gossip-bounded :
    (now uuid : ℕ) (c : Cluster)
    → length c.gossip_cache ≤ gossip_cache_size
    → length (add_gossip now uuid c).gossip_cache ≤ gossip_cache_size
unfolding add_gossip
add_gossip-bounded now uuid c h = length-shrink (expire now (insert uuid now c.gossip_cache)) (
    omega (
      arith,
      h,
      length-insert uuid now c.gossip_cache,
      length-expire now (insert uuid now c.gossip_cache),
    ))

find-expire :
    (now k v : ℕ) (m : Assoc ℕ)
    → find k m ≡ some v
    → ltb gossip_timeout (elapsed now v) ≡ false
    → find k (expire now m) ≡ some v
find-expire now k v [] e fresh = cc
find-expire now k v (p ∷ m) e fresh = ground (arith, find-expire now k v m)

shrink-small : (m : Assoc ℕ) → length m ≤ gossip_cache_size → shrink m ≡ m
shrink-small [] h = refl
shrink-small (p ∷ m) h = ground arith

find_gossip-some :
    (uuid ts : ℕ) (c : Cluster) → find uuid c.gossip_cache ≡ some ts → find_gossip uuid c ≡ true
unfolding find_gossip
find_gossip-some uuid ts c e = rw (e, find_gossip) refl

-- A gossip that is added is found, if the cache has room for it.
pub find-add_gossip :
    (now uuid : ℕ) (c : Cluster)
    → length c.gossip_cache < gossip_cache_size
    → find_gossip uuid (add_gossip now uuid c) ≡ true
unfolding add_gossip
find-add_gossip now uuid c room =
    let m = insert uuid now c.gossip_cache in
    let there : find uuid m ≡ some now = ground (arith, find-insert uuid uuid now c.gossip_cache) in
    let fresh : ltb gossip_timeout (elapsed now now) ≡ false = ground arith in
    let whole : shrink (expire now m) ≡ expire now m =
      shrink-small (expire now m)
        (omega (arith, room, length-insert uuid now c.gossip_cache, length-expire now m)) in
    find_gossip-some uuid now _ (ap (find uuid) whole ∙ find-expire now uuid now m there fresh)
