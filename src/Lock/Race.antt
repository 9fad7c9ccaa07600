-- ===== src/Lock/Race.antt =====
-- Nodes that take turns at a bucket: each turn answers one request of one node's program.
use cloud_comp_project.Base.{
  ℕ, ◌≡◌, ◌≤◌, Bool, true, ℤ, none, some, Text, List, [], ◌∷◌, ◌++◌, arith, text_eq_self,
}
use cloud_comp_project.Interfaces.{Result, ok}
use cloud_comp_project.Lock.Bucket.{
  LockMetadata, encoded, parse_rfc3339, Program, return, ask_now, write, read, delete, Bucket,
}
use cloud_comp_project.Lock.Gcs.{
  LockError, GcsLock, new_meta, renewed_meta, acquire, renew, release,
}
use cloud_comp_project.Lock.Memory.{Memory, memory_bucket}

-- One request of a program, or nothing of one that has returned.
unfoldable pub turn : {W E A : Type 0} → Bucket W E → Program E A → W → Program E A × W
turn bucket (return a) w = (return a, w)
turn bucket (ask_now k) w = let (t, w') = bucket.now w in (k t, w')
turn bucket (write c key b k) w = let (o, w') = bucket.put c key b w in (k o, w')
turn bucket (read key k) w = let (o, w') = bucket.get key w in (k o, w')
turn bucket (delete key k) w = let (o, w') = bucket.remove key w in (k o, w')

-- Two nodes and the world between them.
pub record Nodes (W E A B : Type 0) : Type 0 where
  pub first : Program E A
  pub second : Program E B
  pub world : W

pub data Node : Type 0 where
  first_node second_node : Node

unfoldable pub interleave :
    {W E A B : Type 0} → Bucket W E → List Node → Nodes W E A B → Nodes W E A B
unfolding turn
interleave bucket [] n = n
interleave bucket (first_node ∷ s) n =
    let (p, w) = turn bucket n.first n.world in
    interleave bucket s (record n { first = p; world = w })
interleave bucket (second_node ∷ s) n =
    let (q, w) = turn bucket n.second n.world in
    interleave bucket s (record n { second = q; world = w })

-- The first node finds the lease over and is about to delete it; the second node takes the lock;
-- then the first goes on.
abbrev pub stale_delete : List Node
stale_delete =
    first_node ∷ first_node ∷ first_node ∷ first_node ∷ second_node ∷ second_node ∷ second_node
    ∷ second_node ∷ second_node ∷ second_node ∷ second_node ∷ first_node ∷ first_node ∷ first_node
    ∷ []

abbrev pub both_acquire :
    GcsLock
    → GcsLock
    → Text
    → ℤ
    → Memory
    → Nodes Memory
        (Unit {0})
        (Result (LockError (Unit {0})) Bool)
        (Result (LockError (Unit {0})) Bool)
both_acquire a b key ttl w = record {
  first = acquire a key ttl;
  second = acquire b key ttl;
  world = w;
}

-- Whenever the lock object holds a lease that is over, two nodes that call `Acquire` at the same
-- time can both be told that they have the lock: the delete of the expired object carries no
-- precondition, so it deletes the object that the other node has just created. The object then
-- names the first node, while the second still believes that it is the holder.
pub stale_delete_race :
    (a b : GcsLock) (key : Text) (ttl : ℤ) (w : Memory) (m : LockMetadata) (e : ℕ)
    → w.object key ≡ some (encoded m)
    → parse_rfc3339 m.expires_at ≡ some e
    → e ≤ w.time
    → let n = interleave memory_bucket stale_delete (both_acquire a b key ttl w) in
      (n.first ≡ return (ok true))
      × (n.second ≡ return (ok true))
      × (n.world.object key ≡ some (encoded (new_meta a ttl w.time)))
unfolding interleave acquire
stale_delete_race a b key ttl w m e held parses over = ground (arith, text_eq_self key)

-- A call of the second node from its start to its end: an `Acquire` of a lock whose lease is over.
abbrev other_acquires : List Node
other_acquires =
    second_node ∷ second_node ∷ second_node ∷ second_node ∷ second_node ∷ second_node ∷ second_node
    ∷ []

-- The first node has found itself to be the holder when the second takes the lock.
abbrev pub stale_renew : List Node
stale_renew = first_node ∷ first_node ∷ (other_acquires ++ first_node ∷ [])

abbrev pub stale_release : List Node
stale_release = first_node ∷ (other_acquires ++ first_node ∷ [])

abbrev pub beside_acquire :
    {A : Type 0}
    → Program (Unit {0}) A
    → GcsLock
    → Text
    → ℤ
    → Memory
    → Nodes Memory (Unit {0}) A (Result (LockError (Unit {0})) Bool)
beside_acquire p b key ttl w = record { first = p; second = acquire b key ttl; world = w }

-- Whenever the lock object names the first node and its lease is over, a `Renew` of that node and
-- an `Acquire` of a second one at the same time can both succeed: `Renew` writes without a
-- precondition, so it can replace the object that the second node has created since the read. The
-- object then names the first node, while the second has been told that it has the lock.
pub stale_renew_race :
    (a b : GcsLock) (key : Text) (ttl : ℤ) (w : Memory) (m : LockMetadata) (e : ℕ)
    → w.object key ≡ some (encoded m)
    → m.holder ≡ a.node_id
    → parse_rfc3339 m.expires_at ≡ some e
    → e ≤ w.time
    → let n = interleave memory_bucket stale_renew (beside_acquire (renew a key ttl) b key ttl w) in
      (n.first ≡ return none)
      × (n.second ≡ return (ok true))
      × (n.world.object key ≡ some (encoded (renewed_meta a ttl m w.time)))
unfolding interleave acquire renew
stale_renew_race a b key ttl w m e held mine parses over =
    ground (arith, text_eq_self key, text_eq_self a.node_id)

-- In the same way a `Release` of a holder whose lease is over can delete the object that a second
-- node has created: both calls succeed, and there is no lock object, so that a third node can
-- acquire the lock which the second has been told that it has.
pub stale_release_race :
    (a b : GcsLock) (key : Text) (ttl : ℤ) (w : Memory) (m : LockMetadata) (e : ℕ)
    → w.object key ≡ some (encoded m)
    → m.holder ≡ a.node_id
    → parse_rfc3339 m.expires_at ≡ some e
    → e ≤ w.time
    → let n = interleave memory_bucket stale_release (beside_acquire (release a key) b key ttl w) in
      (n.first ≡ return none) × (n.second ≡ return (ok true)) × (n.world.object key ≡ none)
unfolding interleave acquire release
stale_release_race a b key ttl w m e held mine parses over =
    ground (arith, text_eq_self key, text_eq_self a.node_id)
