-- ===== src/Examples/LockRuns.antt =====
-- Runs of the lock's methods in a bucket in memory.
use cloud_comp_project.Base.{
  ℕ, ◌*◌, ◌≡◌, ◌⊎◌, refl, true, false, none, some, [], ◌∷◌, Text, pos, arith, second, text_eq, ℤ,
}
use cloud_comp_project.Interfaces.{ok}
use cloud_comp_project.Lock.Bucket.{LockMetadata, encoded, instant, return, perform}
use cloud_comp_project.Lock.Gcs.{
  err_not_lock_holder, GcsLock, new_meta, renewed_meta, acquire, renew, release,
}
use cloud_comp_project.Lock.Gcs.Exclusion.{HoldsFresh, FreeBy, acquire_granted}
use cloud_comp_project.Lock.Gcs.Denial.{HeldAt, acquire_refused}
use cloud_comp_project.Lock.Gcs.Holder.{IsHolder, renew-IsHolder, release-IsHolder}
use cloud_comp_project.Lock.Memory.{
  Memory, memory_bucket, memory_content, memory_bucket-IsConsistent, memory_bucket-IsClocked,
}
use cloud_comp_project.Lock.Race.{
  interleave, stale_delete, stale_renew, stale_release, both_acquire, beside_acquire,
  stale_delete_race, stale_renew_race, stale_release_race,
}

abbrev pub local_node : GcsLock
local_node = record { node_id = 1 ∷ [] }

abbrev pub cloud_node : GcsLock
cloud_node = record { node_id = 2 ∷ [] }

abbrev pub key : Text
key = 7 ∷ []

abbrev ttl : ℤ
ttl = pos (30 * second)

abbrev pub empty_bucket : Memory
empty_bucket = record { time = 100 * second; object = λ k. none }

-- the cloud node's lease, taken at 100 s
abbrev leased : LockMetadata
leased = record {
  holder = cloud_node.node_id;
  acquired = instant (100 * second);
  expires_at = instant (130 * second);
}

abbrev leased_bucket : ℕ → Memory
leased_bucket time = record { time = time; object = λ k. some (encoded leased) }

acquires : (perform memory_bucket (acquire local_node key ttl) empty_bucket).0 ≡ ok true
unfolding perform acquire text_eq
acquires = refl

refuses :
    (perform memory_bucket (acquire local_node key ttl) (leased_bucket (129 * second))).0 ≡ ok false
unfolding perform acquire text_eq
refuses = refl

acquire_granted_example :
    HoldsFresh memory_bucket memory_content
      (λ w. w.time)
      memory_bucket-IsConsistent
      memory_bucket-IsClocked
      local_node
      key
      ttl
      empty_bucket
      (perform memory_bucket (acquire local_node key ttl) empty_bucket).1
    × FreeBy memory_bucket memory_content
        (λ w. w.time)
        memory_bucket-IsConsistent
        memory_bucket-IsClocked
        local_node
        key
        ttl
        empty_bucket
        (perform memory_bucket (acquire local_node key ttl) empty_bucket).1.time
acquire_granted_example =
    acquire_granted memory_bucket memory_content (λ w. w.time) memory_bucket-IsConsistent
      memory_bucket-IsClocked local_node key ttl empty_bucket acquires

acquire_refused_example :
    let w = leased_bucket (129 * second) in
    ((perform memory_bucket (acquire local_node key ttl) w).1.object key ≡ w.object key)
    × HeldAt memory_bucket memory_content
        (λ w. w.time)
        memory_bucket-IsConsistent
        memory_bucket-IsClocked
        local_node
        key
        ttl
        w
        w.time
acquire_refused_example =
    acquire_refused memory_bucket memory_content (λ w. w.time) memory_bucket-IsConsistent
      memory_bucket-IsClocked local_node key ttl (leased_bucket (129 * second)) refuses

renews : (perform memory_bucket (renew cloud_node key ttl) (leased_bucket (120 * second))).0 ≡ none
unfolding perform renew text_eq
renews = refl

renew-IsHolder_example :
    let w = leased_bucket (120 * second) in
    (m : LockMetadata) × (t : ℕ) × IsHolder memory_bucket memory_content memory_bucket-IsConsistent
      cloud_node key w m
    × (t ≡ 120 * second)
    × ((perform memory_bucket (renew cloud_node key ttl) w).1.object key
        ≡ some (encoded (renewed_meta cloud_node ttl m t)))
renew-IsHolder_example =
    renew-IsHolder memory_bucket memory_content memory_bucket-IsConsistent cloud_node key ttl
      (leased_bucket (120 * second)) renews

releases : (perform memory_bucket (release cloud_node key) (leased_bucket (120 * second))).0 ≡ none
unfolding perform release text_eq
releases = refl

not_the_holder :
    (perform memory_bucket (release local_node key) (leased_bucket (120 * second))).0
    ≡ some err_not_lock_holder
unfolding perform release text_eq
not_the_holder = refl

release-IsHolder_example :
    let w = leased_bucket (120 * second) in
    ((perform memory_bucket (release cloud_node key) w).1.object key ≡ none)
    × ((w.object key ≡ none)
        ⊎ ((m : LockMetadata) × IsHolder memory_bucket memory_content memory_bucket-IsConsistent
              cloud_node key w m))
release-IsHolder_example =
    release-IsHolder memory_bucket memory_content memory_bucket-IsConsistent cloud_node key
      (leased_bucket (120 * second)) releases

stale_delete_race_example :
    let n =
      interleave memory_bucket stale_delete
        (both_acquire local_node cloud_node key ttl (leased_bucket (140 * second))) in
    (n.first ≡ return (ok true))
    × (n.second ≡ return (ok true))
    × (n.world.object key ≡ some (encoded (new_meta local_node ttl (140 * second))))
stale_delete_race_example =
    stale_delete_race local_node cloud_node key ttl (leased_bucket (140 * second)) leased
      (130 * second) refl refl (omega arith)

stale_renew_race_example :
    let n = interleave memory_bucket stale_renew (
      beside_acquire
        (renew cloud_node key ttl)
        local_node
        key
        ttl
        (leased_bucket (140 * second))) in
    (n.first ≡ return none)
    × (n.second ≡ return (ok true))
    × (n.world.object key ≡ some (encoded (renewed_meta cloud_node ttl leased (140 * second))))
stale_renew_race_example =
    stale_renew_race cloud_node local_node key ttl (leased_bucket (140 * second)) leased
      (130 * second) refl refl refl (omega arith)

stale_release_race_example :
    let n =
      interleave memory_bucket stale_release (
        beside_acquire
          (release cloud_node key)
          local_node
          key
          ttl
          (leased_bucket (140 * second))) in
    (n.first ≡ return none) × (n.second ≡ return (ok true)) × (n.world.object key ≡ none)
stale_release_race_example =
    stale_release_race cloud_node local_node key ttl (leased_bucket (140 * second)) leased
      (130 * second) refl refl refl (omega arith)
