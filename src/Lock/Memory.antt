-- ===== src/Lock/Memory.antt =====
-- A bucket with one object for each key, in memory: the clock is a field, and no request fails. It
-- satisfies the assumptions on a bucket.
use cloud_comp_project.Base.{
  ℕ, refl, Bool, true, Option, none, some, Text, arith, text_eq, text_eq_self, if◌then◌else◌,
}
use cloud_comp_project.Lock.Bucket.{
  Body, WriteOutcome, stored, close_status, ReadOutcome, found, object_not_exist, DeleteOutcome,
  deleted, nothing_to_delete, Bucket, IsConsistent, IsClocked,
}

pub record Memory : Type 0 where
  pub time : ℕ
  pub object : Text → Option Body

abbrev pub put_at : (Text → Option Body) → Text → Option Body → Text → Option Body
put_at object key b k = if text_eq key k then b else object k

abbrev put_in : Bool → Option Body → Text → Body → Memory → WriteOutcome (Unit {0}) × Memory
put_in true (some old) key b w = (close_status 412 tt, w)
put_in _ _ key b w = (stored, record w { object = put_at w.object key (some b) })

abbrev get_in : Option Body → ReadOutcome (Unit {0})
get_in none = object_not_exist
get_in (some b) = found b

abbrev remove_in : Option Body → Text → Memory → DeleteOutcome (Unit {0}) × Memory
remove_in none key w = (nothing_to_delete, w)
remove_in (some b) key w = (deleted, record w { object = put_at w.object key none })

abbrev pub memory_bucket : Bucket Memory (Unit {0})
memory_bucket = record {
  now = λ w. (w.time, w);
  put = λ c key b w. put_in c (w.object key) key b w;
  get = λ key w. (get_in (w.object key), w);
  remove = λ key w. remove_in (w.object key) key w;
}

abbrev pub memory_content : Memory → Text → Option Body
memory_content w = w.object

pub memory_bucket-IsConsistent : IsConsistent memory_bucket memory_content
memory_bucket-IsConsistent = record {
  now_keeps = λ w k. refl;
  get_keeps = λ w j k. refl;
  get_found = λ w k b h. ground arith;
  get_missing = λ w k h. ground arith;
  put_stored = λ c w k b h. ground (arith, text_eq_self k);
  put_absent = λ w k b h. ground arith;
  put_refused = λ c w k b e h. ground arith;
  put_refused_present = λ w k b e h. ground arith;
  remove_deleted = λ w k h. ground (arith, text_eq_self k);
  remove_missing = λ w k h. ground arith;
}

pub memory_bucket-IsClocked : IsClocked memory_bucket (λ w. w.time)
memory_bucket-IsClocked = ground arith
