-- ===== src/Lock/System/Answers.antt =====
-- How the bucket in memory answers, and that no step turns the clock back.
use cloud_comp_project.Base.{◌≡◌, ◌≤◌, refl, true, Option, none, some, Text, arith, text_eq_self}
use cloud_comp_project.Lock.Bucket.{
  Body, stored, close_status, found, object_not_exist, return, ask_now, write, read, delete,
}
use cloud_comp_project.Lock.Memory.{Memory, memory_bucket, put_at}
use cloud_comp_project.Lock.Race.{turn}
use cloud_comp_project.Lock.System.{Call, System, Step, runs, waits}

-- The bucket's answers for a key without an object and with one.
pub put_free :
    (w : Memory) (j : Text) (b : Body)
    → w.object j ≡ none
    → memory_bucket.put true j b w ≡ (stored, record w { object = put_at w.object j (some b) })
put_free w j b h = ground arith

pub put_held :
    (w : Memory) (j : Text) (b old : Body)
    → w.object j ≡ some old
    → memory_bucket.put true j b w ≡ (close_status 412 tt, w)
put_held w j b old h = ground arith

pub get_free :
    (w : Memory) (j : Text) → w.object j ≡ none → (memory_bucket.get j w).0 ≡ object_not_exist
get_free w j h = ground arith

pub get_held :
    (w : Memory) (j : Text) (b : Body) → w.object j ≡ some b → (memory_bucket.get j w).0 ≡ found b
get_held w j b h = ground arith

pub put_at_self :
    (object : Text → Option Body) (j : Text) (b : Body) → put_at object j (some b) j ≡ some b
put_at_self object j b = ground (arith, text_eq_self j)

turn_time : (p : Call) (w : Memory) → (turn memory_bucket p w).1.time ≡ w.time
unfolding turn
turn_time (return r) w = refl
turn_time (ask_now k) w = refl
turn_time (write c j b k) w = ground arith
turn_time (read j k) w = refl
turn_time (delete j k) w = ground arith

pub Step-time : {s t : System} → Step s t → s.world.time ≤ t.world.time
Step-time (waits d) = omega arith
Step-time {s} (runs i) = omega (arith, turn_time (s.calls i) s.world)
