-- ===== src/Lock/Bucket.antt =====
-- What the lock uses of a Cloud Storage bucket and of the clock. `Program` is a sequence of such
-- requests, each depending on the answers before it: the lock's methods are programs, so that
-- they can be run alone and in turns with those of other nodes. A `Bucket` answers the requests.
use cloud_comp_project.Base.{
  ℕ, ◌-◌, ◌%◌, ◌≡◌, refl, ◌≢◌, ◌≤◌, Bool, true, Option, none, some, Text, second,
}

-- A text in the place of a time: one that `time.Parse` accepts, with the time that it denotes, or
-- another.
pub data Stamp : Type 0 where
  instant : ℕ → Stamp
  unparsed : Text → Stamp

-- `t.Format(time.RFC3339)` drops the fraction of the second.
unfoldable pub format_rfc3339 : ℕ → Stamp
format_rfc3339 t = instant (t - t % second)

-- `time.Parse(time.RFC3339, s)`
abbrev pub parse_rfc3339 : Stamp → Option ℕ
parse_rfc3339 (instant t) = some t
parse_rfc3339 (unparsed s) = none

-- `lockMetadata`
pub record LockMetadata : Type 0 where
  pub holder : Text
  pub acquired : Stamp
  pub expires_at : Stamp

-- The content of an object: the JSON of some metadata, or what does not parse as such.
pub data Body : Type 0 where
  encoded : LockMetadata → Body
  malformed : Text → Body

-- The ends of writing an object: an error of `Write`, an error of `Close` with an HTTP status, or
-- another error of `Close`.
pub data WriteOutcome (E : Type 0) : Type 0 where
  stored : WriteOutcome E
  write_failed : E → WriteOutcome E
  close_status : ℕ → E → WriteOutcome E
  close_failed : E → WriteOutcome E

-- The ends of reading one: `ErrObjectNotExist`, an error of `NewReader` or of `ReadAll`.
pub data ReadOutcome (E : Type 0) : Type 0 where
  found : Body → ReadOutcome E
  object_not_exist : ReadOutcome E
  reader_failed : E → ReadOutcome E
  read_failed : E → ReadOutcome E

pub data DeleteOutcome (E : Type 0) : Type 0 where
  deleted : DeleteOutcome E
  nothing_to_delete : DeleteOutcome E
  delete_failed : E → DeleteOutcome E

-- `write true` carries the precondition `DoesNotExist`.
pub data Program (E A : Type 0) : Type 0 where
  return : A → Program E A
  ask_now : (ℕ → Program E A) → Program E A
  write : Bool → Text → Body → (WriteOutcome E → Program E A) → Program E A
  read : Text → (ReadOutcome E → Program E A) → Program E A
  delete : Text → (DeleteOutcome E → Program E A) → Program E A

infixl 5 ◌>>=◌
unfoldable pub ◌>>=◌ : {E A B : Type 0} → Program E A → (A → Program E B) → Program E B
return a >>= f = f a
ask_now k >>= f = ask_now (λ t. k t >>= f)
write c key b k >>= f = write c key b (λ o. k o >>= f)
read key k >>= f = read key (λ o. k o >>= f)
delete key k >>= f = delete key (λ o. k o >>= f)

pub record Bucket (W E : Type 0) : Type 0 where
  pub now : W → ℕ × W
  pub put : Bool → Text → Body → W → WriteOutcome E × W
  pub get : Text → W → ReadOutcome E × W
  pub remove : Text → W → DeleteOutcome E × W

unfoldable pub perform : {W E A : Type 0} → Bucket W E → Program E A → W → A × W
perform bucket (return a) w = (a, w)
perform bucket (ask_now k) w = let (t, w') = bucket.now w in perform bucket (k t) w'
perform bucket (write c key b k) w = let (o, w') = bucket.put c key b w in perform bucket (k o) w'
perform bucket (read key k) w = let (o, w') = bucket.get key w in perform bucket (k o) w'
perform bucket (delete key k) w = let (o, w') = bucket.remove key w in perform bucket (k o) w'

-- The documented behaviour of a strongly consistent bucket, as far as the lock relies on it:
-- `content` is what a key's object holds, if there is one. Nothing is said of the content of the
-- key after a request that failed for another reason than the ones listed.
pub record IsConsistent {W E : Type 0} (bucket : Bucket W E) (content : W → Text → Option Body)
    : Type 0 where
  pub now_keeps : (w : W) (k : Text) → content (bucket.now w).1 k ≡ content w k
  pub get_keeps : (w : W) (j k : Text) → content (bucket.get j w).1 k ≡ content w k
  pub get_found :
      (w : W) (k : Text) (b : Body) → (bucket.get k w).0 ≡ found b → content w k ≡ some b
  pub get_missing : (w : W) (k : Text) → (bucket.get k w).0 ≡ object_not_exist → content w k ≡ none
  pub put_stored :
      (c : Bool) (w : W) (k : Text) (b : Body)
      → (bucket.put c k b w).0 ≡ stored
      → content (bucket.put c k b w).1 k ≡ some b
  pub put_absent :
      (w : W) (k : Text) (b : Body) → (bucket.put true k b w).0 ≡ stored → content w k ≡ none
  pub put_refused :
      (c : Bool) (w : W) (k : Text) (b : Body) (e : E)
      → (bucket.put c k b w).0 ≡ close_status 412 e
      → content (bucket.put c k b w).1 k ≡ content w k
  pub put_refused_present :
      (w : W) (k : Text) (b : Body) (e : E)
      → (bucket.put true k b w).0 ≡ close_status 412 e
      → content w k ≢ none
  pub remove_deleted :
      (w : W) (k : Text) → (bucket.remove k w).0 ≡ deleted → content (bucket.remove k w).1 k ≡ none
  pub remove_missing :
      (w : W) (k : Text)
      → (bucket.remove k w).0 ≡ nothing_to_delete
      → content (bucket.remove k w).1 k ≡ none

-- The clock never goes back, and a reading of it is what it shows.
pub record IsClocked {W E : Type 0} (bucket : Bucket W E) (clock : W → ℕ) : Type 0 where
  pub now_reads : (w : W) → (bucket.now w).0 ≡ clock w
  pub now_forward : (w : W) → clock w ≤ clock (bucket.now w).1
  pub put_forward :
      (c : Bool) (k : Text) (b : Body) (w : W) → clock w ≤ clock (bucket.put c k b w).1
  pub get_forward : (k : Text) (w : W) → clock w ≤ clock (bucket.get k w).1
  pub remove_forward : (k : Text) (w : W) → clock w ≤ clock (bucket.remove k w).1

pub perform-bind :
    {W E A B : Type 0} (bucket : Bucket W E) (p : Program E A) (f : A → Program E B) (w : W)
    → perform bucket (p >>= f) w ≡ perform bucket (f (perform bucket p w).0) (perform bucket p w).1
unfolding perform ◌>>=◌
perform-bind bucket (return a) f w = refl
perform-bind bucket (ask_now k) f w = perform-bind bucket (k (bucket.now w).0) f (bucket.now w).1
perform-bind bucket (write c key b k) f w =
    perform-bind bucket (k (bucket.put c key b w).0) f (bucket.put c key b w).1
perform-bind bucket (read key k) f w =
    perform-bind bucket (k (bucket.get key w).0) f (bucket.get key w).1
perform-bind bucket (delete key k) f w =
    perform-bind bucket (k (bucket.remove key w).0) f (bucket.remove key w).1
