-- ===== src/Avatarimg.antt =====
-- internal/avatarimg/cache.go: the cache of mailbox pictures. `I` are the decoded pictures; the goroutines
-- that fetch are `in_flight`, and `fetches` records whom they asked, address and host. Times are
-- nanoseconds; the map of entries is a list of pairs.
pub mod Privacy
pub mod Entries
pub mod OneShot
mod Tests
use vayu_mail_mobile.Base.{
  ℕ, suc, ◌+◌, ◌*◌, ◌^◌, Bool, true, false, ◌&&◌, ◌||◌, not, Option, none, some, List, [], ◌∷◌,
  ◌++◌, map, keep, Bytes, codes, eq_bytes, length, lower, trim_space, ltb, leb, ◌==◌, if◌then◌else◌,
}

abbrev pub max_bytes : ℕ
max_bytes = 2 ^ 20

abbrev pub miss_retry : ℕ
miss_retry = 15 * (60 * 1000000000)

pub data EntryState : Type 0 where
  state_unknown state_loading state_loaded state_missing : EntryState

pub data Reply : Type 0 where
  failed : Reply
  answered : (status : ℕ) (body : Option Bytes) → Reply

-- the text before and behind the last at sign
unfoldable pub last_at : Bytes → Option (Bytes × Bytes)
last_at [] = none
last_at (c ∷ s) = elim (last_at s) [
  | some (local, domain) ↦ some (c ∷ local, domain)
  | none ↦ if c == 64 then some ([], s) else none
]

unfoldable pub normal_key : Bytes → Bytes
unfolding lower trim_space
normal_key email = map lower (trim_space email)

unfoldable pub is_in : Bytes → List Bytes → Bool
is_in k [] = false
is_in k (j ∷ js) = eq_bytes j k || is_in k js

abbrev is_set : Bytes → Bool
is_set [] = false
is_set (c ∷ s) = true

pub record Entry (I : Type 0) : Type 0 where
  pub img : Option I
  pub state : EntryState
  pub stamp : ℕ

pub record Cache (I : Type 0) : Type 0 where
  pub entries : List (Bytes × Entry I)
  pub allowed : List Bytes
  pub in_flight : List Bytes
  pub fetches : List (Bytes × Bytes)

abbrev pub forget_miss : EntryState → EntryState
forget_miss state_missing = state_unknown
forget_miss s = s

module _ {I : Type 0} where
  abbrev pub new_entry : Entry I
  new_entry = record { img = none; state = state_unknown; stamp = 0 }

  unfoldable pub entry_of : Bytes → List (Bytes × Entry I) → Entry I
  entry_of k [] = new_entry
  entry_of k ((j, e) ∷ rows) = let rest = entry_of k rows in if eq_bytes j k then e else rest

  unfoldable pub put_entry : Bytes → Entry I → List (Bytes × Entry I) → List (Bytes × Entry I)
  put_entry k e [] = (k, e) ∷ []
  put_entry k e ((j, f) ∷ rows) =
      let rest = put_entry k e rows in if eq_bytes j k then (j, e) ∷ rows else (j, f) ∷ rest

  unfoldable pub forget_misses : List (Bytes × Entry I) → List (Bytes × Entry I)
  forget_misses [] = []
  forget_misses ((k, e) ∷ rows) = (k, record e { state = forget_miss e.state }) ∷ forget_misses rows

  unfoldable pub set_allowed_domains : List Bytes → Cache I → Cache I
  unfolding normal_key forget_misses
  set_allowed_domains domains c = record c {
    allowed = keep is_set (map normal_key domains);
    entries = forget_misses c.entries;
  }

  -- a goroutine is started when the domain is allowed
  abbrev pub try_fetch : Bytes → Bytes → ℕ → Entry I → Cache I → Cache I
  try_fetch key domain now e c =
      if is_in domain c.allowed
      then record c {
        entries = put_entry key (record e { state = state_loading }) c.entries;
        in_flight = key ∷ c.in_flight;
        fetches = (key, domain) ∷ c.fetches;
      }
      else record c {
        entries = put_entry key (record e { state = state_missing; stamp = now }) c.entries;
      }

  abbrev pub found : Bytes → Bytes → ℕ → EntryState → Entry I → Cache I → Option I × Cache I
  found key domain now state_loaded e c = (e.img, record c { entries = put_entry key e c.entries })
  found key domain now state_loading e c = (none, record c { entries = put_entry key e c.entries })
  found key domain now state_missing e c =
      if ltb now (e.stamp + miss_retry)
      then (none, record c { entries = put_entry key e c.entries })
      else (none, try_fetch key domain now e c)
  found key domain now state_unknown e c = (none, try_fetch key domain now e c)

  abbrev pub image_at : Option (Bytes × Bytes) → Bytes → ℕ → Cache I → Option I × Cache I
  image_at none key now c = (none, c)
  image_at (some ([], domain)) key now c = (none, c)
  image_at (some (a ∷ local, [])) key now c = (none, c)
  image_at (some (a ∷ local, d ∷ domain)) key now c =
      let e = entry_of key c.entries in found key (d ∷ domain) now e.state e c

  -- Image
  unfoldable pub image : Bytes → ℕ → Cache I → Option I × Cache I
  unfolding last_at normal_key is_in put_entry entry_of
  image email now c = image_at (last_at (normal_key email)) (normal_key email) now c

  abbrev pub state_of : Option I → EntryState
  state_of none = state_missing
  state_of (some i) = state_loaded

  -- `store`, which ends the goroutine
  unfoldable pub store : Bytes → Option I → ℕ → Cache I → Cache I
  unfolding put_entry
  store key img now c = record c {
    entries = put_entry key (record { img = img; state = state_of img; stamp = now }) c.entries;
    in_flight = keep (λ k. not (eq_bytes k key)) c.in_flight;
  }

  -- what `fetch` stores for an answer; DecodeAvatar is a parameter
  abbrev pub fetched_body : (Bytes → Option I) → Option Bytes → Option I
  fetched_body decode none = none
  fetched_body decode (some raw) =
      if length raw == 0 || ltb max_bytes (length raw) then none else decode raw

  unfoldable pub fetched : (Bytes → Option I) → Reply → Option I
  fetched decode failed = none
  fetched decode (answered status body) = if status == 200 then fetched_body decode body else none

abbrev pub new_cache : {I : Type 0} → Cache I
new_cache = record { entries = []; allowed = []; in_flight = []; fetches = [] }

pub data Move : Type 0 where
  asked : (email : Bytes) (now : ℕ) → Move
  allow : (domains : List Bytes) → Move
  replied : (key : Bytes) (reply : Reply) (now : ℕ) → Move

module _ {I : Type 0} (decode : Bytes → Option I) where
  -- a goroutine that does not run stores nothing
  unfoldable pub do_move : Move → Cache I → Cache I
  unfolding is_in
  do_move (asked email now) c = (image email now c).1
  do_move (allow domains) c = set_allowed_domains domains c
  do_move (replied key reply now) c =
      if is_in key c.in_flight then store key (fetched decode reply) now c else c

  unfoldable pub do_moves : List Move → Cache I → Cache I
  do_moves [] c = c
  do_moves (m ∷ ms) c = do_moves ms (do_move m c)
