-- ===== src/Crypto/MasterKey.antt =====
-- internal/crypto/sealed.go, `FileKeyProvider.MasterKey`: several providers, in one process or in many,
-- create the master key in one file. Their steps interleave; calls of one provider are serial. A step is a
-- system call on the key file, or all of rand.Read, MkdirAll, CreateTemp, Chmod, Write, Sync and Close,
-- which touch only a temporary file of the provider. The file system supports hard links, so that
-- `linkUnsupported` is false and `publishExcl`, which runs on Android, is not reached.
pub mod Agreement
use vayu_mail_mobile.Base.{
  ℕ, Bool, true, false, Option, none, some, List, [], ◌∷◌, Bytes, length, ◌==◌, if◌then◌else◌,
}

-- where a provider is in `MasterKey`: outside; behind the read that found no file; behind the temporary
-- file, which is complete; behind the refused link; or outside with the key cached, which every further
-- call returns
pub data Phase : Type 0 where
  idle missing beaten : Phase
  prepared holding : Bytes → Phase

-- the key file, if there is one, and the providers
pub record World : Type 0 where
  pub file : Option Bytes
  pub phase : ℕ → Phase

-- what the system answers: success, with the random bytes where they are asked for, or an error
pub data Answer : Type 0 where
  success : Bytes → Answer
  failure : Answer

abbrev pub becomes : ℕ → Phase → World → World
becomes i p w = record w { phase = λ j. if i == j then p else w.phase j }

-- a file of another length is corrupt
abbrev pub read_key : Bytes → Phase
read_key key = if length key == 32 then holding key else idle

abbrev pub first_read : Option Bytes → Phase
first_read none = missing
first_read (some key) = read_key key

-- the read behind a refused link; a missing file is an error
abbrev pub second_read : Option Bytes → Phase
second_read none = idle
second_read (some key) = read_key key

-- os.Link fails on an existing file; an error other than that hard links are refused leads to the second
-- read
abbrev pub link : ℕ → Bytes → Option Bytes → World → World
link i key none w = becomes i (holding key) (record w { file = some key })
link i key (some _) w = becomes i beaten w

-- the next step of provider i
unfoldable pub advance : ℕ → Answer → Phase → World → World
advance i _ (holding key) w = w
advance i failure idle w = w
advance i failure missing w = becomes i idle w
advance i failure beaten w = becomes i idle w
advance i failure (prepared key) w = becomes i beaten w
advance i (success _) idle w = becomes i (first_read w.file) w
advance i (success random) missing w =
    becomes i (if length random == 32 then prepared random else idle) w
advance i (success _) (prepared key) w = link i key w.file w
advance i (success _) beaten w = becomes i (second_read w.file) w

-- an interleaving: whose turn it is, and the answer
unfoldable pub interleave : List (ℕ × Answer) → World → World
unfolding advance
interleave [] w = w
interleave ((i, a) ∷ turns) w = interleave turns (advance i a (w.phase i) w)

unfoldable pub start_with : Option Bytes → World
start_with file = record { file = file; phase = λ i. idle }
