-- ===== src/Syncmanager/Connpool.antt =====
-- internal/syncmanager/connpool.go: the pooled command connection of one account. Accounts do not share
-- entries, and the callers of one account are serial. Times are nanoseconds of the monotonic clock.
pub mod Tidy
pub mod Outcome
use vayu_mail_mobile.Base.{
  ℕ, suc, ◌+◌, ◌-◌, ◌*◌, ◌^◌, Bool, true, false, Option, none, some, List, [], ◌∷◌, ◌++◌, Result,
  ok, err, ltb, ◌==◌, not, keep, if◌then◌else◌,
}

abbrev pub max_cmd_idle : ℕ
max_cmd_idle = 90 * 10 ^ 9

-- a client is named by its number among those that were dialled
pub record CmdConn : Type 0 where
  pub client : ℕ
  pub used_at : ℕ

-- the entry of the pool; the clients that were dialled and not closed; how many were dialled; and the
-- clients that a command ran on
pub record Slot : Type 0 where
  pub conn : Option CmdConn
  pub live : List ℕ
  pub dialled : ℕ
  pub runs : List ℕ

-- the error of a command is a parameter
pub data PoolError (E : Type 0) : Type 0 where
  no_credential dial_failed : PoolError E
  command_failed : E → PoolError E

-- client.Close()
unfoldable pub close : ℕ → Slot → Slot
close c s = record s { live = keep (λ d. not (d == c)) s.live }

abbrev pub forget : Slot → Slot
forget s = record s { conn = none }

-- an entry that was not used for too long is closed
abbrev pub evict_conn : ℕ → Option CmdConn → Slot → Slot
evict_conn now none s = s
evict_conn now (some cc) s =
    if ltb max_cmd_idle (now - cc.used_at) then forget (close cc.client s) else s

unfoldable pub evict : ℕ → Slot → Slot
unfolding close
evict now s = evict_conn now s.conn s

-- the entry is deleted if it still is the failed client
abbrev pub drop_suspect : ℕ → Option CmdConn → Slot → Slot
drop_suspect c none s = s
drop_suspect c (some cc) s = if cc.client == c then forget s else s

-- an entry of another client is closed before it is replaced
abbrev pub close_old : ℕ → Option CmdConn → Slot → Slot
close_old c none s = s
close_old c (some old) s = if old.client == c then s else close old.client s

abbrev pub ran_on : ℕ → Slot → Slot
ran_on c s = record s { runs = s.runs ++ c ∷ [] }

module _ {E : Type 0} where
  -- after the command ran on the fresh client `c`
  abbrev pub finish : ℕ → ℕ → Option E → Slot → Result (PoolError E) (Unit {0}) × Slot
  finish c later (some e) s = (err (command_failed e), close c s)
  finish c later none s = (
    ok tt,
    record (close_old c s.conn s) { conn = some (record { client = c; used_at = later }) },
  )

module _ {E : Type 0} (has_credential can_dial : Bool) (fn : ℕ → Option E) (now later : ℕ) where
  unfoldable pub fresh_attempt : Slot → Result (PoolError E) (Unit {0}) × Slot
  unfolding close
  fresh_attempt s =
      if has_credential
      then (if can_dial
          then finish s.dialled later (fn s.dialled)
              (ran_on s.dialled (record s { live = s.dialled ∷ s.live; dialled = suc s.dialled }))
          else (err dial_failed, s))
      else (err no_credential, s)

  -- after the command ran on the pooled client `c`
  abbrev pub pooled_attempt : ℕ → Option E → Slot → Result (PoolError E) (Unit {0}) × Slot
  pooled_attempt c none s = (ok tt, s)
  pooled_attempt c (some e) s = fresh_attempt (close c (drop_suspect c s.conn s))

  abbrev pub attempt : Option CmdConn → Slot → Result (PoolError E) (Unit {0}) × Slot
  attempt none s = fresh_attempt s
  attempt (some cc) s =
      pooled_attempt cc.client (fn cc.client)
        (ran_on cc.client (record s { conn = some (record { client = cc.client; used_at = now }) }))

  unfoldable pub with_command_conn : Slot → Result (PoolError E) (Unit {0}) × Slot
  unfolding evict fresh_attempt close
  with_command_conn s = let s' = evict now s in attempt s'.conn s'

abbrev pub drop_conn : Option CmdConn → Slot → Slot
drop_conn none s = s
drop_conn (some cc) s = forget (close cc.client s)

unfoldable pub drop_command_conn : Slot → Slot
unfolding close
drop_command_conn s = drop_conn s.conn s
