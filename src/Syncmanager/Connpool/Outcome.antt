-- ===== src/Syncmanager/Connpool/Outcome.antt =====
-- What a command over the pool reports (internal/syncmanager/connpool.go).
use vayu_mail_mobile.Base.{
  ℕ, suc, ◌+◌, ◌-◌, ◌≡◌, ◌≤◌, refl, sym, ap, ◌∙◌, Bool, true, false, Option, none, some, List, [],
  ◌∷◌, ◌++◌, Result, err, ltb, ◌==◌, arith, length, length-append, Bool-cases, inl, inr,
}
use vayu_mail_mobile.Syncmanager.Connpool.{
  CmdConn, Slot, PoolError, command_failed, max_cmd_idle, close, evict_conn, evict, drop_suspect,
  close_old, ran_on, finish, fresh_attempt, pooled_attempt, attempt, with_command_conn,
}

close_old-runs : (c : ℕ) (o : Option CmdConn) (s : Slot) → (close_old c o s).runs ≡ s.runs
unfolding close
close_old-runs c none s = refl
close_old-runs c (some old) s = elim (Bool-cases (old.client == c)) [
  | inl same ↦ rw same
  | inr other ↦ rw other
]

evict_conn-kept :
    (now : ℕ) (o : Option CmdConn) (s : Slot)
    → ((evict_conn now o s).runs ≡ s.runs) × ((evict_conn now o s).dialled ≡ s.dialled)
unfolding close
evict_conn-kept now none s = (refl, refl)
evict_conn-kept now (some cc) s = elim (Bool-cases (ltb max_cmd_idle (now - cc.used_at))) [
  | inl late ↦ rw late (refl, refl)
  | inr soon ↦ rw soon (refl, refl)
]

drop_suspect-kept :
    (c : ℕ) (o : Option CmdConn) (s : Slot)
    → ((drop_suspect c o s).runs ≡ s.runs) × ((drop_suspect c o s).dialled ≡ s.dialled)
drop_suspect-kept c none s = (refl, refl)
drop_suspect-kept c (some cc) s = elim (Bool-cases (cc.client == c)) [
  | inl same ↦ rw same (refl, refl)
  | inr other ↦ rw other (refl, refl)
]

one_more : (xs : List ℕ) (x : ℕ) → length (xs ++ x ∷ []) ≡ length xs + 1
one_more xs x = omega (arith, length-append xs (x ∷ []))

module _ {E : Type 0} where
  -- at most n more runs than `before`, and an error of the command is the one of `fn` on `c`
  abbrev Reports : ℕ → List ℕ → ℕ → (ℕ → Option E) → Result (PoolError E) (Unit {0}) × Slot → Type 0
  Reports n before c fn r =
      (length r.1.runs ≤ length before + n)
      × ((e : E) → r.0 ≡ err (command_failed e) → fn c ≡ some e)

  at_start :
      (n : ℕ) (xs ys : List ℕ) (c d : ℕ) (fn : ℕ → Option E)
      (r : Result (PoolError E) (Unit {0}) × Slot)
      → xs ≡ ys
      → c ≡ d
      → Reports n xs c fn r
      → Reports n ys d fn r
  at_start n xs ys c d fn r hx hc h = (rw (← hx) (h.0), λ e g. ap fn (sym hc) ∙ h.1 e g)

  finish_error :
      (c later : ℕ) (o : Option E) (s : Slot) (e : E)
      → (finish c later o s).0 ≡ err (command_failed e)
      → o ≡ some e
  finish_error c later none s e h = cc
  finish_error c later (some x) s e h = cc

  finish-runs : (c later : ℕ) (o : Option E) (s : Slot) → (finish c later o s).1.runs ≡ s.runs
  unfolding close
  finish-runs c later none s = close_old-runs c s.conn s
  finish-runs c later (some x) s = refl

  fresh-Reports :
      (cred dial : Bool) (fn : ℕ → Option E) (now later : ℕ) (s : Slot)
      → Reports 1 s.runs s.dialled fn (fresh_attempt cred dial fn now later s)
  unfolding fresh_attempt
  fresh-Reports false dial fn now later s = (omega arith, λ e h. cc)
  fresh-Reports true false fn now later s = (omega arith, λ e h. cc)
  fresh-Reports true true fn now later s =
      let s' = ran_on s.dialled (record s { live = s.dialled ∷ s.live; dialled = suc s.dialled }) in
      let same = finish-runs s.dialled later (fn s.dialled) s' in
      (
        rw same (omega (arith, one_more s.runs s.dialled)),
        λ e h. finish_error s.dialled later (fn s.dialled) s' e h,
      )

  pooled-Reports :
      (cred dial : Bool) (fn : ℕ → Option E) (now later c : ℕ) (o : Option E) (s : Slot)
      → Reports 1 s.runs s.dialled fn (pooled_attempt cred dial fn now later c o s)
  unfolding close
  pooled-Reports cred dial fn now later c none s = (omega arith, λ e h. cc)
  pooled-Reports cred dial fn now later c (some x) s =
      let k = drop_suspect-kept c s.conn s in
      let s' = close c (drop_suspect c s.conn s) in
      at_start 1 s'.runs s.runs s'.dialled s.dialled fn (fresh_attempt cred dial fn now later s')
        k.0 k.1 (fresh-Reports cred dial fn now later s')

  attempt-Reports :
      (cred dial : Bool) (fn : ℕ → Option E) (now later : ℕ) (o : Option CmdConn) (s : Slot)
      → Reports 2 s.runs s.dialled fn (attempt cred dial fn now later o s)
  attempt-Reports cred dial fn now later none s =
      let f = fresh-Reports cred dial fn now later s in (omega (arith, f.0), f.1)
  attempt-Reports cred dial fn now later (some cc) s =
      let s' =
        ran_on cc.client
          (record s { conn = some (record { client = cc.client; used_at = now }) }) in
      let p = pooled-Reports cred dial fn now later cc.client (fn cc.client) s' in
      (omega (arith, p.0, one_more s.runs cc.client), p.1)

  -- A call runs its command at most twice, and when it reports an error of the command, the command
  -- failed with it on a connection that was dialled during the call.
  pub call-Reports :
      (cred dial : Bool) (fn : ℕ → Option E) (now later : ℕ) (s : Slot)
      → let r = with_command_conn cred dial fn now later s in
        (length r.1.runs ≤ length s.runs + 2)
        × ((e : E) → r.0 ≡ err (command_failed e) → fn s.dialled ≡ some e)
  unfolding with_command_conn evict
  call-Reports cred dial fn now later s =
      let k = evict_conn-kept now s.conn s in
      let s' = evict now s in
      at_start 2 s'.runs s.runs s'.dialled s.dialled fn (attempt cred dial fn now later s'.conn s')
        k.0 k.1 (attempt-Reports cred dial fn now later s'.conn s')
