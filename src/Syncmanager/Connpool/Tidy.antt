-- ===== src/Syncmanager/Connpool/Tidy.antt =====
-- No connection leaks, and only an error of a fresh connection is reported
-- (internal/syncmanager/connpool.go).
use vayu_mail_mobile.Base.{
  ℕ, ◌∙◌, ◌-◌, suc, ◌≡◌, ◌<◌, refl, ap, Bool, true, false, Option, none, some, List, [], ◌∷◌, ltb,
  ◌==◌, not, keep, arith, Bool-cases, inl, inr,
}
use vayu_mail_mobile.Syncmanager.Connpool.{
  CmdConn, Slot, max_cmd_idle, close, forget, evict_conn, evict, drop_suspect, ran_on, finish,
  fresh_attempt, pooled_attempt, attempt, with_command_conn, drop_conn, drop_command_conn,
}

abbrev pub clients : Option CmdConn → List ℕ
clients none = []
clients (some cc) = cc.client ∷ []

abbrev pub Known : Option CmdConn → ℕ → Type 0
Known none n = Unit
Known (some cc) n = cc.client < n

-- the open connections are exactly those of the pool
abbrev pub Tidy : Slot → Type 0
Tidy s = (s.live ≡ clients s.conn) × Known s.conn s.dialled

keep_self : (c : ℕ) → keep (λ d. not (d == c)) (c ∷ []) ≡ []
keep_self c = ground arith

eq_self : (c : ℕ) → (c == c) ≡ true
eq_self c = ground arith

none-Tidy : (s : Slot) → s.conn ≡ none → s.live ≡ [] → Tidy s
none-Tidy s e l = rw e (l, tt)

evict_conn-Tidy :
    (now : ℕ) (o : Option CmdConn) (s : Slot) → s.conn ≡ o → Tidy s → Tidy (evict_conn now o s)
unfolding close
evict_conn-Tidy now none s e h = h
evict_conn-Tidy now (some cc) s e h = elim (Bool-cases (ltb max_cmd_idle (now - cc.used_at))) [
  | inl late ↦
      rw late (ap (keep (λ d. not (d == cc.client))) (h.0 ∙ ap clients e) ∙ keep_self cc.client, tt)
  | inr soon ↦ rw soon h
]

evict-Tidy : (now : ℕ) (s : Slot) → Tidy s → Tidy (evict now s)
unfolding evict
evict-Tidy now s h = evict_conn-Tidy now s.conn s refl h

drop-Tidy : (o : Option CmdConn) (s : Slot) → s.conn ≡ o → Tidy s → Tidy (drop_conn o s)
unfolding close
drop-Tidy none s e h = h
drop-Tidy (some cc) s e h =
    (ap (keep (λ d. not (d == cc.client))) (h.0 ∙ ap clients e) ∙ keep_self cc.client, tt)

module _ {E : Type 0} where
  finish-Tidy :
      (c later : ℕ) (o : Option E) (s : Slot)
      → s.conn ≡ none
      → s.live ≡ c ∷ []
      → c < s.dialled
      → Tidy (finish c later o s).1
  unfolding close
  finish-Tidy c later (some x) s e l k =
      none-Tidy (close c s) e (ap (keep (λ d. not (d == c))) l ∙ keep_self c)
  finish-Tidy c later none s e l k = rw e (l, k)

  fresh-Tidy :
      (cred dial : Bool) (fn : ℕ → Option E) (now later : ℕ) (s : Slot)
      → s.conn ≡ none
      → s.live ≡ []
      → Tidy (fresh_attempt cred dial fn now later s).1
  unfolding fresh_attempt
  fresh-Tidy false dial fn now later s e l = none-Tidy s e l
  fresh-Tidy true false fn now later s e l = none-Tidy s e l
  fresh-Tidy true true fn now later s e l =
      finish-Tidy s.dialled later (fn s.dialled)
        (ran_on s.dialled (record s { live = s.dialled ∷ s.live; dialled = suc s.dialled })) e
        (ap (λ t. s.dialled ∷ t) l) (omega arith)

  pooled-Tidy :
      (cred dial : Bool) (fn : ℕ → Option E) (now later c t : ℕ) (o : Option E) (s : Slot)
      → s.conn ≡ some (record { client = c; used_at = t })
      → Tidy s
      → Tidy (pooled_attempt cred dial fn now later c o s).1
  unfolding close
  pooled-Tidy cred dial fn now later c t none s e h = h
  pooled-Tidy cred dial fn now later c t (some x) s e h =
      let dropped : drop_suspect c s.conn s ≡ forget s = rw (e, eq_self c) refl in
      rw dropped (
        fresh-Tidy cred dial fn now later (close c (forget s)) refl
          (ap (keep (λ d. not (d == c))) (h.0 ∙ ap clients e) ∙ keep_self c))

  attempt-Tidy :
      (cred dial : Bool) (fn : ℕ → Option E) (now later : ℕ) (o : Option CmdConn) (s : Slot)
      → s.conn ≡ o
      → Tidy s
      → Tidy (attempt cred dial fn now later o s).1
  attempt-Tidy cred dial fn now later none s e h =
      fresh-Tidy cred dial fn now later s e (h.0 ∙ ap clients e)
  attempt-Tidy cred dial fn now later (some cc) s e h =
      let cc' : CmdConn = record { client = cc.client; used_at = now } in
      let known : cc.client < s.dialled = rw e at h.1 in
      pooled-Tidy cred dial fn now later cc.client now (fn cc.client)
        (ran_on cc.client (record s { conn = some cc' })) refl (h.0 ∙ ap clients e, known)

  call-Tidy :
      (cred dial : Bool) (fn : ℕ → Option E) (now later : ℕ) (s : Slot)
      → Tidy s
      → Tidy (with_command_conn cred dial fn now later s).1
  unfolding with_command_conn
  call-Tidy cred dial fn now later s h =
      let s' = evict now s in
      attempt-Tidy cred dial fn now later s'.conn s' refl (evict-Tidy now s h)

-- a command over the pool, or the removal of the account
pub data Use (E : Type 0) : Type 0 where
  command : Bool → Bool → (ℕ → Option E) → ℕ → ℕ → Use E
  removal : Use E

module _ {E : Type 0} where
  unfoldable pub use_slot : Use E → Slot → Slot
  unfolding with_command_conn drop_command_conn
  use_slot (command cred dial fn now later) s = (with_command_conn cred dial fn now later s).1
  use_slot removal s = drop_command_conn s

  unfoldable pub use_all : List (Use E) → Slot → Slot
  unfolding use_slot
  use_all [] s = s
  use_all (u ∷ us) s = use_all us (use_slot u s)

  use-Tidy : (u : Use E) (s : Slot) → Tidy s → Tidy (use_slot u s)
  unfolding use_slot drop_command_conn
  use-Tidy (command cred dial fn now later) s h = call-Tidy cred dial fn now later s h
  use-Tidy removal s h = drop-Tidy s.conn s refl h

  -- After any sequence of commands and removals, whatever fails in them, the connections that are open
  -- are those of the pool: none leaks, and a pooled one was not closed.
  pub use_all-Tidy : (us : List (Use E)) (s : Slot) → Tidy s → Tidy (use_all us s)
  unfolding use_all
  use_all-Tidy [] s h = h
  use_all-Tidy (u ∷ us) s h = use_all-Tidy us (use_slot u s) (use-Tidy u s h)
