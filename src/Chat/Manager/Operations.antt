-- ===== src/Chat/Manager/Operations.antt =====
-- internal/chat/manager_ops.go: what the screens ask of the engine.
use vayu_mail_mobile.Base.{
  ℕ, pos, ◌/◌, Bool, false, [], ◌∷◌, ◌++◌, Bytes, codes, eq_bytes, if◌then◌else◌, Exec, Result, ok,
  err, ◌>>=◌, ◌>>◌, wrap,
}
use vayu_mail_mobile.Store.Db.{Db, DbError}
use vayu_mail_mobile.Store.Settings.{get_setting, set_setting}
use vayu_mail_mobile.Chat.Events.{ChatError, keyring_error, settings_error, delivered, peer_key}
use vayu_mail_mobile.Chat.Transport.{send, ack, fetch_pub_key}
use vayu_mail_mobile.Chat.Manager.{
  Config, Manager, setting_prefix, normal_fingerprint, lookup, emit, with_token, ensure_token,
  second, given,
}

module _ {K : Type 0} (C : Config K) where
  abbrev pub remember_peer : Bytes → Bytes → Manager K → Manager K
  remember_peer id peer m = record m { sent_to = (id, peer) ∷ m.sent_to }

  abbrev pub sent_as : Bytes → Bytes × Bool → Exec (Manager K) ChatError Bytes
  sent_as peer (id, done) m = (ok id, emit C (delivered id done) (remember_peer id peer m))

  unfoldable pub manager_send : Bytes → Bytes → ℕ → Bytes → Exec (Manager K) ChatError Bytes
  unfolding ensure_token emit send
  manager_send peer plaintext burn mode m =
      (given C keyring_error (C.encrypt m.keys plaintext peer C.self_email)
          >>= (λ ciphertext. ensure_token C >>= λ token. with_token C (
              send C.net C.domain token peer (C.encode_base64 ciphertext) (pos (burn / second))
                mode))
          >>= sent_as peer)
        m

  unfoldable pub manager_ack : Bytes → Exec (Manager K) ChatError (Unit {0})
  unfolding ensure_token ack
  manager_ack id = ensure_token C >>= λ token. with_token C (ack C.net C.domain token id)

  abbrev pub on_settings : {A : Type 0} → Exec Db DbError A → Exec (Manager K) ChatError A
  on_settings op m = let r = op m.db in (wrap (λ _. settings_error) r.0, record m { db = r.1 })

  abbrev pub flag_of : Result ChatError Bytes → Bool
  flag_of (ok v) = eq_bytes v (codes "1")
  flag_of (err e) = false

  abbrev pub flagged : Result ChatError Bytes × Manager K → Bool × Manager K
  flagged (r, m) = (flag_of r, m)

  unfoldable pub is_verified : Bytes → Manager K → Bool × Manager K
  unfolding get_setting
  is_verified fingerprint m =
      let fp = normal_fingerprint fingerprint in
      if C.has_settings
      then flagged (on_settings (get_setting (setting_prefix ++ fp)) m)
      else (lookup false fp m.verified_mem, m)

  unfoldable pub set_peer_verified : Bytes → Bool → Exec (Manager K) ChatError (Unit {0})
  unfolding set_setting
  set_peer_verified fingerprint verified m =
      let fp = normal_fingerprint fingerprint in
      if C.has_settings
      then on_settings (set_setting (setting_prefix ++ fp) (if verified then codes "1" else [])) m
      else (ok tt, record m { verified_mem = (fp, verified) ∷ m.verified_mem })

  abbrev pub import_key : Bytes → Exec (Manager K) ChatError (Unit {0})
  import_key armored m =
      (given C keyring_error (C.import_armored m.keys armored) >>= λ keys m.
      (ok tt, record m { keys = keys }))
        m

  -- the fingerprint is the server's
  abbrev pub report_key : Bytes → Bytes → Exec (Manager K) ChatError (Unit {0})
  report_key peer fingerprint m =
      let r = is_verified fingerprint m in (ok tt, emit C (peer_key peer fingerprint r.0) r.1)

  unfoldable pub verify_peer : Bytes → Exec (Manager K) ChatError (Unit {0})
  unfolding ensure_token emit is_verified fetch_pub_key
  verify_peer peer =
      ensure_token C
      >>= (λ token. with_token C (fetch_pub_key C.net C.domain token peer))
      >>= λ key. import_key key.0 >> report_key peer key.1
