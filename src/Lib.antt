-- ===== src/Lib.antt =====
-- VayuMail Mobile, a mail and chat client in Go. A sync engine (internal) keeps an SQLite cache
-- of mail, queues outbound messages, and holds secrets in a keystore; the user interface (ui)
-- shows snapshots of that state behind an app lock.
--
-- What is modelled, one module for each part:
--
-- - Base: what the parts share, and the pieces of Go's standard library that they use, written
--   out: strconv (Base.Decimal), bufio.Scanner over lines (Base.Bufio), the ASCII range of
--   strings (Base.Text), int64 arithmetic (Base.Integers), and methods that return an error and
--   write (Base.Effects).
-- - Store.Db, Store.Settings, Store.Outbox: the rows of internal/store/schema.go,
--   internal/store/settings.go and internal/store/outbox.go. A method is one or more SQL
--   statements; a list of faults says which statements the engine refuses, and a refused
--   statement writes nothing. GetSetting is get_setting, SetSetting set_setting, EnqueueOutbox
--   enqueue_outbox, and so on.
-- - Crypto.Keystore: internal/crypto/keystore.go, the interface as a record of operations and
--   laws that its users take as a parameter, the memory implementation and the platform
--   implementation behind it.
-- - Crypto.MasterKey: FileKeyProvider.MasterKey of internal/crypto/sealed.go, on a file system
--   with hard links, as a machine in steps; preparing the temporary file is one step.
--   publishExcl, which Android needs, is not modelled. An interleaving is a list of turns.
-- - Crypto.Sealed: SealedKeystore of internal/crypto/sealed.go, which implements the same
--   interface: Store is sealed_store, Fetch sealed_fetch, Delete sealed_delete,
--   NewSealedKeystoreWithProvider reopen. The key provider, the cipher, the encodings, the
--   random numbers and the answers of the disk are parameters.
-- - Applock: internal/applock. Manager has applock.go (Set, Verify, Remove, RetryDelay,
--   recordFailure, clearLockout), Manager.Totp has totp.go, Ladder and Pin the two pure
--   functions. PBKDF2, HMAC-SHA-1, base32 and JSON are parameters with the laws that are used:
--   the lengths of their results, and that decoding undoes encoding.
-- - Smtpsend: internal/mail/smtpsend/outbox.go. Outbox is ProcessOutbox, where the outcome of
--   SendEntry for each entry, the times and the cancellation are the parameter World; Bcc is
--   stripBcc; Client is SendEntry as send_entry and Send of client.go as send, where the state
--   lists what the server has accepted and an Attempt says what it answers.
-- - Syncmanager: internal/syncmanager. Connpool is connpool.go, where a client is the number of
--   its dialling and withCommandConn is with_command_conn; Scheduler is the cadence of
--   scheduler.go; Exec is execMove, execDelete and, in Exec.Mark, execMark of exec.go over the
--   cached rows (internal/store/messages.go), where a connection is what it carries out and the
--   state lists what the server has done; Send is execSend over the outbox of Smtpsend.
-- - Avatarimg: internal/avatarimg/cache.go. Image is image, SetAllowedDomains
--   set_allowed_domains, and the goroutines that fetch are a list in the state; a picture is
--   whatever the decoder gives. A fetch stands for its address and domain: the URL and redirects
--   of net/http are not modelled.
-- - Chat.SafetyNumber: SafetyNumber of internal/chat/manager_ops.go.
-- - Chat.Transport: internal/chat/transport.go and OpenStream of stream.go. The state is the
--   list of the requests made, and the network answers a request by a function of that list,
--   which is a parameter like the decoding of the answers.
-- - Chat.Manager: internal/chat/manager.go and manager_ops.go. Operations has what the screens
--   ask for (Send is manager_send, VerifyPeer verify_peer), Incoming what the stream brings
--   (handleEnvelope is handle_envelope, resyncOnce resync_once) and the reconnect loop, Calls
--   the engine as a whole. The keyring's states are a type parameter.
-- - Chat.Stream: internal/chat/stream.go, parseSSE and buildEvent, for a context that is not
--   cancelled; encoding/json and time.Parse are a parameter.
-- - UiState.Preferences, UiState.Gate: ui/state/lockstate.go and ui/state/prefsetters.go.
--   LockNow is lock_now, VerifyPIN verify_pin, UnlockWithBiometric unlock_with_biometric, and so
--   on; the answer of the system's biometric prompt is an argument. A call runs as a whole, and
--   a run of the application is a sequence of calls and of reloads by the loader.
-- - UiState.Decrypt: ui/state/decrypt.go, decryptThread as decrypt_thread, with the
--   MessageRefetchedEvent of AppState.Apply; the keyring is a parameter, and so is whether the
--   engine takes a command.
-- - Chat.Events, UiState.Talk: the events of internal/chat/events.go, and ui/state/chatstate.go,
--   chatstate_events.go and chatstate_ops.go, which fold them and the actions of the user into
--   the conversations: apply is apply, applyIncoming apply_incoming, RevealMessage
--   reveal_message, and so on. Talk.Moves lists everything that changes the conversations in the
--   order in which the mutex serves it.
-- - UiState.Undo: EnqueueDraft and the undo of armUndoSend in ui/state/actions.go, over
--   Store.Outbox.
-- - UiState.Nav: ui/state/nav.go, the navigation stack and its transition.
-- - Store.Messages, Imapsync: the tables of messages and folders in internal/store/messages.go,
--   messages_sync.go and folders.go, and the sync of a folder in internal/mail/imapsync/fetch.go
--   and idle.go. SyncFolder is sync_folder with its loop sync_turns, RefreshFlags refresh_flags,
--   reconcileExpunged reconcile_expunged; the answers of the server and what goes wrong at each
--   turn are parameters.
-- - Mime.Sanitize, Mime.Rich: internal/mail/mime/sanitize.go and richspans.go. The walk over a
--   document is emit_node (emitNode) with the list written so far, and Uncapped has the walk
--   without the cap; the paragraphs are a fold of step over the events. The HTML parser is a
--   parameter, and so is what url.Parse checks after the scheme.
-- - Mime.Parse: internal/mail/mime/parse.go, Parse as parse with keep_part for one part; the
--   MIME library's reading of the parts is a parameter, and so is the snippet.
-- - Mime.Attachments: internal/mail/mime/attachments.go, ExtractAttachment over the same parts.
-- - Mime.Render: internal/mail/mime/render.go, and Snippet of parse.go. HTMLToText is
--   html_to_text with the loop render_tokens over the tokens of the HTML tokenizer.
-- - Mime.Track: internal/mail/mime/track.go, over the tokens of the HTML tokenizer.
--
-- The parts meet in records: the app lock works on an Env of a keystore's state and the
-- database, a pass of the outbox on a Run of the database and the reports so far. Errors are
-- values and come back beside the state, since what was written before an error stays written.
--
-- Texts are lists of bytes; white space and letter case are those of ASCII. Times are numbers of
-- nanoseconds since 1970, or of the monotonic clock where only differences matter. int and int64
-- wrap at 64 bits. An index out of range, which Go answers by a panic, is none or an error of
-- its own, and the theorems show that it does not occur. No definition takes fuel but the
-- printing of decimal digits, whose fuel is the number itself plus one, more than its digits.
--
-- Not modelled: drawing and layout, network and database libraries, the parsers of HTML, MIME
-- and IMAP, cryptography, the Android and iOS bindings, and, but for the master key, concurrency
-- inside one method.
pub mod Base
pub mod Crypto
pub mod Store
pub mod Applock
pub mod Smtpsend
pub mod UiState
pub mod Chat
pub mod Syncmanager
pub mod Avatarimg
pub mod Mime
pub mod Imapsync
