-- ===== src/UiState/Decrypt.antt =====
-- ui/state/decrypt.go: encrypted mail is opened in memory when its thread is shown, and a broken copy is
-- fetched again once. The keyring's `DecryptFrom` is an argument, none for an error or no result.
pub mod Once
use vayu_mail_mobile.Base.{
  contains, ℕ, suc, Bool, true, false, ◌||◌, Option, none, some, List, [], ◌∷◌, ◌++◌, Bytes, codes,
  eq_bytes, trim_space, has_prefix, length, ltb, ◌==◌, if◌then◌else◌,
}

pub record Message : Type 0 where
  pub id : ℕ
  pub account_id : ℕ
  pub from_addr : Bytes
  pub pgp_status : Bytes
  pub body_text : Bytes
  pub body_html : Bytes
  pub pgp_sig_verified : Bool

-- the text that a message shows: its own, or one of the three notices
pub data Body : Type 0 where
  text : Bytes → Body
  no_private_key refetching_notice unreadable : Body

pub record View : Type 0 where
  pub body : Body
  pub html : Bytes
  pub verified : Bool

pub record Opened : Type 0 where
  pub plaintext : Bytes
  pub sender_verified : Bool

-- the two maps, the commands that the engine took, and the "Busy" notices
pub record Refetches : Type 0 where
  pub refetching : List ℕ
  pub refetched : List ℕ
  pub queued : List (ℕ × ℕ)
  pub busy : ℕ

pub data RefetchPhase : Type 0 where
  refetch_idle refetch_in_flight refetch_done : RefetchPhase

unfoldable pub has : ℕ → List ℕ → Bool
has id [] = false
has id (j ∷ ids) = j == id || has id ids

unfoldable pub without : ℕ → List ℕ → List ℕ
without id [] = []
without id (j ∷ ids) = let rest = without id ids in if j == id then rest else j ∷ rest

abbrev pub is_encrypted_status : Bytes → Bool
is_encrypted_status status =
    eq_bytes status (codes "encrypted") || eq_bytes status (codes "signed+encrypted")

abbrev pub is_junk_encrypted_body : Bytes → Bool
is_junk_encrypted_body body =
    eq_bytes body [] || eq_bytes body (codes "Version: 1") || ltb (length body) 8

unfoldable pub refetch_state : ℕ → Refetches → RefetchPhase
refetch_state id r =
    if has id r.refetching
    then refetch_in_flight
    else if has id r.refetched
    then refetch_done
    else refetch_idle

-- `room` says whether the engine takes the command
unfoldable pub request_refetch : Bool → ℕ → ℕ → Refetches → Refetches
request_refetch room account id r =
    if has id r.refetching || has id r.refetched
    then r
    else if room
    then record r { refetching = id ∷ r.refetching; queued = r.queued ++ (account, id) ∷ [] }
    else record r { refetching = id ∷ r.refetching; busy = suc r.busy }

-- the MessageRefetchedEvent in `Apply`
unfoldable pub message_refetched : ℕ → Refetches → Refetches
message_refetched id r = record r {
  refetching = without id r.refetching;
  refetched = id ∷ r.refetched;
}

abbrev stored_view : Message → View
stored_view m = record {
  body = text m.body_text;
  html = m.body_html;
  verified = m.pgp_sig_verified;
}

abbrev notice_view : Body → Message → View
notice_view b m = record { body = b; html = []; verified = m.pgp_sig_verified }

abbrev pub opened_view : Message → Option Opened → View
opened_view m none = notice_view no_private_key m
opened_view m (some res) = elim res.plaintext [
  | [] ↦ notice_view no_private_key m
  | c ∷ s ↦ record { body = text (c ∷ s); html = []; verified = res.sender_verified }
]

abbrev pub junk_view : Bool → Message → RefetchPhase → Refetches → View × Refetches
junk_view room m refetch_idle r =
    (notice_view refetching_notice m, request_refetch room m.account_id m.id r)
junk_view room m refetch_in_flight r = (notice_view refetching_notice m, r)
junk_view room m refetch_done r = (notice_view unreadable m, r)

module _ (decrypt_from : Bytes → Bytes → Option Opened) (room : Message → Bool) where
  unfoldable pub decrypt_message : Message → Refetches → View × Refetches
  unfolding refetch_state request_refetch
  decrypt_message m r =
      let body = trim_space m.body_text in
      if is_encrypted_status m.pgp_status
      then (if contains body (codes "BEGIN PGP MESSAGE")
          then (opened_view m (decrypt_from body m.from_addr), r)
          else if is_junk_encrypted_body body
          then junk_view (room m) m (refetch_state m.id r) r
          else (stored_view m, r))
      else (stored_view m, r)

  unfoldable pub decrypt_thread : List Message → Refetches → List View × Refetches
  unfolding decrypt_message
  decrypt_thread [] r = ([], r)
  decrypt_thread (m ∷ ms) r =
      let v = decrypt_message m r in let vs = decrypt_thread ms v.1 in (v.0 ∷ vs.0, vs.1)
