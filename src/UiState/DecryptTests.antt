-- ===== src/UiState/DecryptTests.antt =====
-- The repair of broken encrypted copies at concrete inputs.
use vayu_mail_mobile.Base.{◌≡◌, refl, true, false, none, List, [], ◌∷◌, codes}
use vayu_mail_mobile.UiState.Decrypt.{
  Message, Refetches, request_refetch, refetch_state, refetch_in_flight, has,
}
use vayu_mail_mobile.UiState.Decrypt.Once.{
  Step, shown, refetched_event, steps, asked, refused_refetch,
}

abbrev broken : Message
broken = record {
  id = 4;
  account_id = 1;
  from_addr = codes "a@b";
  pgp_status = codes "encrypted";
  body_text = codes "Version: 1";
  body_html = [];
  pgp_sig_verified = false;
}

abbrev readings : List Step
readings =
    shown (broken ∷ broken ∷ []) (λ _. true)
    ∷ refetched_event 4
    ∷ shown (broken ∷ []) (λ _. true)
    ∷ []

abbrev fresh : Refetches
fresh = record { refetching = []; refetched = []; queued = []; busy = 0 }

refused_refetch_example :
    let after =
      steps
        (λ _ _. none)
        (shown (broken ∷ []) (λ _. true) ∷ [])
        (request_refetch false 1 4 fresh) in
    (refetch_state 4 after ≡ refetch_in_flight) × (asked 4 after.queued ≡ 0)
unfolding refetch_state has asked
refused_refetch_example =
    refused_refetch (λ _ _. none) 4 1 (shown (broken ∷ []) (λ _. true) ∷ []) fresh refl (tt, tt)
