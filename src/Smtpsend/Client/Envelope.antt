-- ===== src/Smtpsend/Client/Envelope.antt =====
-- internal/mail/smtpsend/outbox.go, envelopeFromRaw: the sender and the recipients that a header names.
use vayu_mail_mobile.Base.{
  Memᴰ, ◌∙◌, ◌↔◌, is_nil, ◌≡◌, refl, sym, ap, codes, ◌⊎◌, inl, inr, false, Option, none, some, List,
  [], ◌∷◌, ◌++◌, Bytes, ok,
}
use vayu_mail_mobile.Smtpsend.Client.{
  Headers, with_recipients, envelope_of, first_sender, recipients_of, addresses,
}

module _ {A : Type 0} where
  in_left : (xs ys : List A) (x : A) → Memᴰ x xs → Memᴰ x (xs ++ ys)
  in_left (y ∷ xs) ys x (Memᴰ.head e) = Memᴰ.head e
  in_left (y ∷ xs) ys x (Memᴰ.tail m) = Memᴰ.tail (in_left xs ys x m)
  in_left [] ys x m = elim m [ ]

  in_right : (xs ys : List A) (x : A) → Memᴰ x ys → Memᴰ x (xs ++ ys)
  in_right [] ys x m = m
  in_right (y ∷ xs) ys x m = Memᴰ.tail (in_right xs ys x m)

  in_either : (xs ys : List A) (x : A) → Memᴰ x (xs ++ ys) → Memᴰ x xs ⊎ Memᴰ x ys
  in_either [] ys x m = inr m
  in_either (y ∷ xs) ys x (Memᴰ.head e) = inl (Memᴰ.head e)
  in_either (y ∷ xs) ys x (Memᴰ.tail m) = elim (in_either xs ys x m) [
    | inl l ↦ inl (Memᴰ.tail l)
    | inr r ↦ inr r
  ]

-- an address of a recipient field that the mail library can read
abbrev pub IsAddressed : Headers → Bytes → Type 0
IsAddressed header a =
    (name : Bytes) × (list : List Bytes) × ((name ≡ codes "To")
      ⊎ (name ≡ codes "Cc")
      ⊎ (name ≡ codes "Bcc"))
    × (header name ≡ some list)
    × Memᴰ a list

in_addresses :
    (o : Option (List Bytes)) (a : Bytes)
    → Memᴰ a (addresses o)
    → (list : List Bytes) × (o ≡ some list) × Memᴰ a list
in_addresses none a m = elim m [ ]
in_addresses (some list) a m = (list, refl, m)

addressed :
    (header : Headers) (name : Bytes) (list : List Bytes) (a : Bytes)
    → (name ≡ codes "To") ⊎ (name ≡ codes "Cc") ⊎ (name ≡ codes "Bcc")
    → header name ≡ some list
    → Memᴰ a list
    → Memᴰ a (recipients_of header)
unfolding recipients_of
addressed header name list a (inl to) e m =
    in_left (addresses (header (codes "To"))) _ a (rw (ap header (sym to) ∙ e) m)
addressed header name list a (inr (inl cc_field)) e m =
    in_right (addresses (header (codes "To"))) _ a
      (in_left (addresses (header (codes "Cc"))) _ a (rw (ap header (sym cc_field) ∙ e) m))
addressed header name list a (inr (inr bcc)) e m =
    in_right (addresses (header (codes "To"))) _ a
      (in_right (addresses (header (codes "Cc"))) _ a (rw (ap header (sym bcc) ∙ e) m))

recipients_iff :
    (header : Headers) (a : Bytes) → Memᴰ a (recipients_of header) ↔ IsAddressed header a
unfolding recipients_of
recipients_iff header a = (
  λ m.
      let from : (name : Bytes)
          → (name ≡ codes "To") ⊎ (name ≡ codes "Cc") ⊎ (name ≡ codes "Bcc")
          → Memᴰ a (addresses (header name))
          → IsAddressed header a =
        λ name which at.
          let (list, e, x) = in_addresses (header name) a at in (name, list, which, e, x) in
      elim (in_either (addresses (header (codes "To"))) _ a m) [
        | inl to ↦ from (codes "To") (inl refl) to
        | inr rest ↦ elim (in_either (addresses (header (codes "Cc"))) _ a rest) [
          | inl copy ↦ from (codes "Cc") (inr (inl refl)) copy
          | inr blind_copy ↦ from (codes "Bcc") (inr (inr refl)) blind_copy
        ]
      ],
  λ (name, list, which, e, m). addressed header name list a which e m,
)

with_recipients_lem :
    (rs : List Bytes) (from : Option (List Bytes)) (sender : Bytes) (found : List Bytes)
    → with_recipients rs (first_sender from) ≡ ok (sender, found)
    → (rest : List Bytes) × (from ≡ some (sender ∷ rest)) × (rs ≡ found) × (is_nil found ≡ false)
with_recipients_lem rs none sender found h = cc
with_recipients_lem rs (some []) sender found h = cc
with_recipients_lem [] (some (a ∷ rest)) sender found h = cc
with_recipients_lem (r ∷ rs) (some (a ∷ rest)) sender found h =
    let same : r ∷ rs ≡ found = cc in
    let first : a ≡ sender = cc in (rest, ap (λ x. some (x ∷ rest)) first, same, rw (sym same) refl)

-- the envelope that the header of a message asks for, in words of the header alone
abbrev pub IsEnvelope : Option Headers → Bytes → List Bytes → Type 0
IsEnvelope o sender recipients =
    (header : Headers) × (rest : List Bytes) × (o ≡ some header)
    × (header (codes "From") ≡ some (sender ∷ rest))
    × (((a : Bytes) → Memᴰ a recipients ↔ IsAddressed header a) × (is_nil recipients ≡ false))

pub envelope_of-IsEnvelope :
    (o : Option Headers) (sender : Bytes) (found : List Bytes)
    → envelope_of o ≡ ok (sender, found)
    → IsEnvelope o sender found
envelope_of-IsEnvelope none sender found h = cc
envelope_of-IsEnvelope (some header) sender found h =
    let (rest, from, same, any) =
      with_recipients_lem (recipients_of header) (header (codes "From")) sender found h in
    (header, rest, refl, from, (λ a. rw⁻¹ same (recipients_iff header a), any))
