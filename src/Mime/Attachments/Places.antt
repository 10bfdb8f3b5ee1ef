-- ===== src/Mime/Attachments/Places.antt =====
-- internal/mail/mime/attachments.go against parse.go: the attachments that are listed are those that are
-- found.
use vayu_mail_mobile.Base.{
  ℕ, zero, suc, ◌+◌, ◌≡◌, refl, sym, ap, ◌∙◌, Bool, true, false, ◌&&◌, All, codes, get_elem?,
  Option, none, some, List, [], ◌∷◌, ◌++◌, append_assoc, append-nil, map, keep, Bytes, Bool-cases,
  inl, inr, arith, ◌==◌,
}
use vayu_mail_mobile.Mime.Parse.{
  Parsed, Part, unknown_charset, broken, inline_part, attachment_part, Mail, is_encrypted,
  equal_fold, is_empty, looks_inline_pgp, or_octets, or_empty, keep_block, keep_body,
  keep_attachment, keep_part, keep_parts, mark_inline, lift_inline, start_parsed, parse_mail,
  parse_read, parse,
}
use vayu_mail_mobile.Mime.Attachments.{
  Extraction, failed, not_found, named, with_contents, extract_from, extract_read,
  extract_attachment,
}

-- the part can be read, whether it is an attachment or not
unfoldable pub is_readable : Part → Bool
is_readable (inline_part ct body) = true
is_readable (attachment_part ct filename body whole) = true
is_readable _ = false

unfoldable pub is_attachment : Part → Bool
is_attachment (attachment_part ct filename body whole) = true
is_attachment _ = false

abbrev ref_of : Part → Bytes × Bytes
ref_of (attachment_part ct filename body whole) = (or_empty filename, or_octets ct)
ref_of _ = ([], [])

unfoldable refs_of : List Part → List (Bytes × Bytes)
refs_of parts = map ref_of (keep is_attachment parts)

keep_block-same :
    (ct body : Bytes) (p : Parsed) → is_encrypted p.pgp_status ≡ false → keep_block ct body p ≡ p
unfolding keep_block
keep_block-same ct body p h = rw h refl

-- what the loop never changes of a message that is not encrypted, and what it adds to
Lists : Parsed → Parsed → List (Bytes × Bytes) → Type 0
Lists p q refs = (q.pgp_status ≡ p.pgp_status) × (q.attachments ≡ p.attachments ++ refs)

Lists-refl : (p : Parsed) → Lists p p []
unfolding Lists
Lists-refl p = (refl, sym (append-nil p.attachments))

Lists-trans :
    (p q r : Parsed) (xs ys : List (Bytes × Bytes))
    → Lists p q xs
    → Lists q r ys
    → Lists p r (xs ++ ys)
unfolding Lists
Lists-trans p q r xs ys (s, a) (t, b) =
    (t ∙ s, b ∙ ap (λ l. l ++ ys) a ∙ append_assoc p.attachments xs ys)

keep_body-Lists : (ct body : Bytes) (p : Parsed) → Lists p (keep_body ct body p) []
unfolding Lists keep_body
keep_body-Lists ct body p =
    elim (Bool-cases (equal_fold ct (codes "text/plain") && is_empty p.text)) [
      | inl plain ↦ rw plain (Lists-refl p)
      | inr n1 ↦ rw n1 (elim (Bool-cases (equal_fold ct (codes "text/html") && is_empty p.html)) [
        | inl html ↦ rw html (Lists-refl p)
        | inr n2 ↦ rw n2 (Lists-refl p)
      ])
    ]

keep_attachment-Lists :
    (ct : Bytes) (filename : Option Bytes) (body : Bytes) (whole : Bool) (p : Parsed)
    → is_encrypted p.pgp_status ≡ false
    → Lists p (keep_attachment ct filename body whole p) ((or_empty filename, ct) ∷ [])
unfolding Lists keep_attachment
keep_attachment-Lists ct filename body whole p h = rw h (refl, refl)

abbrev own_refs : Part → List (Bytes × Bytes)
own_refs (attachment_part ct filename body whole) = (or_empty filename, or_octets ct) ∷ []
own_refs _ = []

keep_part-Lists :
    (part : Part) (p : Parsed)
    → is_encrypted p.pgp_status ≡ false
    → Lists p (keep_part part p) (own_refs part)
unfolding keep_part
keep_part-Lists unknown_charset p h = Lists-refl p
keep_part-Lists broken p h = Lists-refl p
keep_part-Lists (inline_part none body) p h = Lists-refl p
keep_part-Lists (inline_part (some ct) none) p h = Lists-refl p
keep_part-Lists (inline_part (some ct) (some body)) p h =
    rw (keep_block-same ct body p h) (keep_body-Lists ct body p)
keep_part-Lists (attachment_part ct filename body whole) p h =
    keep_attachment-Lists (or_octets ct) filename body whole p h

still :
    (p q : Parsed) (xs : List (Bytes × Bytes))
    → Lists p q xs
    → is_encrypted p.pgp_status ≡ false
    → is_encrypted q.pgp_status ≡ false
unfolding Lists
still p q xs (s, _) h = rw s h

keep_parts-Lists :
    (parts : List Part) (p : Parsed)
    → is_encrypted p.pgp_status ≡ false
    → All (λ t. is_readable t ≡ true) parts
    → Lists p (keep_parts parts p) (refs_of parts)
unfolding keep_parts refs_of is_readable is_attachment
keep_parts-Lists [] p h _ = Lists-refl p
keep_parts-Lists (unknown_charset ∷ parts) p h (r, _) = let no_way : ⊥ = cc in elim no_way [ ]
keep_parts-Lists (broken ∷ parts) p h (r, _) = let no_way : ⊥ = cc in elim no_way [ ]
keep_parts-Lists (inline_part ct body ∷ parts) p h (_, rest) =
    let q = keep_part (inline_part ct body) p in
    let one = keep_part-Lists (inline_part ct body) p h in
    Lists-trans p q (keep_parts parts q) [] (refs_of parts) one
      (keep_parts-Lists parts q (still p q [] one h) rest)
keep_parts-Lists (attachment_part ct filename body whole ∷ parts) p h (_, rest) =
    let part = attachment_part ct filename body whole in
    let q = keep_part part p in
    let one = keep_part-Lists part p h in
    Lists-trans p q (keep_parts parts q) (own_refs part) (refs_of parts) one
      (keep_parts-Lists parts q (still p q (own_refs part) one h) rest)

listed_at_start :
    (mail : Mail)
    → is_encrypted (start_parsed mail).pgp_status ≡ false
    → All (λ t. is_readable t ≡ true) mail.parts
    → (keep_parts mail.parts (start_parsed mail)).attachments ≡ refs_of mail.parts
unfolding Lists start_parsed
listed_at_start mail plain readable =
    (keep_parts-Lists mail.parts (start_parsed mail) plain readable).1

attachments-lift_inline : (p : Parsed) → (lift_inline p).attachments ≡ p.attachments
unfolding lift_inline
attachments-lift_inline p =
    elim (Bool-cases
      (is_encrypted p.pgp_status && (is_empty p.encrypted_block && looks_inline_pgp p.text))) [
        | inl kept ↦ rw kept refl
        | inr left ↦ rw left refl
      ]

attachments-mark_inline : (p : Parsed) → (mark_inline p).attachments ≡ p.attachments
unfolding mark_inline
attachments-mark_inline p = elim (Bool-cases (is_empty p.pgp_status && looks_inline_pgp p.text)) [
  | inl inline ↦ rw inline refl
  | inr other ↦ rw other refl
]

-- what is saved under an index, when the list of attachments has an entry there
abbrev pub saved : ℕ → Option (Bytes × Bytes) → Option (Option Bytes) → Extraction
saved index none contents = failed not_found
saved index (some ref) none = failed not_found
saved index (some (filename, ct)) (some contents) = with_contents (named index filename) ct contents

module _ (read_all : Part → Option Bytes) where
  -- the contents of the attachments, in order
  unfoldable pub contents_of : List Part → List (Option Bytes)
  contents_of parts = map read_all (keep is_attachment parts)

  extract_from-saved :
      (parts : List Part) (seen index k : ℕ)
      → seen + k ≡ index
      → All (λ t. is_readable t ≡ true) parts
      → extract_from read_all seen index parts
        ≡ saved index (get_elem? (refs_of parts) k) (get_elem? (contents_of parts) k)
  unfolding extract_from refs_of contents_of is_readable is_attachment
  extract_from-saved [] seen index k e _ = refl
  extract_from-saved (unknown_charset ∷ parts) seen index k e (r, _) =
      let no_way : ⊥ = cc in elim no_way [ ]
  extract_from-saved (broken ∷ parts) seen index k e (r, _) = let no_way : ⊥ = cc in elim no_way [ ]
  extract_from-saved (inline_part ct body ∷ parts) seen index k e (_, rest) =
      extract_from-saved parts seen index k e rest
  extract_from-saved (attachment_part ct filename body whole ∷ parts) seen index zero e (_, rest) =
      let here : (seen == index) ≡ true = ground arith in rw here refl
  extract_from-saved (attachment_part ct filename body whole ∷ parts) seen index (suc k) e
        (_, rest) =
      let later : (seen == index) ≡ false = ground arith in
      rw later (extract_from-saved parts (seen + 1) index k (omega arith) rest)

  module _ (tracked : Bytes → Bool) (snippet : Bytes → Bytes → Bytes)
      (read : Bytes → Option Mail) where
    -- For a message that can be read, whose headers do not say that it is encrypted and whose parts can all be
    -- read, `extract_attachment` at each index gives the entry of the list of attachments that `parse`
    -- returns, with the contents of that part: a nameless one gets a name made of the index, a part whose
    -- body cannot be read is an error, and so is an index past the end of the list.
    pub extract_attachment-parse :
        (raw : Bytes) (mail : Mail) (index : ℕ)
        → read raw ≡ some mail
        → is_encrypted (start_parsed mail).pgp_status ≡ false
        → All (λ t. is_readable t ≡ true) mail.parts
        → (p : Parsed) × (parse tracked snippet read raw ≡ some p)
          × (extract_attachment read_all read raw index
              ≡ saved index
                  (get_elem? p.attachments index)
                  (get_elem? (contents_of mail.parts) index))
    unfolding parse parse_mail extract_attachment
    extract_attachment-parse raw mail index e plain readable =
        let start = start_parsed mail in
        let whole = keep_parts mail.parts start in
        let listed : (parse_mail tracked snippet mail).attachments ≡ refs_of mail.parts =
          attachments-lift_inline (mark_inline whole)
          ∙ attachments-mark_inline whole
          ∙ listed_at_start mail plain readable in
        (
          parse_mail tracked snippet mail,
          ap (λ m. parse_read tracked snippet m) e,
          ap (λ m. extract_read read_all m index) e
              ∙ extract_from-saved mail.parts 0 index index (omega arith) readable
              ∙ ap (λ l. saved index (get_elem? l index) (get_elem? (contents_of mail.parts) index))
                  (sym listed),
        )
