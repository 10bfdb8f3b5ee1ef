-- ===== src/Mime/Parse/Sound.antt =====
-- internal/mail/mime/parse.go: through the parts of a message to the ciphertext that Parse returns.
use vayu_mail_mobile.Base.{
  split_and, ◌≡◌, refl, ap, Bool, true, not, ◌&&◌, ◌||◌, Option, none, some, List, [], ◌∷◌, Bytes,
  map, lower, codes, eq_bytes, contains, Bool-cases, inl, inr,
}
use vayu_mail_mobile.Mime.Parse.{
  Parsed, Part, unknown_charset, broken, inline_part, attachment_part, Mail, begin_pgp, equal_fold,
  is_empty, extract_inline_pgp, looks_inline_pgp, is_encrypted, keep_block, keep_body, or_octets,
  keep_attachment, keep_part, keep_parts, mark_inline, lift_inline, start_parsed, parse_mail,
  parse_read, parse,
}
use vayu_mail_mobile.Mime.Parse.Armored.{IsSound, sound_with, extract_inline_pgp-Kept}

keep_block-IsSound : (ct body : Bytes) (p : Parsed) → IsSound p → IsSound (keep_block ct body p)
unfolding keep_block
keep_block-IsSound ct body p h =
    let others =
      is_empty p.encrypted_block
      && contains body begin_pgp
      && not (equal_fold ct (codes "text/html")) in
    elim (Bool-cases (is_encrypted p.pgp_status && others)) [
      | inl kept ↦ rw kept (
          sound_with p.pgp_status (extract_inline_pgp body)
            (split_and (is_encrypted p.pgp_status) others kept).0 (extract_inline_pgp-Kept body))
      | inr left ↦ rw left h
    ]

keep_body-IsSound : (ct body : Bytes) (p : Parsed) → IsSound p → IsSound (keep_body ct body p)
unfolding keep_body
keep_body-IsSound ct body p h =
    elim (Bool-cases (equal_fold ct (codes "text/plain") && is_empty p.text)) [
      | inl plain ↦ rw plain h
      | inr n1 ↦ rw n1 (elim (Bool-cases (equal_fold ct (codes "text/html") && is_empty p.html)) [
        | inl html ↦ rw html h
        | inr n2 ↦ rw n2 h
      ])
    ]

keep_attachment-IsSound :
    (ct : Bytes) (filename : Option Bytes) (body : Bytes) (whole : Bool) (p : Parsed)
    → IsSound p
    → IsSound (keep_attachment ct filename body whole p)
unfolding keep_attachment
keep_attachment-IsSound ct filename body whole p h =
    let others =
      is_empty p.encrypted_block
      && (contains (map lower ct) (codes "octet-stream") || contains (map lower ct) (codes "pgp"))
      && whole
      && not (is_empty (extract_inline_pgp body)) in
    elim (Bool-cases
      (is_encrypted p.pgp_status && contains (map lower ct) (codes "pgp-encrypted"))) [
        | inl control ↦ rw control h
        | inr n1 ↦ rw n1 (elim (Bool-cases (is_encrypted p.pgp_status && others)) [
          | inl kept ↦ rw kept (
              sound_with p.pgp_status (extract_inline_pgp body)
                (split_and (is_encrypted p.pgp_status) others kept).0
                (extract_inline_pgp-Kept body))
          | inr left ↦ rw left h
        ])
      ]

keep_part-IsSound : (part : Part) (p : Parsed) → IsSound p → IsSound (keep_part part p)
unfolding keep_part
keep_part-IsSound unknown_charset p h = h
keep_part-IsSound broken p h = h
keep_part-IsSound (inline_part none body) p h = h
keep_part-IsSound (inline_part (some ct) none) p h = h
keep_part-IsSound (inline_part (some ct) (some body)) p h =
    keep_body-IsSound ct body (keep_block ct body p) (keep_block-IsSound ct body p h)
keep_part-IsSound (attachment_part ct filename body whole) p h =
    keep_attachment-IsSound (or_octets ct) filename body whole p h

keep_parts-IsSound : (parts : List Part) (p : Parsed) → IsSound p → IsSound (keep_parts parts p)
unfolding keep_parts
keep_parts-IsSound [] p h = h
keep_parts-IsSound (broken ∷ parts) p h = h
keep_parts-IsSound (unknown_charset ∷ parts) p h =
    keep_parts-IsSound parts (keep_part unknown_charset p) (keep_part-IsSound unknown_charset p h)
keep_parts-IsSound (inline_part ct body ∷ parts) p h =
    keep_parts-IsSound parts (keep_part (inline_part ct body) p)
      (keep_part-IsSound (inline_part ct body) p h)
keep_parts-IsSound (attachment_part ct filename body whole ∷ parts) p h =
    keep_parts-IsSound parts (keep_part (attachment_part ct filename body whole) p)
      (keep_part-IsSound (attachment_part ct filename body whole) p h)

marked : is_encrypted (codes "encrypted") ≡ true
unfolding is_encrypted eq_bytes
marked = refl

mark_inline-IsSound : (p : Parsed) → IsSound p → IsSound (mark_inline p)
unfolding mark_inline
mark_inline-IsSound p h = elim (Bool-cases (is_empty p.pgp_status && looks_inline_pgp p.text)) [
  | inl inline ↦
      rw inline (elim h [ inl empty ↦ inl empty | inr (_, armored) ↦ inr (marked, armored) ])
  | inr other ↦ rw other h
]

lift_inline-IsSound : (p : Parsed) → IsSound p → IsSound (lift_inline p)
unfolding lift_inline
lift_inline-IsSound p h =
    let others = is_empty p.encrypted_block && looks_inline_pgp p.text in
    elim (Bool-cases (is_encrypted p.pgp_status && others)) [
      | inl kept ↦ rw kept (
          sound_with p.pgp_status (extract_inline_pgp p.text)
            (split_and (is_encrypted p.pgp_status) others kept).0 (extract_inline_pgp-Kept p.text))
      | inr left ↦ rw left h
    ]

-- For every message that can be read, whatever its parts, `parse` keeps either no ciphertext, or the
-- status says that the message is encrypted and the ciphertext is an armoured block: the opening delimiter
-- of a PGP message stands where it begins, and it ends with the closing one.
pub parse-IsSound :
    (tracked : Bytes → Bool) (snippet : Bytes → Bytes → Bytes) (read : Bytes → Option Mail)
    (raw : Bytes) (mail : Mail)
    → read raw ≡ some mail
    → (p : Parsed) × (parse tracked snippet read raw ≡ some p) × IsSound p
unfolding parse parse_mail start_parsed
parse-IsSound tracked snippet read raw mail e =
    let start = start_parsed mail in
    let whole = keep_parts mail.parts start in
    (
      parse_mail tracked snippet mail,
      ap (λ m. parse_read tracked snippet m) e,
      lift_inline-IsSound (mark_inline whole)
          (mark_inline-IsSound whole (keep_parts-IsSound mail.parts start (inl refl))),
    )
