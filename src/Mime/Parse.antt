-- ===== src/Mime/Parse.antt =====
-- internal/mail/mime/parse.go: what is kept of a message. The MIME library's reading of a message into its
-- headers and parts is a parameter, and so are the snippet and the test for trackers.
pub mod Armored
pub mod Sound
use vayu_mail_mobile.Base.{
  Bool, true, false, not, ◌&&◌, ◌||◌, Option, none, some, List, [], ◌∷◌, ◌++◌, map, Bytes, codes,
  eq_bytes, lower, has_prefix, contains, if◌then◌else◌,
}

pub record Parsed : Type 0 where
  pub text : Bytes
  pub html : Bytes
  pub snippet : Bytes
  pub attachments : List (Bytes × Bytes)
  pub pgp_status : Bytes
  pub encrypted_block : Bytes
  pub has_trackers : Bool
  pub list_id : Bytes
  pub list_unsubscribe : Bytes

-- what NextPart returns: a part of an unknown charset, an error of the structure, an inline part or an
-- attachment, each with the values that its header and the first MiB of its body give, where they can be read
pub data Part : Type 0 where
  unknown_charset broken : Part
  inline_part : (content_type body : Option Bytes) → Part
  attachment_part : (content_type filename : Option Bytes) (body : Bytes) (whole : Bool) → Part

pub record Mail : Type 0 where
  pub content_type : Option (Bytes × Bytes)
  pub header : Bytes → Bytes
  pub parts : List Part

abbrev pub equal_fold : Bytes → Bytes → Bool
equal_fold s t = eq_bytes (map lower s) (map lower t)

abbrev pub is_empty : Bytes → Bool
is_empty s = eq_bytes s []

abbrev pub begin_pgp : Bytes
begin_pgp = codes "-----BEGIN PGP MESSAGE-----"

abbrev pub end_pgp : Bytes
end_pgp = codes "-----END PGP MESSAGE-----"

-- what stands from the first occurrence on
unfoldable pub from_first : Bytes → Bytes → Option Bytes
from_first part [] = none
from_first part (c ∷ s) =
    let rest = from_first part s in if has_prefix part (c ∷ s) then some (c ∷ s) else rest

abbrev pub with_head : Option Bytes → (Bytes → Bytes) → Option Bytes
with_head none f = none
with_head (some s) f = some (f s)

-- what stands up to the end of the first occurrence
unfoldable pub through_first : Bytes → Bytes → Option Bytes
through_first part [] = none
through_first part (c ∷ s) =
    let rest = through_first part s in
    if has_prefix part (c ∷ s) then some part else with_head rest (λ t. c ∷ t)

abbrev pub or_empty : Option Bytes → Bytes
or_empty none = []
or_empty (some s) = s

abbrev pub through_end : Option Bytes → Option Bytes
through_end none = none
through_end (some s) = through_first end_pgp s

unfoldable pub extract_inline_pgp : Bytes → Bytes
extract_inline_pgp text = or_empty (through_end (from_first begin_pgp text))

unfoldable pub looks_inline_pgp : Bytes → Bool
looks_inline_pgp text = contains text begin_pgp

unfoldable pub is_encrypted : Bytes → Bool
is_encrypted status =
    eq_bytes status (codes "encrypted") || eq_bytes status (codes "signed+encrypted")

unfoldable pub pgp_status_from_content_type : Option (Bytes × Bytes) → Bytes
pgp_status_from_content_type none = []
pgp_status_from_content_type (some (ct, protocol)) =
    if eq_bytes (map lower ct) (codes "multipart/encrypted")
    then if eq_bytes (map lower protocol) (codes "application/pgp-encrypted")
      then codes "encrypted"
      else []
    else if eq_bytes (map lower ct) (codes "multipart/signed")
    then if eq_bytes (map lower protocol) (codes "application/pgp-signature")
      then codes "signed"
      else []
    else []

unfoldable pub keep_block : Bytes → Bytes → Parsed → Parsed
keep_block ct body p =
    if is_encrypted p.pgp_status
      && (is_empty p.encrypted_block
          && contains body begin_pgp
          && not (equal_fold ct (codes "text/html")))
    then record p { encrypted_block = extract_inline_pgp body }
    else p

unfoldable pub keep_body : Bytes → Bytes → Parsed → Parsed
keep_body ct body p =
    if equal_fold ct (codes "text/plain") && is_empty p.text
    then record p { text = body }
    else if equal_fold ct (codes "text/html") && is_empty p.html
    then record p { html = body }
    else p

abbrev pub or_octets : Option Bytes → Bytes
or_octets none = codes "application/octet-stream"
or_octets (some ct) = ct

unfoldable pub keep_attachment : Bytes → Option Bytes → Bytes → Bool → Parsed → Parsed
keep_attachment ct filename body whole p =
    let armored = extract_inline_pgp body in
    if is_encrypted p.pgp_status && contains (map lower ct) (codes "pgp-encrypted")
    then p
    else if is_encrypted p.pgp_status
        && (is_empty p.encrypted_block
            && (contains (map lower ct) (codes "octet-stream")
                || contains (map lower ct) (codes "pgp"))
            && whole
            && not (is_empty armored))
    then record p { encrypted_block = armored }
    else record p { attachments = p.attachments ++ (or_empty filename, ct) ∷ [] }

unfoldable pub keep_part : Part → Parsed → Parsed
keep_part unknown_charset p = p
keep_part broken p = p
keep_part (inline_part none body) p = p
keep_part (inline_part (some ct) none) p = p
keep_part (inline_part (some ct) (some body)) p = keep_body ct body (keep_block ct body p)
keep_part (attachment_part ct filename body whole) p =
    keep_attachment (or_octets ct) filename body whole p

-- an error of the structure ends the loop, and what was read stays
unfoldable pub keep_parts : List Part → Parsed → Parsed
keep_parts [] p = p
keep_parts (broken ∷ parts) p = p
keep_parts (part ∷ parts) p = keep_parts parts (keep_part part p)

-- inline PGP: the status first, then the block
unfoldable pub mark_inline : Parsed → Parsed
mark_inline p =
    if is_empty p.pgp_status && looks_inline_pgp p.text
    then record p { pgp_status = codes "encrypted" }
    else p

unfoldable pub lift_inline : Parsed → Parsed
lift_inline p =
    if is_encrypted p.pgp_status && (is_empty p.encrypted_block && looks_inline_pgp p.text)
    then record p { encrypted_block = extract_inline_pgp p.text }
    else p

unfoldable pub start_parsed : Mail → Parsed
start_parsed mail =
    let status = pgp_status_from_content_type mail.content_type in
    record {
      text = [];
      html = [];
      snippet = [];
      attachments = [];
      pgp_status =
          if is_empty status && equal_fold (mail.header (codes "X-VayuPGP")) (codes "encrypted")
          then codes "encrypted"
          else status;
      encrypted_block = [];
      has_trackers = false;
      list_id = mail.header (codes "List-Id");
      list_unsubscribe = mail.header (codes "List-Unsubscribe");
    }

unfoldable pub parse_mail : (Bytes → Bool) → (Bytes → Bytes → Bytes) → Mail → Parsed
parse_mail tracked snippet mail =
    let p = lift_inline (mark_inline (keep_parts mail.parts (start_parsed mail))) in
    record p { has_trackers = tracked p.html; snippet = snippet p.text p.html }

abbrev pub parse_read : (Bytes → Bool) → (Bytes → Bytes → Bytes) → Option Mail → Option Parsed
parse_read tracked snippet none = none
parse_read tracked snippet (some mail) = some (parse_mail tracked snippet mail)

unfoldable pub parse :
    (Bytes → Bool) → (Bytes → Bytes → Bytes) → (Bytes → Option Mail) → Bytes → Option Parsed
parse tracked snippet read raw = parse_read tracked snippet (read raw)
