-- ===== src/Mime/Attachments.antt =====
-- internal/mail/mime/attachments.go: one attachment of a message, found by its place among them. The parts
-- are those of Parse; what reading at most 64 MiB of a part's body gives is a parameter, and an index below
-- zero, which no list of attachments has, is left out.
pub mod Places
use vayu_mail_mobile.Base.{
  ℕ, suc, ◌+◌, pos, ◌++◌, Option, none, some, List, [], ◌∷◌, Bytes, codes, ◌==◌, if◌then◌else◌,
}
use vayu_mail_mobile.Base.Decimal.{itoa}
use vayu_mail_mobile.Mime.Parse.{
  Part, unknown_charset, broken, inline_part, attachment_part, Mail, is_empty, or_octets, or_empty,
}

pub data ExtractError : Type 0 where
  unreadable_message walk_parts read_attachment not_found : ExtractError

pub data Extraction : Type 0 where
  failed : ExtractError → Extraction
  extracted : (filename content_type contents : Bytes) → Extraction

-- the name under which a nameless attachment is saved
unfoldable pub named : ℕ → Bytes → Bytes
named index filename =
    if is_empty filename then codes "attachment-" ++ itoa (pos (suc index)) else filename

abbrev pub with_contents : (filename content_type : Bytes) → Option Bytes → Extraction
with_contents filename ct none = failed read_attachment
with_contents filename ct (some contents) = extracted filename ct contents

module _ (read_all : Part → Option Bytes) where
  unfoldable pub extract_from : (seen index : ℕ) → List Part → Extraction
  extract_from seen index [] = failed not_found
  extract_from seen index (unknown_charset ∷ parts) = failed walk_parts
  extract_from seen index (broken ∷ parts) = failed walk_parts
  extract_from seen index (inline_part ct body ∷ parts) = extract_from seen index parts
  extract_from seen index (attachment_part ct filename body whole ∷ parts) =
      let later = extract_from (seen + 1) index parts in
      if seen == index
      then with_contents (named index (or_empty filename)) (or_octets ct)
          (read_all (attachment_part ct filename body whole))
      else later

  abbrev pub extract_read : Option Mail → ℕ → Extraction
  extract_read none index = failed unreadable_message
  extract_read (some mail) index = extract_from 0 index mail.parts

  unfoldable pub extract_attachment : (Bytes → Option Mail) → Bytes → ℕ → Extraction
  extract_attachment read raw index = extract_read (read raw) index
