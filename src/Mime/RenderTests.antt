-- ===== src/Mime/RenderTests.antt =====
-- Runs of render.go and attachments.go of internal/mail/mime at concrete inputs, and the witnesses of their
-- properties.
use vayu_mail_mobile.Base.{
  ◌≡◌, refl, true, false, Option, none, some, List, [], ◌∷◌, ◌++◌, map, Bytes, codes, get_elem?,
  eq_bytes, split, trim_right, trim_left, trim_space, is_space, lower, contains, has_prefix,
}
use vayu_mail_mobile.Base.Decimal.{itoa}
use vayu_mail_mobile.Mime.Tags.{has_name}
use vayu_mail_mobile.Mime.Collapse.{replace_crlf}
use vayu_mail_mobile.Mime.Parse.{
  Parsed, Part, Mail, inline_part, attachment_part, unknown_charset, parse, parse_mail, lift_inline,
  mark_inline, keep_parts, keep_part, keep_attachment, start_parsed, pgp_status_from_content_type,
  is_encrypted, extract_inline_pgp, looks_inline_pgp, from_first, through_first,
}
use vayu_mail_mobile.Mime.Render.{
  Token, start_tag, self_closing_tag, end_tag, text_token, render_token, write_break, render_tokens,
  join_with, cap_breaks, collapse_blank_lines, text_of_tokens, html_to_text, wrap_plaintext,
  display_text, quote_depth, snippet, fields_of,
}
use vayu_mail_mobile.Mime.Render.Hidden.{is_plain, Hidden, text_of_tokens-Hidden}
use vayu_mail_mobile.Mime.Attachments.{
  extracted, failed, walk_parts, extract_from, extract_attachment, named,
}
use vayu_mail_mobile.Mime.Attachments.Places.{
  is_readable, saved, contents_of, extract_attachment-parse,
}

-- <p>Hi  <script>evil()</script>there</p><br/>
abbrev letter : List Token
letter =
    start_tag (codes "p")
    ∷ text_token (codes "Hi  ")
    ∷ start_tag (codes "script")
    ∷ text_token (codes "evil()")
    ∷ end_tag (codes "script")
    ∷ text_token (codes "there")
    ∷ end_tag (codes "p")
    ∷ self_closing_tag (codes "br")
    ∷ text_token (codes "you")
    ∷ []

shown_letter :
    display_text (λ src. letter) [] (codes "<p>") ≡ codes "Hi  there" ++ 10 ∷ 10 ∷ codes "you"
unfolding display_text html_to_text text_of_tokens render_tokens render_token write_break has_name
    eq_bytes collapse_blank_lines join_with cap_breaks split trim_right trim_left trim_space
    is_space
shown_letter = refl

-- trailing blanks and further empty lines are dropped
shown_plain :
    display_text
      (λ src. letter)
      (codes "a " ++ 13 ∷ 10 ∷ 32 ∷ 10 ∷ 10 ∷ 9 ∷ 10 ∷ codes " b" ++ 10 ∷ [])
      []
    ≡ codes "a" ++ 10 ∷ 10 ∷ codes " b"
unfolding display_text wrap_plaintext replace_crlf eq_bytes collapse_blank_lines join_with
    cap_breaks split trim_right trim_left trim_space is_space
shown_plain = refl

quoted_twice : quote_depth (codes " > >x > y") ≡ 2
unfolding quote_depth
quoted_twice = refl

-- the preview of an HTML body, in a reader of one byte for each rune
previewed :
    snippet (λ src. letter) (λ s. map (λ c. c ∷ []) s) [] (codes "<p>") ≡ codes "Hi there you"
unfolding snippet fields_of html_to_text text_of_tokens render_tokens render_token write_break
    has_name eq_bytes collapse_blank_lines join_with cap_breaks split trim_right trim_left
    trim_space is_space
previewed = refl

-- an embed element has no end tag, and nothing that follows it is shown
embed_swallows :
    text_of_tokens (
      text_token (codes "Hi")
      ∷ start_tag (codes "embed")
      ∷ start_tag (codes "p")
      ∷ text_token (codes "Pay by Friday")
      ∷ end_tag (codes "p")
      ∷ [])
    ≡ codes "Hi"
unfolding text_of_tokens render_tokens render_token write_break has_name eq_bytes
    collapse_blank_lines join_with cap_breaks split trim_right trim_left trim_space is_space
embed_swallows = refl

evil_Hidden : Hidden (text_token (codes "evil()") ∷ [])
unfolding is_plain
evil_Hidden = Hidden.beside (text_token (codes "evil()")) [] refl Hidden.nothing

text_of_tokens-Hidden_example :
    (text_of_tokens (
        (text_token (codes "Hi") ∷ [])
        ++ start_tag (codes "script")
          ∷ ((text_token (codes "evil()") ∷ [])
              ++ end_tag (codes "script") ∷ text_token (codes "!") ∷ []))
      ≡ text_of_tokens ((text_token (codes "Hi") ∷ []) ++ text_token (codes "!") ∷ []))
    × (text_of_tokens (
          (text_token (codes "Hi") ∷ [])
          ++ start_tag (codes "script") ∷ text_token (codes "evil()") ∷ [])
        ≡ text_of_tokens (text_token (codes "Hi") ∷ []))
unfolding has_name eq_bytes
text_of_tokens-Hidden_example =
    text_of_tokens-Hidden (text_token (codes "Hi") ∷ []) (text_token (codes "evil()") ∷ [])
      (text_token (codes "!") ∷ []) (codes "script") (codes "script") refl refl evil_Hidden

abbrev attached : Bytes → Part
attached ct = attachment_part (some ct) none (codes "data") true

abbrev read_all : Part → Option Bytes
read_all (attachment_part ct filename body whole) = some body
read_all _ = none

-- a text and two attachments
abbrev with_parts : List Part → Bytes → Option Mail
with_parts parts raw = some (record {
  content_type = some (codes "multipart/mixed", []);
  header = λ name. [];
  parts = parts;
})

abbrev two_attached : List Part
two_attached =
    attached (codes "image/png")
    ∷ inline_part (some (codes "text/plain")) (some (codes "hi"))
    ∷ attached (codes "text/csv")
    ∷ []

second_attached :
    extract_attachment read_all (with_parts two_attached) [] 1
    ≡ extracted (codes "attachment-2") (codes "text/csv") (codes "data")
unfolding extract_attachment extract_from named eq_bytes itoa
second_attached = refl

extract_attachment-parse_example :
    (p : Parsed) × (parse (λ html. false) (λ text html. text) (with_parts two_attached) [] ≡ some p)
    × (extract_attachment read_all (with_parts two_attached) [] 1
        ≡ saved 1 (get_elem? p.attachments 1) (get_elem? (contents_of read_all two_attached) 1))
unfolding start_parsed pgp_status_from_content_type is_encrypted eq_bytes lower is_readable
extract_attachment-parse_example =
    extract_attachment-parse read_all (λ html. false) (λ text html. text) (with_parts two_attached)
      []
      (record {
        content_type = some (codes "multipart/mixed", []);
        header = λ name. [];
        parts = two_attached;
      })
      1 refl refl (refl, (refl, (refl, tt)))

-- a part of an unknown charset is passed over by Parse, and ends the search for an attachment
charset_ends_search :
    extract_attachment read_all (with_parts (unknown_charset ∷ two_attached)) [] 0
    ≡ failed walk_parts
unfolding extract_attachment extract_from
charset_ends_search = refl

-- an encrypted message: its first part is not listed, and is what the first index gives
abbrev sealed_mail : Mail
sealed_mail = record {
  content_type = some (codes "multipart/encrypted", codes "application/pgp-encrypted");
  header = λ name. [];
  parts = attached (codes "application/pgp-encrypted") ∷ attached (codes "text/csv") ∷ [];
}

control_part_not_listed :
    (parse_mail (λ html. false) (λ text html. text) sealed_mail).attachments
    ≡ ([], codes "text/csv") ∷ []
unfolding parse_mail lift_inline mark_inline keep_parts keep_part keep_attachment start_parsed
    pgp_status_from_content_type is_encrypted eq_bytes lower contains has_prefix looks_inline_pgp
    extract_inline_pgp from_first through_first
control_part_not_listed = refl

control_part_extracted :
    extract_attachment read_all (λ raw. some sealed_mail) [] 0
    ≡ extracted (codes "attachment-1") (codes "application/pgp-encrypted") (codes "data")
unfolding extract_attachment extract_from named eq_bytes itoa
control_part_extracted = refl
