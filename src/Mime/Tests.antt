-- ===== src/Mime/Tests.antt =====
-- Runs of internal/mail/mime at concrete inputs, and the witnesses of its properties.
use vayu_mail_mobile.Mime.Parse.{
  Parsed, Mail, inline_part, attachment_part, broken, parse, parse_mail, lift_inline, mark_inline,
  keep_parts, keep_part, keep_attachment, keep_body, keep_block, start_parsed,
  pgp_status_from_content_type, is_encrypted, extract_inline_pgp, looks_inline_pgp, from_first,
  through_first,
}
use vayu_mail_mobile.Mime.Parse.Armored.{IsSound}
use vayu_mail_mobile.Mime.Parse.Sound.{parse-IsSound}
use vayu_mail_mobile.Base.{
  is_nil, none, contains, ◌≤◌, ◌≡◌, ◌↔◌, refl, Bool, true, false, Option, some, List, [], ◌∷◌, map,
  Bytes, codes, has_prefix, lower, length, until, eq_bytes, trim_space, trim_left, trim_right,
  is_space, take, All, inr, split,
}
use vayu_mail_mobile.Mime.Sanitize.{
  Node, text_node, element_node, document_node, last, sibling, rich_text, rich_block_open,
  rich_block_close, rich_link_open, rich_link_close, rich_style_open, rich_style_close,
  max_rich_events, children_of, sanitize_html, emit_root, recurse_children, append_event,
  emit_named, emit_styled, emit_block, emit_link, attr_of, safe_href, url_scheme, allow_scheme,
  get_scheme, scheme_from,
}
use vayu_mail_mobile.Mime.Tags.{has_name, lookup_tag}
use vayu_mail_mobile.Mime.Sanitize.Uncapped.{render_html}
use vayu_mail_mobile.Mime.Sanitize.Reference.{sanitize_html-render}
use vayu_mail_mobile.Mime.Sanitize.Links.{IsLink}
use vayu_mail_mobile.Mime.Sanitize.Visible.{VisibleIn, IsSaid, sanitize_html-IsSaid}
use vayu_mail_mobile.Mime.Rich.{
  RichPara, max_rich_paras, rich_paragraphs, steps, step, flush, flushed, put, put_text, text_of,
  trim_start, open_block, open_para, apply, append_run, same_style,
}
use vayu_mail_mobile.Mime.Collapse.{collapse_space, collapse_from, replace_crlf}
use vayu_mail_mobile.Mime.Rich.Links.{Linked, rich_paragraphs-Linked}
use vayu_mail_mobile.Mime.Track.{
  url_hits_tracker_host, trim_part, first_unsubscribe_target, take_parts, take_part, mailto_address,
}
use vayu_mail_mobile.Mime.Track.Hosts.{IsTracked, url_hits_tracker_host_iff}

abbrev link_to : Bytes → Node
link_to href =
    element_node (codes "A") (record { key = codes "HREF"; val = href } ∷ [])
      (sibling (text_node (codes "here")) last)

-- <p>Hi  <B>there</B><script>evil()</script></p> and two links
abbrev letter : Node
letter = document_node (
    sibling
      (element_node (codes "p") [] (
        sibling (text_node (codes "Hi  ")) (
          sibling (element_node (codes "B") [] (sibling (text_node (codes "there")) last)) (
            sibling (element_node (codes "script") [] (sibling (text_node (codes "evil()")) last))
              last))))
      (sibling (link_to (codes " HTTPS://vayu.example/?a#b "))
        (sibling (link_to (codes "javascript:alert(1)")) last)))

abbrev parses : Bytes → Bool
parses raw = true

abbrev parse_html : Bytes → Option Node
parse_html src = some letter

sanitize_letter :
    sanitize_html parses parse_html (codes "<p>")
    ≡ rich_block_open (codes "p") 0
      ∷ rich_text (codes "Hi  ")
      ∷ rich_style_open (codes "b")
      ∷ rich_text (codes "there")
      ∷ rich_style_close (codes "b")
      ∷ rich_block_close (codes "p") 0
      ∷ rich_link_open (codes "HTTPS://vayu.example/?a#b")
      ∷ rich_text (codes "here")
      ∷ rich_link_close
      ∷ rich_text (codes "here")
      ∷ []
unfolding sanitize_html emit_root recurse_children children_of has_name lookup_tag append_event
    emit_named emit_styled emit_block emit_link attr_of safe_href url_scheme allow_scheme get_scheme
    scheme_from until eq_bytes lower trim_space trim_left trim_right is_space
sanitize_letter = refl

abbrev shown : List RichPara → List (List (Bytes × Bool × Bytes))
shown paras = map (λ p. map (λ r. (r.text, r.bold, r.link)) p.runs) paras

paragraphs_letter :
    shown (
      rich_paragraphs (
        rich_block_open (codes "p") 0
        ∷ rich_text (codes "Hi  ")
        ∷ rich_style_open (codes "b")
        ∷ rich_text (codes "there")
        ∷ rich_style_close (codes "b")
        ∷ rich_block_close (codes "p") 0
        ∷ rich_text (codes "  ")
        ∷ rich_link_open (codes "https:x")
        ∷ rich_text (codes "here")
        ∷ rich_link_close
        ∷ rich_text (codes "  end")
        ∷ rich_text (codes ".")
        ∷ []))
    ≡ ((codes "Hi ", false, []) ∷ (codes "there", true, []) ∷ [])
      ∷ ((codes "here", false, codes "https:x") ∷ (codes " end.", false, []) ∷ [])
      ∷ []
unfolding rich_paragraphs steps step flush flushed put put_text text_of trim_start open_block
    open_para apply append_run same_style collapse_space collapse_from replace_crlf eq_bytes
    trim_left
paragraphs_letter = refl

sanitize_html-render_example :
    sanitize_html parses parse_html (codes "<p>")
    ≡ take max_rich_events (render_html parses parse_html (codes "<p>"))
sanitize_html-render_example = sanitize_html-render parses parse_html (codes "<p>")

sanitize_html-IsSaid_example :
    All
      (IsSaid (λ text. VisibleIn text (children_of letter)))
      (sanitize_html parses parse_html (codes "<p>"))
sanitize_html-IsSaid_example = sanitize_html-IsSaid parses parse_html (codes "<p>") letter refl

rich_paragraphs-Linked_example :
    (length (rich_paragraphs (sanitize_html parses parse_html (codes "<p>"))) ≤ max_rich_paras)
    × All
        (λ p. Linked IsLink p.runs × (is_nil p.runs ≡ false))
        (rich_paragraphs (sanitize_html parses parse_html (codes "<p>")))
rich_paragraphs-Linked_example = rich_paragraphs-Linked parses parse_html (codes "<p>")

abbrev click : Bytes
click = codes "https://Click.SENDGRID.net:443/x?y"

url_hits_tracker_host_example :
    (url_hits_tracker_host click ≡ true) ↔ IsTracked (codes "click.sendgrid.net:443/x?y")
unfolding lower
url_hits_tracker_host_example =
    url_hits_tracker_host_iff click (codes "click.sendgrid.net:443/x?y") (inr refl)

abbrev header : Bytes
header = codes "<https://list.example/u?a=1,2>, <MAILTO:leave@list.example?subject=off>"

-- the address is cut at its comma
cut_address :
    first_unsubscribe_target header
    ≡ (codes "leave@list.example", codes "https://list.example/u?a=1")
unfolding first_unsubscribe_target take_parts take_part trim_part mailto_address until split
    eq_bytes lower trim_space trim_left trim_right is_space has_prefix
cut_address = refl

-- an encrypted message with its control part and the part of the ciphertext
abbrev sealed : Mail
sealed = record {
  content_type = some (codes "multipart/encrypted", codes "application/pgp-encrypted");
  header = λ name. [];
  parts =
      attachment_part (some (codes "application/pgp-encrypted")) none (codes "Version: 1") true
      ∷ inline_part (some (codes "application/octet-stream"))
          (some (codes "x -----BEGIN PGP MESSAGE-----\nab\n-----END PGP MESSAGE----- y"))
      ∷ broken
      ∷ [];
}

abbrev untracked : Bytes → Bool
untracked html = false

abbrev no_snippet : Bytes → Bytes → Bytes
no_snippet text html = []

parse-IsSound_example :
    (p : Parsed) × (parse untracked no_snippet (λ raw. some sealed) [] ≡ some p) × IsSound p
parse-IsSound_example = parse-IsSound untracked no_snippet (λ raw. some sealed) [] sealed refl

sealed_block :
    (parse_mail untracked no_snippet sealed).encrypted_block
    ≡ codes "-----BEGIN PGP MESSAGE-----\nab\n-----END PGP MESSAGE-----"
unfolding parse_mail lift_inline mark_inline keep_parts keep_part keep_attachment keep_body
    keep_block start_parsed pgp_status_from_content_type is_encrypted extract_inline_pgp
    looks_inline_pgp from_first through_first eq_bytes lower has_prefix contains
sealed_block = refl
