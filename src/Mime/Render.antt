-- ===== src/Mime/Render.antt =====
-- internal/mail/mime/render.go: the plain text that is shown of a message. The HTML library's tokenizer is
-- a parameter: it turns a document into tokens, with the tag names in lower case and the entities of a text
-- resolved. Of the white space that strings.TrimSpace removes, only the ASCII range is modelled.
pub mod Hidden
use vayu_mail_mobile.Base.{
  ℕ, zero, suc, ◌+◌, ◌-◌, Bool, true, false, ◌&&◌, ◌||◌, not, List, [], ◌∷◌, ◌++◌, map, Bytes,
  codes, ◌==◌, leb, ltb, if◌then◌else◌, split, trim_right, trim_space, is_space, length, take,
}
use vayu_mail_mobile.Mime.Tags.{has_name}
use vayu_mail_mobile.Mime.Collapse.{replace_crlf}
use vayu_mail_mobile.Mime.Parse.{is_empty}

abbrev pub block_tags : List Bytes
block_tags =
    codes "p"
    ∷ codes "div"
    ∷ codes "br"
    ∷ codes "li"
    ∷ codes "tr"
    ∷ codes "h1"
    ∷ codes "h2"
    ∷ codes "h3"
    ∷ codes "h4"
    ∷ codes "h5"
    ∷ codes "h6"
    ∷ codes "blockquote"
    ∷ codes "pre"
    ∷ codes "table"
    ∷ codes "ul"
    ∷ codes "ol"
    ∷ []

abbrev pub skip_tags : List Bytes
skip_tags =
    codes "script"
    ∷ codes "style"
    ∷ codes "head"
    ∷ codes "object"
    ∷ codes "embed"
    ∷ codes "iframe"
    ∷ codes "noscript"
    ∷ codes "svg"
    ∷ codes "template"
    ∷ []

-- what Next returns before the ErrorToken at the end; `other_token` is a comment or a doctype
pub data Token : Type 0 where
  start_tag self_closing_tag end_tag text_token : Bytes → Token
  other_token : Token

-- the variables of the loop of HTMLToText
pub record Rendering : Type 0 where
  pub written : Bytes
  pub skip_depth : ℕ

unfoldable pub write_break : Bytes → Rendering → Rendering
write_break name r =
    if has_name name block_tags && r.skip_depth == 0
    then record r { written = r.written ++ 10 ∷ [] }
    else r

unfoldable pub render_token : Token → Rendering → Rendering
render_token (start_tag name) r =
    write_break name
      (if has_name name skip_tags then record r { skip_depth = r.skip_depth + 1 } else r)
render_token (self_closing_tag name) r = write_break name r
render_token (end_tag name) r = write_break name (
    if has_name name skip_tags && ltb 0 r.skip_depth
    then record r { skip_depth = r.skip_depth - 1 }
    else r)
render_token (text_token text) r =
    if r.skip_depth == 0 then record r { written = r.written ++ text } else r
render_token other_token r = r

unfoldable pub render_tokens : List Token → Rendering → Rendering
render_tokens [] r = r
render_tokens (t ∷ ts) r = render_tokens ts (render_token t r)

abbrev pub is_blank : ℕ → Bool
is_blank c = c == 32 || c == 9

-- strings.Join with one byte
unfoldable pub join_with : ℕ → List Bytes → Bytes
join_with sep [] = []
join_with sep (l ∷ []) = l
join_with sep (l ∷ m ∷ ls) = l ++ sep ∷ join_with sep (m ∷ ls)

-- multiBlank.ReplaceAllString: a run of line feeds keeps two; `run` of them were just kept
unfoldable pub cap_breaks : (run : ℕ) → Bytes → Bytes
cap_breaks run [] = []
cap_breaks run (c ∷ s) =
    let on = c ∷ cap_breaks 0 s in
    let kept = c ∷ cap_breaks (run + 1) s in
    let dropped = cap_breaks run s in if c == 10 then if ltb run 2 then kept else dropped else on

unfoldable pub collapse_blank_lines : Bytes → Bytes
collapse_blank_lines s =
    trim_space (cap_breaks 0 (join_with 10 (map (λ l. trim_right is_blank l) (split s 10))))

unfoldable pub wrap_plaintext : Bytes → Bytes
wrap_plaintext text = collapse_blank_lines (replace_crlf text)

-- the loop of HTMLToText over the tokens of a document
unfoldable pub text_of_tokens : List Token → Bytes
text_of_tokens tokens =
    collapse_blank_lines (render_tokens tokens (record { written = []; skip_depth = 0 })).written

module _ (tokenize : Bytes → List Token) where
  unfoldable pub html_to_text : Bytes → Bytes
  html_to_text src = text_of_tokens (tokenize src)

  unfoldable pub display_text : (text html_body : Bytes) → Bytes
  display_text text html_body =
      if not (is_empty (trim_space text))
      then wrap_plaintext text
      else if not (is_empty html_body)
      then html_to_text html_body
      else []

-- spaces and quotation marks alternate in any way
unfoldable pub quote_depth : Bytes → ℕ
quote_depth [] = 0
quote_depth (c ∷ line) =
    let rest = quote_depth line in if c == 32 then rest else if c == b'>' then rest + 1 else 0

abbrev pub goes_on : Bytes → Bool
goes_on [] = false
goes_on (c ∷ s) = not (is_space c)

abbrev pub extend : ℕ → List Bytes → List Bytes
extend c [] = (c ∷ []) ∷ []
extend c (word ∷ words) = (c ∷ word) ∷ words

-- strings.Fields
unfoldable pub fields_of : Bytes → List Bytes
fields_of [] = []
fields_of (c ∷ s) =
    let rest = fields_of s in
    if is_space c then rest else if goes_on s then extend c rest else (c ∷ []) ∷ rest

abbrev pub concat : List Bytes → Bytes
concat [] = []
concat (s ∷ ss) = s ++ concat ss

-- `runes` gives the bytes of each rune of a text, as string([]rune(s)) writes them
module _ (tokenize : Bytes → List Token) (runes : Bytes → List Bytes) where
  abbrev pub capped : Bytes → Bytes
  capped line = if ltb 160 (length (runes line)) then concat (take 160 (runes line)) else line

  unfoldable pub snippet : (text html : Bytes) → Bytes
  snippet text html =
      let src = if is_empty text && not (is_empty html) then html_to_text tokenize html else text in
      capped (join_with 32 (fields_of src))
