-- ===== src/Mime/Sanitize.antt =====
-- internal/mail/mime/sanitize.go: a parsed document becomes a flat list of events. The parser
-- (golang.org/x/net/html) and what url.Parse checks after the scheme are parameters; text is ASCII
-- where it is lowered or trimmed.
pub mod Uncapped
pub mod Reference
pub mod Links
pub mod Safe
pub mod Visible
pub mod Brackets
use vayu_mail_mobile.Mime.Tags.{has_name, lookup_tag, drop_subtree, rich_block_tags, style_tags}
use vayu_mail_mobile.Base.{
  until, ℕ, ◌+◌, Bool, true, false, not, ◌&&◌, ◌||◌, Option, none, some, List, [], ◌∷◌, ◌++◌, map,
  Bytes, codes, eq_bytes, lower, trim_space, length, leb, ltb, ◌==◌, if◌then◌else◌,
}

-- html.Attribute and html.Node, as far as the walk reads them
pub record Attr : Type 0 where
  pub key : Bytes
  pub val : Bytes

mutual
  pub data Node : Type 0 where
    text_node : Bytes → Node
    element_node : Bytes → List Attr → Nodes → Node
    document_node : Nodes → Node
    other_node : Node

  pub data Nodes : Type 0 where
    last : Nodes
    sibling : Node → Nodes → Nodes

pub data RichEvent : Type 0 where
  rich_text : Bytes → RichEvent
  rich_block_open rich_block_close : Bytes → ℕ → RichEvent
  rich_link_open : Bytes → RichEvent
  rich_link_close : RichEvent
  rich_style_open rich_style_close : Bytes → RichEvent
  rich_break : RichEvent
  rich_image : Bytes → RichEvent

abbrev pub max_sanitize_input : ℕ
max_sanitize_input = 524288

abbrev pub max_rich_events : ℕ
max_rich_events = 20000

unfoldable pub attr_of : List Attr → Bytes → Bytes
attr_of [] key = []
attr_of (a ∷ attrs) key =
    let rest = attr_of attrs key in
    if eq_bytes (map lower a.key) (map lower key) then a.val else rest

unfoldable pub append_event : RichEvent → List RichEvent → List RichEvent
append_event ev out = if leb max_rich_events (length out) then out else out ++ ev ∷ []

-- url.Parse takes the scheme from what stands before the fragment
abbrev pub before_fragment : Bytes → Bytes
before_fragment s = until (λ c. c == b'#') s

abbrev pub is_letter : ℕ → Bool
is_letter c = (leb b'a' c && leb c b'z') || (leb b'A' c && leb c b'Z')

abbrev pub is_scheme_mark : ℕ → Bool
is_scheme_mark c = (leb b'0' c && leb c b'9') || c == b'+' || c == b'-' || c == b'.'

-- net/url, getScheme, at an index above zero, with the bytes read so far: the bytes before the
-- colon; none when a byte is not one of a scheme's, or when the text ends
unfoldable pub scheme_from : Bytes → Bytes → Bytes
scheme_from seen [] = []
scheme_from seen (c ∷ s) =
    let rest = scheme_from (seen ++ c ∷ []) s in
    if is_letter c || is_scheme_mark c then rest else if c == b':' then seen else []

-- net/url, getScheme: a scheme begins with a letter
unfoldable pub get_scheme : Bytes → Bytes
get_scheme [] = []
get_scheme (c ∷ s) = if is_letter c then scheme_from (c ∷ []) s else []

-- the Scheme of what url.Parse returns; `parses` says whether it returns no error
unfoldable pub url_scheme : (Bytes → Bool) → Bytes → Option Bytes
url_scheme parses raw =
    if parses raw then some (map lower (get_scheme (before_fragment raw))) else none

unfoldable pub allow_scheme : Bytes → Option Bytes → Bytes
allow_scheme raw none = []
allow_scheme raw (some scheme) =
    if eq_bytes (map lower scheme) (codes "https") || eq_bytes (map lower scheme) (codes "mailto")
    then raw
    else []

unfoldable pub safe_href : (Bytes → Bool) → Bytes → Bytes
safe_href parses raw = allow_scheme (trim_space raw) (url_scheme parses (trim_space raw))

abbrev pub Walk : Type 0
Walk = List RichEvent → ℕ → List RichEvent

-- the children of an element between an opening and a closing event
abbrev pub between : RichEvent → RichEvent → ℕ → Walk → List RichEvent → List RichEvent
between start stop depth recurse out = append_event stop (recurse (append_event start out) depth)

unfoldable pub emit_link : Bytes → Walk → Walk
emit_link [] recurse out depth = recurse out depth
emit_link (c ∷ s) recurse out depth =
    between (rich_link_open (c ∷ s)) rich_link_close depth recurse out

-- the table lookup_tag after the switch; an inline or an unknown element is unwrapped
unfoldable pub emit_block : Option Bytes → Walk → Walk
emit_block none recurse out depth = recurse out depth
emit_block (some tag) recurse out depth =
    between (rich_block_open tag depth) (rich_block_close tag depth) depth recurse out

-- the cases of the style elements and "br", and what follows the switch
unfoldable pub emit_styled : Bytes → Option Bytes → Walk → Walk
emit_styled name (some style) recurse out depth =
    between (rich_style_open style) (rich_style_close style) depth recurse out
emit_styled name none recurse out depth =
    if eq_bytes name (codes "br")
    then append_event rich_break out
    else emit_block (lookup_tag name rich_block_tags) recurse out depth

-- an element that is not dropped, under its lowered name
unfoldable pub emit_named : (Bytes → Bool) → Bytes → List Attr → Walk → Walk
emit_named parses name attrs recurse out depth =
    if eq_bytes name (codes "blockquote")
    then between (rich_block_open name (depth + 1)) (rich_block_close name (depth + 1)) (depth + 1)
        recurse out
    else if eq_bytes name (codes "a")
    then emit_link (safe_href parses (attr_of attrs (codes "href"))) recurse out depth
    else if eq_bytes name (codes "img")
    then append_event (rich_image (attr_of attrs (codes "alt"))) out
    else emit_styled name (lookup_tag name style_tags) recurse out depth

unfoldable mutual
  pub emit_node : (Bytes → Bool) → Node → Walk
  emit_node parses (text_node data_) out depth =
      if leb max_rich_events (length out) then out else append_event (rich_text data_) out
  emit_node parses (element_node data_ attrs children) out depth =
      if leb max_rich_events (length out)
      then out
      else if has_name (map lower data_) drop_subtree
      then out
      else emit_named parses (map lower data_) attrs (λ o d. recurse_children parses children o d)
          out depth
  emit_node parses (document_node children) out depth =
      if leb max_rich_events (length out) then out else recurse_children parses children out depth
  emit_node parses other_node out depth = out

  pub recurse_children : (Bytes → Bool) → Nodes → Walk
  recurse_children parses last out depth = out
  recurse_children parses (sibling n rest) out depth =
      recurse_children parses rest (emit_node parses n out depth) depth

unfoldable pub children_of : Node → Nodes
children_of (text_node data_) = last
children_of (element_node data_ attrs children) = children
children_of (document_node children) = children
children_of other_node = last

unfoldable pub emit_root : (Bytes → Bool) → Option Node → List RichEvent
emit_root parses none = []
emit_root parses (some root) = recurse_children parses (children_of root) [] 0

-- `nil` and an empty list are one to the callers, which test the length
unfoldable pub sanitize_html : (Bytes → Bool) → (Bytes → Option Node) → Bytes → List RichEvent
sanitize_html parses parse src =
    if length src == 0 || ltb max_sanitize_input (length src)
    then []
    else emit_root parses (parse src)
